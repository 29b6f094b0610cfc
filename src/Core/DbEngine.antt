-- ===== src/Core/DbEngine.antt =====
-- crates/rustify-core/src/db_engine.rs and backup_cmd.rs: the database engines, what their
-- containers are given, and the commands that dump them. A random password is an argument.
mod Tests
use rustify.Prelude.{
  ℕ, Bool, true, false, Option, none, some, List, [], ◌∷◌, ◌++◌, Str, str_eq, codes, if◌then◌else◌,
}

pub data DatabaseEngine : Type 0 where
  postgresql mysql mariadb mongodb redis keydb dragonfly clickhouse : DatabaseEngine

abbrev pub all_engines : List DatabaseEngine
all_engines = postgresql ∷ mysql ∷ mariadb ∷ mongodb ∷ redis ∷ keydb ∷ dragonfly ∷ clickhouse ∷ []

pub record EngineDescriptor : Type 0 where
  pub default_image : Str
  pub internal_port : ℕ
  pub tls_port : ℕ
  pub volume_mounts : List (Str × Str)
  pub type_slug : Str

pub record DatabaseCredentials : Type 0 where
  pub username : Str
  pub password : Str
  pub database : Str
  pub root_password : Str

unfoldable pub as_str : DatabaseEngine → Str
as_str postgresql = codes "postgresql"
as_str mysql = codes "mysql"
as_str mariadb = codes "mariadb"
as_str mongodb = codes "mongodb"
as_str redis = codes "redis"
as_str keydb = codes "keydb"
as_str dragonfly = codes "dragonfly"
as_str clickhouse = codes "clickhouse"

unfoldable pub parse : Str → Option DatabaseEngine
unfolding str_eq
parse s =
    if str_eq s (codes "postgresql")
    then some postgresql
    else if str_eq s (codes "mysql")
    then some mysql
    else if str_eq s (codes "mariadb")
    then some mariadb
    else if str_eq s (codes "mongodb")
    then some mongodb
    else if str_eq s (codes "redis")
    then some redis
    else if str_eq s (codes "keydb")
    then some keydb
    else if str_eq s (codes "dragonfly")
    then some dragonfly
    else if str_eq s (codes "clickhouse")
    then some clickhouse
    else none

abbrev described : Str → ℕ → ℕ → List (Str × Str) → Str → EngineDescriptor
described image port tls mounts slug = record {
  default_image = image;
  internal_port = port;
  tls_port = tls;
  volume_mounts = mounts;
  type_slug = slug;
}

unfoldable pub descriptor : DatabaseEngine → EngineDescriptor
descriptor postgresql =
    described (codes "postgres:16-alpine") 5432 5432
      ((codes "postgres-data", codes "/var/lib/postgresql/data") ∷ [])
      (codes "standalone-postgresql")
descriptor mysql =
    described (codes "mysql:8") 3306 3306 ((codes "mysql-data", codes "/var/lib/mysql") ∷ [])
      (codes "standalone-mysql")
descriptor mariadb =
    described (codes "mariadb:11") 3306 3306 ((codes "mariadb-data", codes "/var/lib/mysql") ∷ [])
      (codes "standalone-mariadb")
descriptor mongodb =
    described (codes "mongo:7") 27017 27017
      ((codes "mongodb-configdb", codes "/data/configdb")
        ∷ (codes "mongodb-db", codes "/data/db")
        ∷ [])
      (codes "standalone-mongodb")
descriptor redis =
    described (codes "redis:7.2") 6379 6380 ((codes "redis-data", codes "/data") ∷ [])
      (codes "standalone-redis")
descriptor keydb =
    described (codes "eqalpha/keydb:latest") 6379 6380 ((codes "keydb-data", codes "/data") ∷ [])
      (codes "standalone-keydb")
descriptor dragonfly =
    described (codes "docker.dragonflydb.io/dragonflydb/dragonfly") 6379 6380
      ((codes "dragonfly-data", codes "/data") ∷ []) (codes "standalone-dragonfly")
descriptor clickhouse =
    described (codes "clickhouse/clickhouse-server:25.11") 9000 9000
      ((codes "clickhouse-data", codes "/var/lib/clickhouse") ∷ []) (codes "standalone-clickhouse")

abbrev default_names : DatabaseEngine → Str × Str
default_names postgresql = (codes "postgres", codes "postgres")
default_names mysql = (codes "mysql", codes "default")
default_names mariadb = (codes "mariadb", codes "default")
default_names mongodb = (codes "root", codes "default")
default_names clickhouse = (codes "default", codes "default")
default_names redis = (codes "default", [])
default_names keydb = ([], [])
default_names dragonfly = ([], [])

-- The two passwords are what `gen_password` drew.
unfoldable pub default_credentials : Str → Str → DatabaseEngine → DatabaseCredentials
default_credentials password root_password e = record {
  username = (default_names e).0;
  password = password;
  database = (default_names e).1;
  root_password = root_password;
}

unfoldable pub credential_env : DatabaseEngine → DatabaseCredentials → List (Str × Str)
credential_env postgresql c =
    (codes "POSTGRES_USER", c.username)
    ∷ (codes "POSTGRES_PASSWORD", c.password)
    ∷ (codes "POSTGRES_DB", c.database)
    ∷ (codes "PGUSER", c.username)
    ∷ []
credential_env mysql c =
    (codes "MYSQL_ROOT_PASSWORD", c.root_password)
    ∷ (codes "MYSQL_DATABASE", c.database)
    ∷ (codes "MYSQL_USER", c.username)
    ∷ (codes "MYSQL_PASSWORD", c.password)
    ∷ []
credential_env mariadb c =
    (codes "MARIADB_ROOT_PASSWORD", c.root_password)
    ∷ (codes "MARIADB_DATABASE", c.database)
    ∷ (codes "MARIADB_USER", c.username)
    ∷ (codes "MARIADB_PASSWORD", c.password)
    ∷ []
credential_env mongodb c =
    (codes "MONGO_INITDB_ROOT_USERNAME", c.username)
    ∷ (codes "MONGO_INITDB_ROOT_PASSWORD", c.password)
    ∷ (codes "MONGO_INITDB_DATABASE", c.database)
    ∷ []
credential_env clickhouse c =
    (codes "CLICKHOUSE_USER", c.username)
    ∷ (codes "CLICKHOUSE_PASSWORD", c.password)
    ∷ (codes "CLICKHOUSE_DB", c.database)
    ∷ []
credential_env redis c =
    (codes "REDIS_PASSWORD", c.password) ∷ (codes "REDIS_USERNAME", c.username) ∷ []
credential_env keydb c = (codes "REDIS_PASSWORD", c.password) ∷ []
credential_env dragonfly c = (codes "REDIS_PASSWORD", c.password) ∷ []

unfoldable pub command : DatabaseEngine → DatabaseCredentials → Option Str
command redis c =
    some (codes "redis-server --requirepass " ++ (c.password ++ codes " --appendonly yes"))
command keydb c =
    some (codes "keydb-server --requirepass " ++ (c.password ++ codes " --appendonly yes"))
command dragonfly c = some (codes "dragonfly --requirepass " ++ c.password)
command _ c = none

unfoldable pub healthcheck_test : DatabaseEngine → DatabaseCredentials → List Str
healthcheck_test postgresql c =
    codes "CMD"
    ∷ codes "psql"
    ∷ codes "-U"
    ∷ c.username
    ∷ codes "-d"
    ∷ c.database
    ∷ codes "-c"
    ∷ codes "SELECT 1"
    ∷ []
healthcheck_test mysql c =
    codes "CMD"
    ∷ codes "mysqladmin"
    ∷ codes "ping"
    ∷ codes "-h"
    ∷ codes "localhost"
    ∷ codes "-u"
    ∷ codes "root"
    ∷ (codes "-p" ++ c.root_password)
    ∷ []
healthcheck_test mariadb c =
    codes "CMD" ∷ codes "healthcheck.sh" ∷ codes "--connect" ∷ codes "--innodb_initialized" ∷ []
healthcheck_test mongodb c = codes "CMD" ∷ codes "echo" ∷ codes "ok" ∷ []
healthcheck_test clickhouse c =
    codes "CMD"
    ∷ codes "clickhouse-client"
    ∷ codes "--user"
    ∷ c.username
    ∷ codes "--password"
    ∷ c.password
    ∷ codes "--query"
    ∷ codes "SELECT 1"
    ∷ []
healthcheck_test redis c = codes "CMD-SHELL" ∷ codes "redis-cli" ∷ codes "ping" ∷ []
healthcheck_test keydb c = codes "CMD-SHELL" ∷ codes "redis-cli" ∷ codes "ping" ∷ []
healthcheck_test dragonfly c =
    codes "CMD" ∷ codes "redis-cli" ∷ codes "-a" ∷ c.password ∷ codes "ping" ∷ []

unfoldable pub mongo_uri : DatabaseCredentials → Str
mongo_uri c =
    codes "mongodb://" ++ c.username ++ codes ":" ++ c.password ++ codes "@127.0.0.1:27017"

unfoldable pub dump_command : DatabaseEngine → DatabaseCredentials → Str → Bool → Option Str
unfolding mongo_uri
dump_command postgresql c db true =
    some (
      codes "PGPASSWORD=" ++ c.password ++ codes " pg_dumpall -U " ++ c.username ++ codes " | gzip")
dump_command postgresql c db false = some (
    codes "PGPASSWORD="
    ++ c.password
    ++ codes " pg_dump --format=custom --no-acl --no-owner -U "
    ++ c.username
    ++ codes " "
    ++ db)
dump_command mysql c db true = some (
    codes "mysqldump -u root -p"
    ++ c.password
    ++ codes " --all-databases --single-transaction --quick --lock-tables=false --compress | gzip")
dump_command mysql c db false = some (codes "mysqldump -u root -p" ++ c.password ++ codes " " ++ db)
dump_command mariadb c db true =
    some (codes "mariadb-dump -u root -p" ++ c.password ++ codes " --all-databases --compress")
dump_command mariadb c db false =
    some (codes "mariadb-dump -u root -p" ++ c.password ++ codes " " ++ db)
dump_command mongodb c db true = some (
    codes "mongodump --authenticationDatabase=admin --uri="
    ++ mongo_uri c
    ++ codes " --gzip --archive")
dump_command mongodb c db false = some (
    codes "mongodump --authenticationDatabase=admin --uri="
    ++ mongo_uri c
    ++ codes " --db "
    ++ db
    ++ codes " --gzip --archive")
dump_command redis c db dump_all = none
dump_command keydb c db dump_all = none
dump_command dragonfly c db dump_all = none
dump_command clickhouse c db dump_all = none

abbrev gz_or_dmp : Bool → Str
gz_or_dmp dump_all = if dump_all then codes "gz" else codes "dmp"

unfoldable pub backup_extension : DatabaseEngine → Bool → Option Str
backup_extension mongodb dump_all = some (codes "tar.gz")
backup_extension postgresql dump_all = some (gz_or_dmp dump_all)
backup_extension mysql dump_all = some (gz_or_dmp dump_all)
backup_extension mariadb dump_all = some (gz_or_dmp dump_all)
backup_extension _ dump_all = none

unfoldable pub dump_prefix : DatabaseEngine → Option Str
dump_prefix postgresql = some (codes "pg")
dump_prefix mysql = some (codes "mysql")
dump_prefix mariadb = some (codes "mariadb")
dump_prefix mongodb = some (codes "mongo")
dump_prefix _ = none
