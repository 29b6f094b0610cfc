-- ===== src/Core/DbEngine/Tests.antt =====
-- Names of engines.
use rustify.Prelude.{some, ◌≡◌, refl}
use rustify.Core.DbEngine.{
  DatabaseEngine, postgresql, mysql, mariadb, mongodb, redis, keydb, dragonfly, clickhouse, parse,
  as_str,
}

-- An engine is read back from its name.
parse-as_str : (e : DatabaseEngine) → parse (as_str e) ≡ some e
unfolding parse as_str
parse-as_str postgresql = refl
parse-as_str mysql = refl
parse-as_str mariadb = refl
parse-as_str mongodb = refl
parse-as_str redis = refl
parse-as_str keydb = refl
parse-as_str dragonfly = refl
parse-as_str clickhouse = refl
