-- ===== src/Db/Backups.antt =====
-- crates/rustify-db/src/repos/backups.rs: S3 storages and the schedules of backups. `encrypt` and
-- `decrypt` are crates/rustify-core/src/crypto.rs. Rows stand in the order of their ids.
pub mod Storages
pub mod Schedules
pub mod Executions
use rustify.Prelude.{
  ℕ, ◌+◌, Bool, true, false, not, ◌&&◌, Option, none, some, List, [], ◌∷◌, ◌++◌, Str, str_eq, ◌==◌,
  if◌then◌else◌, filter, find, count_if, map_option, unwrap_or, ◌>>=◌, is_some,
}
use rustify.Prelude.Chars.{trim}
use rustify.Prelude.Int.{ℤ}
use rustify.Prelude.Keyed.{update_where}

pub record S3Storage : Type 0 where
  pub id : ℕ
  pub uuid : Str
  pub team_id : ℕ
  pub name : Str
  pub region : Str
  pub endpoint : Option Str
  pub bucket : Str
  pub key_enc : Str
  pub secret_enc : Str
  pub path : Str
  pub use_path_style : Bool
  pub is_usable : Bool
  pub created_at : ℕ
  pub updated_at : ℕ

pub record S3Credentials : Type 0 where
  pub key : Str
  pub secret : Str

pub record NewS3Storage : Type 0 where
  pub team_id : ℕ
  pub name : Str
  pub region : Str
  pub endpoint : Option Str
  pub bucket : Str
  pub key : Str
  pub secret : Str
  pub path : Str
  pub use_path_style : Bool

pub record S3StoragePatch : Type 0 where
  pub name : Option Str
  pub region : Option Str
  pub endpoint : Option Str
  pub bucket : Option Str
  pub key : Option Str
  pub secret : Option Str
  pub path : Option Str
  pub use_path_style : Option Bool

pub record ScheduledBackup : Type 0 where
  pub id : ℕ
  pub uuid : Str
  pub database_id : ℕ
  pub enabled : Bool
  pub frequency : Str
  pub save_s3 : Bool
  pub s3_storage_id : Option ℕ
  pub databases_to_backup : Option Str
  pub dump_all : Bool
  pub disable_local_backup : Bool
  pub retention_amount_local : ℤ
  pub retention_days_local : ℤ
  pub retention_max_gb_local : ℤ
  pub retention_amount_s3 : ℤ
  pub retention_days_s3 : ℤ
  pub retention_max_gb_s3 : ℤ
  pub created_at : ℕ
  pub updated_at : ℕ

pub record NewScheduledBackup : Type 0 where
  pub database_id : ℕ
  pub frequency : Str
  pub enabled : Bool
  pub save_s3 : Bool
  pub s3_storage_id : Option ℕ
  pub databases_to_backup : Option Str
  pub dump_all : Bool
  pub disable_local_backup : Bool
  pub retention_amount_local : ℤ
  pub retention_days_local : ℤ
  pub retention_max_gb_local : ℤ
  pub retention_amount_s3 : ℤ
  pub retention_days_s3 : ℤ
  pub retention_max_gb_s3 : ℤ

pub record ScheduledBackupPatch : Type 0 where
  pub frequency : Option Str
  pub enabled : Option Bool
  pub save_s3 : Option Bool
  pub s3_storage_id : Option (Option ℕ)
  pub databases_to_backup : Option Str
  pub dump_all : Option Bool
  pub disable_local_backup : Option Bool
  pub retention_amount_local : Option ℤ
  pub retention_days_local : Option ℤ
  pub retention_max_gb_local : Option ℤ
  pub retention_amount_s3 : Option ℤ
  pub retention_days_s3 : Option ℤ
  pub retention_max_gb_s3 : Option ℤ

pub record BackupTables : Type 0 where
  pub storages : List S3Storage
  pub backups : List ScheduledBackup
  pub next_id : ℕ

abbrev pub coalesce : {A : Type 0} → Option A → Option A → Option A
coalesce none b = b
coalesce (some a) b = some a
