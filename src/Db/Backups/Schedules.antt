-- ===== src/Db/Backups/Schedules.antt =====
-- crates/rustify-db/src/repos/backups.rs: the statements on the schedules of backups.
use rustify.Prelude.{
  ℕ, ◌+◌, Bool, not, Option, List, [], ◌∷◌, ◌++◌, Str, str_eq, ◌==◌, filter, find, count_if,
  unwrap_or,
}
use rustify.Prelude.Keyed.{update_where}
use rustify.Db.Backups.{
  ScheduledBackup, NewScheduledBackup, ScheduledBackupPatch, BackupTables, coalesce,
}

unfoldable pub create : NewScheduledBackup → Str → ℕ → BackupTables → ScheduledBackup × BackupTables
create new uuid now t =
    let row : ScheduledBackup = record {
      id = t.next_id;
      uuid = uuid;
      database_id = new.database_id;
      enabled = new.enabled;
      frequency = new.frequency;
      save_s3 = new.save_s3;
      s3_storage_id = new.s3_storage_id;
      databases_to_backup = new.databases_to_backup;
      dump_all = new.dump_all;
      disable_local_backup = new.disable_local_backup;
      retention_amount_local = new.retention_amount_local;
      retention_days_local = new.retention_days_local;
      retention_max_gb_local = new.retention_max_gb_local;
      retention_amount_s3 = new.retention_amount_s3;
      retention_days_s3 = new.retention_days_s3;
      retention_max_gb_s3 = new.retention_max_gb_s3;
      created_at = now;
      updated_at = now;
    } in
    (row, record t { backups = t.backups ++ row ∷ []; next_id = t.next_id + 1 })

unfoldable pub get_by_uuid : Str → BackupTables → Option ScheduledBackup
get_by_uuid uuid t = find (λ b. str_eq b.uuid uuid) t.backups

unfoldable pub get_by_id : ℕ → BackupTables → Option ScheduledBackup
get_by_id id t = find (λ b. b.id == id) t.backups

unfoldable pub list_by_database : ℕ → BackupTables → List ScheduledBackup
list_by_database id t = filter (λ b. b.database_id == id) t.backups

unfoldable pub list_enabled : BackupTables → List ScheduledBackup
list_enabled t = filter (λ b. b.enabled) t.backups

-- The storage alone can be cleared.
unfoldable pub patched : ScheduledBackupPatch → ℕ → ScheduledBackup → ScheduledBackup
patched p now b = record b {
  frequency = unwrap_or p.frequency b.frequency;
  enabled = unwrap_or p.enabled b.enabled;
  save_s3 = unwrap_or p.save_s3 b.save_s3;
  s3_storage_id = unwrap_or p.s3_storage_id b.s3_storage_id;
  databases_to_backup = coalesce p.databases_to_backup b.databases_to_backup;
  dump_all = unwrap_or p.dump_all b.dump_all;
  disable_local_backup = unwrap_or p.disable_local_backup b.disable_local_backup;
  retention_amount_local = unwrap_or p.retention_amount_local b.retention_amount_local;
  retention_days_local = unwrap_or p.retention_days_local b.retention_days_local;
  retention_max_gb_local = unwrap_or p.retention_max_gb_local b.retention_max_gb_local;
  retention_amount_s3 = unwrap_or p.retention_amount_s3 b.retention_amount_s3;
  retention_days_s3 = unwrap_or p.retention_days_s3 b.retention_days_s3;
  retention_max_gb_s3 = unwrap_or p.retention_max_gb_s3 b.retention_max_gb_s3;
  updated_at = now;
}

unfoldable pub update :
    Str → ScheduledBackupPatch → ℕ → BackupTables → Option ScheduledBackup × BackupTables
unfolding patched get_by_uuid
update uuid p now t =
    let t' : BackupTables = record t {
      backups = update_where (λ b. str_eq b.uuid uuid) (patched p now) t.backups;
    } in
    (get_by_uuid uuid t', t')

-- The executions of the schedule go with it (ON DELETE CASCADE), in their own table.
unfoldable pub delete : Str → BackupTables → Bool × BackupTables
delete uuid t = (
  count_if (λ b. str_eq b.uuid uuid) t.backups == 1,
  record t { backups = filter (λ b. not (str_eq b.uuid uuid)) t.backups },
)
