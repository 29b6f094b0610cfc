-- ===== src/Deploy/Backup/Dispatch.antt =====
-- crates/rustify-deploy/src/backup.rs: the sweep that opens the backups that are due. `clock` is
-- what chrono reads off an instant.
use rustify.Prelude.{
  ℕ, ◌+◌, ◌*◌, ◌^◌, Bool, true, false, not, none, some, List, [], ◌∷◌, Str, codes, if◌then◌else◌,
}
use rustify.Db.Backups.{ScheduledBackup}
use rustify.Db.Backups.Schedules.{list_enabled}
use rustify.Db.Backups.Executions.{create_running, exists_in_current_minute}
use rustify.Jobs.Queue.{enqueue}
use rustify.Deploy.Host.{World, Step, ◌>>=◌, lift, query, statement}
use rustify.Deploy.Backup.{Tables}
use rustify.Deploy.Backup.Cron.{Clock, cron_is_due}

abbrev pub minute : ℕ
minute = 60 * 10 ^ 9

abbrev pub database_backup_kind : Str
database_backup_kind = codes "database_backup"

module _ (W : World) (clock : ℕ → Clock) (payload : Str → Str) where
  unfoldable pub insert_execution : ScheduledBackup → Step Tables Str
  insert_execution backup = statement W λ uuid now t.
      let (e, s) = create_running backup.id uuid now t.executions in
      (e.uuid, record t { executions = s })

  unfoldable pub insert_job : Str → Step Tables (Unit {0})
  insert_job execution = statement W λ _ now t. (
    tt {0},
    record t { jobs = (enqueue database_backup_kind (payload execution) none now t.jobs).1 },
  )

  -- The test for an execution of this minute, by the database's clock.
  unfoldable pub exists_now : ScheduledBackup → Step Tables Bool
  exists_now backup =
      statement W λ _ now t. (exists_in_current_minute minute backup.id now t.executions, t)

  abbrev pub open_backup : ScheduledBackup → Bool → Step Tables ℕ
  open_backup backup true = lift (some 0)
  open_backup backup false = do
    execution ← insert_execution backup
    _ ← insert_job execution
    lift (some 1)

  -- How many executions this opens, none or one.
  unfoldable pub dispatch_backup : ℕ → ScheduledBackup → Step Tables ℕ
  dispatch_backup now backup =
      let checked = exists_now backup >>= open_backup backup in
      if not (cron_is_due backup.frequency (clock now)) then lift (some 0) else checked

  unfoldable pub dispatch_all : ℕ → List ScheduledBackup → ℕ → Step Tables ℕ
  dispatch_all now [] dispatched = lift (some dispatched)
  dispatch_all now (backup ∷ backups) dispatched = do
    n ← dispatch_backup now backup
    dispatch_all now backups (dispatched + n)

  unfoldable pub dispatch_due_backups : ℕ → Step Tables ℕ
  dispatch_due_backups now = do
    backups ← query W (λ t. list_enabled t.schedules)
    dispatch_all now backups 0
