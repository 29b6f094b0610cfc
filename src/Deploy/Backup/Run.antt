-- ===== src/Deploy/Backup/Run.antt =====
-- crates/rustify-deploy/src/backup.rs: one execution of a backup. `timestamp` is chrono's count of
-- seconds.
use rustify.Prelude.{
  ℕ, Bool, true, false, ◌&&◌, Option, none, some, [], ◌∷◌, ◌++◌, Str, str_eq, codes, if◌then◌else◌,
  ◌==◌, unwrap_or, find,
}
use rustify.Prelude.Int.{ℤ, pos, int_eq, int_decimal, decimal}
use rustify.Core.DbEngine.{DatabaseCredentials, parse, dump_command, dump_prefix, backup_extension}
use rustify.Db.Backups.Schedules.{get_by_id}
use rustify.Db.Backups.Executions.{ExecutionResult, get_by_uuid, finish}
use rustify.Deploy.Host.{World, Session, Step, ◌>>=◌, lift, query, statement, modify}
use rustify.Deploy.Backup.{
  Tables, Resolved, StandaloneDatabase, Destination, Server, EnvironmentTeam, cat, quoted,
  backup_root, first_database, slug, exec_checked, exec_ignore, exec_dump, measure,
}
use rustify.Deploy.Backup.Upload.{upload_to_s3}
use rustify.Deploy.Backup.Retention.{rm_file, apply_retention}

abbrev pub failed_result : Str → ExecutionResult
failed_result message = record {
  status = codes "failed";
  size = pos 0;
  filename = none;
  s3_uploaded = none;
  message = some message;
  local_storage_deleted = false;
}

abbrev pub success_result : Str → ℤ → Option Bool → Option Str → Bool → ExecutionResult
success_result location size s3_uploaded warning local_deleted = record {
  status = codes "success";
  size = size;
  filename = some location;
  s3_uploaded = s3_uploaded;
  message = warning;
  local_storage_deleted = local_deleted;
}

abbrev pub no_engine : Str
no_engine = codes "engine does not support backups"

abbrev pub empty_file : Str
empty_file = codes "local backup file is empty or was not created"

abbrev backup_dir : Resolved → Str
backup_dir r = cat (
    backup_root
    ∷ codes "/"
    ∷ slug r.team_name
    ∷ codes "-"
    ∷ decimal r.team_id
    ∷ codes "/"
    ∷ slug r.db.name
    ∷ codes "-"
    ∷ r.db.uuid
    ∷ [])

abbrev dump_file : Resolved → Str → Str → ℤ → Str → Str
dump_file r prefix label time ext = cat (
    backup_dir r
    ∷ codes "/"
    ∷ prefix
    ∷ codes "-dump-"
    ∷ label
    ∷ codes "-"
    ∷ int_decimal time
    ∷ codes "."
    ∷ ext
    ∷ [])

abbrev pub dump_script : Resolved → Str → Str → Str
dump_script r dump location = cat (
    codes "docker exec "
    ∷ r.db.uuid
    ∷ codes " sh -c "
    ∷ quoted dump
    ∷ codes " > "
    ∷ quoted location
    ∷ [])

module _ (W : World) where
  unfoldable pub resolve : Str → Step Tables Resolved
  resolve execution_uuid = do
    row ← query W (λ t. get_by_uuid execution_uuid t.executions)
    execution ← lift row
    row ← query W (λ t. get_by_id execution.scheduled_database_backup_id t.schedules)
    backup ← lift row
    row ← query W (λ t. find (λ (d : StandaloneDatabase). d.id == backup.database_id) t.databases)
    db ← lift row
    engine ← lift (parse db.engine)
    row ← query W (λ t. find (λ (d : Destination). d.id == db.destination_id) t.destinations)
    destination ← lift row
    row ← query W (λ t. find (λ (s : Server). s.id == destination.server_id) t.servers)
    server ← lift row
    _ ← query W (λ _. tt {0})
    row ←
        query W (λ t. find (λ (e : EnvironmentTeam). e.environment_id == db.environment_id) t.teams)
    team ← lift row
    lift (
        some (record {
          execution = execution;
          backup = backup;
          db = db;
          engine = engine;
          conn = server.uuid;
          network = destination.network;
          team_id = team.team_id;
          team_name = team.team_name;
        }))

  unfoldable pub send_status : Str → Str → Str → Step Tables (Unit {0})
  send_status backup execution status t = (
    some tt,
    modify W
        (λ s. record s {
          events =
              s.events ++ record { backup = backup; execution = execution; status = status } ∷ [];
        })
        t,
  )

  unfoldable pub record_result : Resolved → ExecutionResult → Step Tables (Unit {0})
  record_result r result =
      statement W
        λ _ now t. (tt {0}, record t { executions = finish r.execution.id result now t.executions })

  unfoldable pub fail : Resolved → Str → Step Tables (Unit {0})
  fail r message = do
    _ ← record_result r (failed_result message)
    send_status r.backup.uuid r.execution.uuid (codes "failed")

module _ (W : World) (decrypt : Str → Option Str) where
  -- The flag and the warning of an upload.
  abbrev pub uploaded : Option (Unit {0}) → Option Bool × Option Str
  uploaded (some _) = (some true, none)
  uploaded none = (some false, some (codes "S3 upload failed: " ++ W.error_text))

  unfoldable pub upload :
      Resolved → Str → Str → Session Tables → (Option Bool × Option Str) × Session Tables
  upload r execution_uuid location t =
      let (result, u) = upload_to_s3 W decrypt r execution_uuid location t in
      if r.backup.save_s3 then (uploaded result, u) else ((none, none), t)

  abbrev pub is_uploaded : Option Bool → Bool
  is_uploaded (some b) = b
  is_uploaded none = false

  unfoldable pub drop_local : Resolved → Str → Option Bool → Session Tables → Bool × Session Tables
  drop_local r location s3_uploaded t =
      if r.backup.disable_local_backup && is_uploaded s3_uploaded
      then (true, exec_ignore W r.conn (rm_file location) t)
      else (false, t)

  -- The outcome is on record before the retention rules are applied.
  unfoldable pub succeed : Resolved → Str → ExecutionResult → Step Tables (Unit {0})
  succeed r execution_uuid result = do
    _ ← record_result W r result
    _ ← apply_retention W decrypt r
    send_status W r.backup.uuid execution_uuid (codes "success")

  unfoldable pub keep_dump : Resolved → Str → Str → ℤ → Step Tables (Unit {0})
  keep_dump r execution_uuid location size t =
      let ((s3_uploaded, warning), u) = upload r execution_uuid location t in
      let (local_deleted, v) = drop_local r location s3_uploaded u in
      succeed r execution_uuid (success_result location size s3_uploaded warning local_deleted) v

  unfoldable pub measured :
      Resolved → Str → Str → ℤ × Session Tables → Option (Unit {0}) × Session Tables
  measured r execution_uuid location (size, t) =
      let empty = fail W r empty_file t in
      let kept = keep_dump r execution_uuid location size t in
      if int_eq size (pos 0) then empty else kept

  unfoldable pub dumped :
      Resolved → Str → Str → Option Str × Session Tables → Option (Unit {0}) × Session Tables
  dumped r execution_uuid location (some message, t) = fail W r message t
  dumped r execution_uuid location (none, t) =
      measured r execution_uuid location (measure W r.conn location t)

  unfoldable pub dump_to : Resolved → Str → Str → Str → Step Tables (Unit {0})
  dump_to r execution_uuid dump location = do
    _ ← exec_checked W r.conn (codes "mkdir -p " ++ backup_dir r)
    λ t. dumped r execution_uuid location (exec_dump W r.conn (dump_script r dump location) t)

  abbrev pub dump_or_fail : Resolved → Str → Option Str → Str → Step Tables (Unit {0})
  dump_or_fail r execution_uuid none location = fail W r no_engine
  dump_or_fail r execution_uuid (some dump) location = dump_to r execution_uuid dump location

  abbrev dump_with : Resolved → Str → ℤ → Str → DatabaseCredentials → Step Tables (Unit {0})
  dump_with r execution_uuid time prefix credentials =
      let single_db = unwrap_or (first_database r.backup) credentials.database in
      let label = if r.backup.dump_all then codes "all" else single_db in
      let ext = unwrap_or (backup_extension r.engine r.backup.dump_all) (codes "dmp") in
      dump_or_fail r execution_uuid (dump_command r.engine credentials single_db r.backup.dump_all)
        (dump_file r prefix label time ext)

  unfoldable pub run_prefixed : Resolved → Str → ℤ → Option Str → Step Tables (Unit {0})
  run_prefixed r execution_uuid time none = fail W r no_engine
  run_prefixed r execution_uuid time (some prefix) = do
    row ← query W (λ t. find (λ (d : StandaloneDatabase). str_eq d.uuid r.db.uuid) t.databases)
    db ← lift row
    credentials ← lift db.credentials
    dump_with r execution_uuid time prefix credentials

  unfoldable pub run_backup : (ℕ → ℤ) → Str → ℕ → Step Tables (Unit {0})
  run_backup timestamp execution_uuid now = do
    r ← resolve W execution_uuid
    _ ← send_status W r.backup.uuid execution_uuid (codes "running")
    run_prefixed r execution_uuid (timestamp now) (dump_prefix r.engine)
