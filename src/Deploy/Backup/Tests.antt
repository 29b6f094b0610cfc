-- ===== src/Deploy/Backup/Tests.antt =====
-- Two backups of a schedule that keeps one, and a run of a third.
use rustify.Prelude.{
  ℕ, ◌+◌, ◌^◌, Bool, true, false, Option, none, some, List, [], ◌∷◌, ◌++◌, Str, codes, ◌≡◌, ◌≢◌,
  refl, arith, Extends, In, inl, ◌⊎◌, sym, subst, str_eq, if◌then◌else◌, ◌==◌,
}
use rustify.Prelude.Int.{pos}
use rustify.Core.DbEngine.{DatabaseEngine, DatabaseCredentials, postgresql}
use rustify.Db.Backups.{ScheduledBackup, BackupTables}
use rustify.Db.Backups.Executions.{BackupExecution, Executions}
use rustify.Deploy.Host.{World, Session, Reply, output}
use rustify.Deploy.Backup.{
  Tables, Resolved, StandaloneDatabase, Destination, Server, EnvironmentTeam, slug, first_database,
}
use rustify.Deploy.Backup.Cron.{Clock, cron_is_due}
use rustify.Deploy.Backup.Retention.{rm_file, apply_retention}
use rustify.Deploy.Backup.Run.{run_backup}
use rustify.Deploy.Backup.Honest.{Dumped, WasSuccess}
use rustify.Deploy.Backup.Recorded.{run_backup-Dumped}
use rustify.Deploy.Backup.Removed.{Sent, apply_retention-Sent}

abbrev backup : ScheduledBackup
backup = record {
  id = 1;
  uuid = codes "b";
  database_id = 2;
  enabled = true;
  frequency = codes "0 2 * * *";
  save_s3 = false;
  s3_storage_id = none;
  databases_to_backup = some (codes " app , other ");
  dump_all = false;
  disable_local_backup = false;
  retention_amount_local = pos 1;
  retention_days_local = pos 0;
  retention_max_gb_local = pos 0;
  retention_amount_s3 = pos 0;
  retention_days_s3 = pos 0;
  retention_max_gb_s3 = pos 0;
  created_at = 0;
  updated_at = 0;
}

abbrev old : ℕ → Str → Str → BackupExecution
old n filename status = record {
  id = n;
  uuid = n ∷ [];
  scheduled_database_backup_id = 1;
  status = status;
  filename = some filename;
  size = pos 5;
  s3_uploaded = none;
  local_storage_deleted = false;
  s3_storage_deleted = false;
  message = none;
  started_at = n;
  finished_at = none;
  created_at = n;
}

abbrev executions : Executions
executions = record {
  rows =
      old 1 (codes "x") (codes "success")
      ∷ old 2 (codes "y") (codes "success")
      ∷ old 3 (codes "z") (codes "running")
      ∷ [];
  next_id = 4;
}

abbrev db : StandaloneDatabase
db = record {
  id = 2;
  uuid = codes "d";
  name = codes "My DB!";
  engine = codes "postgresql";
  credentials = some (record {
    username = codes "u";
    password = codes "p";
    database = codes "main";
    root_password = codes "r";
  });
  destination_id = 1;
  environment_id = 1;
}

abbrev resolved : Resolved
resolved = record {
  execution = old 3 (codes "z") (codes "running");
  backup = backup;
  db = db;
  engine = postgresql;
  conn = codes "h";
  network = codes "n";
  team_id = 7;
  team_name = codes "team";
}

abbrev world : World
world = record {
  reaches = λ _. true;
  now = λ n. 10 + n;
  uuid = λ n. n ∷ [];
  reply = λ _. output (record { exit_code = pos 0; stdout = codes "12"; stderr = [] });
  error_text = [];
}

abbrev session : Session Tables
session = record {
  statements = 0;
  trace = [];
  sleeps = [];
  tables = record {
    schedules = record { storages = []; backups = backup ∷ []; next_id = 2 };
    executions = executions;
    jobs = record { rows = []; next_id = 1 };
    events = [];
    databases = db ∷ [];
    destinations = record { id = 1; server_id = 3; network = codes "n" } ∷ [];
    servers = record { id = 3; uuid = codes "h" } ∷ [];
    teams = record { environment_id = 1; team_id = 7; team_name = codes "team" } ∷ [];
  };
}

apply_retention-Sent_example :
    Extends (Sent executions resolved) [] (apply_retention world some resolved session).1.trace
apply_retention-Sent_example = apply_retention-Sent world some resolved session (ground arith)

abbrev ran : Option (Unit {0}) × Session Tables
ran = run_backup world some (λ n. pos n) (3 ∷ []) 9 session

removes_first :
    (apply_retention world some resolved session).1.trace ≡ (codes "h", rm_file (codes "x")) ∷ []
unfolding apply_retention rustify.Deploy.Host.◌>>=◌ rustify.Deploy.Backup.Retention.retain_local
    rustify.Deploy.Host.query rustify.Deploy.Host.lift rustify.Core.Retention.select_for_deletion
    rustify.Db.Backups.Executions.successful_with_local rustify.Deploy.Backup.Retention.rm_local
    rustify.Db.Backups.Executions.filenames_for rustify.Deploy.Backup.Retention.write
    rustify.Deploy.Host.statement rustify.Deploy.Backup.exec_ignore rustify.Deploy.Host.exec
removes_first = refl

slug_collapses : slug (codes "My Team!") ≡ codes "my-team"
unfolding slug
slug_collapses = refl

names_app : first_database backup ≡ some (codes "app")
unfolding first_database
names_app = refl

abbrev at : ℕ → ℕ → ℕ → Clock
at minute hour weekday = record {
  minute = minute;
  hour = hour;
  day = 3;
  month = 7;
  weekday = weekday;
}

daily : cron_is_due backup.frequency (at 0 2 5) ≡ true
unfolding cron_is_due
daily = refl

steps : cron_is_due (codes "*/15 * * * *") (at 30 0 5) ≡ true
unfolding cron_is_due
steps = refl

sunday : cron_is_due (codes "0 0 * * 7") (at 0 0 0) ≡ true
unfolding cron_is_due
sunday = refl

bogus_step : cron_is_due (codes "*/abc * * * *") (at 31 0 5) ≡ true
unfolding cron_is_due
bogus_step = refl

abbrev new : BackupExecution
new = record {
  id = 3;
  uuid = 3 ∷ [];
  scheduled_database_backup_id = 1;
  status = codes "success";
  filename = some (codes "/data/rustify/backups/databases/team-7/my-db-d/pg-dump-app-9.dmp");
  size = pos 12;
  s3_uploaded = none;
  local_storage_deleted = false;
  s3_storage_deleted = false;
  message = none;
  started_at = 3;
  finished_at = some 18;
  created_at = 3;
}

-- The two older backups are pruned, and the new one stands.
left : ran.1.tables.executions.rows ≡ new ∷ []
unfolding run_backup rustify.Deploy.Host.◌>>=◌ rustify.Deploy.Backup.Run.resolve
    rustify.Deploy.Host.query rustify.Deploy.Host.lift rustify.Db.Backups.Executions.get_by_uuid
    rustify.Prelude.str_eq rustify.Db.Backups.Schedules.get_by_id rustify.Core.DbEngine.parse
    rustify.Deploy.Backup.Run.send_status rustify.Deploy.Backup.Run.run_prefixed
    rustify.Core.DbEngine.dump_prefix rustify.Deploy.Host.modify rustify.Core.DbEngine.dump_command
    rustify.Deploy.Backup.Run.dump_to rustify.Deploy.Backup.exec_checked rustify.Deploy.Host.exec
    rustify.Deploy.Backup.Run.dumped rustify.Core.DbEngine.backup_extension
    rustify.Core.Retention.amount_marks rustify.Core.Retention.select_for_deletion
    rustify.Core.Retention.select_sorted rustify.Core.Retention.sorted_newest
    rustify.Db.Backups.Executions.filenames_for rustify.Db.Backups.Executions.finish
    rustify.Db.Backups.Executions.finished rustify.Db.Backups.Executions.mark_local_deleted
    rustify.Db.Backups.Executions.prune_orphans rustify.Db.Backups.Executions.successful_meta
    rustify.Db.Backups.Executions.successful_with_local apply_retention
    rustify.Deploy.Backup.Retention.retain_local rustify.Deploy.Backup.Retention.rm_local
    rustify.Deploy.Backup.Retention.write rustify.Deploy.Backup.Run.drop_local
    rustify.Deploy.Backup.Run.keep_dump rustify.Deploy.Backup.Run.measured
    rustify.Deploy.Backup.Run.record_result rustify.Deploy.Backup.Run.succeed
    rustify.Deploy.Backup.Run.upload rustify.Deploy.Backup.exec_dump
    rustify.Deploy.Backup.exec_ignore first_database rustify.Deploy.Backup.measure slug
    rustify.Deploy.Backup.slug_from rustify.Deploy.Host.continue rustify.Deploy.Host.statement
    rustify.Prelude.Chars.ascii_lower rustify.Prelude.Chars.split rustify.Prelude.Chars.trim
    rustify.Prelude.Chars.trim_matches rustify.Prelude.Int.decimal rustify.Prelude.Int.int_decimal
    rustify.Prelude.Int.parse_int rustify.Prelude.Sort.sort_by
left = refl

run_backup-Dumped_example : WasSuccess world executions new ⊎ Dumped world ran.1.trace new
run_backup-Dumped_example =
    run_backup-Dumped world some (λ n. pos n) (3 ∷ []) 9 session new
      (subst (In new) (sym left) (inl refl)) (unfold str_eq in refl)
