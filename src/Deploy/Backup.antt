-- ===== src/Deploy/Backup.antt =====
-- crates/rustify-deploy/src/backup.rs: the tables of a backup's run, and the scripts it sends.
pub mod Cron
pub mod Upload
pub mod Retention
pub mod Run
pub mod Dispatch
pub mod Newer
pub mod Removed
pub mod Kept
pub mod Honest
pub mod Recorded
mod Tests
use rustify.Prelude.{
  ℕ, zero, suc, Bool, true, false, not, ◌&&◌, Option, none, some, List, [], ◌∷◌, ◌++◌, map, Str,
  str_eq, codes, ◌==◌, find, if◌then◌else◌, ◌>>=◌, unwrap_or,
}
use rustify.Prelude.Chars.{trim, trim_matches, is_alphanumeric, ascii_lower, split}
use rustify.Prelude.Int.{ℤ, pos, int_eq, int_decimal, parse_i64}
use rustify.Core.DbEngine.{DatabaseEngine, DatabaseCredentials}
use rustify.Db.Backups.{ScheduledBackup, BackupTables}
use rustify.Db.Backups.Executions.{BackupExecution, Executions}
use rustify.Jobs.Queue.{Jobs}
use rustify.Deploy.Host.{World, Session, Step, Reply, ExecOutput, output, broken, exec}

-- The columns of a database, its credentials decrypted (`none` where that fails).
pub record StandaloneDatabase : Type 0 where
  pub id : ℕ
  pub uuid : Str
  pub name : Str
  pub engine : Str
  pub credentials : Option DatabaseCredentials
  pub destination_id : ℕ
  pub environment_id : ℕ

pub record Destination : Type 0 where
  pub id : ℕ
  pub server_id : ℕ
  pub network : Str

pub record Server : Type 0 where
  pub id : ℕ
  pub uuid : Str

-- The team of an environment, by way of its project.
pub record EnvironmentTeam : Type 0 where
  pub environment_id : ℕ
  pub team_id : ℕ
  pub team_name : Str

-- backup_status_changed
pub record BackupEvent : Type 0 where
  pub backup : Str
  pub execution : Str
  pub status : Str

pub record Tables : Type 0 where
  pub schedules : BackupTables
  pub executions : Executions
  pub jobs : Jobs
  pub events : List BackupEvent
  pub databases : List StandaloneDatabase
  pub destinations : List Destination
  pub servers : List Server
  pub teams : List EnvironmentTeam

pub record Resolved : Type 0 where
  pub execution : BackupExecution
  pub backup : ScheduledBackup
  pub db : StandaloneDatabase
  pub engine : DatabaseEngine
  pub conn : Str  -- the server
  pub network : Str
  pub team_id : ℕ
  pub team_name : Str

abbrev pub cat : List Str → Str
cat [] = []
cat (s ∷ ss) = s ++ cat ss

abbrev pub quoted : Str → Str
quoted s = 34 ∷ (s ++ 34 ∷ [])

abbrev pub backup_root : Str
backup_root = codes "/data/rustify/backups/databases"

abbrev pub helper_image : Str
helper_image = codes "ghcr.io/coollabsio/coolify-helper:latest"

-- The first of the names between commas that is not blank.
abbrev first_named : List Str → Option Str
first_named [] = none
first_named (s ∷ ss) =
    let rest = first_named ss in if str_eq (trim s) [] then rest else some (trim s)

unfoldable pub first_database : ScheduledBackup → Option Str
unfolding trim split str_eq
first_database b = b.databases_to_backup >>= λ s. first_named (split 44 s)

-- The loop of `slug`; the flag says whether the last character written is a dash.
unfoldable pub slug_from : Bool → Str → Str
unfolding ascii_lower
slug_from prev_dash [] = []
slug_from prev_dash (c ∷ s) =
    let after_letter = slug_from false s in
    let after_dash = slug_from true s in
    if is_alphanumeric c
    then ascii_lower c ∷ after_letter
    else if prev_dash
    then after_dash
    else 45 ∷ after_dash

unfoldable pub slug : Str → Str
unfolding slug_from trim_matches
slug s = trim_matches (λ c. c == 45) (slug_from false s)

-- A script whose exit code is zero.
abbrev pub is_ok : Reply → Bool
is_ok (broken e) = false
is_ok (output o) = int_eq o.exit_code (pos 0)

module _ (W : World) where
  -- A non-zero exit fails the step.
  unfoldable pub exec_checked : Str → Str → Step Tables (Unit {0})
  exec_checked server script t =
      let (r, u) = exec W server script t in (if is_ok r then some tt else none, u)

  unfoldable pub exec_ignore : Str → Str → Session Tables → Session Tables
  exec_ignore server script t = (exec W server script t).1

  abbrev pub dump_error : Reply → Option Str
  dump_error (broken e) = some (codes "dump command errored: " ++ e)
  dump_error (output o) =
      if int_eq o.exit_code (pos 0)
      then none
      else some (
          cat (
            codes "dump failed (exit "
            ∷ int_decimal o.exit_code
            ∷ codes "): "
            ∷ trim o.stderr
            ∷ []))

  -- What to record of a dump that failed.
  unfoldable pub exec_dump : Str → Str → Session Tables → Option Str × Session Tables
  exec_dump server script t = let (r, u) = exec W server script t in (dump_error r, u)

  abbrev pub size_of : Reply → ℤ
  size_of (broken e) = pos 0
  size_of (output o) = unwrap_or (parse_i64 (trim o.stdout)) (pos 0)

  unfoldable pub measure : Str → Str → Session Tables → ℤ × Session Tables
  measure server location t =
      let (r, u) =
        exec W server (cat (codes "du -b " ∷ quoted location ∷ codes " | cut -f1" ∷ [])) t in
      (size_of r, u)
