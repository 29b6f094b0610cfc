-- ===== src/Deploy/Backup/Retention.antt =====
-- crates/rustify-deploy/src/backup.rs: the copies that the retention rules remove after a backup.
use rustify.Prelude.{ℕ, Bool, true, Option, some, List, [], ◌∷◌, ◌++◌, Str, codes, unwrap_or}
use rustify.Prelude.Chars.{split}
use rustify.Prelude.Int.{pos_part}
use rustify.Core.Retention.{select_for_deletion}
use rustify.Db.Backups.{S3Storage, S3Credentials}
use rustify.Db.Backups.Storages.{get_by_id, decrypt_credentials}
use rustify.Db.Backups.Executions.{
  Executions, successful_with_local, successful_with_s3, filenames_for, mark_local_deleted,
  mark_s3_deleted, prune_orphans,
}
use rustify.Deploy.Host.{World, Step, ◌>>=◌, lift, query, statement}
use rustify.Deploy.Backup.{Tables, Resolved, cat, quoted, helper_image, exec_checked, exec_ignore}
use rustify.Deploy.Backup.Upload.{trim_slashes, docker_rm, mc_alias}

-- The last piece between slashes.
abbrev last_of : Str → List Str → Str
last_of s [] = s
last_of s (p ∷ ps) = last_of p ps

unfoldable pub base_name : Str → Str
unfolding split
base_name filename = last_of filename (split 47 filename)

abbrev start_retention : Str → Str → Str
start_retention network container = cat (
    codes "docker run -d --network "
    ∷ network
    ∷ codes " --name "
    ∷ container
    ∷ codes " --rm --entrypoint sleep "
    ∷ helper_image
    ∷ codes " 300"
    ∷ [])

abbrev mc_rm : Str → Str → Str → Str
mc_rm container dest filename = cat (
    codes "docker exec " ∷ container ∷ codes " mc rm " ∷ dest ∷ codes "/" ∷ base_name filename ∷ [])

abbrev pub rm_file : Str → Str
rm_file filename = codes "rm -f " ++ quoted filename

module _ (W : World) where
  -- A statement on the executions.
  unfoldable pub write : (Executions → Executions) → Step Tables (Unit {0})
  write f = statement W λ _ now t. (tt {0}, record t { executions = f t.executions })

  -- An empty selection sends no statement.
  abbrev pub files_of : List ℕ → Step Tables (List (ℕ × Str))
  files_of [] = lift (some [])
  files_of (i ∷ ids) = query W (λ t. filenames_for (i ∷ ids) t.executions)

  abbrev pub mark : (List ℕ → Executions → Executions) → List ℕ → Step Tables (Unit {0})
  mark flag [] = lift (some tt)
  mark flag (i ∷ ids) = write (flag (i ∷ ids))

  unfoldable pub rm_local : Str → List (ℕ × Str) → Step Tables (Unit {0})
  rm_local conn [] t = (some tt, t)
  rm_local conn ((id, filename) ∷ files) t =
      rm_local conn files (exec_ignore W conn (rm_file filename) t)

  unfoldable pub rm_objects : Str → Str → Str → List (ℕ × Str) → Step Tables (Unit {0})
  rm_objects conn container dest [] t = (some tt, t)
  rm_objects conn container dest ((id, filename) ∷ files) t =
      rm_objects conn container dest files (exec_ignore W conn (mc_rm container dest filename) t)

  -- A selection that has no value is a panic, and ends the job as an error does.
  unfoldable pub retain_local : Resolved → Step Tables (Unit {0})
  retain_local r = do
    local ← query W (λ t. successful_with_local r.backup.id t.executions)
    local_del ← lift (
        select_for_deletion local (pos_part r.backup.retention_amount_local)
          (pos_part r.backup.retention_days_local) (pos_part r.backup.retention_max_gb_local))
    files ← files_of local_del
    _ ← rm_local r.conn files
    mark mark_local_deleted local_del

  abbrev pub rm_steps :
      Resolved → Str → Str → S3Storage → S3Credentials → List (ℕ × Str) → Step Tables (Unit {0})
  rm_steps r container dest s3 creds files = do
    _ ← exec_checked W r.conn (start_retention r.network container)
    _ ← exec_checked W r.conn (mc_alias container (unwrap_or s3.endpoint []) creds)
    rm_objects r.conn container dest files

  unfoldable pub rm_with :
      Resolved → S3Storage → S3Credentials → List (ℕ × Str) → Step Tables (Unit {0})
  rm_with r s3 creds files t =
      let dest = cat (codes "temporary/" ∷ s3.bucket ∷ trim_slashes s3.path ∷ []) in
      let container = codes "backup-retention-" ++ r.execution.uuid in
      let (result, u) =
        rm_steps r container dest s3 creds files (exec_ignore W r.conn (docker_rm container) t) in
      (result, exec_ignore W r.conn (docker_rm container) u)

module _ (W : World) (decrypt : Str → Option Str) where
  unfoldable pub remove_from_s3 : Resolved → ℕ → List (ℕ × Str) → Step Tables (Unit {0})
  remove_from_s3 r s3_id files = do
    row ← query W (λ t. get_by_id s3_id t.schedules)
    s3 ← lift row
    found ← query W (λ t. decrypt_credentials decrypt s3_id t.schedules)
    creds ← lift found
    rm_with W r s3 creds files

  abbrev pub remove_some : Resolved → ℕ → List (ℕ × Str) → Step Tables (Unit {0})
  remove_some r s3_id [] = lift (some tt)
  remove_some r s3_id (f ∷ files) = remove_from_s3 r s3_id (f ∷ files)

  unfoldable pub retain_s3 : Resolved → ℕ → Step Tables (Unit {0})
  retain_s3 r s3_id = do
    s3 ← query W (λ t. successful_with_s3 r.backup.id t.executions)
    s3_del ← lift (
        select_for_deletion s3 (pos_part r.backup.retention_amount_s3)
          (pos_part r.backup.retention_days_s3) (pos_part r.backup.retention_max_gb_s3))
    files ← files_of W s3_del
    _ ← remove_some r s3_id files
    mark W mark_s3_deleted s3_del

  abbrev pub retain_saved : Resolved → Bool → Option ℕ → Step Tables (Unit {0})
  retain_saved r true (some s3_id) = retain_s3 r s3_id
  retain_saved r _ _ = lift (some tt)

  unfoldable pub apply_retention : Resolved → Step Tables (Unit {0})
  apply_retention r = do
    _ ← retain_local W r
    _ ← retain_saved r r.backup.save_s3 r.backup.s3_storage_id
    write W (prune_orphans r.backup.id)
