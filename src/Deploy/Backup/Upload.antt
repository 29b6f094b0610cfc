-- ===== src/Deploy/Backup/Upload.antt =====
-- crates/rustify-deploy/src/backup.rs: the copy of a dump on S3, made by a throwaway container.
use rustify.Prelude.{Option, [], ◌∷◌, ◌++◌, Str, codes, ◌==◌, unwrap_or}
use rustify.Prelude.Chars.{trim_end_by}
use rustify.Db.Backups.{S3Storage, S3Credentials}
use rustify.Db.Backups.Storages.{get_by_id, decrypt_credentials}
use rustify.Deploy.Host.{World, Step, ◌>>=◌, lift, query}
use rustify.Deploy.Backup.{Tables, Resolved, cat, quoted, helper_image, exec_checked, exec_ignore}

abbrev pub trim_slashes : Str → Str
trim_slashes = trim_end_by (λ c. c == 47)

abbrev pub docker_rm : Str → Str
docker_rm container = codes "docker rm -f " ++ container

abbrev pub mc_alias : Str → Str → S3Credentials → Str
mc_alias container endpoint creds = cat (
    codes "docker exec "
    ∷ container
    ∷ codes " mc alias set temporary "
    ∷ endpoint
    ∷ codes " "
    ∷ creds.key
    ∷ codes " "
    ∷ creds.secret
    ∷ [])

abbrev start_helper : Str → Str → Str → Str
start_helper network container location = cat (
    codes "docker run -d --network "
    ∷ network
    ∷ codes " --name "
    ∷ container
    ∷ codes " --rm -v "
    ∷ quoted (location ++ codes ":" ++ location ++ codes ":ro")
    ∷ codes " "
    ∷ helper_image
    ∷ [])

abbrev mc_cp : Str → Str → Str → Str
mc_cp container location dest =
    cat
      (codes "docker exec " ∷ container ∷ codes " mc cp " ∷ quoted location ∷ codes " " ∷ dest ∷ [])

module _ (W : World) (decrypt : Str → Option Str) where
  abbrev pub copy_steps : Resolved → Str → Str → Str → S3Credentials → Str → Step Tables (Unit {0})
  copy_steps r container location endpoint creds dest = do
    _ ← exec_checked W r.conn (start_helper r.network container location)
    _ ← exec_checked W r.conn (mc_alias container endpoint creds)
    exec_checked W r.conn (mc_cp container location dest)

  unfoldable pub upload_inner :
      Resolved → Str → Str → Str → S3Credentials → Str → Step Tables (Unit {0})
  upload_inner r container location endpoint creds dest t =
      copy_steps r container location endpoint creds dest
        (exec_ignore W r.conn (docker_rm container) t)

  -- The container goes however the upload ends.
  unfoldable pub upload_with :
      Resolved → Str → Str → S3Storage → S3Credentials → Step Tables (Unit {0})
  upload_with r execution_uuid location s3 creds t =
      let dest = cat (codes "temporary/" ∷ s3.bucket ∷ trim_slashes s3.path ∷ codes "/" ∷ []) in
      let container = codes "backup-of-" ++ execution_uuid in
      let (result, u) = upload_inner r container location (unwrap_or s3.endpoint []) creds dest t in
      (result, exec_ignore W r.conn (docker_rm container) u)

  unfoldable pub upload_to_s3 : Resolved → Str → Str → Step Tables (Unit {0})
  upload_to_s3 r execution_uuid location = do
    s3_id ← lift r.backup.s3_storage_id
    row ← query W (λ t. get_by_id s3_id t.schedules)
    s3 ← lift row
    found ← query W (λ t. decrypt_credentials decrypt s3_id t.schedules)
    creds ← lift found
    upload_with r execution_uuid location s3 creds
