-- ===== src/Db/Backups/Storages.antt =====
-- crates/rustify-db/src/repos/backups.rs: the statements on S3 storages.
use rustify.Prelude.{
  ℕ, ◌+◌, Bool, false, not, Option, none, some, List, [], ◌∷◌, ◌++◌, Str, str_eq, ◌==◌, filter,
  find, count_if, map_option, unwrap_or, ◌>>=◌,
}
use rustify.Prelude.Chars.{trim}
use rustify.Prelude.Keyed.{update_where}
use rustify.Prelude.Sort.{sort_by}
use rustify.Db.Backups.{
  S3Storage, S3Credentials, NewS3Storage, S3StoragePatch, ScheduledBackup, BackupTables, coalesce,
}

abbrev is_storage : ℕ → Option ℕ → Bool
is_storage id none = false
is_storage id (some n) = n == id

unfoldable pub create :
    (Str → Str) → NewS3Storage → Str → ℕ → BackupTables → S3Storage × BackupTables
unfolding trim
create encrypt new uuid now t =
    let row : S3Storage = record {
      id = t.next_id;
      uuid = uuid;
      team_id = new.team_id;
      name = new.name;
      region = new.region;
      endpoint = new.endpoint;
      bucket = new.bucket;
      key_enc = encrypt (trim new.key);
      secret_enc = encrypt (trim new.secret);
      path = new.path;
      use_path_style = new.use_path_style;
      is_usable = false;
      created_at = now;
      updated_at = now;
    } in
    (row, record t { storages = t.storages ++ row ∷ []; next_id = t.next_id + 1 })

unfoldable pub get_by_uuid : Str → BackupTables → Option S3Storage
get_by_uuid uuid t = find (λ s. str_eq s.uuid uuid) t.storages

unfoldable pub get_by_id : ℕ → BackupTables → Option S3Storage
get_by_id id t = find (λ s. s.id == id) t.storages

-- `before` is the database's order of texts.
unfoldable pub list_by_team : (Str → Str → Bool) → ℕ → BackupTables → List S3Storage
unfolding sort_by
list_by_team before team_id t =
    sort_by (λ a b. before a.name b.name) (filter (λ s. s.team_id == team_id) t.storages)

unfoldable pub patched : (Str → Str) → S3StoragePatch → ℕ → S3Storage → S3Storage
unfolding trim
patched encrypt patch now s = record s {
  name = unwrap_or patch.name s.name;
  region = unwrap_or patch.region s.region;
  endpoint = coalesce patch.endpoint s.endpoint;
  bucket = unwrap_or patch.bucket s.bucket;
  key_enc = unwrap_or (map_option (λ k. encrypt (trim k)) patch.key) s.key_enc;
  secret_enc = unwrap_or (map_option (λ k. encrypt (trim k)) patch.secret) s.secret_enc;
  path = unwrap_or patch.path s.path;
  use_path_style = unwrap_or patch.use_path_style s.use_path_style;
  updated_at = now;
}

unfoldable pub update :
    (Str → Str) → Str → S3StoragePatch → ℕ → BackupTables → Option S3Storage × BackupTables
unfolding patched get_by_uuid
update encrypt uuid patch now t =
    let t' : BackupTables = record t {
      storages = update_where (λ s. str_eq s.uuid uuid) (patched encrypt patch now) t.storages;
    } in
    (get_by_uuid uuid t', t')

-- `none` where the row is missing or a text cannot be decrypted.
unfoldable pub decrypt_credentials : (Str → Option Str) → ℕ → BackupTables → Option S3Credentials
unfolding get_by_id
decrypt_credentials decrypt id t = do
  s ← get_by_id id t
  key ← decrypt s.key_enc
  secret ← decrypt s.secret_enc
  some (record { key = key; secret = secret })

unfoldable pub set_usable : ℕ → Bool → ℕ → BackupTables → BackupTables
set_usable id usable now t = record t {
  storages =
      update_where (λ s. s.id == id) (λ s. record s { is_usable = usable; updated_at = now })
        t.storages;
}

unfoldable pub detached : ℕ → ScheduledBackup → ScheduledBackup
detached now b = record b { save_s3 = false; s3_storage_id = none; updated_at = now }

-- The schedules lose the storage in the same transaction.
unfoldable pub delete : Str → ℕ → BackupTables → Bool × BackupTables
unfolding detached get_by_uuid
delete uuid now t = elim (get_by_uuid uuid t) [
  | none ↦ (false, t)
  | some s ↦ (
    count_if (λ r. r.id == s.id) t.storages == 1,
    record t {
      backups = update_where (λ b. is_storage s.id b.s3_storage_id) (detached now) t.backups;
      storages = filter (λ r. not (r.id == s.id)) t.storages;
    },
  )
]
