-- ===== src/Db/Backups/Executions.antt =====
-- crates/rustify-db/src/repos/backups.rs: the executions of a schedule. Rows stand in the order of
-- their ids; times are nanoseconds.
use rustify.Prelude.{
  ℕ, ◌+◌, ◌-◌, ◌%◌, Bool, true, false, not, ◌&&◌, ◌||◌, Option, none, some, List, [], ◌∷◌, ◌++◌,
  map, Str, str_eq, codes, ◌==◌, leb, ltb, filter, find, any,
}
use rustify.Prelude.Int.{ℤ, pos}
use rustify.Prelude.Keyed.{Keyed, update_where}
use rustify.Prelude.Sort.{sort_by}
use rustify.Core.Retention.{ExecMeta}

pub record BackupExecution : Type 0 where
  pub id : ℕ
  pub uuid : Str
  pub scheduled_database_backup_id : ℕ
  pub status : Str
  pub filename : Option Str
  pub size : ℤ
  pub s3_uploaded : Option Bool
  pub local_storage_deleted : Bool
  pub s3_storage_deleted : Bool
  pub message : Option Str
  pub started_at : ℕ
  pub finished_at : Option ℕ
  pub created_at : ℕ

instance abbrev pub execution_keyed : Keyed BackupExecution
execution_keyed = record { key = λ e. e.id }

pub record ExecutionResult : Type 0 where
  pub status : Str
  pub size : ℤ
  pub filename : Option Str
  pub s3_uploaded : Option Bool
  pub message : Option Str
  pub local_storage_deleted : Bool

pub record Executions : Type 0 where
  pub rows : List BackupExecution
  pub next_id : ℕ

unfoldable pub create_running : ℕ → Str → ℕ → Executions → BackupExecution × Executions
create_running backup_id uuid now t =
    let row : BackupExecution = record {
      id = t.next_id;
      uuid = uuid;
      scheduled_database_backup_id = backup_id;
      status = codes "running";
      filename = none;
      size = pos 0;
      s3_uploaded = none;
      local_storage_deleted = false;
      s3_storage_deleted = false;
      message = none;
      started_at = now;
      finished_at = none;
      created_at = now;
    } in
    (row, record { rows = t.rows ++ row ∷ []; next_id = t.next_id + 1 })

unfoldable pub get_by_uuid : Str → Executions → Option BackupExecution
get_by_uuid uuid t = find (λ e. str_eq e.uuid uuid) t.rows

-- ORDER BY created_at DESC, id DESC
abbrev pub newer_row : BackupExecution → BackupExecution → Bool
newer_row a b = ltb b.created_at a.created_at || ((a.created_at == b.created_at) && ltb b.id a.id)

unfoldable pub list_by_backup : ℕ → Executions → List BackupExecution
unfolding sort_by
list_by_backup backup_id t =
    sort_by newer_row (filter (λ e. e.scheduled_database_backup_id == backup_id) t.rows)

abbrev pub meta : BackupExecution → ExecMeta
meta e = record { id = e.id; created_at = e.created_at; size = e.size }

-- Successful executions of the schedule whose copy of a kind is not flagged as deleted.
abbrev pub holds_copy : (BackupExecution → Bool) → ℕ → BackupExecution → Bool
holds_copy deleted backup_id e =
    (e.scheduled_database_backup_id == backup_id)
    && str_eq e.status (codes "success")
    && not (deleted e)

unfoldable pub successful_meta : (BackupExecution → Bool) → ℕ → Executions → List ExecMeta
unfolding sort_by str_eq
successful_meta deleted backup_id t =
    map meta (sort_by newer_row (filter (holds_copy deleted backup_id) t.rows))

unfoldable pub successful_with_local : ℕ → Executions → List ExecMeta
unfolding successful_meta
successful_with_local = successful_meta (λ e. e.local_storage_deleted)

unfoldable pub successful_with_s3 : ℕ → Executions → List ExecMeta
unfolding successful_meta
successful_with_s3 = successful_meta (λ e. e.s3_storage_deleted)

-- `id = ANY(ids)`
abbrev pub is_any : List ℕ → BackupExecution → Bool
is_any ids e = any (λ i. i == e.id) ids

-- The names of those that have one.
abbrev pub names : List BackupExecution → List (ℕ × Str)
names [] = []
names (e ∷ es) = elim e.filename [ none ↦ names es | some f ↦ (e.id, f) ∷ names es ]

unfoldable pub filenames_for : List ℕ → Executions → List (ℕ × Str)
filenames_for ids t = names (filter (is_any ids) t.rows)

unfoldable pub finished : ExecutionResult → ℕ → BackupExecution → BackupExecution
finished r now e = record e {
  status = r.status;
  size = r.size;
  filename = r.filename;
  s3_uploaded = r.s3_uploaded;
  message = r.message;
  local_storage_deleted = r.local_storage_deleted;
  finished_at = some now;
}

unfoldable pub finish : ℕ → ExecutionResult → ℕ → Executions → Executions
unfolding finished
finish id r now t = record t { rows = update_where (λ e. e.id == id) (finished r now) t.rows }

unfoldable pub mark_local_deleted : List ℕ → Executions → Executions
mark_local_deleted ids t = record t {
  rows = update_where (is_any ids) (λ e. record e { local_storage_deleted = true }) t.rows;
}

unfoldable pub mark_s3_deleted : List ℕ → Executions → Executions
mark_s3_deleted ids t = record t {
  rows = update_where (is_any ids) (λ e. record e { s3_storage_deleted = true }) t.rows;
}

-- Rows of the schedule with no copy left; an upload that failed is not `NULL`.
abbrev pub is_orphan : ℕ → BackupExecution → Bool
is_orphan backup_id e =
    (e.scheduled_database_backup_id == backup_id)
    && e.local_storage_deleted
    && (e.s3_storage_deleted || elim e.s3_uploaded [ none ↦ true | some _ ↦ false ])

unfoldable pub prune_orphans : ℕ → Executions → Executions
prune_orphans backup_id t = record t { rows = filter (λ e. not (is_orphan backup_id e)) t.rows }

-- created_at >= date_trunc('minute', now())
unfoldable pub exists_in_current_minute : ℕ → ℕ → ℕ → Executions → Bool
exists_in_current_minute minute backup_id now t =
    any
      (λ e. (e.scheduled_database_backup_id == backup_id) && leb (now - now % minute) e.created_at)
      t.rows
