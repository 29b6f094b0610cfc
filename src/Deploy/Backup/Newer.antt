-- ===== src/Deploy/Backup/Newer.antt =====
-- Which files the retention rules select: those of backups beside which a newer one stands.
use mathlib.Core.Option.{some-injective}
use rustify.Prelude.{
  ℕ, Bool, true, inl, inr, some, List, [], ◌∷◌, map, Str, ◌==◌, ◌≡◌, refl, sym, ap, subst, ◌∙◌,
  arith, Bool-cases, Option-cases, In, In-filter, All, filter,
}
use rustify.Prelude.Keyed.{Unique, row, row-of_In}
use rustify.Prelude.Sort.{sort_by, In-sort_by}
use rustify.Core.Retention.{ExecMeta, newer, select_for_deletion}
use rustify.Core.Retention.Newest.{select_for_deletion-HasNewer}
use rustify.Db.Backups.Executions.{
  BackupExecution, execution_keyed, Executions, newer_row, meta, holds_copy, successful_meta,
  successful_with_local, is_any, names,
}

-- Successful, with the copy on the server.
abbrev pub is_local : ℕ → BackupExecution → Bool
is_local = holds_copy (λ e. e.local_storage_deleted)

-- The file of a backup beside which the schedule has a newer one on the server.
pub record Superseded (s : Executions) (backup_id : ℕ) (filename : Str) : Type 0 where
  pub execution : BackupExecution
  pub later : BackupExecution
  pub stored : In execution s.rows
  pub later_stored : In later s.rows
  pub holds : is_local backup_id execution ≡ true
  pub later_holds : is_local backup_id later ≡ true
  pub named : execution.filename ≡ some filename
  pub follows : newer_row later execution ≡ true

In-map-meta :
    (m : ExecMeta) (es : List BackupExecution)
    → In m (map meta es)
    → (e : BackupExecution) × In e es × (meta e ≡ m)
In-map-meta m [] h = absurd h
In-map-meta m (e ∷ es) (inl p) = (e, inl refl, p)
In-map-meta m (e ∷ es) (inr i) = let (d, j, p) = In-map-meta m es i in (d, inr j, p)

-- What the query of the local copies reads is the row of one.
meta-is_local :
    (backup_id : ℕ) (s : Executions) (m : ExecMeta)
    → In m (successful_with_local backup_id s)
    → (e : BackupExecution) × In e s.rows × (is_local backup_id e ≡ true) × (meta e ≡ m)
unfolding successful_with_local successful_meta
meta-is_local backup_id s m h =
    let rows = filter (is_local backup_id) s.rows in
    let (e, i, p) = In-map-meta m (sort_by newer_row rows) h in
    let (j, t) = In-filter (is_local backup_id) e s.rows ((In-sort_by newer_row e rows).0 i) in
    (e, j, t, p)

newer-meta :
    (l d : BackupExecution) (m n : ExecMeta)
    → meta d ≡ m
    → meta l ≡ n
    → newer n m ≡ true
    → newer_row l d ≡ true
newer-meta l d m n p q h =
    subst (λ (x : ExecMeta). newer (meta l) x ≡ true) (sym p)
      (subst (λ (x : ExecMeta). newer x m ≡ true) (sym q) h)

same_row :
    (rows : List BackupExecution) (d e : BackupExecution)
    → Unique rows
    → In d rows
    → In e rows
    → d.id ≡ e.id
    → d ≡ e
same_row rows d e u i j q =
    some-injective _ _
      (sym (row-of_In d rows u i) ∙ ap (λ (n : ℕ). row n rows) q ∙ row-of_In e rows u j)

any-In_ids : (ids : List ℕ) (e : BackupExecution) → is_any ids e ≡ true → In e.id ids
any-In_ids [] e h = cc
any-In_ids (i ∷ ids) e h = elim (Bool-cases (i == e.id)) [
  | inl p ↦ inl (ground (arith, p))
  | inr n ↦ inr (any-In_ids ids e (rw n at h))
]

pub selected-Superseded :
    (backup_id amount days max_gb : ℕ) (s : Executions) (deleted : List ℕ) (e : BackupExecution)
    (filename : Str)
    → Unique s.rows
    → select_for_deletion (successful_with_local backup_id s) amount days max_gb ≡ some deleted
    → In e s.rows
    → is_any deleted e ≡ true
    → e.filename ≡ some filename
    → Superseded s backup_id filename
selected-Superseded backup_id amount days max_gb s deleted e filename u h i a f =
    let (m, n, mi, ni, p, q) =
      select_for_deletion-HasNewer (successful_with_local backup_id s) amount days max_gb deleted
        e.id h (any-In_ids deleted e a) in
    let (d, di, dt, dp) = meta-is_local backup_id s m mi in
    let (l, li, lt, lp) = meta-is_local backup_id s n ni in
    let same = same_row s.rows d e u di i (ap (λ (x : ExecMeta). x.id) dp ∙ p) in
    record {
      execution = e;
      later = l;
      stored = i;
      later_stored = li;
      holds = subst (λ (x : BackupExecution). is_local backup_id x ≡ true) same dt;
      later_holds = lt;
      named = f;
      follows =
          subst (λ (x : BackupExecution). newer_row l x ≡ true) same (newer-meta l d m n dp lp q);
    }

pub names_All :
    (P : Str → Type 0) (es : List BackupExecution)
    → ((e : BackupExecution) (f : Str) → In e es → e.filename ≡ some f → P f)
    → All (λ q. P q.1) (names es)
names_All P [] h = tt
names_All P (e ∷ es) h =
    let rest = names_All P es (λ d f i. h d f (inr i)) in
    elim (Option-cases e.filename) [
      | inl n ↦ rw n rest
      | inr (f, q) ↦ rw q (h e f (inl refl) q, rest)
    ]
