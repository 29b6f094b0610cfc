-- ===== src/Deploy/Backup/Removed.antt =====
-- What the retention rules remove: the scripts that apply_retention sends.
use mathlib.Core.Option.{some-injective}
use rustify.Prelude.{
  ℕ, Bool, true, false, ◌⊎◌, inl, inr, Option, none, some, List, [], ◌∷◌, ◌++◌, Str, codes, ◌≡◌,
  refl, subst, Bool-cases, In, In-filter, All, filter, Extends, Extends-refl, Extends-trans,
}
use rustify.Prelude.Keyed.{Unique}
use rustify.Prelude.Int.{pos_part}
use rustify.Db.Backups.{S3Storage, S3Credentials}
use rustify.Db.Backups.Executions.{
  BackupExecution, execution_keyed, Executions, is_any, filenames_for, mark_local_deleted,
  mark_s3_deleted, prune_orphans,
}
use rustify.Deploy.Host.{World, Session, Step, ◌>>=◌, lift, query, statement, exec, counted}
use rustify.Deploy.Host.Keeps.{bind_keeps, query_keeps, lift_keeps}
use rustify.Deploy.Backup.{Tables, Resolved, exec_checked, exec_ignore}
use rustify.Deploy.Backup.Retention.{
  write, files_of, mark, rm_file, rm_local, rm_objects, rm_with, retain_local, retain_s3,
  retain_saved, remove_some, remove_from_s3, apply_retention,
}
use rustify.Deploy.Backup.Newer.{Superseded, selected-Superseded, names_All}

-- A script that a retention sends: it removes a superseded file, or is a command of docker.
abbrev pub Sent : Executions → Resolved → Str × Str → Type 0
Sent s r c =
    ((filename : Str) × Superseded s r.backup.id filename × (c ≡ (r.conn, rm_file filename)))
    ⊎ ((rest : Str) × (c ≡ (r.conn, codes "docker " ++ rest)))

module _ (s : Executions) (r : Resolved) (before : List (Str × Str)) where
  -- Every script since `before` is such a one.
  record Sending (u : Session Tables) : Type 0 where
    pub sending : Extends (Sent s r) before u.trace

  sends :
      (u v : Session Tables) (script : Str)
      → v.trace ≡ u.trace ++ (r.conn, script) ∷ []
      → Sent s r (r.conn, script)
      → Sending u
      → Sending v
  sends u v script e p h = record {
    sending =
        Extends-trans (Sent s r) before u.trace v.trace h.sending
          ((r.conn, script) ∷ [], e, (p, tt));
  }

  module _ (W : World) where
    exec_ignore-Sending :
        (script : Str) (u : Session Tables)
        → Sent s r (r.conn, script)
        → Sending u
        → Sending (exec_ignore W r.conn script u)
    unfolding exec_ignore exec
    exec_ignore-Sending script u p h = sends u _ script refl p h

    exec_checked-Sending :
        (script : Str) (u : Session Tables)
        → Sent s r (r.conn, script)
        → Sending u
        → Sending (exec_checked W r.conn script u).1
    unfolding exec_checked exec
    exec_checked-Sending script u p h = sends u _ script refl p h

    write-Sending :
        (f : Executions → Executions) (u : Session Tables) → Sending u → Sending (write W f u).1
    unfolding write statement
    write-Sending f u h = elim (Bool-cases (W.reaches u.statements)) [
      | inl e ↦ rw e (record { sending = h.sending })
      | inr e ↦ rw e (record { sending = h.sending })
    ]

    mark-Sending :
        (flag : List ℕ → Executions → Executions) (ids : List ℕ) (u : Session Tables)
        → Sending u
        → Sending (mark W flag ids u).1
    mark-Sending flag [] u h = unfold lift in h
    mark-Sending flag (i ∷ ids) u h = write-Sending (flag (i ∷ ids)) u h

    rm_local-Sending :
        (files : List (ℕ × Str)) (u : Session Tables)
        → All (λ q. Superseded s r.backup.id q.1) files
        → Sending u
        → Sending (rm_local W r.conn files u).1
    unfolding rm_local
    rm_local-Sending [] u a h = h
    rm_local-Sending ((id, filename) ∷ files) u a h =
        rm_local-Sending files _ a.1
          (exec_ignore-Sending (rm_file filename) u (inl (filename, a.0, refl)) h)

    rm_objects-Sending :
        (container dest : Str) (files : List (ℕ × Str)) (u : Session Tables)
        → Sending u
        → Sending (rm_objects W r.conn container dest files u).1
    unfolding rm_objects
    rm_objects-Sending container dest [] u h = h
    rm_objects-Sending container dest ((id, filename) ∷ files) u h =
        rm_objects-Sending container dest files _ (exec_ignore-Sending _ u (inr (_, refl)) h)

    rm_with-Sending :
        (s3 : S3Storage) (creds : S3Credentials) (files : List (ℕ × Str)) (u : Session Tables)
        → Sending u
        → Sending (rm_with W r s3 creds files u).1
    unfolding rm_with
    rm_with-Sending s3 creds files u h = exec_ignore-Sending _ _ (inr (_, refl)) (
        bind_keeps Sending _ _ _
          (exec_checked-Sending _ _ (inr (_, refl)) (exec_ignore-Sending _ u (inr (_, refl)) h))
          (λ _ v k.
            bind_keeps Sending _ _ v (exec_checked-Sending _ v (inr (_, refl)) k)
              (λ _ w k. rm_objects-Sending _ _ files w k)))

    remove_from_s3-Sending :
        (decrypt : Str → Option Str) (s3_id : ℕ) (files : List (ℕ × Str)) (u : Session Tables)
        → Sending u
        → Sending (remove_from_s3 W decrypt r s3_id files u).1
    unfolding remove_from_s3
    remove_from_s3-Sending decrypt s3_id files u h =
        query_keeps Sending W _ _ u (record { sending = h.sending })
          (lift_keeps Sending _ _ _ (record { sending = h.sending })
            λ s3 _.
              query_keeps Sending W _ _ _ (record { sending = h.sending })
                (lift_keeps Sending _ _ _ (record { sending = h.sending })
                  λ creds _. rm_with-Sending s3 creds files _ (record { sending = h.sending })))

    remove_some-Sending :
        (decrypt : Str → Option Str) (s3_id : ℕ) (files : List (ℕ × Str)) (u : Session Tables)
        → Sending u
        → Sending (remove_some W decrypt r s3_id files u).1
    remove_some-Sending decrypt s3_id [] u h = unfold lift in h
    remove_some-Sending decrypt s3_id (f ∷ files) u h =
        remove_from_s3-Sending decrypt s3_id (f ∷ files) u h

    files_of-Sending :
        (ids : List ℕ) (u : Session Tables) → Sending u → Sending (files_of W ids u).1
    files_of-Sending [] u h = unfold lift in h
    files_of-Sending (i ∷ ids) u h = unfold query in record { sending = h.sending }

    retain_s3-Sending :
        (decrypt : Str → Option Str) (s3_id : ℕ) (u : Session Tables)
        → Sending u
        → Sending (retain_s3 W decrypt r s3_id u).1
    unfolding retain_s3
    retain_s3-Sending decrypt s3_id u h =
        query_keeps Sending W _ _ u (record { sending = h.sending })
          (lift_keeps Sending _ _ _ (record { sending = h.sending })
            λ ids _.
              bind_keeps Sending _ _ _ (files_of-Sending ids _ (record { sending = h.sending }))
                λ files v k.
                  bind_keeps Sending _ _ v (remove_some-Sending decrypt s3_id files v k)
                    λ _ w k. mark-Sending mark_s3_deleted ids w k)

    retain_saved-Sending :
        (decrypt : Str → Option Str) (save_s3 : Bool) (storage : Option ℕ) (u : Session Tables)
        → Sending u
        → Sending (retain_saved W decrypt r save_s3 storage u).1
    retain_saved-Sending decrypt true (some s3_id) u h = retain_s3-Sending decrypt s3_id u h
    retain_saved-Sending decrypt true none u h = unfold lift in h
    retain_saved-Sending decrypt false storage u h = unfold lift in h

    -- The files of a selection, from the tables that it was made from.
    local_files-Sending :
        (ids : List ℕ) (g : List (ℕ × Str) → Step Tables (Unit {0})) (u : Session Tables)
        → Sending u
        → ((files : List (ℕ × Str)) (v : Session Tables)
            → All (λ q. Superseded s r.backup.id q.1) files
            → Sending v
            → Sending (g files v).1)
        → ((e : BackupExecution) (filename : Str)
            → In e u.tables.executions.rows
            → is_any ids e ≡ true
            → e.filename ≡ some filename
            → Superseded s r.backup.id filename)
        → Sending ((files_of W ids >>= g) u).1
    local_files-Sending [] g u h next p = lift_keeps Sending (some []) g u h λ files e.
        next files u
          (subst (All (λ (q : ℕ × Str). Superseded s r.backup.id q.1)) (some-injective _ _ e) tt) h
    local_files-Sending (i ∷ ids) g u h next p =
        query_keeps Sending W (λ (t : Tables). filenames_for (i ∷ ids) t.executions) g u
          (record { sending = h.sending })
          (next (filenames_for (i ∷ ids) u.tables.executions) (counted u)
            (unfold filenames_for in
              names_All (Superseded s r.backup.id)
                (filter (is_any (i ∷ ids)) u.tables.executions.rows)
                (λ e f m q.
                  let (j, a) = In-filter (is_any (i ∷ ids)) e u.tables.executions.rows m in
                  p e f j a q))
            (record { sending = h.sending }))

module _ (W : World) where
  retain_local-Sending :
      (r : Resolved) (t : Session Tables)
      → Unique t.tables.executions.rows
      → Sending t.tables.executions r t.trace (retain_local W r t).1
  unfolding retain_local
  retain_local-Sending r t u =
      let P = Sending t.tables.executions r t.trace in
      let start : P (counted t) = record {
        sending = Extends-refl (Sent t.tables.executions r) t.trace;
      } in
      query_keeps P W _ _ t start (
        lift_keeps P _ _ (counted t) start λ ids q.
          local_files-Sending t.tables.executions r t.trace W ids _ (counted t) start
            (λ files v a k.
              bind_keeps P _ _ v (rm_local-Sending t.tables.executions r t.trace W files v a k)
                λ _ w k. mark-Sending t.tables.executions r t.trace W mark_local_deleted ids w k)
            (λ e f i a n.
              selected-Superseded r.backup.id (pos_part r.backup.retention_amount_local)
                (pos_part r.backup.retention_days_local) (pos_part r.backup.retention_max_gb_local)
                t.tables.executions ids e f u q i a n))

  -- If the executions have distinct ids, then whatever the hosts reply and whichever statements
  -- fail, each script that the retention rules send is a command of docker, or removes the file of
  -- a successful backup beside which a newer successful backup of the schedule has its local copy.
  pub apply_retention-Sent :
      (decrypt : Str → Option Str) (r : Resolved) (t : Session Tables)
      → Unique t.tables.executions.rows
      → Extends (Sent t.tables.executions r) t.trace (apply_retention W decrypt r t).1.trace
  unfolding apply_retention
  apply_retention-Sent decrypt r t u =
      let s = t.tables.executions in
      let sent = bind_keeps (Sending s r t.trace) _ _ t (retain_local-Sending r t u) λ _ v k.
        bind_keeps (Sending s r t.trace) _ _ v
          (retain_saved-Sending s r t.trace W decrypt r.backup.save_s3 r.backup.s3_storage_id v k)
          λ _ w k. write-Sending s r t.trace W (prune_orphans r.backup.id) w k in
      sent.sending
