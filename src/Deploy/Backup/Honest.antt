-- ===== src/Deploy/Backup/Honest.antt =====
-- Which executions stand as successful: those of before, and those whose dump succeeded.
use rustify.Prelude.{
  ℕ, Bool, true, false, not, ◌⊎◌, inl, inr, some, List, [], ◌∷◌, ◌++◌, append_assoc, Str, str_eq,
  codes, ◌==◌, ◌≡◌, refl, sym, ap, ◌∙◌, arith, Bool-cases, In, All, All-map, length,
}
use rustify.Prelude.Int.{pos, int_eq}
use rustify.Prelude.Keyed.{All-update, All-filter}
use rustify.Db.Backups.Executions.{
  BackupExecution, execution_keyed, Executions, ExecutionResult, finish, finished, is_any,
  is_orphan, mark_local_deleted, mark_s3_deleted, prune_orphans,
}
use rustify.Deploy.Host.{World, Session, statement, exec, counted}
use rustify.Deploy.Backup.{Tables, Resolved, is_ok}
use rustify.Deploy.Backup.Retention.{write}
use rustify.Deploy.Backup.Run.{dump_script, record_result}

abbrev pub is_success : BackupExecution → Bool
is_success e = str_eq e.status (codes "success")

module _ (W : World) where
  -- The dump of `r` into a file was sent, and exited with zero.
  pub record Sent (r : Resolved) (location : Str) (trace : List (Str × Str)) : Type 0 where
    pub dump : Str
    pub before : List (Str × Str)
    pub after : List (Str × Str)
    pub sent : trace ≡ before ++ (r.conn, dump_script r dump location) ∷ after
    pub ok : is_ok (W.reply (length before)) ≡ true

  -- The execution's file is that of such a dump, and is not empty.
  pub record Dumped (trace : List (Str × Str)) (e : BackupExecution) : Type 0 where
    pub resolved : Resolved
    pub file : Str
    pub of_execution : resolved.execution.id ≡ e.id
    pub named : e.filename ≡ some file
    pub not_empty : int_eq e.size (pos 0) ≡ false
    pub dumps : Sent resolved file trace

  -- The execution was successful before.
  abbrev pub WasSuccess : Executions → BackupExecution → Type 0
  WasSuccess s e = (d : BackupExecution) × In d s.rows × (d.id ≡ e.id) × (is_success d ≡ true)

  abbrev pub Fair : Executions → List (Str × Str) → BackupExecution → Type 0
  Fair s trace e = (is_success e ≡ false) ⊎ WasSuccess s e ⊎ Dumped trace e

  pub Sent-later :
      (r : Resolved) (location : Str) (trace more : List (Str × Str))
      → Sent r location trace
      → Sent r location (trace ++ more)
  Sent-later r location trace more d = record {
    dump = d.dump;
    before = d.before;
    after = d.after ++ more;
    sent =
        ap (λ x. x ++ more) d.sent
        ∙ append_assoc d.before ((r.conn, dump_script r d.dump location) ∷ d.after) more;
    ok = d.ok;
  }

  Fair-later :
      (s : Executions) (trace more : List (Str × Str)) (e : BackupExecution)
      → Fair s trace e
      → Fair s (trace ++ more) e
  Fair-later s trace more e (inl f) = inl f
  Fair-later s trace more e (inr (inl w)) = inr (inl w)
  Fair-later s trace more e (inr (inr d)) = inr (
      inr (record {
        resolved = d.resolved;
        file = d.file;
        of_execution = d.of_execution;
        named = d.named;
        not_empty = d.not_empty;
        dumps = Sent-later d.resolved d.file trace more d.dumps;
      }))

  module _ (s : Executions) where
    -- All stored executions are.
    pub record Honest (u : Session Tables) : Type 0 where
      pub honest : All (Fair s u.trace) u.tables.executions.rows

    pub counted-Honest : (u : Session Tables) → Honest u → Honest (counted u)
    counted-Honest u h = record { honest = h.honest }

    pub exec-Honest :
        (server script : Str) (u : Session Tables) → Honest u → Honest (exec W server script u).1
    unfolding exec
    exec-Honest server script u h = record {
      honest =
          All-map (Fair-later s u.trace ((server, script) ∷ [])) u.tables.executions.rows h.honest;
    }

    write-Honest :
        (f : Executions → Executions) (u : Session Tables)
        → Honest u
        → All (Fair s u.trace) (f u.tables.executions).rows
        → Honest (write W f u).1
    unfolding write statement
    write-Honest f u h k = elim (Bool-cases (W.reaches u.statements)) [
      | inl e ↦ rw e (record { honest = k })
      | inr e ↦ rw e (record { honest = h.honest })
    ]

    -- A flag of deletion leaves what was dumped.
    flagged-Fair :
        (trace : List (Str × Str)) (d e : BackupExecution)
        → e.id ≡ d.id
        → e.status ≡ d.status
        → e.filename ≡ d.filename
        → e.size ≡ d.size
        → Fair s trace d
        → Fair s trace e
    flagged-Fair trace d e i t f z (inl n) = inl (ap (λ x. str_eq x (codes "success")) t ∙ n)
    flagged-Fair trace d e i t f z (inr (inl (w, m, q, c))) = inr (inl (w, m, q ∙ sym i, c))
    flagged-Fair trace d e i t f z (inr (inr w)) = inr (
        inr (record {
          resolved = w.resolved;
          file = w.file;
          of_execution = w.of_execution ∙ sym i;
          named = f ∙ w.named;
          not_empty = ap (λ x. int_eq x (pos 0)) z ∙ w.not_empty;
          dumps = w.dumps;
        }))

    pub local-Honest :
        (ids : List ℕ) (u : Session Tables)
        → Honest u
        → Honest (write W (mark_local_deleted ids) u).1
    local-Honest ids u h = write-Honest (mark_local_deleted ids) u h (
        unfold mark_local_deleted in
        All-update (is_any ids) (λ e. record e { local_storage_deleted = true }) (λ e. refl)
          (Fair s u.trace) u.tables.executions.rows
          (λ d _ _ p.
            flagged-Fair u.trace d (record d { local_storage_deleted = true }) refl refl refl refl
              p)
          h.honest)

    pub s3-Honest :
        (ids : List ℕ) (u : Session Tables) → Honest u → Honest (write W (mark_s3_deleted ids) u).1
    s3-Honest ids u h = write-Honest (mark_s3_deleted ids) u h (
        unfold mark_s3_deleted in
        All-update (is_any ids) (λ e. record e { s3_storage_deleted = true }) (λ e. refl)
          (Fair s u.trace) u.tables.executions.rows
          (λ d _ _ p.
            flagged-Fair u.trace d (record d { s3_storage_deleted = true }) refl refl refl refl p)
          h.honest)

    pub prune-Honest :
        (backup_id : ℕ) (u : Session Tables)
        → Honest u
        → Honest (write W (prune_orphans backup_id) u).1
    prune-Honest backup_id u h = write-Honest (prune_orphans backup_id) u h (
        unfold prune_orphans in
        All-filter (Fair s u.trace) (λ e. not (is_orphan backup_id e)) u.tables.executions.rows
          h.honest)

    -- A result is recorded that is fair for the execution.
    pub record_result-Honest :
        (r : Resolved) (result : ExecutionResult) (u : Session Tables)
        → ((e : BackupExecution) (now : ℕ)
            → r.execution.id ≡ e.id
            → Fair s u.trace (finished result now e))
        → Honest u
        → Honest (record_result W r result u).1
    unfolding record_result statement
    record_result-Honest r result u p h =
        let id = r.execution.id in
        let now = W.now u.statements in
        elim (Bool-cases (W.reaches u.statements)) [
          | inl e ↦ rw e (record {
            honest =
                unfold finish in
                All-update (λ d. d.id == id) (finished result now) (λ d. unfold finished in refl)
                  (Fair s u.trace) u.tables.executions.rows (λ d _ q _. p d now (ground (arith, q)))
                  h.honest;
          })
          | inr e ↦ rw e (record { honest = h.honest })
        ]
