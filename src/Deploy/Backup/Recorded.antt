-- ===== src/Deploy/Backup/Recorded.antt =====
-- A run of a backup records a success only for a dump that succeeded.
use rustify.Prelude.{
  ℕ, Bool, true, false, ◌&&◌, inl, inr, ◌⊎◌, Option, none, some, [], ◌∷◌, Str, str_eq, codes, ◌≡◌,
  refl, arith, Bool-cases, Option-cases, In, All-In, All-of_In, length,
}
use rustify.Prelude.Int.{ℤ, pos, int_eq}
use rustify.Core.DbEngine.{dump_prefix}
use rustify.Db.Backups.Executions.{BackupExecution, Executions, finished}
use rustify.Deploy.Host.{
  World, Session, Step, Reply, output, broken, ◌>>=◌, lift, query, exec, modify, counted,
}
use rustify.Deploy.Host.Keeps.{bind_keeps, if_keeps, query_keeps, lift_keeps}
use rustify.Deploy.Backup.{Tables, Resolved, is_ok, exec_ignore, exec_dump, dump_error, measure}
use rustify.Deploy.Backup.Retention.{rm_file}
use rustify.Deploy.Backup.Run.{
  dump_script, failed_result, success_result, resolve, send_status, fail, no_engine, empty_file,
  upload, drop_local, is_uploaded, succeed, keep_dump, measured, dumped, dump_to, dump_or_fail,
  run_prefixed, run_backup,
}
use rustify.Deploy.Backup.Kept.{checked_keeps, upload_to_s3_keeps, apply_retention_keeps}
use rustify.Deploy.Backup.Honest.{
  is_success, Sent, Sent-later, Dumped, WasSuccess, Fair, Honest, counted-Honest, exec-Honest,
  local-Honest, s3-Honest, prune-Honest, record_result-Honest,
}

no_error : (W : World) (reply : Reply) → dump_error W reply ≡ none → is_ok reply ≡ true
no_error W (broken e) h = cc
no_error W (output o) h = ground arith

module _ (W : World) (s : Executions) where
  -- Honest, and the dump of `r` into a file was sent.
  record Ready (r : Resolved) (location : Str) (u : Session Tables) : Type 0 where
    pub honest : Honest W s u
    pub dumps : Sent W r location u.trace

  send_status-Honest :
      (backup execution status : Str) (u : Session Tables)
      → Honest W s u
      → Honest W s (send_status W backup execution status u).1
  unfolding send_status modify
  send_status-Honest backup execution status u h = record { honest = h.honest }

  fail-Honest :
      (r : Resolved) (message : Str) (u : Session Tables)
      → Honest W s u
      → Honest W s (fail W r message u).1
  unfolding fail
  fail-Honest r message u h =
      bind_keeps (Honest W s) _ _ u
        (record_result-Honest W s r (failed_result message) u
          (λ e now _. inl (unfold finished str_eq in refl)) h)
        (λ _ v k. send_status-Honest r.backup.uuid r.execution.uuid (codes "failed") v k)

  counted-Ready :
      (r : Resolved) (location : Str) (u : Session Tables)
      → Ready r location u
      → Ready r location (counted u)
  counted-Ready r location u h = record { honest = counted-Honest W s u h.honest; dumps = h.dumps }

  exec-Ready :
      (r : Resolved) (location server script : Str) (u : Session Tables)
      → Ready r location u
      → Ready r location (exec W server script u).1
  exec-Ready r location server script u h = record {
    honest = exec-Honest W s server script u h.honest;
    dumps = unfold exec in Sent-later W r location u.trace ((server, script) ∷ []) h.dumps;
  }

  -- A SELECT whose row has to be there.
  select-Honest :
      {A B : Type 0} (f : Tables → Option A) (g : A → Step Tables B) (u : Session Tables)
      → Honest W s u
      → ((a : A) (v : Session Tables) → Honest W s v → Honest W s (g a v).1)
      → Honest W s ((query W f >>= λ o. lift o >>= g) u).1
  select-Honest f g u h next =
      query_keeps (Honest W s) W f (λ o. lift o >>= g) u (counted-Honest W s u h)
        (lift_keeps (Honest W s) (f u.tables) g (counted u) (counted-Honest W s u h)
          λ a _. next a (counted u) (counted-Honest W s u h))

  lift-Honest :
      {A : Type 0} (o : Option A) (u : Session Tables) → Honest W s u → Honest W s (lift o u).1
  unfolding lift
  lift-Honest o u h = h

  resolve-Honest :
      (uuid : Str) (u : Session Tables) → Honest W s u → Honest W s (resolve W uuid u).1
  unfolding resolve
  resolve-Honest uuid u h = select-Honest _ _ u h λ execution u h.
      select-Honest _ _ u h λ backup u h. select-Honest _ _ u h λ db u h.
        lift_keeps (Honest W s) _ _ u h λ engine _. select-Honest _ _ u h λ destination u h.
          select-Honest _ _ u h λ server u h.
            query_keeps (Honest W s) W _ _ u (counted-Honest W s u h)
              (select-Honest _ _ _ (counted-Honest W s u h) λ team u h. lift-Honest _ u h)

  module _ (decrypt : Str → Option Str) (r : Resolved) (uuid location : Str) where
    upload-Ready :
        (u : Session Tables)
        → Ready r location u
        → Ready r location (upload W decrypt r uuid location u).1
    unfolding upload
    upload-Ready u h =
        if_keeps (Ready r location) r.backup.save_s3 _ _
          (upload_to_s3_keeps W decrypt (Ready r location) r (counted-Ready r location)
            (exec-Ready r location r.conn) uuid location u h)
          h

    drop_local-Ready :
        (s3_uploaded : Option Bool) (u : Session Tables)
        → Ready r location u
        → Ready r location (drop_local W decrypt r location s3_uploaded u).1
    unfolding drop_local exec_ignore
    drop_local-Ready s3_uploaded u h =
        if_keeps (Ready r location)
          (r.backup.disable_local_backup && is_uploaded W decrypt s3_uploaded) _ _
          (exec-Ready r location r.conn (rm_file location) u h) h

    succeed-Honest :
        (size : ℤ) (s3_uploaded : Option Bool) (warning : Option Str) (local_deleted : Bool)
        (u : Session Tables)
        → int_eq size (pos 0) ≡ false
        → Ready r location u
        → Honest W s
            (succeed W decrypt r uuid
              (success_result location size s3_uploaded warning local_deleted)
              u).1
    unfolding succeed
    succeed-Honest size s3_uploaded warning local_deleted u z h =
        bind_keeps (Honest W s) _ _ u
          (record_result-Honest W s r
            (success_result location size s3_uploaded warning local_deleted) u
            (λ e now q. inr (
              inr (
                unfold finished in
                record {
                  resolved = r;
                  file = location;
                  of_execution = q;
                  named = refl;
                  not_empty = z;
                  dumps = h.dumps;
                })))
            h.honest)
          (λ _ v k.
            bind_keeps (Honest W s) _ _ v
              (apply_retention_keeps W decrypt (Honest W s) r (counted-Honest W s)
                (exec-Honest W s r.conn) (local-Honest W s) (s3-Honest W s)
                (prune-Honest W s r.backup.id) v k)
              (λ _ w k. send_status-Honest r.backup.uuid uuid (codes "success") w k))

    measured-Honest :
        (size : ℤ) (u : Session Tables)
        → Ready r location u
        → Honest W s (measured W decrypt r uuid location (size, u)).1
    unfolding measured keep_dump
    measured-Honest size u h = elim (Bool-cases (int_eq size (pos 0))) [
      | inl e ↦ rw e (fail-Honest r empty_file u h.honest)
      | inr e ↦ rw e (succeed-Honest size _ _ _ _ e (drop_local-Ready _ _ (upload-Ready u h)))
    ]

    measure-Ready :
        (u : Session Tables) → Ready r location u → Ready r location (measure W r.conn location u).1
    unfolding measure
    measure-Ready u h = exec-Ready r location r.conn _ u h

    dumped-Honest :
        (dump : Str) (u : Session Tables)
        → Honest W s u
        → Honest W s
            (dumped W decrypt r uuid location
              (exec_dump W r.conn (dump_script r dump location) u)).1
    unfolding dumped exec_dump exec
    dumped-Honest dump u h = elim (Option-cases (dump_error W (W.reply (length u.trace)))) [
      | inl e ↦
          let ready : Ready r location (exec W r.conn (dump_script r dump location) u).1 = record {
            honest = exec-Honest W s r.conn (dump_script r dump location) u h;
            dumps = record {
              dump = dump;
              before = u.trace;
              after = [];
              sent = refl;
              ok = no_error W (W.reply (length u.trace)) e;
            };
          } in
          rw e (measured-Honest _ _ (measure-Ready _ ready))
      | inr (message, e) ↦ rw e (fail-Honest r message _ (exec-Honest W s r.conn _ u h))
    ]

    dump_to-Honest :
        (dump : Str) (u : Session Tables)
        → Honest W s u
        → Honest W s (dump_to W decrypt r uuid dump location u).1
    unfolding dump_to
    dump_to-Honest dump u h =
        bind_keeps (Honest W s) _ _ u
          (checked_keeps W (Honest W s) r.conn (counted-Honest W s) (exec-Honest W s r.conn) _ u h)
          (λ _ v k. dumped-Honest dump v k)

  dump_or_fail-Honest :
      (decrypt : Str → Option Str) (r : Resolved) (uuid : Str) (dump : Option Str) (location : Str)
      (u : Session Tables)
      → Honest W s u
      → Honest W s (dump_or_fail W decrypt r uuid dump location u).1
  dump_or_fail-Honest decrypt r uuid none location u h = fail-Honest r no_engine u h
  dump_or_fail-Honest decrypt r uuid (some dump) location u h =
      dump_to-Honest decrypt r uuid location dump u h

  run_prefixed-Honest :
      (decrypt : Str → Option Str) (r : Resolved) (uuid : Str) (time : ℤ) (prefix : Option Str)
      (u : Session Tables)
      → Honest W s u
      → Honest W s (run_prefixed W decrypt r uuid time prefix u).1
  unfolding run_prefixed
  run_prefixed-Honest decrypt r uuid time none u h = fail-Honest r no_engine u h
  run_prefixed-Honest decrypt r uuid time (some prefix) u h =
      select-Honest _ _ u h
        λ db v h. lift_keeps (Honest W s) _ _ v h λ c _. dump_or_fail-Honest decrypt r uuid _ _ v h

start-Honest : (W : World) (t : Session Tables) → Honest W t.tables.executions t
start-Honest W t = record {
  honest =
      All-of_In (Fair W t.tables.executions t.trace) t.tables.executions.rows λ e i.
        elim (Bool-cases (is_success e)) [ inl q ↦ inr (inl (e, i, refl, q)) | inr q ↦ inl q ];
}

-- After a run of a backup, whatever the hosts reply and whichever statements fail, an execution
-- that is recorded as successful was so before, or its file is not empty and is that of a dump
-- script for the execution that the run sent and that exited with zero.
pub run_backup-Dumped :
    (W : World) (decrypt : Str → Option Str) (timestamp : ℕ → ℤ) (uuid : Str) (now : ℕ)
    (t : Session Tables) (e : BackupExecution)
    → In e (run_backup W decrypt timestamp uuid now t).1.tables.executions.rows
    → is_success e ≡ true
    → WasSuccess W t.tables.executions e
      ⊎ Dumped W (run_backup W decrypt timestamp uuid now t).1.trace e
run_backup-Dumped W decrypt timestamp uuid now t e i q =
    let s = t.tables.executions in
    let h : Honest W s (run_backup W decrypt timestamp uuid now t).1 =
      (unfold run_backup in
        bind_keeps (Honest W s) _ _ t (resolve-Honest W s uuid t (start-Honest W t)) λ r v k.
          bind_keeps (Honest W s) _ _ v
            (send_status-Honest W s r.backup.uuid uuid (codes "running") v k)
            λ _ w k.
              run_prefixed-Honest W s decrypt r uuid (timestamp now) (dump_prefix r.engine) w k) in
    elim (All-In (Fair W s (run_backup W decrypt timestamp uuid now t).1.trace) _ e h.honest i) [
      | inl n ↦ absurd (ground (arith, n, q))
      | inr d ↦ d
    ]
