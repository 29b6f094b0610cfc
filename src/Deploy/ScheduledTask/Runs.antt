-- ===== src/Deploy/ScheduledTask/Runs.antt =====
-- What a task's run does before it writes its outcome: nothing to the tables.
use rustify.Docker.{PsLine}
use rustify.Prelude.{
  ℕ, ◌+◌, Bool, true, false, not, inl, inr, Option, none, some, List, Str, ◌≡◌, ◌∙◌, Option-cases,
  if◌then◌else◌,
}
use rustify.Db.ScheduledTasks.{ScheduledTask, execution_keyed}
use rustify.Deploy.Host.{World, Session, Reply, lift, query, exec}
use rustify.Deploy.Host.Keeps.{bind_keeps, if_keeps}
use rustify.Deploy.ScheduledTask.{Resolved, ok, err, docker_exec_command}
use rustify.Deploy.ScheduledTask.Tables.{
  Tables, Target, resolve_conn, resolve_target, application_target, service_target,
  application_containers, list_running, is_running,
}
use rustify.Deploy.ScheduledTask.Run.{
  Outcome, success, failure, succeeded, output_of, run_in, run_resolved, run_target, execute_task,
}
use rustify.Deploy.ScheduledTask.Retries.{Tried, run_with_retry-Tried, run_with_retry-tables}

-- The tables are those of before.
pub record Kept (s : Tables) (u : Session Tables) : Type 0 where
  pub kept : u.tables ≡ s

-- A success is that of a script.
abbrev pub Reported : (ℕ → Reply) → Outcome → Type 0
Reported reply (success out) = (n : ℕ) × (succeeded (reply n) ≡ true) × (out ≡ output_of (reply n))
Reported reply (failure f) = Unit

Tried-Reported :
    (reply : ℕ → Reply) (n left : ℕ) (o : Outcome) (later : ℕ)
    → Tried reply n left o later
    → Reported reply o
Tried-Reported reply n left (success out) later (k, l, z, s, q, w) = (n + k, s, q)
Tried-Reported reply n left (failure f) later h = tt

module _ (W : World) (s : Tables) where
  query-Kept :
      {A : Type 0} (f : Tables → A) (t : Session Tables) → Kept s t → Kept s (query W f t).1
  unfolding query
  query-Kept f t k = record { kept = k.kept }

  lift-Kept : {A : Type 0} (r : Option A) (t : Session Tables) → Kept s t → Kept s (lift r t).1
  unfolding lift
  lift-Kept r t k = k

module _ (W : World) (from_line : Str → Option PsLine) (s : Tables) where
  resolve_conn-Kept :
      (destination : ℕ) (t : Session Tables)
      → Kept s t
      → Kept s (resolve_conn W from_line destination t).1
  unfolding resolve_conn
  resolve_conn-Kept destination t k = bind_keeps (Kept s) _ _ t (query-Kept W s _ t k) λ found u k.
      bind_keeps (Kept s) _ _ u (lift-Kept W s found u k) λ d v k.
        bind_keeps (Kept s) _ _ v (query-Kept W s _ v k) λ row w k.
          bind_keeps (Kept s) _ _ w (lift-Kept W s row w k) λ server x k.
            bind_keeps (Kept s) _ _ x (query-Kept W s _ x k) λ _ y k. lift-Kept W s _ y k

  list_running-Kept :
      (application : ℕ) (r : Option Str × Session Tables)
      → Kept s r.1
      → Kept s (list_running W from_line application r).1
  unfolding exec
  list_running-Kept application (none, t) k = k
  list_running-Kept application (some server, t) k = record { kept = k.kept }

  application_target-Kept :
      (app : ℕ) (t : Session Tables) → Kept s t → Kept s (application_target W from_line app t).1
  unfolding application_target application_containers
  application_target-Kept app t k = bind_keeps (Kept s) _ _ t (query-Kept W s _ t k) λ found u k.
      bind_keeps (Kept s) _ _ u (lift-Kept W s found u k) λ a v k.
        if_keeps (Kept s) (is_running a.status) _ _
          (list_running-Kept a.id _ (resolve_conn-Kept a.destination_id v k)) k

  service_target-Kept :
      (service : ℕ) (t : Session Tables)
      → Kept s t
      → Kept s (service_target W from_line service t).1
  unfolding service_target
  service_target-Kept service t k = bind_keeps (Kept s) _ _ t (query-Kept W s _ t k) λ found u k.
      bind_keeps (Kept s) _ _ u (lift-Kept W s found u k) λ a v k.
        bind_keeps (Kept s) _ _ v (query-Kept W s _ v k) λ children w k. lift-Kept W s _ w k

  resolve_target-Kept :
      (task : ScheduledTask) (t : Session Tables)
      → Kept s t
      → Kept s (resolve_target W from_line task t).1
  unfolding resolve_target
  resolve_target-Kept task t k = elim (Option-cases task.application_id) [
    | inr (app, e) ↦ rw e (application_target-Kept app t k)
    | inl e ↦ elim (Option-cases task.service_id) [
      | inr (service, f) ↦ rw (e, f) (service_target-Kept service t k)
      | inl f ↦ rw (e, f) (lift-Kept W s _ t k)
    ]
  ]

module _ (W : World) (from_line : Str → Option PsLine) (backoff : List ℕ) (s : Tables) where
  -- The tables are kept, and a success is that of a script.
  abbrev pub Runs : Outcome × Session Tables → Type 0
  Runs r = Kept s r.1 × Reported W.reply r.0

  if-Runs :
      (b : Bool) (x y : Outcome × Session Tables) → Runs x → Runs y → Runs (if b then x else y)
  if-Runs true x y p q = p
  if-Runs false x y p q = q

  run_in-Runs :
      (task : ScheduledTask) (container : Str) (r : Option Str × Session Tables)
      → Kept s r.1
      → Runs (run_in W from_line backoff task container r)
  run_in-Runs task container (none, t) k = (k, tt)
  run_in-Runs task container (some server, t) k =
      let script = docker_exec_command container task.command in
      (
        record { kept = run_with_retry-tables W backoff server script t ∙ k.kept },
        Tried-Reported W.reply _ _ _ _ (run_with_retry-Tried W backoff server script t).1,
      )

  run_resolved-Runs :
      (task : ScheduledTask) (target : Target) (r : Resolved) (t : Session Tables)
      → Kept s t
      → Runs (run_resolved W from_line backoff task target r t)
  run_resolved-Runs task target (err e) t k = (k, tt)
  run_resolved-Runs task target (ok container) t k =
      run_in-Runs task container _ (resolve_conn-Kept W from_line s target.destination_id t k)

  run_target-Runs :
      (task : ScheduledTask) (r : Option Target × Session Tables)
      → Kept s r.1
      → Runs (run_target W from_line backoff task r)
  run_target-Runs task (none, t) k = (k, tt)
  run_target-Runs task (some target, t) k =
      if-Runs (not target.running) _ _ (k, tt) (run_resolved-Runs task target _ t k)

  pub execute_task-Runs :
      (task : ScheduledTask) (t : Session Tables)
      → Kept s t
      → Runs (execute_task W from_line backoff task t)
  unfolding execute_task
  execute_task-Runs task t k = run_target-Runs task _ (resolve_target-Kept W from_line s task t k)
