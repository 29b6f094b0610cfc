-- ===== src/Deploy/ScheduledTask/Run.antt =====
-- crates/rustify-deploy/src/scheduled_task.rs: one execution of a task, with its retries.
use rustify.Docker.{PsLine}
use rustify.Prelude.{
  ℕ, zero, suc, ◌+◌, ◌-◌, ◌/◌, ◌^◌, Bool, true, false, not, Option, none, some, List, [], ◌∷◌, ◌++◌,
  Str, str_eq, codes, if◌then◌else◌,
}
use rustify.Prelude.Chars.{is_whitespace, trim, trim_end_by}
use rustify.Prelude.Int.{ℤ, pos, int_eq, as_i32, int_decimal}
use rustify.Db.ScheduledTasks.{
  ScheduledTask, ScheduledTaskExecution, get_execution_by_uuid, get_by_id, finish_execution,
}
use rustify.Deploy.Host.{
  World, Session, Step, Reply, output, broken, ◌>>=◌, lift, query, statement, utc_now, exec, sleep,
  modify,
}
use rustify.Deploy.ScheduledTask.{
  Resolved, ok, err, TaskError, none_running, no_name, no_match, docker_exec_command,
  resolve_container,
}
use rustify.Deploy.ScheduledTask.Tables.{Tables, Target, resolve_target, resolve_conn}

pub record TaskFail : Type 0 where
  pub message : Str
  pub details : Option Str

-- A recorded outcome: the output, or what failed.
pub data Outcome : Type 0 where
  success : Str → Outcome
  failure : TaskFail → Outcome

abbrev pub scheduled_task_tries : ℕ
scheduled_task_tries = 3

-- `backoff.get(attempt)`
abbrev pub delay : List ℕ → ℕ → Option ℕ
delay [] n = none
delay (d ∷ ds) zero = some d
delay (d ∷ ds) (suc n) = delay ds n

-- No attempt is left, `attempt + 1 == SCHEDULED_TASK_TRIES`.
abbrev pub is_last : ℕ → Bool
is_last zero = true
is_last (suc left) = false

abbrev pub succeeded : Reply → Bool
succeeded (broken e) = false
succeeded (output o) = int_eq o.exit_code (pos 0)

-- The output of a run that succeeded.
abbrev pub output_of : Reply → Str
output_of (broken e) = []
output_of (output o) = trim_end_by is_whitespace o.stdout

unfoldable pub task_fail : Reply → TaskFail
unfolding trim str_eq int_decimal
task_fail (broken e) = record { message = e; details = none }
task_fail (output o) = record {
  message = if not (str_eq (trim o.stderr) []) then trim o.stderr else trim o.stdout;
  details = some (codes "command exited with code " ++ int_decimal o.exit_code);
}

abbrev pub not_run : TaskFail
not_run = record { message = codes "scheduled task did not run"; details = none }

abbrev pub task_error : TaskError → Str
task_error none_running = codes "No containers running."
task_error no_name = codes "More than one container exists but no container name was provided."
task_error no_match = codes "No valid container was found. Is the container name correct?"

module _ (W : World) (backoff : List ℕ) where
  unfoldable pub wait : Option ℕ → Session Tables → Session Tables
  unfolding sleep
  wait none t = t
  wait (some d) t = sleep W d t

  -- `left` attempts are left; `attempt` is the next one's number.
  unfoldable pub retry : ℕ → ℕ → TaskFail → Str → Str → Session Tables → Outcome × Session Tables
  unfolding exec wait task_fail
  retry zero attempt last server script t = (failure last, t)
  retry (suc left) attempt last server script t =
      let (r, u) = exec W server script t in
      let v = wait (if is_last left then none else delay backoff attempt) u in
      let rest = retry left (attempt + 1) (task_fail r) server script v in
      if succeeded r then (success (output_of r), u) else rest

  unfoldable pub run_with_retry : Str → Str → Session Tables → Outcome × Session Tables
  unfolding retry
  run_with_retry = retry scheduled_task_tries 0 not_run

abbrev pub status_of : Outcome → Str
status_of (success out) = codes "success"
status_of (failure f) = codes "failed"

abbrev pub message_of : Outcome → Str
message_of (success out) = out
message_of (failure f) = f.message

abbrev pub details_of : Outcome → Option Str
details_of (success out) = none
details_of (failure f) = f.details

-- Whole seconds; a clock that went back counts as none.
abbrev pub seconds_between : ℕ → ℕ → ℤ
seconds_between start later = as_i32 (pos ((later - start) / 10 ^ 9))

module _ (W : World) (from_line : Str → Option PsLine) (backoff : List ℕ) where
  abbrev pub failed : {S : Type 0} → Str → S → Outcome × S
  failed message t = (failure (record { message = message; details = none }), t)

  abbrev pub run_in : ScheduledTask → Str → Option Str × Session Tables → Outcome × Session Tables
  run_in task container (none, t) = failed W.error_text t
  run_in task container (some server, t) =
      run_with_retry W backoff server (docker_exec_command container task.command) t

  abbrev pub run_resolved :
      ScheduledTask → Target → Resolved → Session Tables → Outcome × Session Tables
  run_resolved task target (err e) t = failed (task_error e) t
  run_resolved task target (ok container) t =
      run_in task container (resolve_conn W from_line target.destination_id t)

  abbrev pub run_target : ScheduledTask → Option Target × Session Tables → Outcome × Session Tables
  run_target task (none, t) = failed W.error_text t
  run_target task (some target, t) =
      let rest =
        run_resolved task target (resolve_container target.containers task.container target.uuid)
          t in
      if not target.running then failed (codes "Resource is not running.") t else rest

  unfoldable pub execute_task : ScheduledTask → Session Tables → Outcome × Session Tables
  execute_task task t = run_target task (resolve_target W from_line task t)

  unfoldable pub finish : ScheduledTaskExecution → ℤ → Outcome → Step Tables (Unit {0})
  finish execution duration outcome = statement W λ _ now t. (
    tt {0},
    record t {
      scheduled =
          finish_execution execution.id (status_of outcome) (some (message_of outcome))
            (details_of outcome) duration now t.scheduled;
    },
  )

  unfoldable pub send_event :
      ScheduledTask → ScheduledTaskExecution → Outcome → Session Tables → Session Tables
  send_event task execution outcome = modify W λ t. record t {
    events =
        t.events
        ++ record { task = task.uuid; execution = execution.uuid; status = status_of outcome } ∷ [];
  }

  unfoldable pub record_outcome :
      ScheduledTask → ScheduledTaskExecution → ℤ → Outcome → Step Tables (Unit {0})
  record_outcome task execution duration outcome = do
    _ ← finish execution duration outcome
    λ t. (some tt, send_event task execution outcome t)

  unfoldable pub run_found : ScheduledTaskExecution → ScheduledTask → Step Tables (Unit {0})
  run_found execution task t =
      let (start, t1) = utc_now W t in
      let (outcome, t2) = execute_task task t1 in
      let (later, t3) = utc_now W t2 in
      record_outcome task execution (seconds_between start later) outcome t3

  unfoldable pub run_scheduled_task : Str → Step Tables (Unit {0})
  run_scheduled_task execution_uuid = do
    found ← query W (λ t. get_execution_by_uuid execution_uuid t.scheduled)
    execution ← lift found
    row ← query W (λ t. get_by_id execution.scheduled_task_id t.scheduled)
    task ← lift row
    run_found execution task
