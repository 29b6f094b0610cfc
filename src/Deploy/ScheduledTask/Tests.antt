-- ===== src/Deploy/ScheduledTask/Tests.antt =====
-- A task of a service, opened twice and run.
use rustify.Docker.{PsLine}
use rustify.Prelude.{
  Option, none, ℕ, ◌*◌, Bool, true, some, [], ◌∷◌, ◌++◌, Str, codes, ◌≡◌, refl, arith, length,
  if◌then◌else◌, ◌==◌,
}
use rustify.Prelude.Int.{pos}
use rustify.Db.ScheduledTasks.{
  ScheduledTask, ScheduledTaskExecution, get_execution_by_uuid, get_by_id,
}
use rustify.Deploy.Host.{World, Session, Reply, output}
use rustify.Deploy.ScheduledTask.Tables.{Tables}
use rustify.Deploy.ScheduledTask.Dispatch.{minute, dispatch_due_tasks}
use rustify.Deploy.ScheduledTask.Once.{IsOnce, dispatch_due_tasks-IsOnce}
use rustify.Deploy.ScheduledTask.Run.{
  success, run_with_retry, run_scheduled_task, scheduled_task_tries,
}
use rustify.Deploy.ScheduledTask.Retries.{copies, Tried, run_with_retry-Tried}
use rustify.Deploy.ScheduledTask.Closed.{ClosedIn, run_scheduled_task-Closed}

abbrev task : ScheduledTask
task = record {
  id = 4;
  uuid = codes "t";
  enabled = true;
  name = codes "clean";
  command = codes "ls";
  frequency = codes "hourly";
  container = none;
  timeout = pos 300;
  team_id = none;
  application_id = none;
  service_id = some 2;
  created_at = 0;
  updated_at = 0;
}

abbrev execution : ScheduledTaskExecution
execution = record {
  id = 7;
  uuid = codes "e";
  scheduled_task_id = 4;
  status = codes "running";
  message = none;
  error_details = none;
  started_at = 0;
  finished_at = none;
  duration = none;
}

-- The first try fails, the second prints a line.
abbrev replies : ℕ → Reply
replies n =
    output
      (record { exit_code = if n == 0 then pos 1 else pos 0; stdout = codes "done "; stderr = [] })

abbrev world : World
world = record {
  reaches = λ _. true;
  now = λ _. minute * 3;
  uuid = λ n. n ∷ [];
  reply = replies;
  error_text = [];
}

abbrev session : Session Tables
session = record {
  statements = 0;
  trace = [];
  sleeps = [];
  tables = record {
    scheduled = record { tasks = task ∷ []; executions = execution ∷ []; next_id = 8 };
    jobs = record { rows = []; next_id = 1 };
    events = [];
    applications = [];
    services =
        record { id = 2; uuid = codes "s"; status = codes "running:healthy"; destination_id = 1 }
        ∷ [];
    service_applications =
        record { service_id = 2; name = codes "web"; status = codes "running" } ∷ [];
    destinations = record { id = 1; server_id = 3 } ∷ [];
    servers = record { id = 3; uuid = codes "h" } ∷ [];
  };
}

abbrev parse : Str → Option PsLine
parse _ = none

abbrev due : Str → ℕ → Bool
due _ _ = true

start-IsOnce : IsOnce session.tables.scheduled
start-IsOnce task m = ground arith

dispatch_due_tasks-IsOnce_example :
    IsOnce (dispatch_due_tasks world parse due (λ u. u) (minute * 3) session).1.tables.scheduled
dispatch_due_tasks-IsOnce_example =
    dispatch_due_tasks-IsOnce world parse due (λ u. u) (minute * 3) (λ _. refl) session start-IsOnce

run_with_retry-Tried_example :
    ((m : ℕ) × ((run_with_retry world (30 ∷ 60 ∷ []) (codes "h") (codes "ls") session).1.trace
        ≡ session.trace ++ copies m (codes "h", codes "ls")))
    × Tried replies 0 scheduled_task_tries
        (run_with_retry world (30 ∷ 60 ∷ []) (codes "h") (codes "ls") session).0
        (length (run_with_retry world (30 ∷ 60 ∷ []) (codes "h") (codes "ls") session).1.trace)
run_with_retry-Tried_example =
    run_with_retry-Tried world (30 ∷ 60 ∷ []) (codes "h") (codes "ls") session

retried :
    (run_with_retry world (30 ∷ 60 ∷ []) (codes "h") (codes "ls") session).0
    ≡ success (codes "done")
unfolding run_with_retry
retried = refl

run_scheduled_task-Closed_example :
    ClosedIn world parse
      (30 ∷ 60 ∷ [])
      (λ _. refl)
      session.tables
      task
      execution
      (run_scheduled_task world parse (30 ∷ 60 ∷ []) (codes "e") session)
run_scheduled_task-Closed_example =
    run_scheduled_task-Closed world parse (30 ∷ 60 ∷ []) (λ _. refl) (codes "e") execution task
      session (tt, tt) (unfold get_execution_by_uuid in refl) (unfold get_by_id in refl)
