-- ===== src/Deploy/ScheduledTask/Dispatch.antt =====
-- crates/rustify-deploy/src/scheduled_task.rs: the sweep that opens the executions that are due.
-- `is_due` stands for that of Core/Cron, given the parser and matcher of the croner crate.
use rustify.Docker.{PsLine}
use rustify.Prelude.{
  Option, ℕ, ◌+◌, ◌-◌, ◌*◌, ◌%◌, ◌^◌, Bool, true, false, not, none, some, List, [], ◌∷◌, Str, codes,
  if◌then◌else◌,
}
use rustify.Db.ScheduledTasks.{ScheduledTask, list_enabled, has_execution_since, create_execution}
use rustify.Jobs.Queue.{enqueue}
use rustify.Deploy.Host.{World, Step, ◌>>=◌, lift, query, statement}
use rustify.Deploy.ScheduledTask.Tables.{Tables, resource_running}

abbrev pub minute : ℕ
minute = 60 * 10 ^ 9

-- `with_second(0)` and `with_nanosecond(0)`
abbrev pub minute_start : ℕ → ℕ
minute_start now = now - now % minute

abbrev pub scheduled_task_kind : Str
scheduled_task_kind = codes "scheduled_task"

module _ (W : World) (from_line : Str → Option PsLine) (is_due : Str → ℕ → Bool)
    (payload : Str → Str) where
  unfoldable pub insert_execution : ScheduledTask → Step Tables Str
  insert_execution task = statement W λ uuid now t.
      let (e, s) = create_execution task.id uuid now t.scheduled in
      (e.uuid, record t { scheduled = s })

  unfoldable pub insert_job : Str → Step Tables (Unit {0})
  insert_job execution = statement W λ _ now t. (
    tt {0},
    record t { jobs = (enqueue scheduled_task_kind (payload execution) none now t.jobs).1 },
  )

  -- The execution's row, and then its job.
  unfoldable pub open_execution : ScheduledTask → Step Tables ℕ
  open_execution task = do
    execution ← insert_execution task
    _ ← insert_job execution
    lift (some 1)

  abbrev pub dispatch_since : ScheduledTask → Bool → Step Tables ℕ
  dispatch_since task true = lift (some 0)
  dispatch_since task false = open_execution task

  unfoldable pub dispatch_running : ℕ → ScheduledTask → Bool → Step Tables ℕ
  dispatch_running now task false = lift (some 0)
  dispatch_running now task true = do
    since ← query W (λ t. has_execution_since task.id (minute_start now) t.scheduled)
    dispatch_since task since

  -- How many executions this opens, none or one.
  unfoldable pub dispatch_task : ℕ → ScheduledTask → Step Tables ℕ
  dispatch_task now task =
      let checked = resource_running W from_line task >>= dispatch_running now task in
      if not (is_due task.frequency now) then lift (some 0) else checked

  unfoldable pub dispatch_all : ℕ → List ScheduledTask → ℕ → Step Tables ℕ
  dispatch_all now [] dispatched = lift (some dispatched)
  dispatch_all now (task ∷ tasks) dispatched = do
    n ← dispatch_task now task
    dispatch_all now tasks (dispatched + n)

  unfoldable pub dispatch_due_tasks : ℕ → Step Tables ℕ
  dispatch_due_tasks now = do
    tasks ← query W (λ t. list_enabled t.scheduled)
    dispatch_all now tasks 0
