-- ===== src/Deploy/ScheduledTask/Once.antt =====
-- A task is opened once a minute.
use rustify.Docker.{PsLine}
use rustify.Prelude.{
  Option, ℕ, ◌+◌, ◌/◌, ◌≤◌, Bool, true, false, ◌&&◌, Option, none, some, List, [], ◌∷◌, Str, ◌==◌,
  ◌≡◌, refl, arith, inl, inr, Bool-cases, Option-cases, if◌then◌else◌, any, count_if,
  count_if-append,
}
use rustify.Db.ScheduledTasks.{
  ScheduledTask, ScheduledTaskExecution, TaskTables, create_execution, has_execution_since,
  is_since,
}
use rustify.Deploy.Host.{World, Session, continue, ◌>>=◌, lift, query, statement, counted}
use rustify.Deploy.Host.Keeps.{bind_keeps, if_keeps}
use rustify.Deploy.ScheduledTask.Tables.{Tables, resource_running}
use rustify.Deploy.ScheduledTask.Dispatch.{
  minute, minute_start, insert_execution, insert_job, open_execution, dispatch_since,
  dispatch_running, dispatch_task, dispatch_all, dispatch_due_tasks,
}

-- An execution of the task that started in a minute of the clock.
abbrev pub is_in : ℕ → ℕ → ScheduledTaskExecution → Bool
is_in task m e = (e.scheduled_task_id == task) && (e.started_at / minute == m)

abbrev pub IsOnce : TaskTables → Type 0
IsOnce t = (task m : ℕ) → count_if (is_in task m) t.executions ≤ 1

-- With no execution since the minute's start, there is none in that minute.
not_since :
    (task now : ℕ) (es : List ScheduledTaskExecution)
    → any (is_since task (minute_start now)) es ≡ false
    → count_if (is_in task (now / minute)) es ≡ 0
not_since task now [] h = refl
not_since task now (e ∷ es) h = ground (arith, not_since task now es)

create_execution-IsOnce :
    (task : ℕ) (uuid : Str) (now at : ℕ) (t : TaskTables)
    → at / minute ≡ now / minute
    → has_execution_since task (minute_start now) t ≡ false
    → IsOnce t
    → IsOnce (create_execution task uuid at t).1
unfolding create_execution has_execution_since
create_execution-IsOnce task uuid now at t s h once k m =
    rw (count_if-append (is_in k m) t.executions _)
      (ground (arith, once k m, not_since task now t.executions h))

-- The same of a session.
record OnceIn (t : Session Tables) : Type 0 where
  once : IsOnce t.tables.scheduled

module _ (W : World) (from_line : Str → Option PsLine) (is_due : Str → ℕ → Bool)
    (payload : Str → Str) (now : ℕ) (times : (n : ℕ) → W.now n / minute ≡ now / minute) where
  insert_execution-IsOnce :
      (task : ScheduledTask) (t : Session Tables)
      → has_execution_since task.id (minute_start now) t.tables.scheduled ≡ false
      → OnceIn t
      → OnceIn (insert_execution W from_line is_due payload task t).1
  unfolding insert_execution statement
  insert_execution-IsOnce task t h o =
      let s = t.statements in
      if_keeps OnceIn (W.reaches s) _ _
        (record {
          once =
              create_execution-IsOnce task.id (W.uuid s) now (W.now s) t.tables.scheduled (times s)
                h o.once;
        })
        (record { once = o.once })

  insert_job-IsOnce :
      (execution : Str) (t : Session Tables)
      → OnceIn t
      → OnceIn (insert_job W from_line is_due payload execution t).1
  unfolding insert_job statement
  insert_job-IsOnce execution t o =
      if_keeps OnceIn (W.reaches t.statements) _ _ (record { once = o.once })
        (record { once = o.once })

  lift_keeps : {A : Type 0} (r : Option A) (t : Session Tables) → OnceIn t → OnceIn (lift r t).1
  unfolding lift
  lift_keeps r t o = o

  query_keeps :
      {A : Type 0} (f : Tables → A) (t : Session Tables) → OnceIn t → OnceIn (query W f t).1
  unfolding query
  query_keeps f t o = record { once = o.once }

  open_execution-IsOnce :
      (task : ScheduledTask) (t : Session Tables)
      → has_execution_since task.id (minute_start now) t.tables.scheduled ≡ false
      → OnceIn t
      → OnceIn (open_execution W from_line is_due payload task t).1
  unfolding open_execution
  open_execution-IsOnce task t h o =
      bind_keeps OnceIn _ _ t (insert_execution-IsOnce task t h o)
        λ e u o. bind_keeps OnceIn _ _ u (insert_job-IsOnce e u o) λ _ v o. lift_keeps _ v o

  -- The test and the insertion, in one session.
  checked-IsOnce :
      (task : ScheduledTask) (reached since : Bool) (t : Session Tables)
      → has_execution_since task.id (minute_start now) t.tables.scheduled ≡ since
      → OnceIn t
      → OnceIn
          (continue
            (dispatch_since W from_line is_due payload task)
            (if reached then some since else none, t)).1
  unfolding continue
  checked-IsOnce task false since t h o = o
  checked-IsOnce task true true t h o = lift_keeps _ t o
  checked-IsOnce task true false t h o = open_execution-IsOnce task t h o

  dispatch_running-IsOnce :
      (task : ScheduledTask) (running : Bool) (t : Session Tables)
      → OnceIn t
      → OnceIn (dispatch_running W from_line is_due payload now task running t).1
  unfolding dispatch_running query ◌>>=◌
  dispatch_running-IsOnce task false t o = lift_keeps _ t o
  dispatch_running-IsOnce task true t o =
      checked-IsOnce task (W.reaches t.statements) _ (counted t) refl (record { once = o.once })

  resource_running-IsOnce :
      (task : ScheduledTask) (t : Session Tables)
      → OnceIn t
      → OnceIn (resource_running W from_line task t).1
  unfolding resource_running
  resource_running-IsOnce task t o = elim (Option-cases task.application_id) [
    | inr (app, e) ↦ rw e (query_keeps _ t o)
    | inl e ↦ elim (Option-cases task.service_id) [
      | inr (service, f) ↦ rw (e, f) (query_keeps _ t o)
      | inl f ↦ rw (e, f) (lift_keeps _ t o)
    ]
  ]

  dispatch_task-IsOnce :
      (task : ScheduledTask) (t : Session Tables)
      → OnceIn t
      → OnceIn (dispatch_task W from_line is_due payload now task t).1
  unfolding dispatch_task
  dispatch_task-IsOnce task t o = elim (Bool-cases (is_due task.frequency now)) [
    | inr e ↦ rw e (lift_keeps _ t o)
    | inl e ↦ rw e (
        bind_keeps OnceIn (dispatch_running W from_line is_due payload now task) _ t
          (resource_running-IsOnce task t o)
          λ running u o. dispatch_running-IsOnce task running u o)
  ]

  dispatch_all-IsOnce :
      (tasks : List ScheduledTask) (dispatched : ℕ) (t : Session Tables)
      → OnceIn t
      → OnceIn (dispatch_all W from_line is_due payload now tasks dispatched t).1
  unfolding dispatch_all
  dispatch_all-IsOnce [] dispatched t o = lift_keeps _ t o
  dispatch_all-IsOnce (task ∷ tasks) dispatched t o =
      bind_keeps OnceIn _ _ t (dispatch_task-IsOnce task t o)
        λ n u o. dispatch_all-IsOnce tasks (dispatched + n) u o

  -- If no task has two executions that started in one minute, and the clock of the database is in
  -- the minute of the sweep while it goes on, then no task has two after the sweep, whichever
  -- statements fail.
  pub dispatch_due_tasks-IsOnce :
      (t : Session Tables)
      → IsOnce t.tables.scheduled
      → IsOnce (dispatch_due_tasks W from_line is_due payload now t).1.tables.scheduled
  unfolding dispatch_due_tasks
  dispatch_due_tasks-IsOnce t once =
      (bind_keeps OnceIn _ _ t (query_keeps _ t (record { once = once }))
        λ tasks u o. dispatch_all-IsOnce tasks 0 u o).once
