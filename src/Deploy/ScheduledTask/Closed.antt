-- ===== src/Deploy/ScheduledTask/Closed.antt =====
-- A run of a task ends, and closes its execution.
use rustify.Docker.{PsLine}
use rustify.Prelude.{
  ℕ, ◌+◌, Bool, true, ◌⊎◌, inl, inr, Option, none, some, List, [], ◌∷◌, ◌++◌, Str, codes, ◌==◌, ◌≡◌,
  ◌≢◌, refl, ap, subst, ◌∙◌, arith, Bool-cases, if◌then◌else◌, is_some, In, find, str_eq,
  map_option,
}
use rustify.Prelude.Int.{ℤ}
use rustify.Prelude.Keyed.{row, row-update, row-id, row-of_In, update_where, Unique}
use rustify.Db.ScheduledTasks.{
  ScheduledTask, ScheduledTaskExecution, TaskTables, execution_keyed, get_execution_by_uuid,
  get_by_id, finish_execution, finished,
}
use rustify.Deploy.Host.{
  World, Session, Reply, continue, ◌>>=◌, lift, query, statement, modify, utc_now, counted,
}
use rustify.Deploy.ScheduledTask.Tables.{Tables}
use rustify.Deploy.ScheduledTask.Run.{
  Outcome, success, failure, succeeded, output_of, execute_task, status_of, message_of, details_of,
  finish, send_event, record_outcome, run_found, run_scheduled_task, seconds_between,
}
use rustify.Deploy.ScheduledTask.Runs.{Reported, execute_task-Runs}

-- How an execution is closed: by the output of a script that succeeded, or as failed.
abbrev pub Closes : (ℕ → Reply) → ScheduledTaskExecution → Type 0
Closes reply e =
    ((e.status ≡ codes "success")
      × (n : ℕ) × (succeeded (reply n) ≡ true)
      × (e.message ≡ some (output_of (reply n))))
    ⊎ (e.status ≡ codes "failed")

-- The row that an outcome leaves.
abbrev closed : Outcome → ℤ → ℕ → ScheduledTaskExecution → ScheduledTaskExecution
closed o = finished (status_of o) (some (message_of o)) (details_of o)

closed-Closes :
    (reply : ℕ → Reply) (o : Outcome) (duration : ℤ) (now : ℕ) (e : ScheduledTaskExecution)
    → Reported reply o
    → Closes reply (closed o duration now e)
unfolding finished
closed-Closes reply (success out) duration now e (n, s, q) = inl (refl, n, s, ap some q)
closed-Closes reply (failure f) duration now e h = inr refl

found_In :
    (p : ScheduledTaskExecution → Bool) (xs : List ScheduledTaskExecution)
    (e : ScheduledTaskExecution)
    → find p xs ≡ some e
    → In e xs
found_In p [] e h = cc
found_In p (x ∷ xs) e h = ground (arith, found_In p xs e)

chosen :
    (id : ℕ) (e d : ScheduledTaskExecution) (g : ScheduledTaskExecution → ScheduledTaskExecution)
    (o : Option ScheduledTaskExecution)
    → ((d : ScheduledTaskExecution) → o ≡ some d → d.id ≡ id)
    → id ≢ e.id
    → map_option (λ d. if d.id == e.id then g d else d) o ≡ o
chosen id e d g none h n = refl
chosen id e d g (some x) h n = ground (arith, h x refl)

row-close :
    (id : ℕ) (e : ScheduledTaskExecution) (g : ScheduledTaskExecution → ScheduledTaskExecution)
    (keeps : (d : ScheduledTaskExecution) → (g d).id ≡ d.id) (rows : List ScheduledTaskExecution)
    → row e.id rows ≡ some e
    → row id (update_where (λ d. d.id == e.id) g rows)
      ≡ (if id == e.id then some (g e) else row id rows)
row-close id e g keeps rows h = elim (Bool-cases (id == e.id)) [
  | inl f ↦
      let q : id ≡ e.id = ground (arith, f) in
      rw f (
        row-update (λ d. d.id == e.id) g keeps id rows
        ∙ ap (λ (n : ℕ). map_option (λ d. if d.id == e.id then g d else d) (row n rows)) q
        ∙ ap (map_option (λ d. if d.id == e.id then g d else d)) h
        ∙ ground arith)
  | inr f ↦ rw f (
      row-update (λ d. d.id == e.id) g keeps id rows
      ∙ chosen id e e g (row id rows) (λ d i. row-id id rows d i) (ground (arith, f)))
]

module _ (W : World) (from_line : Str → Option PsLine) (backoff : List ℕ)
    (up : (n : ℕ) → W.reaches n ≡ true) where
  -- What a run of a found execution leaves, from the tables `s`.
  abbrev pub ClosedIn :
      Tables → ScheduledTask → ScheduledTaskExecution → Option (Unit {0}) × Session Tables → Type 0
  ClosedIn s task e r =
      (f : ScheduledTaskExecution) × (r.0 ≡ some tt)
      × ((id : ℕ)
          → row id r.1.tables.scheduled.executions
            ≡ (if id == e.id then some f else row id s.scheduled.executions))
      × (is_some f.finished_at ≡ true)
      × Closes W.reply f
      × (r.1.tables.events
          ≡ s.events ++ record { task = task.uuid; execution = e.uuid; status = f.status } ∷ [])

  record_outcome-Closed :
      (task : ScheduledTask) (e : ScheduledTaskExecution) (duration : ℤ) (o : Outcome)
      (t : Session Tables)
      → row e.id t.tables.scheduled.executions ≡ some e
      → Reported W.reply o
      → ClosedIn t.tables task e (record_outcome W from_line backoff task e duration o t)
  unfolding record_outcome finish statement ◌>>=◌ continue send_event modify finish_execution
  record_outcome-Closed task e duration o t h r =
      let f = closed o duration (W.now t.statements) e in
      rw (up t.statements) (
        f,
        refl,
        λ id.
            row-close id e (closed o duration (W.now t.statements)) (λ d. unfold finished in refl)
              t.tables.scheduled.executions h,
        unfold finished in refl,
        closed-Closes W.reply o duration (W.now t.statements) e r,
        unfold finished in refl,
      )

  ClosedIn-from :
      (s t : Tables) (task : ScheduledTask) (e : ScheduledTaskExecution)
      (r : Option (Unit {0}) × Session Tables)
      → t ≡ s
      → ClosedIn t task e r
      → ClosedIn s task e r
  ClosedIn-from s t task e r q c = subst (λ (x : Tables). ClosedIn x task e r) q c

  run_found-Closed :
      (task : ScheduledTask) (e : ScheduledTaskExecution) (t : Session Tables)
      → row e.id t.tables.scheduled.executions ≡ some e
      → ClosedIn t.tables task e (run_found W from_line backoff e task t)
  unfolding run_found utc_now
  run_found-Closed task e t h =
      let (k, r) =
        execute_task-Runs W from_line backoff t.tables task (counted t) (record { kept = refl }) in
      let (o, u) = execute_task W from_line backoff task (counted t) in
      let seconds = seconds_between (W.now t.statements) (W.now u.statements) in
      ClosedIn-from t.tables u.tables task e
        (record_outcome W from_line backoff task e seconds o (counted u)) k.kept
        (record_outcome-Closed task e seconds o (counted u)
          (ap (λ (x : Tables). row e.id x.scheduled.executions) k.kept ∙ h) r)

  find_In :
      (uuid : Str) (t : TaskTables) (e : ScheduledTaskExecution)
      → get_execution_by_uuid uuid t ≡ some e
      → In e t.executions
  unfolding get_execution_by_uuid
  find_In uuid t e h =
      found_In (λ (x : ScheduledTaskExecution). str_eq x.uuid uuid) t.executions e h

  -- Where the database answers, the run of an execution that is stored with its task succeeds. The
  -- execution is then finished: with the output of a script that exited with zero, or as failed. An
  -- event says which, and every other execution is as before.
  pub run_scheduled_task-Closed :
      (uuid : Str) (e : ScheduledTaskExecution) (task : ScheduledTask) (t : Session Tables)
      → Unique t.tables.scheduled.executions
      → get_execution_by_uuid uuid t.tables.scheduled ≡ some e
      → get_by_id e.scheduled_task_id t.tables.scheduled ≡ some task
      → ClosedIn t.tables task e (run_scheduled_task W from_line backoff uuid t)
  unfolding run_scheduled_task query ◌>>=◌ continue lift
  run_scheduled_task-Closed uuid e task t u h k =
      rw (up t.statements, h, up (t.statements + 1), k)
        (run_found-Closed task e (counted (counted t))
          (row-of_In e t.tables.scheduled.executions u (find_In uuid t.tables.scheduled e h)))
