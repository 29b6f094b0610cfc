-- ===== src/Db/ScheduledTasks.antt =====
-- crates/rustify-db/src/repos/scheduled_tasks.rs: the tasks and their executions. Rows stand in the
-- order of their ids; times are nanoseconds.
use rustify.Prelude.{
  ℕ, ◌+◌, Bool, true, false, not, ◌&&◌, ◌||◌, Option, none, some, List, [], ◌∷◌, ◌++◌, Str, str_eq,
  codes, ◌==◌, ltb, leb, if◌then◌else◌, filter, find, any, take, count_if, unwrap_or,
}
use rustify.Prelude.Int.{ℤ, pos}
use rustify.Prelude.Keyed.{Keyed, update_where}

pub record ScheduledTask : Type 0 where
  pub id : ℕ
  pub uuid : Str
  pub enabled : Bool
  pub name : Str
  pub command : Str
  pub frequency : Str
  pub container : Option Str
  pub timeout : ℤ
  pub team_id : Option ℕ
  pub application_id : Option ℕ
  pub service_id : Option ℕ
  pub created_at : ℕ
  pub updated_at : ℕ

pub record ScheduledTaskExecution : Type 0 where
  pub id : ℕ
  pub uuid : Str
  pub scheduled_task_id : ℕ
  pub status : Str
  pub message : Option Str
  pub error_details : Option Str
  pub started_at : ℕ
  pub finished_at : Option ℕ
  pub duration : Option ℤ

instance abbrev pub execution_keyed : Keyed ScheduledTaskExecution
execution_keyed = record { key = λ e. e.id }

pub record NewScheduledTask : Type 0 where
  pub name : Str
  pub command : Str
  pub frequency : Str
  pub container : Option Str
  pub timeout : Option ℤ
  pub team_id : Option ℕ
  pub application_id : Option ℕ
  pub service_id : Option ℕ

pub record ScheduledTaskPatch : Type 0 where
  pub enabled : Option Bool
  pub name : Option Str
  pub command : Option Str
  pub frequency : Option Str
  pub container : Option Str
  pub timeout : Option ℤ

pub record TaskTables : Type 0 where
  pub tasks : List ScheduledTask
  pub executions : List ScheduledTaskExecution
  pub next_id : ℕ

-- A task with neither resource is refused by the table's CHECK.
unfoldable pub create : NewScheduledTask → Str → ℕ → TaskTables → Option ScheduledTask × TaskTables
create new uuid now t =
    let row : ScheduledTask = record {
      id = t.next_id;
      uuid = uuid;
      enabled = true;
      name = new.name;
      command = new.command;
      frequency = new.frequency;
      container = new.container;
      timeout = unwrap_or new.timeout (pos 300);
      team_id = new.team_id;
      application_id = new.application_id;
      service_id = new.service_id;
      created_at = now;
      updated_at = now;
    } in
    elim new.application_id [
      | some _ ↦ (some row, record t { tasks = t.tasks ++ row ∷ []; next_id = t.next_id + 1 })
      | none ↦ elim new.service_id [
        | some _ ↦ (some row, record t { tasks = t.tasks ++ row ∷ []; next_id = t.next_id + 1 })
        | none ↦ (none, t)
      ]
    ]

unfoldable pub get_by_uuid : Str → TaskTables → Option ScheduledTask
unfolding str_eq
get_by_uuid uuid t = find (λ r. str_eq r.uuid uuid) t.tasks

unfoldable pub get_by_id : ℕ → TaskTables → Option ScheduledTask
get_by_id id t = find (λ r. r.id == id) t.tasks

abbrev is_option : ℕ → Option ℕ → Bool
is_option id none = false
is_option id (some n) = n == id

unfoldable pub list_by_application : ℕ → TaskTables → List ScheduledTask
list_by_application id t = filter (λ r. is_option id r.application_id) t.tasks

unfoldable pub list_by_service : ℕ → TaskTables → List ScheduledTask
list_by_service id t = filter (λ r. is_option id r.service_id) t.tasks

unfoldable pub list_enabled : TaskTables → List ScheduledTask
list_enabled t = filter (λ r. r.enabled) t.tasks

abbrev coalesce : {A : Type 0} → Option A → Option A → Option A
coalesce none b = b
coalesce (some a) b = some a

unfoldable pub patched : ScheduledTaskPatch → ℕ → ScheduledTask → ScheduledTask
patched patch now r = record r {
  enabled = unwrap_or patch.enabled r.enabled;
  name = unwrap_or patch.name r.name;
  command = unwrap_or patch.command r.command;
  frequency = unwrap_or patch.frequency r.frequency;
  container = coalesce patch.container r.container;
  timeout = unwrap_or patch.timeout r.timeout;
  updated_at = now;
}

unfoldable pub update :
    Str → ScheduledTaskPatch → ℕ → TaskTables → Option ScheduledTask × TaskTables
unfolding patched get_by_uuid
update uuid patch now t =
    let t' : TaskTables = record t {
      tasks = update_where (λ r. str_eq r.uuid uuid) (patched patch now) t.tasks;
    } in
    (get_by_uuid uuid t', t')

-- The executions of a task go with it (ON DELETE CASCADE).
unfoldable pub delete : Str → TaskTables → Bool × TaskTables
unfolding str_eq
delete uuid t = (
  count_if (λ r. str_eq r.uuid uuid) t.tasks == 1,
  record t {
    tasks = filter (λ r. not (str_eq r.uuid uuid)) t.tasks;
    executions =
        filter (λ e. not (any (λ r. str_eq r.uuid uuid && (r.id == e.scheduled_task_id)) t.tasks))
          t.executions;
  },
)

unfoldable pub create_execution : ℕ → Str → ℕ → TaskTables → ScheduledTaskExecution × TaskTables
create_execution task uuid now t =
    let row : ScheduledTaskExecution = record {
      id = t.next_id;
      uuid = uuid;
      scheduled_task_id = task;
      status = codes "running";
      message = none;
      error_details = none;
      started_at = now;
      finished_at = none;
      duration = none;
    } in
    (row, record t { executions = t.executions ++ row ∷ []; next_id = t.next_id + 1 })

unfoldable pub get_execution_by_uuid : Str → TaskTables → Option ScheduledTaskExecution
unfolding str_eq
get_execution_by_uuid uuid t = find (λ e. str_eq e.uuid uuid) t.executions

unfoldable pub finished :
    Str → Option Str → Option Str → ℤ → ℕ → ScheduledTaskExecution → ScheduledTaskExecution
finished status message error_details duration now e = record e {
  status = status;
  message = message;
  error_details = error_details;
  finished_at = some now;
  duration = some duration;
}

unfoldable pub finish_execution :
    ℕ → Str → Option Str → Option Str → ℤ → ℕ → TaskTables → TaskTables
unfolding finished
finish_execution id status message error_details duration now t = record t {
  executions =
      update_where (λ e. e.id == id) (finished status message error_details duration now)
        t.executions;
}

-- ORDER BY started_at DESC, id DESC LIMIT $2
abbrev newer : ScheduledTaskExecution → ScheduledTaskExecution → Bool
newer a b = ltb b.started_at a.started_at || ((a.started_at == b.started_at) && ltb b.id a.id)

insert_newest : ScheduledTaskExecution → List ScheduledTaskExecution → List ScheduledTaskExecution
insert_newest d [] = d ∷ []
insert_newest d (e ∷ es) = if newer e d then e ∷ insert_newest d es else d ∷ e ∷ es

sort_newest : List ScheduledTaskExecution → List ScheduledTaskExecution
unfolding insert_newest
sort_newest [] = []
sort_newest (d ∷ ds) = insert_newest d (sort_newest ds)

unfoldable pub executions : ℕ → ℕ → TaskTables → List ScheduledTaskExecution
unfolding sort_newest
executions task limit t =
    take limit (sort_newest (filter (λ e. e.scheduled_task_id == task) t.executions))

abbrev pub is_since : ℕ → ℕ → ScheduledTaskExecution → Bool
is_since task since e = (e.scheduled_task_id == task) && leb since e.started_at

unfoldable pub has_execution_since : ℕ → ℕ → TaskTables → Bool
has_execution_since task since t = any (is_since task since) t.executions
