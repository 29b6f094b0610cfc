-- ===== src/Deploy/ScheduledTask/Tables.antt =====
-- crates/rustify-deploy/src/scheduled_task.rs: the rows that a task's run reads, and where it runs.
use rustify.Prelude.{
  ℕ, Bool, false, Option, none, some, List, [], ◌++◌, map, Str, codes, contains, ◌==◌, find, filter,
  if◌then◌else◌, map_option, unwrap_or,
}
use rustify.Prelude.Chars.{eq_ignore_ascii_case, trim_start_by}
use rustify.Prelude.Int.{decimal}
use rustify.Db.ScheduledTasks.{ScheduledTask, TaskTables}
use rustify.Jobs.Queue.{Jobs}
use rustify.Docker.{PsLine, ManagedContainer, parse_containers}
use rustify.Deploy.Host.{World, Session, Step, Reply, output, broken, ◌>>=◌, lift, query, exec}

-- An application or a service, with the columns that are read.
pub record Resource : Type 0 where
  pub id : ℕ
  pub uuid : Str
  pub status : Str
  pub destination_id : ℕ

pub record ServiceApplication : Type 0 where
  pub service_id : ℕ
  pub name : Str
  pub status : Str

pub record Destination : Type 0 where
  pub id : ℕ
  pub server_id : ℕ

pub record Server : Type 0 where
  pub id : ℕ
  pub uuid : Str

-- scheduled_task_status_changed
pub record TaskEvent : Type 0 where
  pub task : Str
  pub execution : Str
  pub status : Str

pub record Tables : Type 0 where
  pub scheduled : TaskTables
  pub jobs : Jobs
  pub events : List TaskEvent
  pub applications : List Resource
  pub services : List Resource
  pub service_applications : List ServiceApplication
  pub destinations : List Destination
  pub servers : List Server

pub record Target : Type 0 where
  pub destination_id : ℕ
  pub uuid : Str
  pub running : Bool
  pub containers : List Str

abbrev pub is_running : Str → Bool
is_running status = contains (codes "running") status

abbrev pub by_id : ℕ → List Resource → Option Resource
by_id id = find (λ r. r.id == id)

module _ (W : World) (from_line : Str → Option PsLine) where
  -- The server behind a destination; how it is reached is left out.
  unfoldable pub resolve_conn : ℕ → Step Tables Str
  resolve_conn destination_id = do
    found ← query W (λ t. find (λ (d : Destination). d.id == destination_id) t.destinations)
    destination ← lift found
    row ← query W (λ t. find (λ (s : Server). s.id == destination.server_id) t.servers)
    server ← lift row
    _ ← query W (λ _. tt {0})
    lift (some server.uuid)

  abbrev pub container_names : Reply → List Str
  container_names (broken e) = []
  container_names (output o) =
      map (λ (c : ManagedContainer). trim_start_by (λ c. c == 47) c.name)
        (filter (λ c. eq_ignore_ascii_case c.state (codes "running"))
          (parse_containers from_line o.stdout))

  abbrev pub list_running : ℕ → Option Str × Session Tables → List Str × Session Tables
  list_running application_id (none, t) = ([], t)
  list_running application_id (some server, t) =
      let (r, u) =
        exec W server
          (codes "docker ps -a --filter label=rustify.applicationId="
            ++ decimal application_id
            ++ codes " --format '{{json .}}'")
          t in
      (container_names r, u)

  unfoldable pub application_containers : ℕ → ℕ → Session Tables → List Str × Session Tables
  application_containers destination_id application_id t =
      list_running application_id (resolve_conn destination_id t)

  unfoldable pub application_target : ℕ → Step Tables Target
  application_target app_id = do
    found ← query W (λ t. by_id app_id t.applications)
    app ← lift found
    λ t.
        let running = is_running app.status in
        let (names, u) = application_containers app.destination_id app.id t in
        let target = λ (names : List Str).
          let r : Target = record {
            destination_id = app.destination_id;
            uuid = app.uuid;
            running = running;
            containers = names;
          } in
          r in
        if running then (some (target names), u) else (some (target []), t)

  unfoldable pub service_target : ℕ → Step Tables Target
  service_target service_id = do
    found ← query W (λ t. by_id service_id t.services)
    service ← lift found
    children ← query W (λ t. filter (λ a. a.service_id == service.id) t.service_applications)
    lift (
        some (record {
          destination_id = service.destination_id;
          uuid = service.uuid;
          running = is_running service.status;
          containers =
              map (λ (a : ServiceApplication). a.name ++ codes "-" ++ service.uuid)
                (filter (λ a. is_running a.status) children);
        }))

  unfoldable pub resolve_target : ScheduledTask → Step Tables Target
  resolve_target task = elim task.application_id [
    | some app_id ↦ application_target app_id
    | none ↦ elim task.service_id [ some service_id ↦ service_target service_id | none ↦ lift none ]
  ]

  -- Whether the row of the resource says that it runs; a missing row does not.
  unfoldable pub resource_running : ScheduledTask → Step Tables Bool
  resource_running task = elim task.application_id [
    | some app_id ↦ query W (λ t.
        unwrap_or (map_option (λ (r : Resource). is_running r.status) (by_id app_id t.applications))
          false)
    | none ↦ elim task.service_id [
      | some service_id ↦ query W (λ t.
          unwrap_or
            (map_option (λ (r : Resource). is_running r.status) (by_id service_id t.services))
            false)
      | none ↦ lift (some false)
    ]
  ]
