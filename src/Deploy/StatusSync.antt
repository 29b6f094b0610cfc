-- ===== src/Deploy/StatusSync.antt =====
-- crates/rustify-deploy/src/status_sync.rs: the sweep that brings the applications' statuses up to
-- date. `to_lowercase` is the full Unicode mapping.
pub mod Mirror
pub mod Swept
mod Tests
use rustify.Prelude.{
  ℕ, Bool, true, false, not, ◌&&◌, Option, none, some, List, [], ◌∷◌, ◌++◌, Str, str_eq, codes,
  ◌==◌, if◌then◌else◌, filter, find, unwrap_or,
}
use rustify.Prelude.Chars.{trim}
use rustify.Prelude.Int.{ℤ, pos, int_eq, int_leb, parse_i32}
use rustify.Prelude.Keyed.{update_where}
use rustify.Docker.{PsLine, ManagedContainer, parse_containers}
use rustify.Deploy.Host.{
  World, Session, Step, Reply, output, broken, continue, ◌>>=◌, lift, query, statement, exec,
  modify,
}

-- The columns that a sweep reads and writes.
pub record Application : Type 0 where
  pub id : ℕ
  pub uuid : Str
  pub status : Str
  pub restart_count : ℤ
  pub max_restart_count : ℤ

pub record Server : Type 0 where
  pub id : ℕ
  pub uuid : Str
  pub usable : Bool

-- application_status_changed
pub record StatusEvent : Type 0 where
  pub application : Str
  pub status : Str

pub record Tables : Type 0 where
  pub servers : List Server
  pub applications : List Application
  pub events : List StatusEvent

unfoldable pub desired_status : (Str → Str) → Str → Str
unfolding str_eq
desired_status to_lowercase state =
    let s = to_lowercase state in
    if str_eq s (codes "running")
    then codes "running"
    else if str_eq s (codes "restarting")
    then codes "restarting"
    else if str_eq s (codes "paused")
    then codes "paused"
    else if str_eq s (codes "created")
    then codes "created"
    else codes "exited"

abbrev pub inspect_command : Str → Str
inspect_command name = codes "docker inspect --format='{{.RestartCount}}' " ++ name

abbrev pub stop_command : Str → Str
stop_command name = codes "docker stop " ++ (name ++ codes " >/dev/null 2>&1 || true")

abbrev pub ps_command : Str
ps_command = codes "docker ps -a --filter label=rustify.managed=true --format '{{json .}}'"

abbrev pub count_of : Reply → ℤ
count_of (broken e) = pos 0
count_of (output o) = unwrap_or (parse_i32 (trim o.stdout)) (pos 0)

-- `restart_count >= max && max > 0`
abbrev pub crash_loops : ℤ → ℤ → Bool
crash_loops restart_count limit = int_leb limit restart_count && not (int_leb limit (pos 0))

abbrev pub set_application : ℕ → (Application → Application) → Tables → Tables
set_application id f t = record t { applications = update_where (λ a. a.id == id) f t.applications }

module _ (W : World) (from_line : Str → Option PsLine) (to_lowercase : Str → Str) where
  unfoldable pub inspect_restart_count : Str → Str → Session Tables → ℤ × Session Tables
  inspect_restart_count conn name t =
      let (r, u) = exec W conn (inspect_command name) t in (count_of r, u)

  unfoldable pub new_status :
      Str → ManagedContainer → Application → ℤ → Session Tables → Str × Session Tables
  new_status conn c app restart_count t =
      if crash_loops restart_count app.max_restart_count
      then (codes "crashed", (exec W conn (stop_command c.name) t).1)
      else (desired_status to_lowercase c.state, t)

  unfoldable pub set_restart_count : Application → ℤ → Step Tables (Unit {0})
  set_restart_count app restart_count =
      statement W λ _ _ t.
        (tt {0}, set_application app.id (λ a. record a { restart_count = restart_count }) t)

  unfoldable pub set_status : Application → Str → Step Tables (Unit {0})
  set_status app status =
      statement W λ _ _ t. (tt {0}, set_application app.id (λ a. record a { status = status }) t)

  unfoldable pub send_change : Str → Str → Session Tables → Session Tables
  send_change app_uuid status =
      modify W λ t. record t {
        events = t.events ++ record { application = app_uuid; status = status } ∷ [];
      }

  -- An event tells of a status that was written.
  unfoldable pub announce : Str → Str → Option (Unit {0}) × Session Tables → Session Tables
  announce app_uuid status (none, t) = t
  announce app_uuid status (some _, t) = send_change app_uuid status t

  unfoldable pub write_status : Str → Application → Str → Session Tables → Session Tables
  write_status app_uuid app status t =
      if str_eq app.status status then t else announce app_uuid status (set_status app status t)

  unfoldable pub reconcile_app :
      Str → ManagedContainer → Str → Application → Session Tables → Session Tables
  reconcile_app conn c app_uuid app t =
      let (restart_count, t1) = inspect_restart_count conn c.name t in
      let (status, t2) = new_status conn c app restart_count t1 in
      write_status app_uuid app status (set_restart_count app restart_count t2).1

  -- A read that fails skips the container, as does an application that is not there.
  unfoldable pub reconcile_found :
      Str → ManagedContainer → Str → Option (Option Application) × Session Tables → Session Tables
  reconcile_found conn c app_uuid (some (some app), t) = reconcile_app conn c app_uuid app t
  reconcile_found conn c app_uuid (some none, t) = t
  reconcile_found conn c app_uuid (none, t) = t

  abbrev pub reconcile_named : Str → ManagedContainer → Option Str → Session Tables → Session Tables
  reconcile_named conn c none t = t
  reconcile_named conn c (some app_uuid) t =
      reconcile_found conn c app_uuid
        (query W (λ s. find (λ (a : Application). str_eq a.uuid app_uuid) s.applications) t)

  unfoldable pub reconcile : Str → List ManagedContainer → Session Tables → Session Tables
  reconcile conn [] t = t
  reconcile conn (c ∷ cs) t = reconcile conn cs (reconcile_named conn c c.application_uuid t)

  -- A server that does not answer is left for the next sweep.
  unfoldable pub reconcile_reply : Str → Reply × Session Tables → Session Tables
  reconcile_reply conn (broken e, t) = t
  reconcile_reply conn (output o, t) = reconcile conn (parse_containers from_line o.stdout) t

  abbrev pub sync_found : Option Server → Step Tables (Unit {0})
  sync_found none = lift (some tt)
  sync_found (some server) = do
    _ ← query W (λ _. tt {0})
    λ t. (some tt, reconcile_reply server.uuid (exec W server.uuid ps_command t))

  unfoldable pub sync_servers : List Server → Step Tables (Unit {0})
  sync_servers [] = lift (some tt)
  sync_servers (server ∷ servers) = do
    row ← query W (λ t. find (λ (s : Server). str_eq s.uuid server.uuid) t.servers)
    _ ← sync_found row
    sync_servers servers

  unfoldable pub sync_all : Step Tables (Unit {0})
  sync_all = do
    servers ← query W (λ t. filter (λ (s : Server). s.usable) t.servers)
    sync_servers servers
