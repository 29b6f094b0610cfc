-- ===== src/Db/Deployments.antt =====
-- crates/rustify-db/src/repos/deployments.rs: the queue of deployments. A table is the list of
-- its rows in the order of insertion; `now` is the time of the transaction.
pub mod Legality
pub mod History
pub mod Frozen
pub mod Admission
mod Tests
use rustify.Prelude.{
  ℕ, ◌+◌, Bool, false, not, ◌&&◌, ◌||◌, Option, none, some, List, [], ◌∷◌, ◌++◌, map, Str, str_eq,
  ◌==◌, ltb, if◌then◌else◌, filter, count_if, any, find, map_option, unwrap_or,
}
use rustify.Prelude.Int.{ℤ, int_eq}
use rustify.Prelude.Keyed.{Keyed, update_where}
use rustify.Core.Status.{
  DeploymentStatus, queued, in_progress, cancelled, is_terminal, status_eq, can_transition_to,
  all_statuses,
}

pub record Deployment : Type 0 where
  pub id : ℕ
  pub uuid : Str
  pub application_id : ℕ
  pub server_id : ℕ
  pub status : DeploymentStatus
  pub commit_sha : Option Str
  pub commit_message : Option Str
  pub force_rebuild : Bool
  pub rollback : Bool
  pub config_snapshot : Option Str  -- the JSON document as text
  pub pull_request_id : ℤ
  pub git_type : Option Str
  pub started_at : Option ℕ
  pub finished_at : Option ℕ
  pub created_at : ℕ

instance abbrev pub deployment_keyed : Keyed Deployment
deployment_keyed = record { key = λ d. d.id }

pub record NewDeployment : Type 0 where
  pub application_id : ℕ
  pub server_id : ℕ
  pub commit_sha : Option Str
  pub commit_message : Option Str
  pub force_rebuild : Bool
  pub rollback : Bool
  pub config_snapshot : Option Str
  pub pull_request_id : ℤ
  pub git_type : Option Str

-- The rows, and the next value of the `BIGSERIAL` id.
pub record Table : Type 0 where
  pub rows : List Deployment
  pub next_id : ℕ

-- `uuid` is what `ids::new_uuid` drew.
unfoldable pub create_queued : NewDeployment → Str → ℕ → Table → Deployment × Table
create_queued new uuid now t =
    let row : Deployment = record {
      id = t.next_id;
      uuid = uuid;
      application_id = new.application_id;
      server_id = new.server_id;
      status = queued;
      commit_sha = new.commit_sha;
      commit_message = new.commit_message;
      force_rebuild = new.force_rebuild;
      rollback = new.rollback;
      config_snapshot = new.config_snapshot;
      pull_request_id = new.pull_request_id;
      git_type = new.git_type;
      started_at = none;
      finished_at = none;
      created_at = now;
    } in
    (row, record { rows = t.rows ++ row ∷ []; next_id = t.next_id + 1 })

-- The states from which `next` is legal.
unfoldable pub legal_predecessors : DeploymentStatus → List DeploymentStatus
legal_predecessors next = filter (λ from. can_transition_to from next) all_statuses

-- `status = ANY(froms)`
abbrev is_any : DeploymentStatus → List DeploymentStatus → Bool
is_any s = any (λ from. status_eq s from)

-- The row that `transition` selects, and what it writes there.
abbrev selects : ℕ → DeploymentStatus → Deployment → Bool
selects id next d = (d.id == id) && is_any d.status (legal_predecessors next)

unfoldable pub moved_to : DeploymentStatus → ℕ → Deployment → Deployment
unfolding status_eq is_terminal
moved_to next now d = record d {
  status = next;
  started_at = if status_eq next in_progress then some now else d.started_at;
  finished_at = if is_terminal next then some now else d.finished_at;
}

unfoldable pub transition : ℕ → DeploymentStatus → ℕ → Table → Bool × Table
unfolding moved_to legal_predecessors status_eq can_transition_to
transition id next now t = (
  count_if (selects id next) t.rows == 1,
  record t { rows = update_where (selects id next) (moved_to next now) t.rows },
)

-- `status IN ('queued', 'in_progress')` for a pull request of an application.
abbrev is_active_for : ℕ → ℤ → Deployment → Bool
is_active_for app pr d =
    (d.application_id == app)
    && int_eq d.pull_request_id pr
    && (status_eq d.status queued || status_eq d.status in_progress)

unfoldable pub cancel : ℕ → Deployment → Deployment
cancel now d = record d { status = cancelled; finished_at = some now }

unfoldable pub cancel_active_for_pr : ℕ → ℤ → ℕ → Table → List Deployment × Table
unfolding cancel status_eq
cancel_active_for_pr app pr now t = (
  map (cancel now) (filter (is_active_for app pr) t.rows),
  record t { rows = update_where (is_active_for app pr) (cancel now) t.rows },
)

-- A missing row is no request.
unfoldable pub cancel_requested : ℕ → Table → Bool
unfolding status_eq
cancel_requested id t =
    unwrap_or (map_option (λ d. status_eq d.status cancelled) (find (λ d. d.id == id) t.rows)) false

unfoldable pub get_by_uuid : Str → Table → Option Deployment
get_by_uuid uuid t = find (λ d. str_eq d.uuid uuid) t.rows

-- ORDER BY created_at DESC, id DESC: `a` is listed before `b`.
abbrev newer : Deployment → Deployment → Bool
newer a b = ltb b.created_at a.created_at || ((a.created_at == b.created_at) && ltb b.id a.id)

insert_newest : Deployment → List Deployment → List Deployment
insert_newest d [] = d ∷ []
insert_newest d (e ∷ es) = if newer e d then e ∷ insert_newest d es else d ∷ e ∷ es

sort_newest : List Deployment → List Deployment
unfolding insert_newest
sort_newest [] = []
sort_newest (d ∷ ds) = insert_newest d (sort_newest ds)

unfoldable pub list_by_application : ℕ → Table → List Deployment
unfolding sort_newest
list_by_application app t = sort_newest (filter (λ d. d.application_id == app) t.rows)

-- Admission control. `limit` is the server's `concurrent_builds` if it has a settings row.
abbrev in_flight_for_app : ℕ → Deployment → Bool
in_flight_for_app app d = (d.application_id == app) && status_eq d.status in_progress

abbrev in_flight_on : ℕ → Deployment → Bool
in_flight_on server d = (d.server_id == server) && status_eq d.status in_progress

-- The WHERE clause of the inner SELECT; `locked` are the rows that `SKIP LOCKED` passes over.
unfoldable pub is_admissible : (ℕ → Bool) → ℕ → Option ℕ → List Deployment → Deployment → Bool
unfolding status_eq
is_admissible locked server limit rows d =
    (d.server_id == server)
    && status_eq d.status queued
    && not (any (in_flight_for_app d.application_id) rows)
    && ltb (count_if (in_flight_on server) rows) (unwrap_or limit 2)
    && not (locked d.id)

-- ORDER BY created_at, id LIMIT 1.
abbrev older : Deployment → Deployment → Bool
older a b = ltb a.created_at b.created_at || ((a.created_at == b.created_at) && ltb a.id b.id)

oldest : List Deployment → Option Deployment
oldest [] = none
oldest (d ∷ ds) = elim (oldest ds) [ none ↦ some d | some e ↦ if older e d then some e else some d ]

unfoldable pub started : ℕ → Deployment → Deployment
started now d = record d { status = in_progress; started_at = some now }

-- UPDATE … WHERE id = (…) RETURNING: with no candidate nothing changes.
claim_row : ℕ → Option Deployment → Table → Option Deployment × Table
unfolding started
claim_row now none t = (none, t)
claim_row now (some d) t = (
  some (started now d),
  record t { rows = update_where (λ e. e.id == d.id) (started now) t.rows },
)

unfoldable pub next_queuable : (ℕ → Bool) → ℕ → Option ℕ → ℕ → Table → Option Deployment × Table
unfolding is_admissible oldest claim_row
next_queuable locked server limit now t =
    claim_row now (oldest (filter (is_admissible locked server limit t.rows) t.rows)) t
