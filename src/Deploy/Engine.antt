-- ===== src/Deploy/Engine.antt =====
-- crates/rustify-deploy/src/engine.rs (claim, set_status, persist_commit, clone_repo, run_deployment)
-- and admission.rs: how a deploy job drives its row through the state machine, and drains the queue.
-- `payload` is the JSON that serde_json writes; log lines and pull request comments are left out. A
-- statement that does not reach the database is an error and changes nothing.
pub mod Changes
pub mod Conclusion
mod Tests
use rustify.Prelude.{
  ℕ, Bool, true, false, ◌&&◌, Option, none, some, List, [], ◌∷◌, ◌++◌, Str, codes, if◌then◌else◌,
  ◌≡◌, refl, ◌==◌,
}
use rustify.Prelude.Keyed.{update_where}
use rustify.Core.Status.{DeploymentStatus, in_progress, finished, failed, cancelled, status_eq}
use rustify.Db.Deployments.{Deployment, Table, transition, get_by_uuid, next_queuable}
use rustify.Jobs.Queue.{Jobs, enqueue}

-- What every task of the process shares: two tables and the event bus.
pub record Shared : Type 0 where
  pub deployments : Table
  pub jobs : Jobs
  pub events : List (Str × DeploymentStatus)

-- How steps 2-8 ended.
pub data Outcome : Type 0 where
  succeeded was_cancelled errored : Outcome

abbrev pub deploy_job_kind : Str
deploy_job_kind = codes "deploy"

-- The job's deployment.
pub record Target : Type 0 where
  pub id : ℕ
  pub uuid : Str
  pub server : ℕ

-- Which statements of a run reach the database: the two of the claim, the one that concludes, and
-- the two that drain the queue.
pub record Reached : Type 0 where
  pub started : Bool
  pub looked_up : Bool
  pub concluded : Bool
  pub admitted : Bool
  pub enqueued : Bool

-- No flag is a database error.
unfoldable pub set_status : Bool → Target → DeploymentStatus → ℕ → Shared → Option Bool × Shared
set_status reached d status now s =
    let (moved, t) = transition d.id status now s.deployments in
    if reached
    then (
      some moved,
      record s {
        deployments = t;
        events = if moved then s.events ++ (d.uuid, status) ∷ [] else s.events;
      },
    )
    else (none, s)

-- The UPDATE of persist_commit.
unfoldable pub set_commit_sha : ℕ → Str → Table → Table
set_commit_sha id sha t = record t {
  rows = update_where (λ d. d.id == id) (λ d. record d { commit_sha = some sha }) t.rows;
}

-- The UPDATE of clone_repo.
unfoldable pub set_commit_message : ℕ → Str → Table → Table
set_commit_message id message t = record t {
  rows = update_where (λ d. d.id == id) (λ d. record d { commit_message = some message }) t.rows;
}

-- A row that is in progress already was claimed by admission control.
unfoldable pub was_admitted : Str → Table → Bool
was_admitted uuid t = elim (get_by_uuid uuid t) [
  | none ↦ false
  | some current ↦ status_eq current.status in_progress
]

-- The row is looked at only if the transition did not move it.
abbrev pub after_transition : Bool → Target → Option Bool × Shared → Option Bool × Shared
after_transition looked_up d (none, s) = (none, s)
after_transition looked_up d (some true, s) = (some true, s)
after_transition looked_up d (some false, s) =
    (if looked_up then some (was_admitted d.uuid s.deployments) else none, s)

unfoldable pub claim : Reached → Target → ℕ → Shared → Option Bool × Shared
claim reached d now s =
    after_transition reached.looked_up d (set_status reached.started d in_progress now s)

unfoldable pub conclusion : Outcome → DeploymentStatus
conclusion succeeded = finished
conclusion was_cancelled = cancelled
conclusion errored = failed

module _ (payload : Str → Str) where
  -- If only the INSERT of the job fails, the row stays in progress with no job. No answer is an error.
  unfoldable pub queue_next :
      Reached → (ℕ → Bool) → ℕ → Option ℕ → ℕ → Shared → Option (Option Str) × Shared
  queue_next reached locked server limit now s =
      let (claimed, t) = next_queuable locked server limit now s.deployments in
      let moved = record s { deployments = t } in
      if reached.admitted
      then (elim claimed [
        | none ↦ (some none, moved)
        | some d ↦
            if reached.enqueued
            then (
              some (some d.uuid),
              record moved {
                jobs = (enqueue deploy_job_kind (payload d.uuid) none now s.jobs).1;
                events = s.events ++ (d.uuid, in_progress) ∷ [];
              },
            )
            else (none, moved)
      ])
      else (none, s)

  -- The end of a run: a database error of the last transition is returned at once, and the answer of
  -- `queue_next` is ignored.
  unfoldable pub conclude :
      Reached → (ℕ → Bool) → Option ℕ → ℕ → Target → Outcome → Shared → Bool × Shared
  unfolding set_status queue_next conclusion
  conclude reached locked limit later d outcome s =
      let (moved, s') = set_status reached.concluded d (conclusion outcome) later s in
      elim moved [
        | none ↦ (false, s')
        | some m ↦ (true, (queue_next reached locked d.server limit later s').1)
      ]

  -- `d` is what `prepare` found for the job, and `steps` are the steps 2-9, during which other tasks
  -- go on; the job starts at `now` and ends at `later`. The flag is the answer to the job queue:
  -- false is an error, on which the job is tried again.
  unfoldable pub run_deployment :
      Reached
      → (Shared → Outcome × Shared)
      → (ℕ → Bool)
      → Option ℕ
      → ℕ
      → ℕ
      → Target
      → Shared
      → Bool × Shared
  unfolding claim conclude
  run_deployment reached steps locked limit now later d s =
      let (claimed, s1) = claim reached d now s in
      let (outcome, s2) = steps s1 in
      elim claimed [
        | none ↦ (false, s1)
        | some won ↦ if won then conclude reached locked limit later d outcome s2 else (true, s1)
      ]
