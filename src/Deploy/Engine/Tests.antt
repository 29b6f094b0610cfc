-- ===== src/Deploy/Engine/Tests.antt =====
-- A deploy job on a server whose slots are taken.
use rustify.Prelude.Int.{pos}
use rustify.Prelude.{ℕ, Bool, true, false, none, some, [], ◌∷◌, ◌≡◌, refl, arith, codes}
use rustify.Prelude.Keyed.{row}
use rustify.Core.Status.{queued, in_progress, finished, status_eq, is_terminal}
use rustify.Db.Deployments.{Deployment, deployment_keyed, moved_to, is_admissible, transition}
use rustify.Db.Deployments.History.{IsValid, move}
use rustify.Deploy.Engine.{
  Shared, Target, Outcome, errored, Reached, set_status, set_commit_sha, set_commit_message, claim,
  run_deployment,
}
use rustify.Deploy.Engine.Changes.{Changes, unchanged, then_by, operates, sets_sha, sets_message}
use rustify.Deploy.Engine.Conclusion.{claim_unadmitted, run_deployment-IsTerminal}

abbrev waiting : Deployment
waiting = record {
  id = 1;
  uuid = codes "a";
  application_id = 3;
  server_id = 7;
  status = queued;
  commit_sha = none;
  commit_message = none;
  force_rebuild = false;
  rollback = false;
  config_snapshot = none;
  pull_request_id = pos 0;
  git_type = none;
  started_at = none;
  finished_at = none;
  created_at = 50;
}

-- Of the same application, and running.
abbrev busy : Deployment
busy = record waiting { id = 2; uuid = codes "b"; status = in_progress; started_at = some 60 }

abbrev shared : Shared
shared = record {
  deployments = record { rows = waiting ∷ busy ∷ []; next_id = 3 };
  jobs = record { rows = []; next_id = 1 };
  events = [];
}

abbrev target : Target
target = record { id = 1; uuid = codes "a"; server = 7 }

abbrev no_locks : ℕ → Bool
no_locks _ = false

abbrev all_reach : Reached
all_reach = record {
  started = true;
  looked_up = true;
  concluded = true;
  admitted = true;
  enqueued = true;
}

-- The run's engine writes its commit, while another run of the process ends.
abbrev steps : Shared → Outcome × Shared
steps s =
    let t1 = set_commit_sha 1 (codes "c0ffee") s.deployments in
    let t2 = (transition 2 finished 150 t1).1 in
    (errored, record s { deployments = set_commit_message 1 (codes "fix") t2 })

steps-Changes : (t : Shared) → Changes t.deployments (steps t).1.deployments
steps-Changes t =
    then_by
      (then_by (then_by unchanged (sets_sha 1 (codes "c0ffee"))) (operates (move 2 finished 150)))
      (sets_message 1 (codes "fix"))

refused : is_admissible no_locks 7 none shared.deployments.rows waiting ≡ false
unfolding is_admissible
refused = refl

shared-IsValid : IsValid shared.deployments
unfolding is_terminal status_eq
shared-IsValid = record {
  unique = ((omega arith, tt), (tt, tt));
  below = (omega arith, (omega arith, tt));
  consistent = (
    record { ended = refl; waiting = λ _. refl; running = λ h. ground arith },
    (record { ended = refl; waiting = λ h. ground arith; running = λ _. refl }, tt),
  );
}

claim_unadmitted_example :
    ((claim all_reach target 100 shared).0 ≡ some true)
    × (row 1 (claim all_reach target 100 shared).1.deployments.rows
        ≡ some (moved_to in_progress 100 waiting))
claim_unadmitted_example =
    claim_unadmitted all_reach no_locks none target 100 shared waiting refl shared-IsValid.unique
      refl refl refused

-- The job of the freed slot is not enqueued.
abbrev no_job : Reached
no_job = record all_reach { enqueued = false }

wins : (claim no_job target 100 shared).0 ≡ some true
unfolding claim set_status transition
wins = refl

run_deployment-IsTerminal_example :
    ((run_deployment (λ uuid. uuid) no_job steps no_locks none 100 200 target shared).0 ≡ true)
    × (e : Deployment) × (row 1
          (run_deployment
            (λ uuid. uuid)
            no_job
            steps
            no_locks
            none
            100
            200
            target
            shared).1.deployments.rows
        ≡ some e)
    × (is_terminal e.status ≡ true)
run_deployment-IsTerminal_example =
    run_deployment-IsTerminal (λ uuid. uuid) no_job steps no_locks none 100 200 target shared
      waiting shared-IsValid refl wins refl steps-Changes

-- A run that the database does not reach at its end is tried again, and its row is still in progress.
unconcluded :
    (run_deployment
      (λ uuid. uuid)
      (record all_reach { concluded = false })
      steps
      no_locks
      none
      100
      200
      target
      shared).0
    ≡ false
unfolding run_deployment set_status transition
unconcluded = refl
