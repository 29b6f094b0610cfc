-- ===== src/Db/Deployments/Tests.antt =====
-- Runs of the deployment queue, and the theorems at concrete inputs.
use rustify.Prelude.Int.{pos}
use rustify.Prelude.{
  ℕ, ◌≡◌, ◌≢◌, ◌≤◌, ◌+◌, refl, Bool, false, none, some, [], ◌∷◌, codes, arith, count_if, unwrap_or,
}
use rustify.Core.Status.{
  queued, in_progress, finished, cancelled, status_eq, is_terminal, can_transition_to,
}
use rustify.Db.Deployments.{
  Deployment, NewDeployment, Table, create_queued, transition, cancel_requested, next_queuable,
  list_by_application, in_flight_on,
}
use rustify.Db.Deployments.{deployment_keyed}
use rustify.Prelude.Keyed.{row}
use rustify.Db.Deployments.Legality.{attempt, transition_exact}
use rustify.Db.Deployments.Admission.{
  AppCap, next_queuable-AppCap, next_queuable-Admission, Admission,
}
use rustify.Db.Deployments.History.{IsValid, here, next, admit}
use rustify.Db.Deployments.Frozen.{IsLater, Reach-IsLater}

abbrev new_for : ℕ → NewDeployment
new_for app = record {
  application_id = app;
  server_id = 7;
  commit_sha = none;
  commit_message = none;
  force_rebuild = false;
  rollback = false;
  config_snapshot = none;
  pull_request_id = pos 0;
  git_type = none;
}

abbrev no_locks : ℕ → Bool
no_locks id = false

abbrev first : Deployment
first = record {
  id = 1;
  uuid = codes "a";
  application_id = 10;
  server_id = 7;
  status = queued;
  commit_sha = none;
  commit_message = none;
  force_rebuild = false;
  rollback = false;
  config_snapshot = none;
  pull_request_id = pos 0;
  git_type = none;
  started_at = none;
  finished_at = none;
  created_at = 100;
}

abbrev done : Deployment
done = record first {
  id = 2;
  status = finished;
  started_at = some 90;
  finished_at = some 95;
  created_at = 80;
}

abbrev two_rows : Table
two_rows = record { rows = first ∷ done ∷ []; next_id = 3 }

two_rows-IsValid : IsValid two_rows
unfolding is_terminal
two_rows-IsValid = record {
  unique = omega arith;
  below = omega arith;
  consistent = (
    record { ended = refl; waiting = λ h. refl; running = λ h. cc },
    (record { ended = refl; waiting = λ h. cc; running = λ h. refl }, tt),
  );
}

admits_first :
    (next_queuable no_locks 7 none 200 two_rows).0
    ≡ some (record first { status = in_progress; started_at = some 200 })
unfolding next_queuable
admits_first = refl

creates_third : (create_queued (new_for 11) (codes "c") 300 two_rows).0.id ≡ 3
unfolding create_queued
creates_third = refl

lists_newest_first : list_by_application 10 two_rows ≡ first ∷ done ∷ []
unfolding list_by_application
lists_newest_first = refl

not_cancelled : cancel_requested 1 two_rows ≡ false
unfolding cancel_requested
not_cancelled = refl

transition_exact_example :
    ((transition 1 cancelled 200 two_rows).0 ≡ can_transition_to queued cancelled)
    × (row 1 (transition 1 cancelled 200 two_rows).1.rows ≡ some (attempt cancelled 200 first))
    × ((j : ℕ) → j ≢ 1 → row j (transition 1 cancelled 200 two_rows).1.rows ≡ row j two_rows.rows)
transition_exact_example =
    transition_exact 1 cancelled 200 two_rows first two_rows-IsValid.unique refl

Reach-IsLater_example :
    IsValid (next_queuable no_locks 7 none 200 two_rows).1
    × ((e : Deployment) × (row 2 (next_queuable no_locks 7 none 200 two_rows).1.rows ≡ some e)
        × IsLater done e)
Reach-IsLater_example =
    Reach-IsLater 2 done two_rows-IsValid refl (next here (admit no_locks 7 none 200))

two_rows-AppCap : AppCap two_rows.rows
unfolding status_eq
two_rows-AppCap app = ground arith

next_queuable-AppCap_example :
    let rows' = (next_queuable no_locks 7 none 200 two_rows).1.rows in
    AppCap rows'
    × (count_if (in_flight_on 7) rows' ≡ count_if (in_flight_on 7) two_rows.rows + 1)
    × (count_if (in_flight_on 7) rows' ≤ unwrap_or none 2)
    × ((s : ℕ) → s ≢ 7 → count_if (in_flight_on s) rows' ≡ count_if (in_flight_on s) two_rows.rows)
next_queuable-AppCap_example =
    next_queuable-AppCap no_locks 7 none 200 two_rows
      (record first { status = in_progress; started_at = some 200 }) two_rows-IsValid.unique
      two_rows-AppCap admits_first

next_queuable-Admission_example : (d : Deployment) × Admission no_locks 7 none 200 two_rows d
next_queuable-Admission_example =
    next_queuable-Admission no_locks 7 none 200 two_rows
      (record first { status = in_progress; started_at = some 200 }) admits_first

full_server : (next_queuable no_locks 7 (some 0) 200 two_rows).0 ≡ none
unfolding next_queuable
full_server = refl
