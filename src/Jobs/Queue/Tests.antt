-- ===== src/Jobs/Queue/Tests.antt =====
-- Runs of the queue, and the theorems at concrete inputs.
use rustify.Prelude.{
  ℕ, ◌≡◌, ◌≢◌, refl, Bool, true, false, none, some, List, [], ◌∷◌, codes, str_eq, arith,
}
use rustify.Prelude.Keyed.{row}
use rustify.Jobs.Queue.{
  Job, Jobs, JobQueue, Registry, answered, panicked, Round, job_keyed, default_queue, secs, enqueue,
  claim, claimed, heartbeat, heartbeat_period, execute, round, run_loop, record_failure,
  backoff_duration,
}
use rustify.Jobs.Queue.Claim.{Claims, claim-Claims}
use rustify.Jobs.Queue.Keys.{IsValid, claim-IsValid}
use rustify.Jobs.Queue.Lock.{
  begin, and_then, beats_other, claim_exclusive, Releases, record_failure_any_holder,
}
use rustify.Jobs.Queue.Attempts
use rustify.Jobs.Queue.Attempts.{System, Runs, IsBounded, IsDropped, Runs-IsBounded, Runs-IsDropped}
use rustify.Jobs.Queue.Drain.{unsettled, run_loop-Runs}

abbrev quick : JobQueue
quick = record { poll_interval = 1; backoff_base = 10; stale_lock_timeout = 300 }

abbrev free : ℕ → Bool
free id = false

abbrev waiting : Job
waiting = record {
  id = 1;
  kind = codes "deploy";
  payload = codes "{}";
  run_at = 5;
  locked_at = none;
  locked_by = none;
  attempts = 0;
  last_error = none;
}

abbrev spent : Job
spent = record waiting { id = 2; run_at = 1; attempts = 3 }

abbrev two_jobs : Jobs
two_jobs = record { rows = waiting ∷ spent ∷ []; next_id = 3 }

two_jobs-IsValid : IsValid two_jobs
two_jobs-IsValid = record { unique = omega arith; below = omega arith; bounded = omega arith }

takes_waiting : (claim quick (codes "1-w0") free 20 two_jobs).0 ≡ some (claimed waiting)
unfolding claim
takes_waiting = refl

-- Ten seconds after the first failure, twenty after the second.
backoffs : (backoff_duration (secs 10) 1 ≡ secs 10) × (backoff_duration (secs 10) 2 ≡ secs 20)
unfolding backoff_duration
backoffs = (refl, refl)

beats_every_150s : heartbeat_period default_queue ≡ secs 150
unfolding heartbeat_period default_queue
beats_every_150s = refl

abbrev failing : Registry
failing = (codes "other", λ p. answered none) ∷ []

-- No handler: the attempt is counted and the lock released.
no_handler :
    row 1
      (execute quick
        (codes "w")
        failing
        (claimed waiting)
        (25 ∷ [])
        true
        30
        (claim quick (codes "w") free 20 two_jobs).1).1.rows
    ≡ some (record waiting {
      run_at = 40;
      attempts = 1;
      last_error = some (codes "no handler registered for kind 'deploy'");
    })
unfolding execute claim str_eq
no_handler = refl

claim-Claims_example : (j : Job) × Claims quick (codes "1-w0") free 20 two_jobs (claimed waiting) j
claim-Claims_example =
    claim-Claims quick (codes "1-w0") free 20 two_jobs (claimed waiting) takes_waiting

too_early : (claim quick (codes "1-w0") free 4 two_jobs).0 ≡ none
unfolding claim
too_early = refl

abbrev three_jobs : Jobs
three_jobs = record { rows = waiting ∷ record waiting { id = 2; run_at = 6 } ∷ []; next_id = 3 }

three_jobs-IsValid : IsValid three_jobs
three_jobs-IsValid = record { unique = omega arith; below = omega arith; bounded = omega arith }

takes_first : (claim quick (codes "a") free 20 three_jobs).0 ≡ some (claimed waiting)
unfolding claim
takes_first = refl

abbrev after_beat : Jobs
after_beat = heartbeat (codes "b") 2 30 (claim quick (codes "a") free 20 three_jobs).1

takes_second :
    (claim quick (codes "b") free 320 after_beat).0
    ≡ some (claimed (record waiting { id = 2; run_at = 6 }))
unfolding claim heartbeat
takes_second = refl

not_b : str_eq (codes "a") (codes "b") ≡ false
unfolding str_eq
not_b = refl

claim_exclusive_example : (claimed (record waiting { id = 2; run_at = 6 })).id ≢ 1
claim_exclusive_example =
    claim_exclusive quick (codes "a") free 20 three_jobs (claimed waiting) three_jobs-IsValid
      takes_first (and_then begin (beats_other (codes "b") 2 30 not_b)) (codes "b") free 320
      (claimed (record waiting { id = 2; run_at = 6 })) (omega arith) takes_second

-- The lock of `a` goes stale, `b` claims the job, and then `a` reports its failure.
abbrev claimed_stale : Jobs
claimed_stale = (claim quick (codes "a") free 20 two_jobs).1

claimed_stale-IsValid : IsValid claimed_stale
claimed_stale-IsValid = claim-IsValid quick (codes "a") free 20 two_jobs two_jobs-IsValid

taken_over : (claim quick (codes "b") free 400 claimed_stale).0 ≡ some (claimed waiting)
unfolding claim
taken_over = refl

record_failure_any_holder_example :
    Releases quick (claimed waiting) 410 (claim quick (codes "b") free 400 claimed_stale).1 (
      record_failure quick
        (claimed waiting)
        (codes "late")
        410
        (claim quick (codes "b") free 400 claimed_stale).1)
record_failure_any_holder_example =
    record_failure_any_holder quick (codes "b") free 400 claimed_stale (claimed waiting)
      (claimed waiting) (codes "late") 410 claimed_stale-IsValid taken_over refl

abbrev resting : System
resting = record { jobs = two_jobs; running = []; lost = [] }

abbrev one_more : System
one_more = record {
  jobs = (enqueue (codes "k") (codes "p") none 9 two_jobs).1;
  running = [];
  lost = [];
}

grows : Runs quick resting one_more
grows = Attempts.more Attempts.begin (Attempts.enqueues (codes "k") (codes "p") none 9)

Runs-IsBounded_example : IsBounded one_more
Runs-IsBounded_example =
    Runs-IsBounded quick (record { valid = two_jobs-IsValid; tries = tt }) grows

Runs-IsDropped_example : IsDropped 2 spent one_more
Runs-IsDropped_example =
    Runs-IsDropped quick 2 spent (record { valid = two_jobs-IsValid; tries = tt })
      (record { found = refl; used_up = refl; released = refl; idle = tt }) grows

abbrev one_round : Round
one_round = record {
  cancelled = false;
  reached = true;
  locked = free;
  now = 20;
  times = 25 ∷ [];
  finished = 30;
  saved = true;
  cancelled_idle = false;
}

-- The first round's failure is not recorded; in the second, the job is claimed again when its lock is
-- stale, and the handler panics. Nothing is claimed in a third.
abbrev three_rounds : List Round
three_rounds =
    record one_round { saved = false }
    ∷ record one_round { now = 400; times = []; finished = 410 }
    ∷ one_round
    ∷ []

abbrev panics : Registry
panics = (codes "deploy", λ p. panicked) ∷ []

loses_unsaved :
    unsettled quick (codes "w") failing (record one_round { saved = false } ∷ []) two_jobs
    ≡ claimed waiting ∷ []
unfolding unsettled round str_eq
loses_unsaved = refl

loses_panicked : unsettled quick (codes "w") panics three_rounds two_jobs ≡ claimed waiting ∷ []
unfolding unsettled round str_eq
loses_panicked = refl

settles_saved : unsettled quick (codes "w") failing three_rounds two_jobs ≡ claimed waiting ∷ []
unfolding unsettled round str_eq
settles_saved = refl

run_loop-Runs_example : Runs quick resting (record {
  jobs = run_loop quick (codes "w") failing three_rounds two_jobs;
  running = [];
  lost = unsettled quick (codes "w") failing three_rounds two_jobs;
})
run_loop-Runs_example = run_loop-Runs quick (codes "w") failing three_rounds two_jobs

-- Three stale claims of one job that each fail leave its count at 1, and a fourth claim returns it.
abbrev claimed_thrice : Jobs
claimed_thrice =
    (claim quick (codes "c") free 800
      ((claim quick (codes "b") free 400 (claim quick (codes "a") free 20 two_jobs).1).1)).1

abbrev failed_thrice : Jobs
failed_thrice = record_failure quick (claimed waiting) (codes "e") 812 (
    record_failure quick (claimed waiting) (codes "e") 811
      (record_failure quick (claimed waiting) (codes "e") 810 claimed_thrice))

fourth_claim :
    ((claim quick (codes "b") free 400 (claim quick (codes "a") free 20 two_jobs).1).0
      ≡ some (claimed waiting))
    × ((claim quick (codes "d") free 900 failed_thrice).0
        ≡ some (record (claimed waiting) { attempts = 1 }))
unfolding claim record_failure
fourth_claim = (refl, refl)
