-- ===== src/Jobs/Queue.antt =====
-- crates/rustify-jobs/src/queue.rs: the rows of the `jobs` table, and the worker that claims one,
-- runs its handler, keeps its lock fresh and records the outcome. Times are nanoseconds.
pub mod Claim
pub mod Keys
pub mod Lock
pub mod Attempts
pub mod Drain
mod Tests
use rustify.Prelude.{
  ℕ, zero, suc, ◌+◌, ◌-◌, ◌*◌, ◌/◌, ◌^◌, min, max, Bool, true, false, not, ◌&&◌, ◌||◌, Option, none,
  some, List, [], ◌∷◌, ◌++◌, map, Str, str_eq, codes, ◌==◌, ltb, leb, if◌then◌else◌, filter, find,
}
use rustify.Prelude.Keyed.{Keyed, update_where}

abbrev pub max_attempts : ℕ
max_attempts = 3

-- A row of the table; `payload` is the JSON document as text.
pub record Job : Type 0 where
  pub id : ℕ
  pub kind : Str
  pub payload : Str
  pub run_at : ℕ
  pub locked_at : Option ℕ
  pub locked_by : Option Str
  pub attempts : ℕ
  pub last_error : Option Str

instance abbrev pub job_keyed : Keyed Job
job_keyed = record { key = λ j. j.id }

pub record ClaimedJob : Type 0 where
  pub id : ℕ
  pub kind : Str
  pub payload : Str
  pub attempts : ℕ

pub record Jobs : Type 0 where
  pub rows : List Job
  pub next_id : ℕ

-- The durations of a queue.
pub record JobQueue : Type 0 where
  pub poll_interval : ℕ
  pub backoff_base : ℕ
  pub stale_lock_timeout : ℕ

abbrev pub secs : ℕ → ℕ
secs n = n * 10 ^ 9

unfoldable pub default_queue : JobQueue
default_queue = record {
  poll_interval = secs 1;
  backoff_base = secs 10;
  stale_lock_timeout = secs 300;
}

-- `run_at = None` is COALESCEd to `now()`. The other columns take their defaults.
unfoldable pub enqueue : Str → Str → Option ℕ → ℕ → Jobs → ℕ × Jobs
enqueue kind payload run_at now t =
    let row : Job = record {
      id = t.next_id;
      kind = kind;
      payload = payload;
      run_at = elim run_at [ none ↦ now | some at ↦ at ];
      locked_at = none;
      locked_by = none;
      attempts = 0;
      last_error = none;
    } in
    (t.next_id, record { rows = t.rows ++ row ∷ []; next_id = t.next_id + 1 })

-- The longest `Duration`: 2^64 - 1 seconds and 999,999,999 nanoseconds.
abbrev duration_max : ℕ
duration_max = 2 ^ 64 * 10 ^ 9 - 1

-- `saturating_mul` by a number of attempts that is at least 1.
unfoldable pub backoff_duration : ℕ → ℕ → ℕ
backoff_duration base attempts = min duration_max (base * max attempts 1)

-- The WHERE clause of `claim`; `locked` are the rows that `SKIP LOCKED` passes over.
abbrev pub lock_is_open : ℕ → ℕ → Option ℕ → Bool
lock_is_open stale now none = true
lock_is_open stale now (some at) = ltb (at + stale) now

unfoldable pub is_ready : (ℕ → Bool) → ℕ → ℕ → Job → Bool
is_ready locked stale now j =
    leb j.run_at now
    && ltb j.attempts max_attempts
    && lock_is_open stale now j.locked_at
    && not (locked j.id)

-- ORDER BY run_at LIMIT 1. Among equal times the first row is taken.
unfoldable pub soonest : List Job → Option Job
soonest [] = none
soonest (j ∷ js) = elim (soonest js) [
  | none ↦ some j
  | some k ↦ if ltb k.run_at j.run_at then some k else some j
]

unfoldable pub lock : Str → ℕ → Job → Job
lock worker now j = record j { locked_at = some now; locked_by = some worker }

abbrev pub claimed : Job → ClaimedJob
claimed j = record { id = j.id; kind = j.kind; payload = j.payload; attempts = j.attempts }

unfoldable pub lock_row : Str → ℕ → Option Job → Jobs → Option ClaimedJob × Jobs
unfolding lock
lock_row worker now none t = (none, t)
lock_row worker now (some j) t = (
  some (claimed j),
  record t { rows = update_where (λ k. k.id == j.id) (lock worker now) t.rows },
)

unfoldable pub claim : JobQueue → Str → (ℕ → Bool) → ℕ → Jobs → Option ClaimedJob × Jobs
unfolding is_ready soonest lock_row
claim q worker locked now t =
    lock_row worker now (soonest (filter (is_ready locked q.stale_lock_timeout now) t.rows)) t

-- WHERE id = $1 AND locked_by = $2
abbrev pub holds : Str → ℕ → Job → Bool
holds worker id j = (j.id == id) && elim j.locked_by [ none ↦ false | some w ↦ str_eq w worker ]

unfoldable pub heartbeat : Str → ℕ → ℕ → Jobs → Jobs
heartbeat worker id now t = record t {
  rows = update_where (holds worker id) (λ j. record j { locked_at = some now }) t.rows;
}

-- Half the stale period, and 50 ms at least.
unfoldable pub heartbeat_period : JobQueue → ℕ
heartbeat_period q = max (q.stale_lock_timeout / 2) (50 * 10 ^ 6)

-- DELETE FROM jobs WHERE id = $1
unfoldable pub delete_finished : ℕ → Jobs → Jobs
delete_finished id t = record t { rows = filter (λ j. not (j.id == id)) t.rows }

unfoldable pub failed_row : JobQueue → ClaimedJob → Str → ℕ → Job → Job
unfolding backoff_duration
failed_row q job error now j = record j {
  attempts = job.attempts + 1;
  last_error = some error;
  locked_at = none;
  locked_by = none;
  run_at = now + backoff_duration q.backoff_base (job.attempts + 1);
}

unfoldable pub record_failure : JobQueue → ClaimedJob → Str → ℕ → Jobs → Jobs
unfolding failed_row
record_failure q job error now t = record t {
  rows = update_where (λ j. j.id == job.id) (failed_row q job error now) t.rows;
}

-- A handler's answer: nothing, or the text of its error.
abbrev pub Outcome : Type 0
Outcome = Option Str

-- How a handler's run ends: with its answer, or with a panic.
pub data Answer : Type 0 where
  answered : Outcome → Answer
  panicked : Answer

-- A registry maps a kind to its handler, which is code of other crates.
abbrev pub Registry : Type 0
Registry = List (Str × (Str → Answer))

unfoldable pub register : Str → (Str → Answer) → Registry → Registry
register kind handler [] = (kind, handler) ∷ []
register kind handler ((k, h) ∷ r) =
    if str_eq k kind then (kind, handler) ∷ r else (k, h) ∷ register kind handler r

unfoldable pub get_handler : Str → Registry → Option (Str → Answer)
get_handler kind [] = none
get_handler kind ((k, h) ∷ r) =
    let rest = get_handler kind r in if str_eq k kind then some h else rest

unfoldable pub run_handler : Registry → ClaimedJob → Answer
unfolding get_handler
run_handler registry job = elim (get_handler job.kind registry) [
  | none ↦ answered (some (codes "no handler registered for kind '" ++ (job.kind ++ codes "'")))
  | some handler ↦ handler job.payload
]

-- The heartbeats during the run that reach the database, at the given times.
unfoldable pub beats : Str → ℕ → List ℕ → Jobs → Jobs
unfolding heartbeat
beats worker id [] t = t
beats worker id (now ∷ times) t = beats worker id times (heartbeat worker id now t)

unfoldable pub settle : JobQueue → ClaimedJob → Outcome → ℕ → Jobs → Jobs
unfolding delete_finished record_failure
settle q job none now t = delete_finished job.id t
settle q job (some error) now t = record_failure q job error now t

-- `saved` says whether the DELETE or UPDATE at the end reaches the database: if not, that is only
-- logged and the row stays locked. A panic of the handler runs through the worker's task, which ends
-- there. The flag says whether the worker goes on.
unfoldable pub execute :
    JobQueue → Str → Registry → ClaimedJob → List ℕ → Bool → ℕ → Jobs → Bool × Jobs
unfolding beats settle run_handler
execute q worker registry job times saved now t =
    let t' = beats worker job.id times t in
    elim (run_handler registry job) [
      | answered o ↦ (true, if saved then settle q job o now t' else t')
      | panicked ↦ (false, t')
    ]

-- What one round of the worker's loop meets: whether shutdown is requested at its head, whether
-- the claim reaches the database, the rows others hold, the time of the claim, of the heartbeats
-- and of the end of the run, whether its last statement reaches the database, and whether shutdown
-- comes while the worker idles.
pub record Round : Type 0 where
  pub cancelled : Bool
  pub reached : Bool
  pub locked : ℕ → Bool
  pub now : ℕ
  pub times : List ℕ
  pub finished : ℕ
  pub saved : Bool
  pub cancelled_idle : Bool

-- An in-flight job is not raced against shutdown; the flag says whether the loop goes on.
unfoldable pub after_claim :
    JobQueue → Str → Registry → Round → Option ClaimedJob → Jobs → Bool × Jobs
unfolding execute
after_claim q worker registry r none t = (not r.cancelled_idle, t)
after_claim q worker registry r (some job) t =
    execute q worker registry job r.times r.saved r.finished t

unfoldable pub round : JobQueue → Str → Registry → Round → Jobs → Bool × Jobs
unfolding after_claim claim
round q worker registry r t =
    if r.cancelled
    then (false, t)
    else if r.reached
    then (let (job, t') = claim q worker r.locked r.now t in after_claim q worker registry r job t')
    else (not r.cancelled_idle, t)

unfoldable pub run_loop : JobQueue → Str → Registry → List Round → Jobs → Jobs
unfolding round
run_loop q worker registry [] t = t
run_loop q worker registry (r ∷ rs) t =
    let (on, t') = round q worker registry r t in
    let rest = run_loop q worker registry rs t' in if on then rest else t'
