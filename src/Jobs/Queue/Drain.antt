-- ===== src/Jobs/Queue/Drain.antt =====
-- The loop of one worker is a run of the system of workers, and which jobs it leaves unsettled.
use rustify.Prelude.{
  ℕ, ◌≡◌, ◌⊎◌, refl, inl, inr, Bool, true, false, List, [], ◌∷◌, ◌++◌, append-nil, append_assoc,
  Str, Bool-cases, Option-cases, if◌then◌else◌, none, some,
}
use rustify.Jobs.Queue.{
  ClaimedJob, Jobs, JobQueue, Registry, Answer, answered, panicked, Round, claim, heartbeat, beats,
  Outcome, run_handler, execute, round, run_loop,
}
use rustify.Jobs.Queue.Claim.{claim_idle}
use rustify.Jobs.Queue.Attempts.{System, Step, Runs, begin, more, enqueues, claims, settles, loses}
use rustify.Jobs.Queue.Attempts

-- Whether a run ends without a statement on its row: a panic, or a statement that does not arrive.
abbrev is_lost : Answer → Bool → Bool
is_lost panicked saved = true
is_lost (answered o) saved = if saved then false else true

unfoldable lost_in : JobQueue → Str → Registry → Round → Jobs → List ClaimedJob
lost_in q w registry r t = elim (claim q w r.locked r.now t).0 [
  | none ↦ []
  | some c ↦ if is_lost (run_handler registry c) r.saved then c ∷ [] else []
]

-- The jobs that a loop claims and whose run it loses, in their order.
unfoldable pub unsettled : JobQueue → Str → Registry → List Round → Jobs → List ClaimedJob
unfolding lost_in
unsettled q w registry [] t = []
unsettled q w registry (r ∷ rs) t =
    let (on, t') = round q w registry r t in
    let rest = unsettled q w registry rs t' in
    let here = if r.cancelled then [] else if r.reached then lost_in q w registry r t else [] in
    if on then here ++ rest else here

Runs-trans : (q : JobQueue) {s t u : System} → Runs q s t → Runs q t u → Runs q s u
Runs-trans q a begin = a
Runs-trans q a (more b st) = more (Runs-trans q a b) st

abbrev at_rest : Jobs → List ClaimedJob → System
at_rest t lost = record { jobs = t; running = []; lost = lost }

beats-Runs :
    (q : JobQueue) (w : Str) (c : ClaimedJob) (times : List ℕ) (t : Jobs) (ls : List ClaimedJob)
    → Runs q
        (record { jobs = t; running = c ∷ []; lost = ls })
        (record { jobs = beats w c.id times t; running = c ∷ []; lost = ls })
unfolding beats
beats-Runs q w c [] t ls = begin
beats-Runs q w c (now ∷ times) t ls =
    Runs-trans q (more begin (Attempts.beats w c.id now))
      (beats-Runs q w c times (heartbeat w c.id now t) ls)

answer-cases : (a : Answer) → (a ≡ panicked) ⊎ ((o : Outcome) × (a ≡ answered o))
answer-cases panicked = inl refl
answer-cases (answered o) = inr (o, refl)

-- The run of a claimed job.
execute-Runs :
    (q : JobQueue) (w : Str) (registry : Registry) (c : ClaimedJob) (times : List ℕ) (saved : Bool)
    (now : ℕ) (t : Jobs) (ls : List ClaimedJob)
    → Runs q
        (record { jobs = t; running = c ∷ []; lost = ls })
        (at_rest
          (execute q w registry c times saved now t).1
          (ls ++ (if is_lost (run_handler registry c) saved then c ∷ [] else [])))
unfolding execute
execute-Runs q w registry c times saved now t ls =
    let beaten = beats-Runs q w c times t ls in
    elim (answer-cases (run_handler registry c)) [
      | inl p ↦ rw (execute, p) (more beaten (loses [] [] c refl))
      | inr (o, p) ↦ elim (Bool-cases saved) [
        | inl e ↦ rw (execute, p, e, append-nil ls) (more beaten (settles [] [] c o now refl))
        | inr e ↦ rw (execute, p, e) (more beaten (loses [] [] c refl))
      ]
    ]

round-Runs :
    (q : JobQueue) (w : Str) (registry : Registry) (r : Round) (t : Jobs) (ls : List ClaimedJob)
    → Runs q (at_rest t ls) (
        at_rest
          (round q w registry r t).1
          (ls ++ (if r.cancelled then [] else if r.reached then lost_in q w registry r t else [])))
unfolding round lost_in
round-Runs q w registry r t ls = elim (Bool-cases r.cancelled) [
  | inl e ↦ rw (e, append-nil ls) begin
  | inr e ↦ elim (Bool-cases r.reached) [
    | inr f ↦ rw (e, f, append-nil ls) begin
    | inl f ↦ elim (Option-cases (claim q w r.locked r.now t).0) [
      | inl idle ↦
          rw (lost_in, e, f, idle, (claim_idle q w r.locked r.now t idle).1, append-nil ls) begin
      | inr (c, h) ↦
          rw (lost_in, e, f, h)
            (Runs-trans q (more begin (claims w r.locked r.now c h)) (
              execute-Runs q w registry c r.times r.saved r.finished (claim q w r.locked r.now t).1
                ls))
    ]
  ]
]

run_loop-Runs_from :
    (q : JobQueue) (w : Str) (registry : Registry) (rounds : List Round) (t : Jobs)
    (ls : List ClaimedJob)
    → Runs q
        (at_rest t ls)
        (at_rest (run_loop q w registry rounds t) (ls ++ unsettled q w registry rounds t))
unfolding run_loop unsettled
run_loop-Runs_from q w registry [] t ls = rw (append-nil ls) begin
run_loop-Runs_from q w registry (r ∷ rs) t ls = elim (Bool-cases (round q w registry r t).0) [
  | inl e ↦
      rw
        (
          e,
          ← append_assoc ls
              (if r.cancelled then [] else if r.reached then lost_in q w registry r t else [])
              (unsettled q w registry rs (round q w registry r t).1),
        )
        (Runs-trans q (round-Runs q w registry r t ls)
          (run_loop-Runs_from q w registry rs (round q w registry r t).1 _))
  | inr e ↦ rw e (round-Runs q w registry r t ls)
]

-- Whatever a worker's loop meets, its run is one of the interleaved system's, and every job that it
-- claimed is settled at the end, except exactly those whose handler panicked or whose last statement
-- did not reach the database, in their order.
pub run_loop-Runs :
    (q : JobQueue) (w : Str) (registry : Registry) (rounds : List Round) (t : Jobs)
    → Runs q
        (record { jobs = t; running = []; lost = [] })
        (record {
          jobs = run_loop q w registry rounds t;
          running = [];
          lost = unsettled q w registry rounds t;
        })
run_loop-Runs q w registry rounds t = run_loop-Runs_from q w registry rounds t []
