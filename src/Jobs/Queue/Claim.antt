-- ===== src/Jobs/Queue/Claim.antt =====
-- What a claim takes: a ready row that no ready row precedes, and nothing else changes.
use rustify.Prelude.{
  ℕ, ◌≤◌, ◌<◌, ◌≡◌, ◌↔◌, refl, ap, inl, inr, Bool, true, false, Option, none, some, List, [], ◌∷◌,
  Str, arith, ◌==◌, filter, Option-cases, In, In-filter, filter-In,
}
use rustify.Prelude.Keyed.{update_where}
use rustify.Jobs.Queue.{
  Job, ClaimedJob, Jobs, JobQueue, job_keyed, max_attempts, lock_is_open, is_ready, soonest, lock,
  claimed, lock_row, claim,
}

-- The readiness test as facts.
pub record Ready (locked : ℕ → Bool) (stale now : ℕ) (j : Job) : Type 0 where
  pub due : j.run_at ≤ now
  pub tries_left : j.attempts < max_attempts
  pub unlocked : lock_is_open stale now j.locked_at ≡ true
  pub free : locked j.id ≡ false

pub is_ready_iff :
    (locked : ℕ → Bool) (stale now : ℕ) (j : Job)
    → (is_ready locked stale now j ≡ true) ↔ Ready locked stale now j
unfolding is_ready
is_ready_iff locked stale now j = (
  λ h. record {
    due = ground arith;
    tries_left = ground arith;
    unlocked = ground arith;
    free = ground arith;
  },
  λ r. ground arith,
)

soonest-In : (js : List Job) (j : Job) → soonest js ≡ some j → In j js
unfolding soonest
soonest-In [] j h = cc
soonest-In (x ∷ xs) j h = elim (Option-cases (soonest xs)) [
  | inl e ↦ ground arith
  | inr (y, e) ↦ ground (arith, soonest-In xs y)
]

soonest-none : (js : List Job) (j : Job) → soonest js ≡ none → In j js → ⊥
unfolding soonest
soonest-none [] j h m = m
soonest-none (x ∷ xs) j h m = ground arith

soonest_least : (js : List Job) (j k : Job) → soonest js ≡ some j → In k js → j.run_at ≤ k.run_at
unfolding soonest
soonest_least [] j k h m = absurd m
soonest_least (x ∷ xs) j k h m = elim (Option-cases (soonest xs)) [
  | inl e ↦ elim m [
    | inl p ↦ ground (arith, ap (λ (i : Job). i.run_at) p)
    | inr m' ↦ absurd (soonest-none xs k e m')
  ]
  | inr (y, e) ↦ elim m [
    | inl p ↦ ground (arith, ap (λ (i : Job). i.run_at) p)
    | inr m' ↦ ground (arith, soonest_least xs y k e m')
  ]
]

-- The row `j` is claimed by `worker`.
pub record Claims (q : JobQueue) (worker : Str) (locked : ℕ → Bool) (now : ℕ) (t : Jobs)
    (c : ClaimedJob) (j : Job) : Type 0 where
  pub before : In j t.rows
  pub ready : Ready locked q.stale_lock_timeout now j
  pub first :
      (k : Job) → In k t.rows → Ready locked q.stale_lock_timeout now k → j.run_at ≤ k.run_at
  pub answer : c ≡ claimed j
  pub after :
      (claim q worker locked now t).1
      ≡ record t { rows = update_where (λ k. k.id == j.id) (lock worker now) t.rows }

lock_row-some :
    (worker : Str) (now : ℕ) (o : Option Job) (t : Jobs) (c : ClaimedJob)
    → (lock_row worker now o t).0 ≡ some c
    → (j : Job) × (o ≡ some j) × (c ≡ claimed j)
unfolding lock_row
lock_row-some worker now none t c h = cc
lock_row-some worker now (some j) t c h = (j, refl, ground arith)

lock_row-none :
    (worker : Str) (now : ℕ) (o : Option Job) (t : Jobs)
    → (lock_row worker now o t).0 ≡ none
    → (o ≡ none) × ((lock_row worker now o t).1 ≡ t)
unfolding lock_row
lock_row-none worker now none t h = (refl, refl)
lock_row-none worker now (some j) t h = cc

-- A claim that returns a job took a row that was due, had attempts left and was not locked, or
-- locked for longer than the stale period; no other such row was due before it; the answer holds
-- its columns; and the only change of the table is that the row is locked by the worker now.
pub claim-Claims :
    (q : JobQueue) (worker : Str) (locked : ℕ → Bool) (now : ℕ) (t : Jobs) (c : ClaimedJob)
    → (claim q worker locked now t).0 ≡ some c
    → (j : Job) × Claims q worker locked now t c j
claim-Claims q worker locked now t c h =
    let s = q.stale_lock_timeout in
    let ready = filter (is_ready locked s now) t.rows in
    let (j, e, a) = lock_row-some worker now (soonest ready) t c (unfold claim in h) in
    let m = In-filter _ j t.rows (soonest-In ready j e) in
    (
      j,
      record {
        before = m.0;
        ready = (is_ready_iff locked s now j).0 m.1;
        first = λ k i r.
            soonest_least ready j k e (filter-In _ k t.rows i ((is_ready_iff locked s now k).1 r));
        answer = a;
        after = unfold claim lock_row in rw e refl;
      },
    )

-- A claim that returns nothing found no row that is ready, and changes nothing.
pub claim_idle :
    (q : JobQueue) (worker : Str) (locked : ℕ → Bool) (now : ℕ) (t : Jobs)
    → (claim q worker locked now t).0 ≡ none
    → ((k : Job) → In k t.rows → ¬ (Ready locked q.stale_lock_timeout now k))
      × ((claim q worker locked now t).1 ≡ t)
unfolding claim
claim_idle q worker locked now t h =
    let s = q.stale_lock_timeout in
    let ready = filter (is_ready locked s now) t.rows in
    let (e, same) = lock_row-none worker now (soonest ready) t h in
    (
      λ k i r. soonest-none ready k e (filter-In _ k t.rows i ((is_ready_iff locked s now k).1 r)),
      same,
    )
