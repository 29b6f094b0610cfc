-- ===== src/Jobs/Queue/Keys.antt =====
-- The primary key: each key stands once and below the next one, through every operation.
use rustify.Prelude.{
  ℕ, ◌+◌, ◌<◌, ◌≡◌, refl, inl, inr, Bool, Option, none, some, List, [], ◌∷◌, Str, arith,
  Option-cases, All, All-append,
}
use rustify.Prelude.Keyed.{
  update_where, All-update, All-filter, Unique, Unique-update, Unique-append, Unique-filter,
}
use rustify.Jobs.Queue.{
  Job, ClaimedJob, Jobs, JobQueue, Outcome, job_keyed, max_attempts, lock, enqueue, claim,
  heartbeat, delete_finished, failed_row, record_failure, settle,
}
use rustify.Jobs.Queue.Claim.{claim-Claims, claim_idle}

-- `attempts` never passes the maximum either.
pub record IsValid (t : Jobs) : Type 0 where
  pub unique : Unique t.rows
  pub below : All (λ j. j.id < t.next_id) t.rows
  pub bounded : All (λ j. j.attempts < max_attempts + 1) t.rows

update-IsValid :
    (p : Job → Bool) (f : Job → Job) (t : Jobs)
    → ((j : Job) → (f j).id ≡ j.id)
    → ((j : Job) → j.attempts < max_attempts + 1 → (f j).attempts < max_attempts + 1)
    → IsValid t
    → IsValid (record t { rows = update_where p f t.rows })
update-IsValid p f t keeps capped v = record {
  unique = Unique-update p f keeps t.rows v.unique;
  below = All-update p f keeps (λ j. j.id < t.next_id) t.rows (λ j _ _ b. rw keeps b) v.below;
  bounded =
      All-update p f keeps (λ j. j.attempts < max_attempts + 1) t.rows (λ j _ _ b. capped j b)
        v.bounded;
}

All-below_suc : (n : ℕ) (rows : List Job) → All (λ j. j.id < n) rows → All (λ j. j.id < n + 1) rows
All-below_suc n [] h = tt
All-below_suc n (j ∷ js) h = (omega arith, All-below_suc n js h.1)

pub enqueue-IsValid :
    (kind payload : Str) (run_at : Option ℕ) (now : ℕ) (t : Jobs)
    → IsValid t
    → IsValid (enqueue kind payload run_at now t).1
unfolding enqueue
enqueue-IsValid kind payload run_at now t v = record {
  unique = Unique-append t.rows _ v.unique v.below;
  below =
      All-append (λ j. j.id < t.next_id + 1) t.rows _ (All-below_suc t.next_id t.rows v.below)
        (omega arith, tt);
  bounded = All-append (λ j. j.attempts < max_attempts + 1) t.rows _ v.bounded (omega arith, tt);
}

pub claim-IsValid :
    (q : JobQueue) (w : Str) (locked : ℕ → Bool) (now : ℕ) (t : Jobs)
    → IsValid t
    → IsValid (claim q w locked now t).1
claim-IsValid q w locked now t v = elim (Option-cases (claim q w locked now t).0) [
  | inl idle ↦ rw (claim_idle q w locked now t idle).1 v
  | inr (c, h) ↦
      let (j, a) = claim-Claims q w locked now t c h in
      rw a.after (unfold lock in update-IsValid _ _ t (λ k. refl) (λ k b. b) v)
]

pub heartbeat-IsValid :
    (w : Str) (id now : ℕ) (t : Jobs) → IsValid t → IsValid (heartbeat w id now t)
unfolding heartbeat
heartbeat-IsValid w id now t v = update-IsValid _ _ t (λ k. refl) (λ k b. b) v

pub settle-IsValid :
    (q : JobQueue) (c : ClaimedJob) (o : Outcome) (now : ℕ) (t : Jobs)
    → c.attempts < max_attempts
    → IsValid t
    → IsValid (settle q c o now t)
unfolding settle delete_finished record_failure
settle-IsValid q c none now t h v = record {
  unique = Unique-filter _ t.rows v.unique;
  below = All-filter (λ j. j.id < t.next_id) _ t.rows v.below;
  bounded = All-filter (λ j. j.attempts < max_attempts + 1) _ t.rows v.bounded;
}
settle-IsValid q c (some e) now t h v =
    unfold failed_row in update-IsValid _ _ t (λ k. refl) (λ k b. omega arith) v
