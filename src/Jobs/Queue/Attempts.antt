-- ===== src/Jobs/Queue/Attempts.antt =====
-- Workers that claim and settle jobs in any interleaving, and what they do to the attempts.
use rustify.Prelude.{
  ℕ, ◌<◌, ◌≡◌, ◌≢◌, refl, sym, ap, subst, ◌∙◌, Bool, Option, none, some, List, [], ◌∷◌, ◌++◌, Str,
  arith, All,
}
use rustify.Prelude.Keyed.{row, row-update, row-id, row-append, row-delete, row-of_In, Unique}
use rustify.Jobs.Queue.{
  Job, ClaimedJob, Jobs, JobQueue, Outcome, job_keyed, max_attempts, enqueue, claim, heartbeat,
  delete_finished, record_failure, settle,
}
use rustify.Jobs.Queue.Claim.{claim-Claims}
use rustify.Jobs.Queue.Keys.{
  IsValid, enqueue-IsValid, claim-IsValid, heartbeat-IsValid, settle-IsValid,
}
use rustify.Jobs.Queue.Lock.{lock-id, failed_row-id}

-- The table, the jobs that workers run, and those whose run ended and left the row as it was.
pub record System : Type 0 where
  pub jobs : Jobs
  pub running : List ClaimedJob
  pub lost : List ClaimedJob

pub data Step (q : JobQueue) (s : System) : System → Type 0 where
  enqueues :
      (kind payload : Str) (run_at : Option ℕ) (now : ℕ)
      → Step q s (record s { jobs = (enqueue kind payload run_at now s.jobs).1 })
  claims :
      (w : Str) (locked : ℕ → Bool) (now : ℕ) (c : ClaimedJob)
      → (claim q w locked now s.jobs).0 ≡ some c
      → Step q s (record {
        jobs = (claim q w locked now s.jobs).1;
        running = c ∷ s.running;
        lost = s.lost;
      })
  beats : (w : Str) (id now : ℕ) → Step q s (record s { jobs = heartbeat w id now s.jobs })
  settles :
      (xs ys : List ClaimedJob) (c : ClaimedJob) (o : Outcome) (now : ℕ)
      → s.running ≡ xs ++ c ∷ ys
      → Step q s (record { jobs = settle q c o now s.jobs; running = xs ++ ys; lost = s.lost })
  -- The handler panics, the process dies, or the statement at the end does not reach the database.
  loses :
      (xs ys : List ClaimedJob) (c : ClaimedJob)
      → s.running ≡ xs ++ c ∷ ys
      → Step q s (record { jobs = s.jobs; running = xs ++ ys; lost = s.lost ++ c ∷ [] })

pub data Runs (q : JobQueue) (s : System) : System → Type 0 where
  begin : Runs q s s
  more : {t u : System} → Runs q s t → Step q t u → Runs q s u

abbrev pub Tries : List ClaimedJob → Type 0
Tries = All (λ c. c.attempts < max_attempts)

pub record IsBounded (s : System) : Type 0 where
  pub valid : IsValid s.jobs
  pub tries : Tries s.running

module _ (P : ClaimedJob → Type 0) where
  All-middle : (xs ys : List ClaimedJob) (c : ClaimedJob) → All P (xs ++ c ∷ ys) → P c
  All-middle [] ys c h = h.0
  All-middle (x ∷ xs) ys c h = All-middle xs ys c h.1

  All-around : (xs ys : List ClaimedJob) (c : ClaimedJob) → All P (xs ++ c ∷ ys) → All P (xs ++ ys)
  All-around [] ys c h = h.1
  All-around (x ∷ xs) ys c h = (h.0, All-around xs ys c h.1)

claimed_tries :
    (q : JobQueue) (w : Str) (locked : ℕ → Bool) (now : ℕ) (t : Jobs) (c : ClaimedJob)
    → (claim q w locked now t).0 ≡ some c
    → c.attempts < max_attempts
claimed_tries q w locked now t c h =
    let (j, a) = claim-Claims q w locked now t c h in
    omega (arith, a.ready.tries_left, ap (λ (x : ClaimedJob). x.attempts) a.answer)

Step-IsBounded : (q : JobQueue) {s t : System} → Step q s t → IsBounded s → IsBounded t
Step-IsBounded q {s = s} (enqueues kind payload run_at now) b = record {
  valid = enqueue-IsValid kind payload run_at now s.jobs b.valid;
  tries = b.tries;
}
Step-IsBounded q {s = s} (claims w locked now c h) b = record {
  valid = claim-IsValid q w locked now s.jobs b.valid;
  tries = (claimed_tries q w locked now s.jobs c h, b.tries);
}
Step-IsBounded q {s = s} (beats w id now) b = record {
  valid = heartbeat-IsValid w id now s.jobs b.valid;
  tries = b.tries;
}
Step-IsBounded q {s = s} (settles xs ys c o now e) b =
    let here = subst Tries e b.tries in
    record {
      valid = settle-IsValid q c o now s.jobs (All-middle _ xs ys c here) b.valid;
      tries = All-around _ xs ys c here;
    }
Step-IsBounded q {s = s} (loses xs ys c e) b = record {
  valid = b.valid;
  tries = All-around _ xs ys c (subst Tries e b.tries);
}

-- From a system whose keys and recorded attempts are in order, whatever the workers do in any order,
-- lost runs included, the keys stay in order, no row records more than three attempts, and every
-- running job was claimed while its row recorded at most two.
pub Runs-IsBounded : (q : JobQueue) {s t : System} → IsBounded s → Runs q s t → IsBounded t
Runs-IsBounded q b begin = b
Runs-IsBounded q b (more r st) = Step-IsBounded q st (Runs-IsBounded q b r)

-- A job whose row records all its attempts and no lock, and that no worker runs.
pub record IsDropped (id : ℕ) (j : Job) (s : System) : Type 0 where
  pub found : row id s.jobs.rows ≡ some j
  pub used_up : j.attempts ≡ max_attempts
  pub released : j.locked_by ≡ none
  pub idle : All (λ c. c.id ≢ id) s.running

claim_passes_dropped :
    (q : JobQueue) (id : ℕ) (j : Job) (t : Jobs) (w : Str) (locked : ℕ → Bool) (now : ℕ)
    (c : ClaimedJob)
    → Unique t.rows
    → row id t.rows ≡ some j
    → j.attempts ≡ max_attempts
    → (claim q w locked now t).0 ≡ some c
    → (c.id ≢ id) × (row id (claim q w locked now t).1.rows ≡ some j)
claim_passes_dropped q id j t w locked now c u f e h =
    let (k, a) = claim-Claims q w locked now t c h in
    let k_id = ap (λ (x : ClaimedJob). x.id) a.answer in
    let other : k.id ≢ id = λ p. ground (
      arith,
      row-of_In k t.rows u a.before,
      ap (λ (n : ℕ). row n t.rows) p,
      f,
      a.ready.tries_left,
      e,
    ) in
    (
      λ p. other (sym k_id ∙ p),
      rw a.after (
          row-update _ _ (lock-id w now) id t.rows
          ∙ rw f (ground (arith, row-id id t.rows j f, other))),
    )

settle_other :
    (q : JobQueue) (id : ℕ) (j : Job) (t : Jobs) (c : ClaimedJob) (o : Outcome) (now : ℕ)
    → row id t.rows ≡ some j
    → c.id ≢ id
    → row id (settle q c o now t).rows ≡ some j
unfolding settle delete_finished record_failure
settle_other q id j t c none now f n = row-delete c.id id t.rows ∙ rw f (ground arith)
settle_other q id j t c (some e) now f n =
    row-update _ _ (failed_row-id q c e now) id t.rows ∙ rw f (ground (arith, row-id id t.rows j f))

Step-IsDropped :
    (q : JobQueue) (id : ℕ) (j : Job) {s t : System}
    → Step q s t
    → IsBounded s
    → IsDropped id j s
    → IsDropped id j t
Step-IsDropped q id j {s = s} (enqueues kind payload run_at now) b d = record {
  found = unfold enqueue in row-append id s.jobs.rows _ j d.found;
  used_up = d.used_up;
  released = d.released;
  idle = d.idle;
}
Step-IsDropped q id j {s = s} (claims w locked now c h) b d =
    let (other, same) =
      claim_passes_dropped q id j s.jobs w locked now c b.valid.unique d.found d.used_up h in
    record { found = same; used_up = d.used_up; released = d.released; idle = (other, d.idle) }
Step-IsDropped q id j {s = s} (beats w k now) b d = record {
  found =
      unfold heartbeat in
      row-update _ _ (λ x. refl) id s.jobs.rows ∙ rw d.found (ground (arith, d.released));
  used_up = d.used_up;
  released = d.released;
  idle = d.idle;
}
Step-IsDropped q id j {s = s} (settles xs ys c o now e) b d =
    let here = subst (All (λ x. x.id ≢ id)) e d.idle in
    record {
      found = settle_other q id j s.jobs c o now d.found (All-middle _ xs ys c here);
      used_up = d.used_up;
      released = d.released;
      idle = All-around _ xs ys c here;
    }
Step-IsDropped q id j {s = s} (loses xs ys c e) b d = record {
  found = d.found;
  used_up = d.used_up;
  released = d.released;
  idle = All-around _ xs ys c (subst (All (λ x. x.id ≢ id)) e d.idle);
}

-- From a system whose keys and recorded attempts are in order, a job whose row records three attempts
-- and no lock, and that no worker runs, is never claimed again: after any further interleaving of the
-- workers its row is unchanged and still no worker runs it.
pub Runs-IsDropped :
    (q : JobQueue) (id : ℕ) (j : Job) {s t : System}
    → IsBounded s
    → IsDropped id j s
    → Runs q s t
    → IsDropped id j t
Runs-IsDropped q id j b d begin = d
Runs-IsDropped q id j b d (more r st) =
    Step-IsDropped q id j st (Runs-IsBounded q b r) (Runs-IsDropped q id j b d r)
