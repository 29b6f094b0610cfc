-- ===== src/Jobs/Queue/Lock.antt =====
-- A row that a worker has locked, while other workers go on.
use rustify.Prelude.{
  ℕ, ◌+◌, ◌≤◌, ◌<◌, ◌≡◌, ◌≢◌, refl, sym, ap, inl, inr, ◌∙◌, Bool, false, Option, none, some, Str,
  str_eq, arith, Option-cases, ◌↔◌, List, [], ◌∷◌, ◌==◌, if◌then◌else◌, Bool-cases, map_option,
}
use rustify.Prelude.Keyed.{
  row, row-update, row-id, row-append, row-delete, row-of_In, Unique, update_where,
}
use rustify.Jobs.Queue.Keys.{
  IsValid, enqueue-IsValid, claim-IsValid, heartbeat-IsValid, settle-IsValid,
}
use rustify.Jobs.Queue.{
  max_attempts, Job, ClaimedJob, Jobs, JobQueue, Outcome, job_keyed, lock, enqueue, claim,
  heartbeat, holds, delete_finished, failed_row, record_failure, settle, backoff_duration,
}
use rustify.Jobs.Queue.Claim.{Ready, claim-Claims, claim_idle}

pub lock-id : (w : Str) (now : ℕ) (j : Job) → (lock w now j).id ≡ j.id
unfolding lock
lock-id w now j = refl

pub failed_row-id :
    (q : JobQueue) (c : ClaimedJob) (e : Str) (now : ℕ) (j : Job)
    → (failed_row q c e now j).id ≡ j.id
unfolding failed_row
failed_row-id q c e now j = refl

-- What the row with key `id`, locked at `at`, sees of the others: the jobs of others settle, other
-- workers' heartbeats run, and any worker claims, up to the end of the stale period.
pub data Others (q : JobQueue) (id : ℕ) (w : Str) (at : ℕ) (t : Jobs) : Jobs → Type 0 where
  enqueues :
      (kind payload : Str) (run_at : Option ℕ) (now : ℕ)
      → Others q id w at t (enqueue kind payload run_at now t).1
  claims :
      (v : Str) (locked : ℕ → Bool) (now : ℕ)
      → now ≤ at + q.stale_lock_timeout
      → Others q id w at t (claim q v locked now t).1
  beats_other :
      (v : Str) (k now : ℕ) → str_eq w v ≡ false → Others q id w at t (heartbeat v k now t)
  settles :
      (c : ClaimedJob) (o : Outcome) (now : ℕ)
      → c.id ≢ id
      → c.attempts < max_attempts
      → Others q id w at t (settle q c o now t)

pub data Meanwhile (q : JobQueue) (id : ℕ) (w : Str) (at : ℕ) (s : Jobs) : Jobs → Type 0 where
  begin : Meanwhile q id w at s s
  and_then : {t u : Jobs} → Meanwhile q id w at s t → Others q id w at t u → Meanwhile q id w at s u

-- The row is locked by `w` since `at`.
pub record IsLocked (id : ℕ) (w : Str) (at : ℕ) (t : Jobs) (j : Job) : Type 0 where
  pub found : row id t.rows ≡ some j
  pub since : j.locked_at ≡ some at
  pub owner : j.locked_by ≡ some w

-- A claim within the stale period passes the row over.
claim_passes :
    (q : JobQueue) (id : ℕ) (w : Str) (at : ℕ) (t : Jobs) (j : Job) (v : Str) (locked : ℕ → Bool)
    (now : ℕ) (c : ClaimedJob)
    → Unique t.rows
    → IsLocked id w at t j
    → now ≤ at + q.stale_lock_timeout
    → (claim q v locked now t).0 ≡ some c
    → c.id ≢ id
claim_passes q id w at t j v locked now c u l n h e =
    let (k, a) = claim-Claims q v locked now t c h in
    let same : some k ≡ some j =
      sym (row-of_In k t.rows u a.before)
      ∙ rw (← ap (λ (x : ClaimedJob). x.id) a.answer, e) l.found in
    ground (arith, a.ready.unlocked, l.since)

claim_keeps :
    (q : JobQueue) (id : ℕ) (w : Str) (at : ℕ) (t : Jobs) (j : Job) (v : Str) (locked : ℕ → Bool)
    (now : ℕ)
    → Unique t.rows
    → IsLocked id w at t j
    → now ≤ at + q.stale_lock_timeout
    → IsLocked id w at (claim q v locked now t).1 j
claim_keeps q id w at t j v locked now u l n = elim (Option-cases (claim q v locked now t).0) [
  | inl idle ↦ rw (claim_idle q v locked now t idle).1 l
  | inr (c, h) ↦
      let (k, a) = claim-Claims q v locked now t c h in
      let passed = claim_passes q id w at t j v locked now c u l n h in
      record {
        found = rw a.after (
            row-update _ _ (lock-id v now) id t.rows
            ∙ rw l.found (
                ground
                  (arith, row-id id t.rows j l.found, ap (λ (x : ClaimedJob). x.id) a.answer)));
        since = l.since;
        owner = l.owner;
      }
]

settle_keeps :
    (q : JobQueue) (id : ℕ) (w : Str) (at : ℕ) (t : Jobs) (j : Job) (c : ClaimedJob) (o : Outcome)
    (now : ℕ)
    → IsLocked id w at t j
    → c.id ≢ id
    → IsLocked id w at (settle q c o now t) j
unfolding settle delete_finished record_failure
settle_keeps q id w at t j c none now l n = record {
  found = row-delete c.id id t.rows ∙ rw l.found (ground arith);
  since = l.since;
  owner = l.owner;
}
settle_keeps q id w at t j c (some e) now l n = record {
  found =
      row-update _ _ (failed_row-id q c e now) id t.rows
      ∙ rw l.found (ground (arith, row-id id t.rows j l.found));
  since = l.since;
  owner = l.owner;
}

heartbeat_keeps :
    (id : ℕ) (w : Str) (at : ℕ) (t : Jobs) (j : Job) (v : Str) (k now : ℕ)
    → IsLocked id w at t j
    → str_eq w v ≡ false
    → IsLocked id w at (heartbeat v k now t) j
unfolding heartbeat
heartbeat_keeps id w at t j v k now l n = record {
  found = row-update _ _ (λ d. refl) id t.rows ∙ rw l.found (ground (arith, l.owner));
  since = l.since;
  owner = l.owner;
}

enqueue_keeps :
    (id : ℕ) (w : Str) (at : ℕ) (t : Jobs) (j : Job) (kind payload : Str) (run_at : Option ℕ)
    (now : ℕ)
    → IsLocked id w at t j
    → IsLocked id w at (enqueue kind payload run_at now t).1 j
unfolding enqueue
enqueue_keeps id w at t j kind payload run_at now l = record {
  found = row-append id t.rows _ j l.found;
  since = l.since;
  owner = l.owner;
}

module _ (q : JobQueue) (id : ℕ) (w : Str) (at : ℕ) (j : Job) where
  Others-IsLocked :
      {t u : Jobs} → Others q id w at t u → IsValid t → IsLocked id w at t j → IsLocked id w at u j
  Others-IsLocked {t = t} (enqueues kind payload run_at now) v l =
      enqueue_keeps id w at t j kind payload run_at now l
  Others-IsLocked {t = t} (claims x locked now n) v l =
      claim_keeps q id w at t j x locked now v.unique l n
  Others-IsLocked {t = t} (beats_other x k now n) v l = heartbeat_keeps id w at t j x k now l n
  Others-IsLocked {t = t} (settles c o now n b) v l = settle_keeps q id w at t j c o now l n

Others-IsValid :
    (q : JobQueue) (id : ℕ) (w : Str) (at : ℕ) {t u : Jobs}
    → Others q id w at t u
    → IsValid t
    → IsValid u
Others-IsValid q id w at {t = t} (enqueues kind payload run_at now) v =
    enqueue-IsValid kind payload run_at now t v
Others-IsValid q id w at {t = t} (claims x locked now n) v = claim-IsValid q x locked now t v
Others-IsValid q id w at {t = t} (beats_other x k now n) v = heartbeat-IsValid x k now t v
Others-IsValid q id w at {t = t} (settles c o now n b) v = settle-IsValid q c o now t b v

Meanwhile-IsLocked :
    (q : JobQueue) (id : ℕ) (w : Str) (at : ℕ) (j : Job) {s t : Jobs}
    → Meanwhile q id w at s t
    → IsValid s
    → IsLocked id w at s j
    → IsValid t × IsLocked id w at t j
Meanwhile-IsLocked q id w at j begin v l = (v, l)
Meanwhile-IsLocked q id w at j (and_then m o) v l =
    let (v', l') = Meanwhile-IsLocked q id w at j m v l in
    (Others-IsValid q id w at o v', Others-IsLocked q id w at j o v' l')

claim-IsLocked :
    (q : JobQueue) (w : Str) (locked : ℕ → Bool) (now : ℕ) (t : Jobs) (c : ClaimedJob)
    → IsValid t
    → (claim q w locked now t).0 ≡ some c
    → (j : Job) × IsLocked c.id w now (claim q w locked now t).1 (lock w now j)
claim-IsLocked q w locked now t c v h =
    let (j, a) = claim-Claims q w locked now t c h in
    (
      j,
      record {
        found = rw a.after (
            row-update _ _ (lock-id w now) c.id t.rows
            ∙ rw (a.answer, row-of_In j t.rows v.unique a.before) (ground arith));
        since = unfold lock in refl;
        owner = unfold lock in refl;
      },
    )

-- From a valid table, after a worker has claimed a job at `now`, and whatever the others do until
-- the stale period has passed (enqueue, claim, heartbeat under another worker's name, finish and
-- fail other jobs), a claim within the stale period by any worker returns another job.
pub claim_exclusive :
    (q : JobQueue) (w : Str) (locked : ℕ → Bool) (now : ℕ) (s : Jobs) (c : ClaimedJob) {t : Jobs}
    → IsValid s
    → (claim q w locked now s).0 ≡ some c
    → Meanwhile q c.id w now (claim q w locked now s).1 t
    → (v : Str) (locked' : ℕ → Bool) (now' : ℕ) (c' : ClaimedJob)
    → now' ≤ now + q.stale_lock_timeout
    → (claim q v locked' now' t).0 ≡ some c'
    → c'.id ≢ c.id
claim_exclusive q w locked now s c {t = t} valid h m v locked' now' c' n h' =
    let (j, l) = claim-IsLocked q w locked now s c valid h in
    let (valid', l') =
      Meanwhile-IsLocked q c.id w now (lock w now j) m (claim-IsValid q w locked now s valid) l in
    claim_passes q c.id w now t (lock w now j) v locked' now' c' valid'.unique l' n h'

-- After a failure the row is ready from the end of the backoff on, if attempts are left.
failed_row-Ready :
    (q : JobQueue) (c : ClaimedJob) (error : Str) (now later : ℕ) (j : Job)
    → Ready (λ id. false) q.stale_lock_timeout later (failed_row q c error now j) ↔ (
        (now + backoff_duration q.backoff_base (c.attempts + 1) ≤ later)
        × (c.attempts + 1 < max_attempts))
unfolding failed_row
failed_row-Ready q c error now later j = (
  λ r. (r.due, r.tries_left),
  λ h. record { due = h.0; tries_left = h.1; unlocked = refl; free = refl },
)

-- What the failure report of `c` at `now` does to the table: one row is written, which counts the
-- attempts of `c`, may be claimed once the backoff is over if attempts are left, and which no
-- worker's heartbeat reaches any more.
pub record Releases (q : JobQueue) (c : ClaimedJob) (now : ℕ) (t u : Jobs) : Type 0 where
  pub written : Job
  pub others : (id : ℕ) → row id u.rows ≡ (if id == c.id then some written else row id t.rows)
  pub counted : written.attempts ≡ c.attempts + 1
  pub claimable :
      (later : ℕ)
      → Ready (λ id. false) q.stale_lock_timeout later written ↔ (
          (now + backoff_duration q.backoff_base (c.attempts + 1) ≤ later)
          × (c.attempts + 1 < max_attempts))
  pub unheld : (worker : Str) (later : ℕ) → heartbeat worker c.id later u ≡ u

others_keep :
    (q : JobQueue) (c : ClaimedJob) (e : Str) (now id : ℕ) (o : Option Job)
    → ((d : Job) → o ≡ some d → d.id ≡ id)
    → (id == c.id) ≡ false
    → map_option (λ d. if d.id == c.id then failed_row q c e now d else d) o ≡ o
others_keep q c e now id none h n = refl
others_keep q c e now id (some d) h n = ground (arith, h d refl)

failed-others :
    (q : JobQueue) (c : ClaimedJob) (e : Str) (now : ℕ) (t : Jobs) (j : Job)
    → row c.id t.rows ≡ some j
    → (id : ℕ)
    → row id (record_failure q c e now t).rows
      ≡ (if id == c.id then some (failed_row q c e now j) else row id t.rows)
unfolding record_failure
failed-others q c e now t j h id =
    row-update _ _ (failed_row-id q c e now) id t.rows ∙ elim (Bool-cases (id == c.id)) [
      | inl same ↦ ground (arith, h, row-id c.id t.rows j h)
      | inr other ↦
          rw other (others_keep q c e now id (row id t.rows) (λ d. row-id id t.rows d) other)
    ]

beat_after_failure :
    (q : JobQueue) (c : ClaimedJob) (e : Str) (now : ℕ) (worker : Str) (later : ℕ) (rows : List Job)
    → update_where
        (holds worker c.id)
        (λ j. record j { locked_at = some later })
        (update_where (λ j. j.id == c.id) (failed_row q c e now) rows)
      ≡ update_where (λ j. j.id == c.id) (failed_row q c e now) rows
unfolding failed_row
beat_after_failure q c e now worker later [] = refl
beat_after_failure q c e now worker later (j ∷ js) =
    ground (arith, beat_after_failure q c e now worker later js)

-- If a worker reports the failure of a job that, from a valid table, another claim has just given to
-- a holder, then the job's row alone is written: it counts the attempts of the report; whatever the
-- holder's lock, it may be claimed again (if no other transaction holds it) exactly from the end of
-- the backoff on and only if attempts are left; and no heartbeat for the job, the holder's included,
-- changes the table.
pub record_failure_any_holder :
    (q : JobQueue) (holder : Str) (locked : ℕ → Bool) (since : ℕ) (s : Jobs) (held c : ClaimedJob)
    (error : Str) (now : ℕ)
    → IsValid s
    → (claim q holder locked since s).0 ≡ some held
    → c.id ≡ held.id
    → Releases q c now
        (claim q holder locked since s).1
        (record_failure q c error now (claim q holder locked since s).1)
unfolding record_failure heartbeat
record_failure_any_holder q holder locked since s held c error now v h same =
    let t = (claim q holder locked since s).1 in
    let (j, l) = claim-IsLocked q holder locked since s held v h in
    record {
      written = failed_row q c error now (lock holder since j);
      others = failed-others q c error now t (lock holder since j) (rw same l.found);
      counted = unfold failed_row in refl;
      claimable = λ later. failed_row-Ready q c error now later (lock holder since j);
      unheld = λ worker later.
          ap (λ (rows : List Job). record t { rows = rows })
            (beat_after_failure q c error now worker later t.rows);
    }
