-- ===== src/Deploy/ScheduledTask/Retries.antt =====
-- The tries of a task's command.
use rustify.Prelude.{
  ℕ, zero, suc, ◌+◌, ◌-◌, ◌<◌, Bool, true, false, not, ◌&&◌, inl, inr, Option, none, some, List, [],
  ◌∷◌, ◌++◌, Str, ◌≡◌, refl, ap, subst, ◌∙◌, arith, Bool-cases, if◌then◌else◌, length,
  length-append, sym, append-nil, append_assoc,
}
use rustify.Db.ScheduledTasks.{execution_keyed}
use rustify.Deploy.Host.{World, Session, Reply, exec, sleep}
use rustify.Deploy.ScheduledTask.Tables.{Tables}
use rustify.Deploy.ScheduledTask.Run.{
  TaskFail, Outcome, success, failure, succeeded, output_of, task_fail, scheduled_task_tries, delay,
  is_last, not_run, wait, retry, run_with_retry,
}

-- No script of `k` from the n-th on succeeds.
abbrev pub none_succeed : (ℕ → Reply) → ℕ → ℕ → Bool
none_succeed reply n zero = true
none_succeed reply n (suc k) = not (succeeded (reply n)) && none_succeed reply (n + 1) k

abbrev pub copies : ℕ → Str × Str → List (Str × Str)
copies zero x = []
copies (suc m) x = x ∷ copies m x

-- How a run with so many tries ends that starts at the n-th script: with the first success, or with
-- the failure of the last try.
abbrev pub Tried : (ℕ → Reply) → ℕ → ℕ → Outcome → ℕ → Type 0
Tried reply n left (success out) later =
    (k : ℕ) × (k < left)
    × (none_succeed reply n k ≡ true)
    × (succeeded (reply (n + k)) ≡ true)
    × (out ≡ output_of (reply (n + k)))
    × (later ≡ n + k + 1)
Tried reply n left (failure f) later =
    (none_succeed reply n left ≡ true) × (later ≡ n + left) × (f ≡ task_fail (reply (n + left - 1)))

module _ (W : World) (backoff : List ℕ) where
  wait-length : (d : Option ℕ) (t : Session Tables) → (wait W backoff d t).trace ≡ t.trace
  unfolding wait sleep
  wait-length none t = refl
  wait-length (some d) t = refl

  wait-tables : (d : Option ℕ) (t : Session Tables) → (wait W backoff d t).tables ≡ t.tables
  unfolding wait sleep
  wait-tables none t = refl
  wait-tables (some d) t = refl

  Tried-later :
      (n left : ℕ) (o : Outcome) (later : ℕ)
      → succeeded (W.reply n) ≡ false
      → Tried W.reply (n + 1) (suc left) o later
      → Tried W.reply n (suc (suc left)) o later
  Tried-later n left (success out) later e (k, l, z, s, q, w) = (
    suc k,
    omega (arith, l),
    ground (arith, e, z),
    subst (λ (m : ℕ). succeeded (W.reply m) ≡ true) {x = n + 1 + k} {y = n + suc k} (omega arith) s,
    q ∙ ap (λ (m : ℕ). output_of (W.reply m)) {x = n + 1 + k} {y = n + suc k} (omega arith),
    omega (arith, w),
  )
  Tried-later n left (failure f) later e (z, w, q) = (
    ground (arith, e, z),
    omega (arith, w),
    q
        ∙ ap (λ (m : ℕ). task_fail (W.reply m)) {x = n + 1 + suc left - 1}
            {y = n + suc (suc left) - 1} (omega arith),
  )

  first-Tried :
      (n left : ℕ)
      → succeeded (W.reply n) ≡ true
      → Tried W.reply n (suc left) (success (output_of (W.reply n))) (n + 1)
  first-Tried n left e = (
    0,
    omega arith,
    refl,
    subst (λ (m : ℕ). succeeded (W.reply m) ≡ true) {x = n} {y = n + 0} (omega arith) e,
    ap (λ (m : ℕ). output_of (W.reply m)) {x = n} {y = n + 0} (omega arith),
    omega arith,
  )

  last-Tried :
      (n : ℕ)
      → succeeded (W.reply n) ≡ false
      → Tried W.reply n 1 (failure (task_fail (W.reply n))) (n + 1)
  last-Tried n e = (
    rw e refl,
    omega arith,
    ap (λ (m : ℕ). task_fail (W.reply m)) {x = n} {y = n + 1 - 1} (omega arith),
  )

  longer : (t : Session Tables) (x : Str × Str) → length (t.trace ++ x ∷ []) ≡ length t.trace + 1
  longer t x = omega (arith, length-append {0} t.trace (x ∷ []))

  retry-Tried :
      (left attempt : ℕ) (last : TaskFail) (server script : Str) (t : Session Tables)
      → Tried W.reply
          (length t.trace)
          (suc left)
          (retry W backoff (suc left) attempt last server script t).0
          (length (retry W backoff (suc left) attempt last server script t).1.trace)
  unfolding retry exec
  retry-Tried zero attempt last server script t =
      elim (Bool-cases (succeeded (W.reply (length t.trace)))) [
        | inl e ↦ rw (e, longer t (server, script)) (first-Tried (length t.trace) 0 e)
        | inr e ↦ rw (e, longer t (server, script)) (last-Tried (length t.trace) e)
      ]
  retry-Tried (suc left) attempt last server script t =
      let n = length t.trace in
      let v =
        wait W backoff (delay backoff attempt)
          (record t { trace = t.trace ++ (server, script) ∷ [] }) in
      let m : length v.trace ≡ n + 1 =
        ap (λ (l : List (Str × Str)). length l) (wait-length (delay backoff attempt) _)
        ∙ longer t (server, script) in
      elim (Bool-cases (succeeded (W.reply n))) [
        | inl e ↦ rw (e, longer t (server, script)) (first-Tried n (suc left) e)
        | inr e ↦ rw e (
            Tried-later n left _ _ e (
              subst
                (λ (i : ℕ).
                  Tried W.reply i (suc left)
                    (retry W backoff (suc left) (attempt + 1) (task_fail (W.reply n)) server script
                      v).0
                    (length
                      (retry W backoff (suc left) (attempt + 1) (task_fail (W.reply n)) server
                        script v).1.trace))
                m (retry-Tried left (attempt + 1) (task_fail (W.reply n)) server script v)))
      ]

  -- Every script that the tries send is the given one, to the given server.
  retry-trace :
      (left attempt : ℕ) (last : TaskFail) (server script : Str) (t : Session Tables)
      → (m : ℕ) × ((retry W backoff left attempt last server script t).1.trace
          ≡ t.trace ++ copies m (server, script))
  unfolding retry exec
  retry-trace zero attempt last server script t = (0, sym (append-nil t.trace))
  retry-trace (suc left) attempt last server script t =
      let u : Session Tables = record t { trace = t.trace ++ (server, script) ∷ [] } in
      let d = if is_last left then none else delay backoff attempt in
      let v = wait W backoff d u in
      elim (Bool-cases (succeeded (W.reply (length t.trace)))) [
        | inl e ↦ rw e (1, refl)
        | inr e ↦
            let (m, h) =
              retry-trace left (attempt + 1) (task_fail (W.reply (length t.trace))) server script
                v in
            rw e (
              suc m,
              h
                  ∙ ap (λ (l : List (Str × Str)). l ++ copies m (server, script)) (wait-length d u)
                  ∙ append_assoc t.trace ((server, script) ∷ []) (copies m (server, script)),
            )
      ]

  -- A wait, a look at the rows and a script leave the tables.
  retry-tables :
      (left attempt : ℕ) (last : TaskFail) (server script : Str) (t : Session Tables)
      → (retry W backoff left attempt last server script t).1.tables ≡ t.tables
  unfolding retry exec
  retry-tables zero attempt last server script t = refl
  retry-tables (suc left) attempt last server script t =
      let u : Session Tables = record t { trace = t.trace ++ (server, script) ∷ [] } in
      let v = wait W backoff (if is_last left then none else delay backoff attempt) u in
      elim (Bool-cases (succeeded (W.reply (length t.trace)))) [
        | inl e ↦ rw e refl
        | inr e ↦ rw e (
            retry-tables left (attempt + 1) (task_fail (W.reply (length t.trace))) server script v
            ∙ wait-tables _ u)
      ]

  -- All that a run sends is its script, to its server, once, twice or three times: up to the first
  -- success, whose output it reports, or three times with the failure of the last try.
  pub run_with_retry-Tried :
      (server script : Str) (t : Session Tables)
      → ((m : ℕ) × ((run_with_retry W backoff server script t).1.trace
            ≡ t.trace ++ copies m (server, script)))
        × Tried W.reply
            (length t.trace)
            scheduled_task_tries
            (run_with_retry W backoff server script t).0
            (length (run_with_retry W backoff server script t).1.trace)
  unfolding run_with_retry
  run_with_retry-Tried server script t =
      (retry-trace 3 0 not_run server script t, retry-Tried 2 0 not_run server script t)

  pub run_with_retry-tables :
      (server script : Str) (t : Session Tables)
      → (run_with_retry W backoff server script t).1.tables ≡ t.tables
  unfolding run_with_retry
  run_with_retry-tables server script t = retry-tables 3 0 not_run server script t
