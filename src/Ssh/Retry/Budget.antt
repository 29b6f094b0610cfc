-- ===== src/Ssh/Retry/Budget.antt =====
-- The retries end after at most four calls, with the first outcome that is not a connection failure.
use rustify.Prelude.{
  ℕ, zero, suc, ◌+◌, ◌≤◌, ◌<◌, Bool, true, false, ◌&&◌, Option, some, List, [], ◌∷◌, ◌++◌, ltb,
  take, ◌≡◌, ◌⊎◌, inl, inr, refl, sym, ◌∙◌, arith, Bool-cases, ◌==◌, ==_iff, subst,
}
use rustify.Ssh.Retry.{
  ExecResult, ok, err, Run, retry_delays_secs, backoff_delay, is_connection, retry_loop,
  run_with_retry,
}

-- A failure that is retried.
unfoldable pub is_transient : ExecResult → Bool
unfolding is_connection
is_transient (ok out) = false
is_transient (err e) = is_connection e

abbrev ended : ExecResult → ℕ → List ℕ → Option Run
ended r calls slept = some (record { result = r; calls = calls; slept = slept })

-- One round of the loop, by the outcome of its call.
module _ (op : ℕ → ExecResult) (fuel attempt : ℕ) (slept : List ℕ) where
  stops :
      (r : ExecResult)
      → op attempt ≡ r
      → (is_transient r && ltb attempt 3) ≡ false
      → retry_loop op (suc fuel) attempt slept ≡ ended r (attempt + 1) slept
  unfolding retry_loop is_transient
  stops (ok out) e t = rw (retry_loop, e) refl
  stops (err d) e t = rw (retry_loop, e, t) refl

  again :
      (r : ExecResult)
      → op attempt ≡ r
      → (is_transient r && ltb attempt 3) ≡ true
      → retry_loop op (suc fuel) attempt slept
        ≡ retry_loop op fuel (attempt + 1) (slept ++ backoff_delay attempt ∷ [])
  unfolding retry_loop is_transient
  again (ok out) e t = cc
  again (err d) e t = rw (retry_loop, e, t) refl

-- The result of a run that ends with the call of number `k`.
abbrev pub Ends : (ℕ → ExecResult) → ℕ → Option Run → Type 0
Ends op k run =
    (run ≡ some (record { result = op k; calls = k + 1; slept = take k retry_delays_secs }))
    × ((j : ℕ) → j < k → is_transient (op j) ≡ true)
    × ((k ≡ 3) ⊎ (is_transient (op k) ≡ false))

transient_stops : (b : Bool) (n : ℕ) → b ≡ false → (b && ltb n 3) ≡ false
transient_stops b n h = rw h refl

transient_again : (b : Bool) (n : ℕ) → b ≡ true → n < 3 → (b && ltb n 3) ≡ true
transient_again b n h l = ground arith

below_one :
    (op : ℕ → ExecResult)
    → is_transient (op 0) ≡ true
    → (j : ℕ) → j < 1
    → is_transient (op j) ≡ true
below_one op h zero l = h
below_one op h (suc j) l = absurd (omega arith)

below_suc :
    (op : ℕ → ExecResult) (n : ℕ)
    → ((j : ℕ) → j < n → is_transient (op j) ≡ true)
    → is_transient (op n) ≡ true
    → (j : ℕ) → j < n + 1
    → is_transient (op j) ≡ true
below_suc op n h t j l = elim (Bool-cases (j == n)) [
  | inl e ↦ subst (λ i. is_transient (op i) ≡ true) (sym ((==_iff j n).0 e)) t
  | inr e ↦ h j (ground arith)
]

-- With fuel for four calls, a run ends, with the outcome of its last call, which is number `k` (from
-- zero), at most 3; every earlier call was a connection failure; this one is not, or it is the fourth;
-- and the run slept for the first `k` of 2, 4 and 8 seconds.
pub run_with_retry-Ends :
    (op : ℕ → ExecResult) (fuel : ℕ)
    → (k : ℕ) × (k ≤ 3) × Ends op k (run_with_retry op (suc (suc (suc (suc fuel)))))
unfolding run_with_retry backoff_delay
run_with_retry-Ends op fuel = elim (Bool-cases (is_transient (op 0))) [
  | inr e0 ↦ (
    0,
    omega arith,
    (
      stops op (suc (suc (suc fuel))) 0 [] (op 0) refl (transient_stops _ 0 e0),
      λ j l. absurd (omega arith),
      inr e0,
    ),
  )
  | inl e0 ↦ elim (Bool-cases (is_transient (op 1))) [
    | inr e1 ↦ (
      1,
      omega arith,
      (
        again op (suc (suc (suc fuel))) 0 [] (op 0) refl (transient_again _ 0 e0 (omega arith))
            ∙ stops op (suc (suc fuel)) 1 (2 ∷ []) (op 1) refl (transient_stops _ 1 e1),
        below_one op e0,
        inr e1,
      ),
    )
    | inl e1 ↦ elim (Bool-cases (is_transient (op 2))) [
      | inr e2 ↦ (
        2,
        omega arith,
        (
          again op (suc (suc (suc fuel))) 0 [] (op 0) refl (transient_again _ 0 e0 (omega arith))
              ∙ again op (suc (suc fuel)) 1 (2 ∷ []) (op 1) refl
                  (transient_again _ 1 e1 (omega arith))
              ∙ stops op (suc fuel) 2 (2 ∷ 4 ∷ []) (op 2) refl (transient_stops _ 2 e2),
          below_suc op 1 (below_one op e0) e1,
          inr e2,
        ),
      )
      | inl e2 ↦ (
        3,
        omega arith,
        (
          again op (suc (suc (suc fuel))) 0 [] (op 0) refl (transient_again _ 0 e0 (omega arith))
              ∙ again op (suc (suc fuel)) 1 (2 ∷ []) (op 1) refl
                  (transient_again _ 1 e1 (omega arith))
              ∙ again op (suc fuel) 2 (2 ∷ 4 ∷ []) (op 2) refl
                  (transient_again _ 2 e2 (omega arith))
              ∙ stops op fuel 3 (2 ∷ 4 ∷ 8 ∷ []) (op 3) refl (ground arith),
          below_suc op 2 (below_suc op 1 (below_one op e0) e1) e2,
          inl refl,
        ),
      )
    ]
  ]
]
