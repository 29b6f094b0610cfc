-- ===== src/Deploy/Rolling/Healthy.antt =====
-- The old containers are stopped only once the new one is healthy; a failed new one is removed.
use rustify.Prelude.{
  ℕ, zero, suc, Bool, true, false, List, [], ◌∷◌, ◌++◌, Str, any, length, any-append, ◌≡◌, refl,
  sym, ap, ◌∙◌, arith, inl, inr, Option-cases, Option, none, some, ◌⊎◌,
}
use rustify.Deploy.Rolling.{
  ContainerHealth, healthy, unhealthy, starting, no_health, parse_health_status, DeployError,
  Command, compose_up_d, inspect_health, stop_and_remove, Reply, output, broken, interrupted,
  Engine, DeployResult, done, fail, ◌>>=◌, verdict, answer, check_cancel, exec_step, compose_up,
  attempts,
}
use rustify.Deploy.Rolling.Gate.{
  engine_of, checked, sent, answer_state, exec_step_refused, exec_step-sent,
}

unfoldable pub is_stop : Command → Bool
is_stop (stop_and_remove names) = true
is_stop _ = false

pub fail-done : {A : Type 0} (e : DeployError) (s t : Engine) (a : A) → fail e s ≡ done a t → ⊥
fail-done e s t a h = cc

abbrev output_of : Str → DeployResult Str → Str
output_of d (done o s) = o
output_of d (fail e s) = d

module _ (refusal : ℕ → Option DeployError) (reply : ℕ → Reply)
    (parse_containers : Str → List Str) where
  abbrev step : Command → Bool → Engine → DeployResult Str
  step = exec_step refusal reply parse_containers

  pub step_quiet :
      (c : Command) (a : Bool) (s : Engine)
      → is_stop c ≡ false
      → any is_stop (engine_of (step c a s)).trace ≡ any is_stop s.trace
  step_quiet c a s q = elim (Option-cases (refusal s.checks)) [
    | inr (e, h) ↦ rw (exec_step_refused refusal reply parse_containers c a s e h) refl
    | inl h ↦
        rw
          (
            exec_step-sent refusal reply parse_containers c a s h,
            answer_state refusal reply parse_containers a (reply (length s.trace)) (sent c s),
            any-append is_stop s.trace (c ∷ []),
            q,
          )
          (ground arith)
  ]

  pub compose_up_quiet :
      (b : Bool) (s : Engine)
      → any is_stop (engine_of (compose_up refusal reply parse_containers b s)).trace
        ≡ any is_stop s.trace
  unfolding compose_up is_stop
  compose_up_quiet b s = go (step (compose_up_d b) false s) refl
    where
      go :
          (r : DeployResult Str)
          → step (compose_up_d b) false s ≡ r
          → any is_stop (engine_of (compose_up refusal reply parse_containers b s)).trace
            ≡ any is_stop s.trace
      go (done o t) e =
          rw (compose_up, e)
            (ap (λ r. any is_stop (engine_of r).trace) (sym e)
              ∙ step_quiet (compose_up_d b) false s refl)
      go (fail d t) e =
          rw (compose_up, e)
            (ap (λ r. any is_stop (engine_of r).trace) (sym e)
              ∙ step_quiet (compose_up_d b) false s refl)

  abbrev gate : ℕ → Str → Engine → DeployResult (Unit {0})
  gate = attempts refusal reply parse_containers

  attempts_refused :
      (n : ℕ) (name : Str) (s : Engine) (e : DeployError)
      → refusal s.checks ≡ some e
      → gate (suc n) name s ≡ fail e (checked s)
  unfolding attempts check_cancel
  attempts_refused n name s e h = rw (attempts, check_cancel, h) refl

  attempts_on :
      (n : ℕ) (name : Str) (s : Engine)
      → refusal s.checks ≡ none
      → gate (suc n) name s ≡ (
          step (inspect_health name) true (checked s) >>= λ out t.
          verdict (parse_health_status out) (gate n name t) t)
  unfolding attempts check_cancel
  attempts_on n name s h = rw (attempts, check_cancel, h) refl

  -- The checks of an attempt, by what they answer.
  module _ (n : ℕ) (name : Str) (s : Engine) where
    abbrev inspection : DeployResult Str
    inspection = step (inspect_health name) true (checked s)

  verdict_quiet :
      (h : ContainerHealth) (again : DeployResult (Unit {0})) (s t : Engine)
      → any is_stop s.trace ≡ any is_stop t.trace
      → any is_stop (engine_of again).trace ≡ any is_stop s.trace
      → any is_stop (engine_of (verdict h again s)).trace ≡ any is_stop t.trace
  verdict_quiet healthy again s t e g = e
  verdict_quiet unhealthy again s t e g = e
  verdict_quiet starting again s t e g = g ∙ e
  verdict_quiet no_health again s t e g = g ∙ e

  pub attempts_quiet :
      (n : ℕ) (name : Str) (s : Engine)
      → any is_stop (engine_of (gate n name s)).trace ≡ any is_stop s.trace
  unfolding attempts is_stop
  attempts_quiet zero name s = refl
  attempts_quiet (suc n) name s = elim (Option-cases (refusal s.checks)) [
    | inr (e, h) ↦ rw (attempts_refused n name s e h) refl
    | inl h ↦ rw (attempts_on n name s h) (go (attempts_quiet n name) (inspection n name s) refl)
  ]
    where
      go :
          ((t : Engine) → any is_stop (engine_of (gate n name t)).trace ≡ any is_stop t.trace)
          → (r : DeployResult Str) → inspection n name s ≡ r
          → any is_stop
              (engine_of (
                inspection n name s >>= λ out t.
                verdict (parse_health_status out) (gate n name t) t)).trace
            ≡ any is_stop s.trace
      go again (done o t) e = rw e (
          verdict_quiet (parse_health_status o) (gate n name t) t s
            (ap (λ r. any is_stop (engine_of r).trace) (sym e)
              ∙ step_quiet (inspect_health name) true (checked s) refl)
            (again t))
      go again (fail d t) e = rw e (
          ap (λ r. any is_stop (engine_of r).trace) (sym e)
          ∙ step_quiet (inspect_health name) true (checked s) refl)

  -- The last script was an inspection, which found the container healthy.
  abbrev pub FoundHealthy : Str → Engine → Type 0
  FoundHealthy name s =
      (t : List Command) × (b : Bool) × (out : Str) × (s.trace ≡ t ++ inspect_health name ∷ [])
      × (reply (length t) ≡ output b out)
      × (parse_health_status out ≡ healthy)

  answer_done :
      (r : Reply) (s t : Engine) (out : Str)
      → answer refusal reply parse_containers true r s ≡ done out t
      → (b : Bool) × (r ≡ output b out) × (t ≡ s)
  answer_done (output b o) s t out e =
      (b, ap (λ r. output b (output_of o r)) e, sym (ap engine_of e))
  answer_done broken s t out e = cc
  answer_done interrupted s t out e = cc

  verdict-done :
      (h : ContainerHealth) (again : DeployResult (Unit {0})) (t s' : Engine) (u : Unit)
      → verdict h again t ≡ done u s'
      → ((h ≡ healthy) × (t ≡ s')) ⊎ (again ≡ done u s')
  verdict-done healthy again t s' u e = inl (refl, ap engine_of e)
  verdict-done unhealthy again t s' u e = cc
  verdict-done starting again t s' u e = inr e
  verdict-done no_health again t s' u e = inr e

  -- What an inspection that returns was answered.
  inspected :
      (name : Str) (s t : Engine) (out : Str)
      → step (inspect_health name) true s ≡ done out t
      → (b : Bool) × (reply (length s.trace) ≡ output b out) × (t ≡ sent (inspect_health name) s)
  inspected name s t out e = elim (Option-cases (refusal s.checks)) [
    | inr (d, h) ↦ absurd (
        fail-done _ _ _ _ (
          sym (exec_step_refused refusal reply parse_containers (inspect_health name) true s d h)
          ∙ e))
    | inl h ↦
        answer_done (reply (length s.trace)) (sent (inspect_health name) s) t out
          (sym (exec_step-sent refusal reply parse_containers (inspect_health name) true s h) ∙ e)
  ]

  pub attempts_done :
      (n : ℕ) (name : Str) (s s' : Engine) (u : Unit)
      → gate n name s ≡ done u s'
      → FoundHealthy name s'
  unfolding attempts
  attempts_done zero name s s' u e = cc
  attempts_done (suc n) name s s' u e = elim (Option-cases (refusal s.checks)) [
    | inr (d, h) ↦ absurd (fail-done _ _ _ _ (sym (attempts_refused n name s d h) ∙ e))
    | inl h ↦
        go (attempts_done n name) (inspection n name s) refl (sym (attempts_on n name s h) ∙ e)
  ]
    where
      conclude :
          (o : Str) (t : Engine)
          → inspection n name s ≡ done o t
          → parse_health_status o ≡ healthy
          → t ≡ s'
          → FoundHealthy name s'
      conclude o t i p q =
          let (b, r, w) = inspected name (checked s) t o i in
          (s.trace, b, o, ap (λ x. x.trace) (sym q ∙ w), r, p)

      go :
          ((t s'' : Engine) (u : Unit) → gate n name t ≡ done u s'' → FoundHealthy name s'')
          → (r : DeployResult Str) → inspection n name s ≡ r
          → (r >>= λ out t. verdict (parse_health_status out) (gate n name t) t) ≡ done u s'
          → FoundHealthy name s'
      go again (fail d t) i e = absurd (fail-done _ _ _ _ e)
      go again (done o t) i e =
          elim (verdict-done (parse_health_status o) (gate n name t) t s' u e) [
            | inl (p, q) ↦ conclude o t i p q
            | inr g ↦ again t s' u g
          ]
