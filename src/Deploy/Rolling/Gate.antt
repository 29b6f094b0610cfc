-- ===== src/Deploy/Rolling/Gate.antt =====
-- The steps of a rolling update, and what a cancellation makes of it.
use rustify.Prelude.{
  ℕ, suc, ◌+◌, ◌-◌, ◌≤◌, Bool, true, false, Option, none, some, List, [], ◌∷◌, ◌++◌, Str, max,
  length, ◌≡◌, refl, arith,
}
use rustify.Prelude.Int.{pos_part}
use rustify.Deploy.Rolling.{
  eligible, eligibility, DeployError, cancelled, Command, compose_up_d, logs, force_remove, Reply,
  output, broken, interrupted, Engine, DeployResult, done, fail, ◌>>=◌, Application, answer,
  check_cancel, exec_step, compose_up, remove_container, query_container_logs, attempts,
  health_check, settle, rolling_update,
}

abbrev pub engine_of : {A : Type 0} → DeployResult A → Engine
engine_of (done a s) = s
engine_of (fail e s) = s

at_least_one : (n : ℕ) → max 1 n ≡ suc (n - 1)
at_least_one n = omega arith

-- After one check, and after a script was sent.
abbrev pub checked : Engine → Engine
checked s = record s { checks = s.checks + 1 }

abbrev pub sent : Command → Engine → Engine
sent c s = record s { checks = s.checks + 1; trace = s.trace ++ c ∷ [] }

module _ (refusal : ℕ → Option DeployError) (reply : ℕ → Reply)
    (parse_containers : Str → List Str) where
  abbrev step : Command → Bool → Engine → DeployResult Str
  step = exec_step refusal reply parse_containers

  abbrev pub run : Application → Str → Engine → DeployResult (Unit {0})
  run = rolling_update refusal reply parse_containers

  pub answer_state :
      (a : Bool) (r : Reply) (s : Engine)
      → engine_of (answer refusal reply parse_containers a r s) ≡ s
  answer_state true (output b out) s = refl
  answer_state false (output true out) s = refl
  answer_state false (output false out) s = refl
  answer_state a broken s = refl
  answer_state a interrupted s = refl

  -- A step is refused by its check, or it is sent.
  pub exec_step_refused :
      (c : Command) (a : Bool) (s : Engine) (e : DeployError)
      → refusal s.checks ≡ some e
      → step c a s ≡ fail e (checked s)
  unfolding exec_step check_cancel
  exec_step_refused c a s e h = rw (exec_step, check_cancel, h) refl

  pub exec_step-sent :
      (c : Command) (a : Bool) (s : Engine)
      → refusal s.checks ≡ none
      → step c a s ≡ answer refusal reply parse_containers a (reply (length s.trace)) (sent c s)
  unfolding exec_step check_cancel
  exec_step-sent c a s h = rw (exec_step, check_cancel, h) refl

  pub rolling_update-eligible :
      (app : Application) (name : Str) (s : Engine)
      → eligibility app.ports_mappings app.custom_docker_run_options ≡ eligible
      → refusal s.checks ≡ none
      → run app name s ≡ (
          compose_up refusal reply parse_containers false (checked s) >>= λ _ s.
          settle refusal reply parse_containers name
            (health_check refusal reply parse_containers app name s))
  unfolding rolling_update check_cancel
  rolling_update-eligible app name s e h = rw (rolling_update, check_cancel, h, e) refl

  pub compose_up-sent :
      (b : Bool) (s : Engine) (out : Str)
      → refusal s.checks ≡ none
      → reply (length s.trace) ≡ output true out
      → compose_up refusal reply parse_containers b s ≡ done tt (sent (compose_up_d b) s)
  unfolding compose_up
  compose_up-sent b s out h r = rw (compose_up, exec_step-sent (compose_up_d b) false s h, r) refl

  health_check_refused :
      (app : Application) (name : Str) (s : Engine)
      → app.health_check_enabled ≡ true
      → refusal s.checks ≡ some cancelled
      → health_check refusal reply parse_containers app name s ≡ fail cancelled (checked s)
  unfolding health_check attempts check_cancel
  health_check_refused app name s h c =
      rw
        (
          health_check,
          h,
          at_least_one (pos_part app.health_check_retries),
          attempts,
          check_cancel,
          c,
        )
        refl

  settle_refused :
      (name : Str) (s : Engine)
      → refusal s.checks ≡ some cancelled
      → refusal (s.checks + 1) ≡ some cancelled
      → settle refusal reply parse_containers name (fail cancelled s)
        ≡ fail cancelled (checked (checked s))
  unfolding settle remove_container query_container_logs
  settle_refused name s c0 c1 =
      rw
        (
          settle,
          remove_container,
          query_container_logs,
          exec_step_refused (logs name) true s cancelled c0,
          exec_step_refused (force_remove name) true (checked s) cancelled c1,
        )
        refl

  -- For an eligible application with a health check, if the new container comes up and every
  -- check from the third on finds a cancellation, and the first two pass, then the update
  -- fails as cancelled and leaves that container: the only script that it sends is the start,
  -- and not the one that would remove it.
  pub rolling_update_cancelled :
      (app : Application) (name : Str) (s : Engine) (out : Str)
      → eligibility app.ports_mappings app.custom_docker_run_options ≡ eligible
      → app.health_check_enabled ≡ true
      → refusal s.checks ≡ none
      → refusal (s.checks + 1) ≡ none
      → ((n : ℕ) → s.checks + 2 ≤ n → refusal n ≡ some cancelled)
      → reply (length s.trace) ≡ output true out
      → (s' : Engine) × (run app name s ≡ fail cancelled s')
        × (s'.trace ≡ s.trace ++ compose_up_d false ∷ [])
  rolling_update_cancelled app name s out e h c0 c1 c r =
      let t = sent (compose_up_d false) (checked s) in
      (
        checked (checked (checked t)),
        rw
            (
              rolling_update-eligible app name s e c0,
              compose_up-sent false (checked s) out c1 r,
              health_check_refused app name t h (c t.checks (omega arith)),
              settle_refused name (checked t) (c (t.checks + 1) (omega arith))
                  (c (t.checks + 1 + 1) (omega arith)),
            )
            refl,
        refl,
      )
