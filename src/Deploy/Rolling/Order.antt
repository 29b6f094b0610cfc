-- ===== src/Deploy/Rolling/Order.antt =====
-- The old containers are stopped only behind the health gate, and a failed new one is removed.
use rustify.Prelude.{
  ℕ, ◌+◌, Bool, true, false, some, List, [], ◌∷◌, ◌++◌, Str, any, max, length, ◌≡◌, refl, sym, ap,
  ◌∙◌, arith, inl, inr, Option-cases, Option, none,
}
use rustify.Prelude.Int.{pos_part}
use rustify.Deploy.Rolling.{
  eligible, eligibility, DeployError, Command, compose_up_d, logs, force_remove, Reply, output,
  Engine, DeployResult, done, fail, ◌>>=◌, Application, ignore, check_cancel, exec_step, compose_up,
  stop_other_containers, remove_container, query_container_logs, attempts, health_check, settle,
  rolling_update,
}
use rustify.Deploy.Rolling.Gate.{
  engine_of, checked, sent, answer_state, exec_step-sent, rolling_update-eligible, compose_up-sent,
  run,
}
use rustify.Deploy.Rolling.Healthy.{
  is_stop, step_quiet, compose_up_quiet, attempts_quiet, attempts_done, FoundHealthy,
}

apart : {b : Bool} → b ≡ false → b ≡ true → ⊥
apart {b = b} f t = ground arith

ignore_engine : {A : Type 0} (r : DeployResult A) → ignore r ≡ engine_of r
ignore_engine (done a s) = refl
ignore_engine (fail e s) = refl

module _ (refusal : ℕ → Option DeployError) (reply : ℕ → Reply)
    (parse_containers : Str → List Str) where
  abbrev check : Application → Str → Engine → DeployResult (Unit {0})
  check = health_check refusal reply parse_containers

  abbrev finish : Str → DeployResult (Unit {0}) → DeployResult (Unit {0})
  finish = settle refusal reply parse_containers

  abbrev started : Engine → DeployResult (Unit {0})
  started = compose_up refusal reply parse_containers false

  abbrev stopping : DeployResult (Unit {0}) → Bool
  stopping r = any is_stop (engine_of r).trace

  remove_quiet :
      (name : Str) (s : Engine)
      → any is_stop (remove_container refusal reply parse_containers name s).trace
        ≡ any is_stop s.trace
  unfolding remove_container is_stop
  remove_quiet name s =
      ap (λ t. any is_stop t.trace)
        (ignore_engine (exec_step refusal reply parse_containers (force_remove name) true s))
      ∙ step_quiet refusal reply parse_containers (force_remove name) true s refl

  logs_quiet :
      (name : Str) (s : Engine)
      → any is_stop (query_container_logs refusal reply parse_containers name s).trace
        ≡ any is_stop s.trace
  unfolding query_container_logs is_stop
  logs_quiet name s =
      ap (λ t. any is_stop t.trace)
        (ignore_engine (exec_step refusal reply parse_containers (logs name) true s))
      ∙ step_quiet refusal reply parse_containers (logs name) true s refl

  settle_quiet :
      (name : Str) (e : DeployError) (s : Engine)
      → stopping (finish name (fail e s)) ≡ any is_stop s.trace
  unfolding settle
  settle_quiet name e s =
      remove_quiet name (query_container_logs refusal reply parse_containers name s)
      ∙ logs_quiet name s

  health_check-attempts :
      (app : Application) (name : Str) (s : Engine)
      → app.health_check_enabled ≡ true
      → check app name s
        ≡ attempts refusal reply parse_containers (max 1 (pos_part app.health_check_retries)) name s
  unfolding health_check
  health_check-attempts app name s h = rw (health_check, h) refl

  rolling_update-refused :
      (app : Application) (name : Str) (s : Engine) (e : DeployError)
      → refusal s.checks ≡ some e
      → run refusal reply parse_containers app name s ≡ fail e (checked s)
  unfolding rolling_update check_cancel
  rolling_update-refused app name s e h = rw (rolling_update, check_cancel, h) refl

  -- For an eligible application with a health check, an update that stops a container has first
  -- stopped none, then had an inspection of the new container answered with "healthy", and from there
  -- on it stops the others and sends nothing else.
  pub rolling_update-Gated :
      (app : Application) (name : Str) (s : Engine)
      → eligibility app.ports_mappings app.custom_docker_run_options ≡ eligible
      → app.health_check_enabled ≡ true
      → any is_stop s.trace ≡ false
      → any is_stop (engine_of (run refusal reply parse_containers app name s)).trace ≡ true
      → (t : Engine) × FoundHealthy refusal reply parse_containers name t
        × (any is_stop t.trace ≡ false)
        × (run refusal reply parse_containers app name s
            ≡ stop_other_containers refusal reply parse_containers (some name) t)
  rolling_update-Gated app name s e h quiet stopped = elim (Option-cases (refusal s.checks)) [
    | inr (d, c) ↦
        absurd (apart (ap stopping (rolling_update-refused app name s d c) ∙ quiet) stopped)
    | inl c ↦
        launched (started (checked s)) refl
          (rolling_update-eligible refusal reply parse_containers app name s e c)
  ]
    where
      unchanged : any is_stop (engine_of (started (checked s))).trace ≡ false
      unchanged = compose_up_quiet refusal reply parse_containers false (checked s) ∙ quiet

      judged :
          (t : Engine)
          → any is_stop t.trace ≡ false
          → (r : DeployResult (Unit {0})) → check app name t ≡ r
          → run refusal reply parse_containers app name s ≡ finish name r
          → (t : Engine) × FoundHealthy refusal reply parse_containers name t
            × (any is_stop t.trace ≡ false)
            × (run refusal reply parse_containers app name s
                ≡ stop_other_containers refusal reply parse_containers (some name) t)
      judged t q (done u t2) k eq = (
        t2,
        attempts_done refusal reply parse_containers (max 1 (pos_part app.health_check_retries))
            name t t2 u (sym (health_check-attempts app name t h) ∙ k),
        ap stopping (sym k ∙ health_check-attempts app name t h)
            ∙ attempts_quiet refusal reply parse_containers
                (max 1 (pos_part app.health_check_retries)) name t
            ∙ q,
        eq ∙ unfold settle in refl,
      )
      judged t q (fail d t2) k eq = absurd (
          apart
            (ap stopping eq
              ∙ settle_quiet name d t2
              ∙ ap stopping (sym k ∙ health_check-attempts app name t h)
              ∙ attempts_quiet refusal reply parse_containers
                  (max 1 (pos_part app.health_check_retries)) name t
              ∙ q)
            stopped)

      launched :
          (r : DeployResult (Unit {0}))
          → started (checked s) ≡ r
          → run refusal reply parse_containers app name s
            ≡ (r >>= λ _ t. finish name (check app name t))
          → (t : Engine) × FoundHealthy refusal reply parse_containers name t
            × (any is_stop t.trace ≡ false)
            × (run refusal reply parse_containers app name s
                ≡ stop_other_containers refusal reply parse_containers (some name) t)
      launched (done u t) k eq =
          judged t (ap stopping (sym k) ∙ unchanged) (check app name t) refl eq
      launched (fail d t) k eq =
          absurd (apart (ap stopping eq ∙ ap stopping (sym k) ∙ unchanged) stopped)

  -- A script whose error is dropped, whose check passes.
  ignored_trace :
      (c : Command) (s : Engine)
      → refusal s.checks ≡ none
      → (ignore (exec_step refusal reply parse_containers c true s)).trace ≡ s.trace ++ c ∷ []
  ignored_trace c s h =
      ap (λ t. t.trace)
        (ignore_engine (exec_step refusal reply parse_containers c true s)
          ∙ ap engine_of (exec_step-sent refusal reply parse_containers c true s h)
          ∙ answer_state refusal reply parse_containers true (reply (length s.trace)) (sent c s))

  -- If every check passes and the new container of an eligible application comes up but fails
  -- its health check, the update fails with that error, and its last two scripts fetch the logs
  -- of the new container and remove it.
  pub rolling_update_failed :
      (app : Application) (name : Str) (s u : Engine) (out : Str) (e : DeployError)
      → eligibility app.ports_mappings app.custom_docker_run_options ≡ eligible
      → ((n : ℕ) → refusal n ≡ none)
      → reply (length s.trace) ≡ output true out
      → check app name (sent (compose_up_d false) (checked s)) ≡ fail e u
      → (s' : Engine) × (run refusal reply parse_containers app name s ≡ fail e s')
        × (s'.trace ≡ (u.trace ++ logs name ∷ []) ++ force_remove name ∷ [])
  unfolding settle remove_container query_container_logs
  rolling_update_failed app name s u out e g c r k = (
    remove_container refusal reply parse_containers name
        (query_container_logs refusal reply parse_containers name u),
    rolling_update-eligible refusal reply parse_containers app name s g (c s.checks)
        ∙ rw
            (
              compose_up-sent refusal reply parse_containers false (checked s) out
                  (c (s.checks + 1)) r,
              k,
            )
            refl,
    ignored_trace (force_remove name)
          (ignore (exec_step refusal reply parse_containers (logs name) true u)) (c _)
        ∙ ap (λ t. t ++ force_remove name ∷ []) (ignored_trace (logs name) u (c u.checks)),
  )
