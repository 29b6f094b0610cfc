-- ===== src/Deploy/Rolling/Tests.antt =====
-- Rolling updates of a container "old" to a container "new".
use rustify.Prelude.{
  ℕ, zero, suc, ◌≤◌, true, false, Option, none, some, List, [], ◌∷◌, ◌++◌, Str, str_eq, codes, any,
  ◌≡◌, refl, arith,
}
use rustify.Prelude.Int.{pos}
use rustify.Deploy.Rolling.{
  eligible, eligibility, DeployError, database, compose_up_d, list_containers, inspect_health,
  stop_and_remove, logs, force_remove, Reply, output, Engine, done, fail, cancelled,
  unhealthy_container, Application, parse_health_status, check_cancel, exec_step, compose_up,
  stop_other_containers, attempts, health_check, settle, rolling_update,
}
use rustify.Deploy.Rolling.Gate.{rolling_update_cancelled, engine_of, sent, checked}
use rustify.Deploy.Rolling.Healthy.{is_stop, FoundHealthy}
use rustify.Deploy.Rolling.Order.{rolling_update-Gated, rolling_update_failed}

abbrev app : Application
app = record {
  ports_mappings = none;
  custom_docker_run_options = none;
  health_check_enabled = true;
  health_check_retries = pos 2;
}

abbrev fresh : Engine
fresh = record { checks = 0; trace = [] }

abbrev never : ℕ → Option DeployError
never n = none

-- The container answers with a status.
abbrev answers : Str → ℕ → Reply
answers status (suc zero) = output true status
answers status n = output true []

abbrev names : Str → List Str
names out = codes "old" ∷ codes "new" ∷ []

abbrev says_healthy : Str
says_healthy = codes "\"healthy\""

abbrev says_unhealthy : Str
says_unhealthy = codes "\"unhealthy\""

is_eligible : eligibility app.ports_mappings app.custom_docker_run_options ≡ eligible
unfolding eligibility
is_eligible = refl

stops_old :
    rolling_update never (answers says_healthy) names app (codes "new") fresh
    ≡ done tt (record {
      checks = 6;
      trace =
          compose_up_d false
          ∷ inspect_health (codes "new")
          ∷ list_containers
          ∷ stop_and_remove (codes "old" ∷ [])
          ∷ [];
    })
unfolding rolling_update check_cancel compose_up exec_step health_check attempts settle
    stop_other_containers str_eq parse_health_status eligibility
stops_old = refl

stops :
    any is_stop
      (engine_of (rolling_update never (answers says_healthy) names app (codes "new") fresh)).trace
    ≡ true
unfolding is_stop
stops = rw stops_old refl

rolling_update-Gated_example :
    (t : Engine) × FoundHealthy never (answers says_healthy) names (codes "new") t
    × (any is_stop t.trace ≡ false)
    × (rolling_update never (answers says_healthy) names app (codes "new") fresh
        ≡ stop_other_containers never (answers says_healthy) names (some (codes "new")) t)
rolling_update-Gated_example =
    rolling_update-Gated never (answers says_healthy) names app (codes "new") fresh is_eligible refl
      refl stops

-- From the third check on.
abbrev late : ℕ → Option DeployError
late zero = none
late (suc zero) = none
late (suc (suc n)) = some cancelled

from_third : (n : ℕ) → 2 ≤ n → late n ≡ some cancelled
from_third zero h = absurd (omega arith)
from_third (suc zero) h = absurd (omega arith)
from_third (suc (suc n)) h = refl

rolling_update_cancelled_example :
    (s : Engine) × (rolling_update late (answers says_healthy) names app (codes "new") fresh
      ≡ fail cancelled s)
    × (s.trace ≡ compose_up_d false ∷ [])
rolling_update_cancelled_example =
    rolling_update_cancelled late (answers says_healthy) names app (codes "new") fresh []
      is_eligible refl refl refl from_third refl

-- A check that the database does not answer fails the update with that error.
abbrev asks_in_vain : ℕ → Option DeployError
asks_in_vain n = some database

unanswered :
    rolling_update asks_in_vain (answers says_healthy) names app (codes "new") fresh
    ≡ fail database (record { checks = 1; trace = [] })
unfolding rolling_update check_cancel
unanswered = refl

abbrev failed_at : Engine
failed_at = record { checks = 4; trace = compose_up_d false ∷ inspect_health (codes "new") ∷ [] }

fails :
    health_check never
      (answers says_unhealthy)
      names
      app
      (codes "new")
      (sent (compose_up_d false) (checked fresh))
    ≡ fail unhealthy_container failed_at
unfolding check_cancel exec_step health_check attempts parse_health_status
fails = refl

rolling_update_failed_example :
    (s : Engine) × (rolling_update never (answers says_unhealthy) names app (codes "new") fresh
      ≡ fail unhealthy_container s)
    × (s.trace ≡ (failed_at.trace ++ logs (codes "new") ∷ []) ++ force_remove (codes "new") ∷ [])
rolling_update_failed_example =
    rolling_update_failed never (answers says_unhealthy) names app (codes "new") fresh failed_at []
      unhealthy_container is_eligible (λ n. refl) refl fails
