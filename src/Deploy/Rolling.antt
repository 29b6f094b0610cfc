-- ===== src/Deploy/Rolling.antt =====
-- crates/rustify-deploy/src/rolling.rs, with the engine's steps that it calls (engine.rs): the
-- rolling update behind its health gate. The scripts are the commands that they run, and the trace
-- of those sent to the host is the state; log lines and sleeps are left out.
pub mod Gate
pub mod Healthy
pub mod Order
mod Tests
use rustify.Prelude.{
  ℕ, zero, suc, ◌+◌, Bool, true, false, not, ◌&&◌, ◌||◌, Option, none, some, List, [], ◌∷◌, ◌++◌,
  map, Str, str_eq, codes, contains, filter, if◌then◌else◌, ◌==◌, max, unwrap_or, map_option,
  length,
}
use rustify.Prelude.Int.{ℤ, pos, negsuc, pos_part}
use rustify.Prelude.Chars.{trim, trim_matches}

pub data Eligibility : Type 0 where
  eligible : Eligibility
  disqualified : Str → Eligibility

unfoldable pub eligibility : Option Str → Option Str → Eligibility
unfolding trim str_eq contains
eligibility ports_mappings options =
    if unwrap_or (map_option (λ p. not (str_eq (trim p) [])) ports_mappings) false
    then disqualified (codes "application has ports mapped to the host system")
    else (elim options [
      | none ↦ eligible
      | some opts ↦
          if contains (codes "--ip") opts || contains (codes "--ip6") opts
          then disqualified (codes "a custom IP address is set")
          else eligible
    ])

pub data ContainerHealth : Type 0 where
  healthy unhealthy starting no_health : ContainerHealth

unfoldable pub parse_health_status : Str → ContainerHealth
unfolding trim trim_matches str_eq
parse_health_status raw =
    let s = trim_matches (λ c. c == 34) (trim raw) in
    if str_eq s (codes "healthy")
    then healthy
    else if str_eq s (codes "unhealthy")
    then unhealthy
    else if str_eq s (codes "starting")
    then starting
    else no_health

pub data DeployError : Type 0 where
  exec_failed : DeployError
  database : DeployError
  cancelled : DeployError
  build : DeployError
  unhealthy_container : DeployError

-- The scripts, by what they run on the host.
pub data Command : Type 0 where
  compose_up_d : Bool → Command  -- with --remove-orphans or not
  list_containers : Command  -- docker ps -a, for the application and the pull request
  inspect_health : Str → Command
  stop_and_remove : List Str → Command  -- docker stop, docker rm -f of each
  logs : Str → Command
  force_remove : Str → Command

-- What the executor makes of a script.
pub data Reply : Type 0 where
  output : Bool → Str → Reply  -- whether the exit code is 0, and stdout
  broken : Reply  -- an `ExecError`
  interrupted : Reply  -- a cancellation was seen while it ran

-- `checks` counts the cancellation checks so far.
pub record Engine : Type 0 where
  pub checks : ℕ
  pub trace : List Command

pub data DeployResult (A : Type 0) : Type 0 where
  done : A → Engine → DeployResult A
  fail : DeployError → Engine → DeployResult A

infixl 5 ◌>>=◌
abbrev pub ◌>>=◌ : {A B : Type 0} → DeployResult A → (A → Engine → DeployResult B) → DeployResult B
done a s >>= f = f a s
fail e s >>= f = fail e s

-- `let _ =` of a step: its error is dropped.
abbrev pub ignore : {A : Type 0} → DeployResult A → Engine
ignore (done a s) = s
ignore (fail e s) = s

-- What an inspection's answer decides; `again` is the next attempt.
abbrev pub verdict : ContainerHealth → DeployResult (Unit {0}) → Engine → DeployResult (Unit {0})
verdict healthy again s = done tt s
verdict unhealthy again s = fail unhealthy_container s
verdict starting again s = again
verdict no_health again s = again

-- The columns of the application that the update reads.
pub record Application : Type 0 where
  pub ports_mappings : Option Str
  pub custom_docker_run_options : Option Str
  pub health_check_enabled : Bool
  pub health_check_retries : ℤ

-- The world: the error of the n-th check, if it finds a cancellation or cannot ask the database, and
-- the reply to the n-th script.
module _ (refusal : ℕ → Option DeployError) (reply : ℕ → Reply)
    (parse_containers : Str → List Str) where
  unfoldable pub check_cancel : Engine → DeployResult (Unit {0})
  check_cancel s =
      let s' : Engine = record s { checks = s.checks + 1 } in
      elim (refusal s.checks) [ none ↦ done tt s' | some e ↦ fail e s' ]

  abbrev pub answer : Bool → Reply → Engine → DeployResult Str
  answer allow_failure (output success stdout) s =
      if not allow_failure && not success then fail build s else done stdout s
  answer allow_failure broken s = fail exec_failed s
  answer allow_failure interrupted s = fail cancelled s

  unfoldable pub exec_step : Command → Bool → Engine → DeployResult Str
  exec_step c allow_failure s = check_cancel s >>= λ _ s.
      (answer allow_failure (reply (length s.trace)) (record s { trace = s.trace ++ c ∷ [] }))

  unfoldable pub compose_up : Bool → Engine → DeployResult (Unit {0})
  compose_up remove_orphans s = exec_step (compose_up_d remove_orphans) false s >>= λ _ s. done tt s

  abbrev keeps : Option Str → Str → Bool
  keeps none n = true
  keeps (some e) n = not (str_eq n e)

  abbrev stop_all : List Str → Engine → DeployResult (Unit {0})
  stop_all [] s = done tt s
  stop_all (n ∷ ns) s = exec_step (stop_and_remove (n ∷ ns)) true s >>= λ _ s. done tt s

  unfoldable pub stop_other_containers : Option Str → Engine → DeployResult (Unit {0})
  stop_other_containers except s = exec_step list_containers true s >>= λ out s.
      stop_all (filter (λ n. keeps except n && not (str_eq n [])) (parse_containers out)) s

  unfoldable pub remove_container : Str → Engine → Engine
  remove_container name s = ignore (exec_step (force_remove name) true s)

  unfoldable pub query_container_logs : Str → Engine → Engine
  query_container_logs name s = ignore (exec_step (logs name) true s)

  -- The attempts that are left of the budget.
  unfoldable pub attempts : ℕ → Str → Engine → DeployResult (Unit {0})
  attempts zero name s = fail unhealthy_container s
  attempts (suc n) name s = check_cancel s >>= λ _ s.
      (exec_step (inspect_health name) true s >>= λ out s.
      verdict (parse_health_status out) (attempts n name s) s)

  unfoldable pub health_check : Application → Str → Engine → DeployResult (Unit {0})
  health_check app name s =
      if not app.health_check_enabled
      then done tt s
      else attempts (max 1 (pos_part app.health_check_retries)) name s

  -- After the health check: the old containers go, or the new one does.
  unfoldable pub settle : Str → DeployResult (Unit {0}) → DeployResult (Unit {0})
  settle name (done _ s) = stop_other_containers (some name) s
  settle name (fail e s) = fail e (remove_container name (query_container_logs name s))

  unfoldable pub rolling_update : Application → Str → Engine → DeployResult (Unit {0})
  rolling_update app name s = check_cancel s >>= λ _ s.
      (elim (eligibility app.ports_mappings app.custom_docker_run_options) [
        | disqualified reason ↦ stop_other_containers none s >>= λ _ s. compose_up true s
        | eligible ↦ compose_up false s >>= λ _ s. settle name (health_check app name s)
      ])
