-- ===== src/Ssh/Retry.antt =====
-- crates/rustify-ssh/src/retry.rs: retries after connection failures. `op n` is the outcome of the
-- n-th call; the sleeps are recorded.
pub mod Budget
use rustify.Prelude.{
  ℕ, zero, suc, ◌+◌, ◌-◌, Bool, true, false, ◌&&◌, ◌||◌, Option, none, some, List, [], ◌∷◌, ◌++◌,
  Str, codes, contains, any, if◌then◌else◌, ltb, min, map, length,
}
use rustify.Prelude.Int.{ℤ}

-- crates/rustify-core/src/exec.rs, with the messages dropped.
pub data ExecError : Type 0 where
  connection non_zero timeout io : ExecError

pub record ExecOutput : Type 0 where
  pub exit_code : ℤ
  pub stdout : Str
  pub stderr : Str

pub data ExecResult : Type 0 where
  ok : ExecOutput → ExecResult
  err : ExecError → ExecResult

abbrev pub retry_delays_secs : List ℕ
retry_delays_secs = 2 ∷ 4 ∷ 8 ∷ []

retryable_patterns : List Str
retryable_patterns =
    codes "kex_exchange_identification"
    ∷ codes "connection reset by peer"
    ∷ codes "connection refused"
    ∷ codes "connection timed out"
    ∷ codes "connection closed by remote host"
    ∷ codes "ssh_exchange_identification"
    ∷ codes "bad file descriptor"
    ∷ codes "broken pipe"
    ∷ codes "no route to host"
    ∷ codes "network is unreachable"
    ∷ codes "host is down"
    ∷ codes "no buffer space available"
    ∷ codes "connection reset by"
    ∷ codes "permission denied, please try again"
    ∷ codes "received disconnect from"
    ∷ codes "disconnected from"
    ∷ codes "lost connection"
    ∷ codes "timeout, server not responding"
    ∷ codes "cannot assign requested address"
    ∷ codes "network is down"
    ∷ codes "host key verification failed"
    ∷ codes "operation timed out"
    ∷ codes "connection closed unexpectedly"
    ∷ codes "remote host closed connection"
    ∷ codes "authentication failed"
    ∷ codes "too many authentication failures"
    ∷ []

-- `to_lowercase` is the full Unicode mapping.
unfoldable pub is_retryable : (Str → Str) → Str → Bool
unfolding retryable_patterns contains
is_retryable to_lowercase stderr =
    let lower = to_lowercase stderr in any (λ p. contains p lower) retryable_patterns

abbrev element : List ℕ → ℕ → ℕ
element [] n = 0
element (x ∷ xs) zero = x
element (x ∷ xs) (suc n) = element xs n

unfoldable pub backoff_delay : ℕ → ℕ
backoff_delay attempt = element retry_delays_secs (min attempt (length retry_delays_secs - 1))

unfoldable pub is_connection : ExecError → Bool
is_connection connection = true
is_connection _ = false

-- How a run ended: its result, the calls made and the seconds slept, in order.
pub record Run : Type 0 where
  pub result : ExecResult
  pub calls : ℕ
  pub slept : List ℕ

-- The loop at `attempt`, on fuel.
unfoldable pub retry_loop : (ℕ → ExecResult) → ℕ → ℕ → List ℕ → Option Run
unfolding is_connection backoff_delay
retry_loop op zero attempt slept = none
retry_loop op (suc fuel) attempt slept = elim (op attempt) [
  | ok out ↦ some (record { result = ok out; calls = attempt + 1; slept = slept })
  | err e ↦
      let again = retry_loop op fuel (attempt + 1) (slept ++ backoff_delay attempt ∷ []) in
      if is_connection e && ltb attempt (length retry_delays_secs)
      then again
      else some (record { result = err e; calls = attempt + 1; slept = slept })
]

unfoldable pub run_with_retry : (ℕ → ExecResult) → ℕ → Option Run
unfolding retry_loop
run_with_retry op fuel = retry_loop op fuel 0 []
