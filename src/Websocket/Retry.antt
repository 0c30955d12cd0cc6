-- ===== src/Websocket/Retry.antt =====
-- websocket/retry_manager.go: `executeWithRetry` over an operation on a state `S` that may fail with
-- an `E`. `retries` is the connection's entry of `retryCount`, and `slept` the milliseconds waited.
pub mod Attempts
use dabri.Prelude.{
  ℕ, zero, suc, ◌+◌, ◌*◌, Bool, true, false, Option, none, some, if◌then◌else◌, leb,
}

abbrev pub max_retries : ℕ
max_retries = 3

pub record Retried (S E : Type 0) : Type 0 where
  pub state : S
  pub error : Option E
  pub retries : ℕ
  pub slept : ℕ

-- `none` is the end of the fuel.
pub execute_with_retry : {S E : Type 0} → (S → S × Option E) → ℕ → ℕ → ℕ → S → Option (Retried S E)
execute_with_retry fn zero retries slept s = none
execute_with_retry fn (suc fuel) retries slept s =
    let (s', e) = fn s in
    let rest = execute_with_retry fn fuel (retries + 1) (slept + (retries + 1) * 500) s' in
    elim e [
      | none ↦ some (record { state = s'; error = none; retries = 0; slept = slept })
      | some err ↦
          if leb max_retries retries
          then some (record { state = s'; error = some err; retries = 0; slept = slept })
          else rest
    ]
