-- ===== src/Reliability.antt =====
-- runner/opspilot_runner/reliability.py: the circuit breaker and the retries of a connector. Times
-- are natural numbers in a unit of their own; what the source computes in floating point is exact.
pub mod Circuits
pub mod Retries
use ops_pilot_ai.Base.{
  ℕ, ◌+◌, ◌-◌, ◌*◌, ◌^◌, min, String, Bool, true, false, not, ◌&&◌, ◌||◌, Option, none, some, List,
  [], ◌∷◌, if◌then◌else◌, ltb, leb, eqb, any, is_none, is_some, Result, ok, err, value_error,
  connector_error,
}
use text.Mathlib.Text.{find?}

pub data CircuitState : Type 0 where
  closed opened half_open : CircuitState

pub record CircuitSnapshot : Type 0 where
  pub state : CircuitState
  pub consecutive_failures : ℕ
  pub retry_after_seconds : ℕ

-- `ConnectorCircuitBreaker`
pub record Circuit : Type 0 where
  pub failure_threshold : ℕ
  pub recovery_seconds : ℕ
  pub consecutive_failures : ℕ
  pub opened_at : Option ℕ
  pub probe_in_flight : Bool

-- `ConnectorCircuitBreaker.__init__`
unfoldable pub create : ℕ → ℕ → Result Circuit
create failure_threshold recovery_seconds =
    if ltb failure_threshold 1
    then err value_error
    else if eqb recovery_seconds 0
    then err value_error
    else ok (record {
      failure_threshold = failure_threshold;
      recovery_seconds = recovery_seconds;
      consecutive_failures = 0;
      opened_at = none;
      probe_in_flight = false;
    })

-- `elapsed < self.recovery_seconds or self.probe_in_flight`
abbrev pub is_blocked : ℕ → Circuit → ℕ → Bool
is_blocked now c opened_at = ltb now (opened_at + c.recovery_seconds) || c.probe_in_flight

-- `before_call`: whether the call is the probe of an open circuit, and the circuit after it.
unfoldable pub before_call : ℕ → Circuit → Result (Bool × Circuit)
before_call now c = elim c.opened_at [
  | none ↦ ok (false, c)
  | some t ↦
      if is_blocked now c t
      then err (connector_error "CONNECTOR_CIRCUIT_OPEN")
      else ok (true, record c { probe_in_flight = true })
]

unfoldable pub record_success : Circuit → Circuit
record_success c = record c { consecutive_failures = 0; opened_at = none; probe_in_flight = false }

unfoldable pub abandon_call : Circuit → Circuit
abandon_call c = record c { probe_in_flight = false }

-- `record_failure`; the clock is read when the circuit opens.
unfoldable pub record_failure : ℕ → Bool → Circuit → Circuit
unfolding abandon_call
record_failure now false c = abandon_call c
record_failure now true c =
    let failures = c.consecutive_failures + 1 in
    if c.probe_in_flight || leb c.failure_threshold failures
    then record c { consecutive_failures = failures; opened_at = some now; probe_in_flight = false }
    else record c { consecutive_failures = failures }

-- `snapshot`; the difference stops at 0, as `max(0.0, …)` does.
unfoldable pub snapshot : ℕ → Circuit → CircuitSnapshot
snapshot now c = elim c.opened_at [
  | none ↦ record {
    state = closed;
    consecutive_failures = c.consecutive_failures;
    retry_after_seconds = 0;
  }
  | some t ↦
      let retry_after = t + c.recovery_seconds - now in
      record {
        state = if eqb retry_after 0 then half_open else opened;
        consecutive_failures = c.consecutive_failures;
        retry_after_seconds = retry_after;
      }
]

-- `_NON_RETRYABLE_CODE_PARTS`
abbrev pub non_retryable_code_parts : List String
non_retryable_code_parts =
    "INVALID" ∷ "NOT_ALLOWED" ∷ "OUTSIDE_ALLOWED" ∷ "NOT_FOUND" ∷ "NOT_AVAILABLE" ∷ "NOT_CONFIGURED"
    ∷ "UNSUPPORTED" ∷ "UNSAFE" ∷ "TOO_LARGE" ∷ "BINARY_LOG_REJECTED" ∷ []

-- `is_retryable_connector_error`
unfoldable pub is_retryable_connector_error : String → Bool
unfolding any
is_retryable_connector_error code =
    not (any (λ part. is_some (find? code part)) non_retryable_code_parts)

-- `RetryPolicy`; `jitter_ratio` counts parts of `unit`, and a sample of `random` does too.
pub record RetryPolicy : Type 0 where
  pub max_attempts : ℕ
  pub base_seconds : ℕ
  pub max_seconds : ℕ
  pub jitter_ratio : ℕ

-- The parts that make 1.
abbrev pub unit : ℕ
unit = 1000

-- `__post_init__`
unfoldable pub is_valid : RetryPolicy → Bool
is_valid p =
    not (ltb p.max_attempts 1)
    && not (eqb p.base_seconds 0 || eqb p.max_seconds 0)
    && not (ltb p.max_seconds p.base_seconds)
    && leb p.jitter_ratio unit

-- `delay`, in units of `unit * unit`; a sample has no sign, so that only `min(1.0, …)` bounds it.
unfoldable pub delay : RetryPolicy → ℕ → ℕ → ℕ
delay p failure_number random_sample =
    min p.max_seconds (p.base_seconds * 2 ^ (failure_number - 1))
    * (unit * unit - p.jitter_ratio * unit + 2 * p.jitter_ratio * min unit random_sample)
