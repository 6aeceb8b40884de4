-- ===== src/Registry.antt =====
-- runner/opspilot_runner/registry.py: `execute` runs a connector's query under a deadline, with
-- retries and the connector's circuit breaker.
pub mod Attempts
pub mod Connectors
use ops_pilot_ai.Base.{
  ℕ, zero, suc, ◌+◌, ◌-◌, ◌*◌, String, Bool, true, false, not, ◌&&◌, ◌||◌, if◌then◌else◌, none,
  some, List, [], ◌∷◌, find, contains, ◌==◌, string_eq, eqb, leb, ok, err,
}
use ops_pilot_ai.Reliability.{
  Circuit, before_call, record_success, record_failure, abandon_call, is_retryable_connector_error,
  RetryPolicy, delay, unit,
}

-- What `connector.execute` does under `asyncio.timeout`; the connectors are outside of the model.
pub data Reply (A : Type 0) : Type 0 where
  returned : A → Reply A
  raised : String → Reply A
  timed_out other_exception cancelled : Reply A

-- How a call of `execute` ends.
pub data Outcome (A : Type 0) : Type 0 where
  returned : A → Outcome A
  connector_error : String → Outcome A
  other_exception cancelled runtime_error : Outcome A

-- What an attempt meets: the readings of the clock, the reply, the random sample, and whether the
-- call is cancelled while it sleeps.
pub record Attempt (A : Type 0) : Type 0 where
  pub started_at : ℕ
  pub reply : Reply A
  pub failed_at : ℕ
  pub random_sample : ℕ
  pub delay_from : ℕ
  pub sleep_cancelled : Bool

-- The number of attempts of a call, which is one for the probe of an open circuit.
abbrev pub attempts_of : RetryPolicy → Bool → ℕ
attempts_of p half_open_probe = if half_open_probe then 1 else p.max_attempts

module _ {A : Type 0} where
  -- The reply to an attempt; with no time left the connector is not called.
  abbrev pub reply_of : ℕ → Attempt A → Reply A
  reply_of deadline a = if leb deadline a.started_at then timed_out else a.reply

  -- `delay >= deadline - self.clock()`, with `delay` in its own unit
  abbrev pub too_late : RetryPolicy → ℕ → ℕ → Attempt A → Bool
  too_late p attempt deadline a =
      leb (unit * unit * (deadline - a.delay_from)) (delay p attempt a.random_sample)

  -- What is done with an error: give up, or sleep and let `next` go on. The last attempt has none
  -- left after it.
  abbrev pub after_error :
      RetryPolicy
      → ℕ
      → ℕ
      → Attempt A
      → String
      → Circuit
      → ℕ
      → (Outcome A × Circuit)
      → (Outcome A × Circuit)
  after_error p attempt deadline a code c left next =
      if not (is_retryable_connector_error code) || eqb left 0
      then (connector_error code, record_failure a.failed_at (is_retryable_connector_error code) c)
      else if too_late p attempt deadline a
      then (connector_error code, record_failure a.failed_at true c)
      else if a.sleep_cancelled
      then (cancelled, abandon_call c)
      else next

  abbrev pub answer :
      RetryPolicy
      → ℕ
      → ℕ
      → Attempt A
      → Circuit
      → ℕ
      → Reply A
      → (Outcome A × Circuit)
      → (Outcome A × Circuit)
  answer p attempt deadline a c left (returned r) next = (returned r, record_success c)
  answer p attempt deadline a c left (raised code) next =
      after_error p attempt deadline a code c left next
  answer p attempt deadline a c left timed_out next =
      after_error p attempt deadline a "CONNECTOR_TIMEOUT" c left next
  answer p attempt deadline a c left other_exception next =
      (other_exception, record_failure a.failed_at true c)
  answer p attempt deadline a c left cancelled next = (cancelled, abandon_call c)

  -- The loop, with the number of attempts left and the number of the next one.
  unfoldable pub attempt_loop :
      RetryPolicy → ℕ → (ℕ → Attempt A) → ℕ → ℕ → Circuit → (Outcome A × Circuit)
  attempt_loop p deadline attempts zero attempt c = (runtime_error, c)
  attempt_loop p deadline attempts (suc left) attempt c =
      let rest = attempt_loop p deadline attempts left (attempt + 1) c in
      answer p attempt deadline (attempts attempt) c left (reply_of deadline (attempts attempt))
        rest

  -- `execute` from `circuit.before_call` on; the clock is read for the circuit and then for the
  -- deadline.
  unfoldable pub call : RetryPolicy → ℕ → (ℕ → Attempt A) → ℕ → ℕ → Circuit → (Outcome A × Circuit)
  call p timeout_seconds attempts now start c = elim (before_call now c) [
    | err e ↦ (connector_error "CONNECTOR_CIRCUIT_OPEN", c)
    | ok (half_open_probe, d) ↦
        attempt_loop p (start + timeout_seconds) attempts (attempts_of p half_open_probe) 1 d
  ]

-- A connector of the registry, with its circuit.
pub record Connector : Type 0 where
  pub name : String
  pub observe_operations : List String
  pub circuit : Circuit

-- The circuit of the connector called `name`, written back.
unfoldable pub set_circuit : String → Circuit → List Connector → List Connector
set_circuit name c [] = []
set_circuit name c (x ∷ xs) =
    if x.name == name then record x { circuit = c } ∷ xs else x ∷ set_circuit name c xs

module _ {A : Type 0} where
  abbrev finish : String → List Connector → (Outcome A × Circuit) → (Outcome A × List Connector)
  finish name connectors (o, c) = (o, set_circuit name c connectors)

  -- `execute`
  unfoldable pub execute :
      RetryPolicy
      → List Connector
      → String
      → String
      → ℕ
      → (ℕ → Attempt A)
      → ℕ
      → ℕ
      → (Outcome A × List Connector)
  unfolding find
  execute p connectors connector_name operation timeout_seconds attempts now start =
      elim (find (λ (x : Connector). x.name == connector_name) connectors) [
        | none ↦ (connector_error "CONNECTOR_NOT_AVAILABLE", connectors)
        | some x ↦
            if not (contains x.observe_operations operation)
            then (connector_error "CONNECTOR_OPERATION_NOT_AVAILABLE", connectors)
            else finish connector_name connectors
                (call p timeout_seconds attempts now start x.circuit)
      ]
