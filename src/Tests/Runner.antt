-- ===== src/Tests/Runner.antt =====
-- A circuit and a retry policy at concrete calls.
use ops_pilot_ai.Base.{
  string_eq, [], ◌∷◌, ℕ, zero, suc, ◌+◌, ◌-◌, ◌*◌, ◌^◌, ◌<◌, ◌≤◌, min, true, false, none, some, ◌≡◌,
  ◌≢◌, refl, arith, ok, err, leb, is_some, connector_error, any,
}
use ops_pilot_ai.Reliability.{
  Circuit, half_open, create, before_call, record_success, record_failure, snapshot,
  is_retryable_connector_error, RetryPolicy, is_valid, delay, unit,
}
use ops_pilot_ai.Reliability.Circuits.{
  IsWellFormed, failed, done, then_, repeated, Run-IsWellFormed, opens_iff, probe_lem,
}
use ops_pilot_ai.Reliability.Retries.{delay_bounds}
use ops_pilot_ai.Registry.{Connector, Reply, Outcome, Attempt, attempt_loop, call}
use ops_pilot_ai.Registry.Attempts.{call_ends, call_returns}

abbrev fresh_circuit : Circuit
fresh_circuit = record {
  failure_threshold = 3;
  recovery_seconds = 30;
  consecutive_failures = 0;
  opened_at = none;
  probe_in_flight = false;
}

created : create 3 30 ≡ ok fresh_circuit
unfolding create
created = refl

run_example : IsWellFormed (record_failure 5 true fresh_circuit)
run_example =
    Run-IsWellFormed 3 30 fresh_circuit (record_failure 5 true fresh_circuit) created
      (then_ done (failed 5 true))

opens_example : is_some (repeated 5 3 fresh_circuit).opened_at ≡ leb 3 3
opens_example = opens_iff 3 30 5 3 fresh_circuit created

abbrev open_circuit : Circuit
open_circuit = record fresh_circuit { consecutive_failures = 3; opened_at = some 5 }

abbrev probing : Circuit
probing = record open_circuit { probe_in_flight = true }

probe_starts : before_call 40 open_circuit ≡ ok (true, probing)
unfolding before_call
probe_starts = refl

probe_example :
    ((snapshot 40 open_circuit).state ≡ half_open)
    × (before_call 41 probing ≡ err (connector_error "CONNECTOR_CIRCUIT_OPEN"))
    × ((record_success probing).opened_at ≡ none)
    × (before_call 60 (record_failure 42 true probing)
        ≡ err (connector_error "CONNECTOR_CIRCUIT_OPEN"))
probe_example = probe_lem 40 41 42 60 open_circuit probing probe_starts (omega arith)

abbrev policy : RetryPolicy
policy = record { max_attempts = 2; base_seconds = 2; max_seconds = 20; jitter_ratio = 200 }

valid_policy : is_valid policy ≡ true
unfolding is_valid
valid_policy = refl

delay_example :
    (delay policy 3 500 ≤ 20 * (unit * unit + 200 * unit))
    × (min 20 (2 * 2 ^ (3 - 1)) * (unit * unit - 200 * unit) ≤ delay policy 3 500)
delay_example = delay_bounds policy 3 500 valid_policy

-- The first attempt times out, the second one answers.
abbrev attempts : ℕ → Attempt ℕ
attempts (suc zero) = record {
  started_at = 10;
  reply = Reply.timed_out;
  failed_at = 12;
  random_sample = 500;
  delay_from = 12;
  sleep_cancelled = false;
}
attempts n = record {
  started_at = 14;
  reply = Reply.returned 7;
  failed_at = 15;
  random_sample = 500;
  delay_from = 15;
  sleep_cancelled = false;
}

lets_through : before_call 9 fresh_circuit ≡ ok (false, fresh_circuit)
unfolding before_call
lets_through = refl

ends_example :
    ((call policy 20 attempts 9 10 fresh_circuit).1.probe_in_flight ≡ false)
    × ((call policy 20 attempts 9 10 fresh_circuit).0 ≢ Outcome.runtime_error)
ends_example =
    call_ends policy 20 attempts 9 10 fresh_circuit fresh_circuit false valid_policy lets_through

second_answers : call policy 20 attempts 9 10 fresh_circuit ≡ (Outcome.returned 7, fresh_circuit)
unfolding call before_call attempt_loop is_retryable_connector_error any delay record_success
second_answers = refl

returns_example :
    (k : ℕ) × (1 ≤ k)
    × (k ≤ 2)
    × ((attempts k).reply ≡ Reply.returned 7)
    × ((attempts k).started_at < 30)
    × (fresh_circuit.opened_at ≡ none)
    × (fresh_circuit.consecutive_failures ≡ 0)
returns_example =
    call_returns policy 20 attempts 9 10 fresh_circuit fresh_circuit fresh_circuit false 7
      lets_through second_answers

abbrev docker : Connector
docker = record {
  name = "docker";
  observe_operations = "container.logs" ∷ [];
  circuit = fresh_circuit;
}

abbrev host : Connector
host = record { name = "host"; observe_operations = "host.snapshot" ∷ []; circuit = open_circuit }
