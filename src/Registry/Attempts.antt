-- ===== src/Registry/Attempts.antt =====
-- `ConnectorRegistry.execute`: how a call ends, and in which state it leaves the circuit.
use ops_pilot_ai.Base.{
  ℕ, zero, suc, ◌+◌, ◌<◌, ◌≤◌, String, Bool, true, false, not, ◌||◌, ◌≡◌, ◌≢◌, ◌⊎◌, inl, inr, refl,
  arith, none, eqb, leb, ok, Bool-cases,
}
use ops_pilot_ai.Reliability.{
  Circuit, before_call, record_success, record_failure, abandon_call, is_retryable_connector_error,
  RetryPolicy, is_valid,
}
use ops_pilot_ai.Registry.{
  Reply, returned, raised, timed_out, other_exception, cancelled, Outcome, Attempt, reply_of,
  too_late, after_error, answer, attempt_loop, attempts_of, call,
}

-- After every failure that ends a call, no probe is in flight.
failure_ends_probe :
    (now : ℕ) (retryable : Bool) (c : Circuit)
    → (record_failure now retryable c).probe_in_flight ≡ false
unfolding record_failure abandon_call
failure_ends_probe now false c = refl
failure_ends_probe now true c = ground arith

-- A circuit after a success is closed and has counted no failure.
abbrev pub IsReset : Circuit → Type 0
IsReset c = (c.opened_at ≡ none) × (c.consecutive_failures ≡ 0)

module _ {A : Type 0} (p : RetryPolicy) (deadline : ℕ) where
  -- What holds of a result that leaves no probe in flight and is no `RuntimeError`.
  abbrev pub Ended : (Outcome A × Circuit) → Type 0
  Ended r = (r.1.probe_in_flight ≡ false) × (r.0 ≢ Outcome.runtime_error)

  after_error-Ended :
      (attempt left : ℕ) (a : Attempt A) (code : String) (c : Circuit) (next : Outcome A × Circuit)
      → (0 < left → Ended next)
      → Ended (after_error p attempt deadline a code c left next)
  unfolding abandon_call
  after_error-Ended attempt left a code c next h =
      let f = failure_ends_probe a.failed_at (is_retryable_connector_error code) c in
      let g = failure_ends_probe a.failed_at true c in
      elim (Bool-cases (not (is_retryable_connector_error code) || eqb left 0)) [
        | inl t ↦ rw t (f, λ e. absurd (cc e))
        | inr n ↦ rw n (elim (Bool-cases (too_late p attempt deadline a)) [
          | inl t ↦ rw t (g, λ e. absurd (cc e))
          | inr m ↦ rw m (elim (Bool-cases a.sleep_cancelled) [
            | inl t ↦ rw t (refl, λ e. absurd (cc e))
            | inr k ↦ rw k (h (ground arith))
          ])
        ])
      ]

  answer-Ended :
      (attempt left : ℕ) (a : Attempt A) (r : Reply A) (c : Circuit) (next : Outcome A × Circuit)
      → (0 < left → Ended next)
      → Ended (answer p attempt deadline a c left r next)
  unfolding abandon_call record_success
  answer-Ended attempt left a (returned r) c next h = (refl, λ e. absurd (cc e))
  answer-Ended attempt left a (raised code) c next h =
      after_error-Ended attempt left a code c next h
  answer-Ended attempt left a timed_out c next h =
      after_error-Ended attempt left a "CONNECTOR_TIMEOUT" c next h
  answer-Ended attempt left a other_exception c next h =
      (failure_ends_probe a.failed_at true c, λ e. absurd (cc e))
  answer-Ended attempt left a cancelled c next h = (refl, λ e. absurd (cc e))

  loop-Ended :
      (attempts : ℕ → Attempt A) (left attempt : ℕ) (c : Circuit)
      → 0 < left
      → Ended (attempt_loop p deadline attempts left attempt c)
  unfolding attempt_loop
  loop-Ended attempts zero attempt c h = absurd (omega arith)
  loop-Ended attempts (suc left) attempt c h =
      let rest = attempt_loop p deadline attempts left (attempt + 1) c in
      answer-Ended attempt left (attempts attempt) (reply_of deadline (attempts attempt)) c rest
        (λ l. loop-Ended attempts left (attempt + 1) c l)

  -- The result of a call that returned `r`: the reply to the attempt `k`, made before the deadline.
  abbrev pub Answered : (ℕ → Attempt A) → A → ℕ → Type 0
  Answered attempts r k = ((attempts k).reply ≡ returned r) × ((attempts k).started_at < deadline)

  after_error-returned :
      (attempt left : ℕ) (a : Attempt A) (code : String) (c : Circuit) (next : Outcome A × Circuit)
      (r : A) (d : Circuit)
      → after_error p attempt deadline a code c left next ≡ (Outcome.returned r, d)
      → (0 < left) × (next ≡ (Outcome.returned r, d))
  after_error-returned attempt left a code c next r d h = ground arith

  answer-returned :
      (attempts : ℕ → Attempt A) (attempt left : ℕ) (c : Circuit) (next : Outcome A × Circuit)
      (r : A) (d : Circuit)
      → answer p attempt deadline
          (attempts attempt)
          c
          left
          (reply_of deadline (attempts attempt))
          next
        ≡ (Outcome.returned r, d)
      → (Answered attempts r attempt × IsReset d) ⊎ ((0 < left) × (next ≡ (Outcome.returned r, d)))
  unfolding record_success
  answer-returned attempts attempt left c next r d h =
      elim (Bool-cases (leb deadline (attempts attempt).started_at)) [
        | inl t ↦ inr (
            after_error-returned attempt left (attempts attempt) "CONNECTOR_TIMEOUT" c next r d
              (rw t at h))
        | inr f ↦ go (ground arith) (attempts attempt).reply refl (rw f at h)
      ]
    where
      go :
          (attempts attempt).started_at < deadline
          → (x : Reply A) → (attempts attempt).reply ≡ x
          → answer p attempt deadline (attempts attempt) c left x next ≡ (Outcome.returned r, d)
          → (Answered attempts r attempt × IsReset d)
            ⊎ ((0 < left) × (next ≡ (Outcome.returned r, d)))
      go l (returned q) e k = inl ((cc (e, k), l), (cc k, cc k))
      go l (raised code) e k =
          inr (after_error-returned attempt left (attempts attempt) code c next r d k)
      go l timed_out e k =
          inr
            (after_error-returned attempt left (attempts attempt) "CONNECTOR_TIMEOUT" c next r d k)
      go l other_exception e k = absurd (cc k)
      go l cancelled e k = absurd (cc k)

  loop-returned :
      (attempts : ℕ → Attempt A) (left attempt : ℕ) (c : Circuit) (r : A) (d : Circuit)
      → attempt_loop p deadline attempts left attempt c ≡ (Outcome.returned r, d)
      → (k : ℕ) × (attempt ≤ k) × (k < attempt + left) × Answered attempts r k × IsReset d
  unfolding attempt_loop
  loop-returned attempts zero attempt c r d h = absurd (cc h)
  loop-returned attempts (suc left) attempt c r d h =
      let rest = attempt_loop p deadline attempts left (attempt + 1) c in
      elim (answer-returned attempts attempt left c rest r d h) [
        | inl (a, z) ↦ (attempt, omega arith, omega arith, a, z)
        | inr (l, e) ↦
            let (k, lo, hi, a, z) = loop-returned attempts left (attempt + 1) c r d e in
            (k, omega arith, omega arith, a, z)
      ]

call_step :
    {A : Type 0} (p : RetryPolicy) (timeout : ℕ) (attempts : ℕ → Attempt A) (now start : ℕ)
    (c d : Circuit) (probe : Bool)
    → before_call now c ≡ ok (probe, d)
    → call p timeout attempts now start c
      ≡ attempt_loop p (start + timeout) attempts (attempts_of p probe) 1 d
unfolding call
call_step p timeout attempts now start c d probe h = rw (h, call) refl

some_attempts : (p : RetryPolicy) (probe : Bool) → is_valid p ≡ true → 0 < attempts_of p probe
unfolding is_valid
some_attempts p probe h = ground arith

-- Under a valid retry policy, a call that the circuit lets through leaves no probe in flight,
-- however it ends, and never ends in the `RuntimeError` after the loop.
pub call_ends :
    {A : Type 0} (p : RetryPolicy) (timeout : ℕ) (attempts : ℕ → Attempt A) (now start : ℕ)
    (c d : Circuit) (probe : Bool)
    → is_valid p ≡ true
    → before_call now c ≡ ok (probe, d)
    → ((call p timeout attempts now start c).1.probe_in_flight ≡ false)
      × ((call p timeout attempts now start c).0 ≢ Outcome.runtime_error)
call_ends p timeout attempts now start c d probe v h =
    rw (call_step p timeout attempts now start c d probe h)
      (loop-Ended p (start + timeout) attempts (attempts_of p probe) 1 d (some_attempts p probe v))

-- A result that a call returns is the connector's reply to one of its attempts, at most
-- `max_attempts` and only one for a probe, begun before the deadline; the circuit is then closed
-- and has counted no failure.
pub call_returns :
    {A : Type 0} (p : RetryPolicy) (timeout : ℕ) (attempts : ℕ → Attempt A) (now start : ℕ)
    (c d e : Circuit) (probe : Bool) (r : A)
    → before_call now c ≡ ok (probe, d)
    → call p timeout attempts now start c ≡ (Outcome.returned r, e)
    → (k : ℕ) × (1 ≤ k)
      × (k ≤ attempts_of p probe)
      × ((attempts k).reply ≡ returned r)
      × ((attempts k).started_at < start + timeout)
      × (e.opened_at ≡ none)
      × (e.consecutive_failures ≡ 0)
call_returns p timeout attempts now start c d e probe r b h =
    let (k, lo, hi, a, z) =
      loop-returned p (start + timeout) attempts (attempts_of p probe) 1 d r e
        (rw (call_step p timeout attempts now start c d probe b) at h) in
    (k, lo, omega arith, a.0, a.1, z.0, z.1)
