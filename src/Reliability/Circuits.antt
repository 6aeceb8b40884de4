-- ===== src/Reliability/Circuits.antt =====
-- The circuit breaker as a state machine: when it opens, whom it lets through, how it closes.
use ops_pilot_ai.Base.{
  ℕ, zero, suc, ◌+◌, ◌<◌, ◌≤◌, Bool, true, false, ◌||◌, none, some, ◌≡◌, inl, inr, refl, arith, ap,
  leb, is_some, ok, err, connector_error, Bool-cases, Option-cases,
}
use ops_pilot_ai.Reliability.{
  Circuit, create, before_call, record_success, record_failure, abandon_call, snapshot, half_open,
}

-- A closed circuit has counted fewer failures than its threshold and waits for no probe.
pub record IsWellFormed (c : Circuit) : Type 0 where
  pub has_threshold : 0 < c.failure_threshold
  pub has_interval : 0 < c.recovery_seconds
  pub below_threshold : c.opened_at ≡ none → c.consecutive_failures < c.failure_threshold
  pub no_probe : c.opened_at ≡ none → c.probe_in_flight ≡ false

-- The calls that change a circuit, in any order.
pub data Step : Circuit → Circuit → Type 0 where
  called : {c d : Circuit} (now : ℕ) (probe : Bool) → before_call now c ≡ ok (probe, d) → Step c d
  succeeded : {c : Circuit} → Step c (record_success c)
  failed : {c : Circuit} (now : ℕ) (retryable : Bool) → Step c (record_failure now retryable c)
  abandoned : {c : Circuit} → Step c (abandon_call c)

pub data Run : Circuit → Circuit → Type 0 where
  done : {c : Circuit} → Run c c
  then_ : {c d e : Circuit} → Run c d → Step d e → Run c e

before_call-IsWellFormed :
    (now : ℕ) (probe : Bool) (c d : Circuit)
    → IsWellFormed c
    → before_call now c ≡ ok (probe, d)
    → IsWellFormed d
unfolding before_call
before_call-IsWellFormed now probe c d w h = record {
  has_threshold = let p = w.has_threshold in ground arith;
  has_interval = let p = w.has_interval in ground arith;
  below_threshold = λ n. let p = w.below_threshold in ground arith;
  no_probe = λ n. let p = w.no_probe in ground arith;
}

record_failure-IsWellFormed :
    (now : ℕ) (retryable : Bool) (c : Circuit)
    → IsWellFormed c
    → IsWellFormed (record_failure now retryable c)
unfolding record_failure abandon_call
record_failure-IsWellFormed now false c w = record {
  has_threshold = w.has_threshold;
  has_interval = w.has_interval;
  below_threshold = w.below_threshold;
  no_probe = λ n. refl;
}
record_failure-IsWellFormed now true c w =
    elim (Bool-cases (c.probe_in_flight || leb c.failure_threshold (c.consecutive_failures + 1))) [
      | inl t ↦ rw t (record {
        has_threshold = w.has_threshold;
        has_interval = w.has_interval;
        below_threshold = λ n. absurd (cc n);
        no_probe = λ n. refl;
      })
      | inr f ↦ rw f (record {
        has_threshold = w.has_threshold;
        has_interval = w.has_interval;
        below_threshold = λ n. ground arith;
        no_probe = w.no_probe;
      })
    ]

Step-IsWellFormed : {c d : Circuit} → IsWellFormed c → Step c d → IsWellFormed d
unfolding record_success abandon_call
Step-IsWellFormed {c} {d} w (called now probe h) = before_call-IsWellFormed now probe c d w h
Step-IsWellFormed w succeeded = record {
  has_threshold = w.has_threshold;
  has_interval = w.has_interval;
  below_threshold = λ n. w.has_threshold;
  no_probe = λ n. refl;
}
Step-IsWellFormed {c} w (failed now retryable) = record_failure-IsWellFormed now retryable c w
Step-IsWellFormed w abandoned = record {
  has_threshold = w.has_threshold;
  has_interval = w.has_interval;
  below_threshold = w.below_threshold;
  no_probe = λ n. refl;
}

create-IsWellFormed :
    (threshold recovery : ℕ) (c : Circuit) → create threshold recovery ≡ ok c → IsWellFormed c
unfolding create
create-IsWellFormed threshold recovery c h = record {
  has_threshold = ground arith;
  has_interval = ground arith;
  below_threshold = λ n. ground arith;
  no_probe = λ n. ground arith;
}

Run-from-IsWellFormed : {c d : Circuit} → IsWellFormed c → Run c d → IsWellFormed d
Run-from-IsWellFormed w done = w
Run-from-IsWellFormed w (then_ r s) = Step-IsWellFormed (Run-from-IsWellFormed w r) s

-- Every circuit that the constructor returns stays well formed under any sequence of calls: while
-- it is closed, it has counted fewer failures than the threshold and no probe is in flight.
pub Run-IsWellFormed :
    (threshold recovery : ℕ) (c d : Circuit)
    → create threshold recovery ≡ ok c
    → Run c d
    → IsWellFormed d
Run-IsWellFormed threshold recovery c d h r =
    Run-from-IsWellFormed (create-IsWellFormed threshold recovery c h) r

-- `n` retryable failures, all at the same time.
abbrev pub repeated : ℕ → ℕ → Circuit → Circuit
repeated now zero c = c
repeated now (suc n) c = repeated now n (record_failure now true c)

failure_keeps_open :
    (now : ℕ) (c : Circuit)
    → is_some c.opened_at ≡ true
    → is_some (record_failure now true c).opened_at ≡ true
unfolding record_failure
failure_keeps_open now c h = ground arith

repeated_keeps_open :
    (now n : ℕ) (c : Circuit)
    → is_some c.opened_at ≡ true
    → is_some (repeated now n c).opened_at ≡ true
repeated_keeps_open now zero c h = h
repeated_keeps_open now (suc n) c h =
    repeated_keeps_open now n (record_failure now true c) (failure_keeps_open now c h)

failure_opens :
    (now : ℕ) (c : Circuit)
    → c.failure_threshold ≤ c.consecutive_failures + 1
    → is_some (record_failure now true c).opened_at ≡ true
unfolding record_failure
failure_opens now c h = ground arith

failure_counts :
    (now : ℕ) (c : Circuit)
    → c.consecutive_failures + 1 < c.failure_threshold
    → c.probe_in_flight ≡ false
    → record_failure now true c ≡ record c { consecutive_failures = c.consecutive_failures + 1 }
unfolding record_failure
failure_counts now c h p = ground arith

repeated_from :
    (now n : ℕ) (c : Circuit)
    → IsWellFormed c
    → c.opened_at ≡ none
    → is_some (repeated now n c).opened_at ≡ leb c.failure_threshold (c.consecutive_failures + n)
repeated_from now zero c w e = let p = w.below_threshold e in ground arith
repeated_from now (suc n) c w e =
    elim (Bool-cases (leb c.failure_threshold (c.consecutive_failures + 1))) [
      | inl t ↦
          let k =
            repeated_keeps_open now n (record_failure now true c)
              (failure_opens now c (ground arith)) in
          ground arith
      | inr f ↦
          let s = failure_counts now c (ground arith) (w.no_probe e) in
          let r =
            repeated_from now n (record_failure now true c)
              (record_failure-IsWellFormed now true c w)
              (cc (ap (λ (x : Circuit). x.opened_at) s, e)) in
          let a = ap (λ (x : Circuit). x.failure_threshold) s in
          let b = ap (λ (x : Circuit). x.consecutive_failures) s in ground arith
    ]

-- A new circuit is open after `n` retryable failures in a row exactly when `n` is at least the
-- failure threshold.
pub opens_iff :
    (threshold recovery now n : ℕ) (c : Circuit)
    → create threshold recovery ≡ ok c
    → is_some (repeated now n c).opened_at ≡ leb threshold n
unfolding create
opens_iff threshold recovery now n c h =
    let r = repeated_from now n c (create-IsWellFormed threshold recovery c h) (ground arith) in
    ground arith

blocked_during_probe :
    (now : ℕ) (c : Circuit) (t : ℕ)
    → c.opened_at ≡ some t
    → c.probe_in_flight ≡ true
    → before_call now c ≡ err (connector_error "CONNECTOR_CIRCUIT_OPEN")
unfolding before_call
blocked_during_probe now c t e p = ground arith

probe_after :
    (now : ℕ) (c d : Circuit)
    → before_call now c ≡ ok (true, d)
    → (t : ℕ) × (c.opened_at ≡ some t)
      × (d ≡ record c { probe_in_flight = true })
      × (t + c.recovery_seconds ≤ now)
unfolding before_call
probe_after now c d h = elim (Option-cases c.opened_at) [
  | inl n ↦ absurd (ground arith)
  | inr (t, e) ↦ (t, e, ground arith, ground arith)
]

reopens :
    (t later : ℕ) (d : Circuit)
    → d.probe_in_flight ≡ true
    → later < t + d.recovery_seconds
    → before_call later (record_failure t true d) ≡ err (connector_error "CONNECTOR_CIRCUIT_OPEN")
unfolding before_call record_failure
reopens t later d p h = ground arith

is_half_open :
    (now t : ℕ) (c : Circuit)
    → c.opened_at ≡ some t
    → t + c.recovery_seconds ≤ now
    → (snapshot now c).state ≡ half_open
unfolding snapshot
is_half_open now t c e h = ground arith

-- When a call is let through as a probe, the circuit was half open; at whatever time another call
-- comes before the probe is resolved, it is refused; the success of the probe closes the circuit,
-- and its retryable failure at a time `t` refuses a call that comes before the recovery interval
-- from `t` has passed.
pub probe_lem :
    (now other t later : ℕ) (c d : Circuit)
    → before_call now c ≡ ok (true, d)
    → later < t + c.recovery_seconds
    → ((snapshot now c).state ≡ half_open)
      × (before_call other d ≡ err (connector_error "CONNECTOR_CIRCUIT_OPEN"))
      × ((record_success d).opened_at ≡ none)
      × (before_call later (record_failure t true d)
          ≡ err (connector_error "CONNECTOR_CIRCUIT_OPEN"))
unfolding record_success
probe_lem now other t later c d h l =
    let (opening, e, s, p) = probe_after now c d h in
    let in_flight = ap (λ (x : Circuit). x.probe_in_flight) s in
    (
      is_half_open now opening c e p,
      blocked_during_probe other d opening (cc (ap (λ (x : Circuit). x.opened_at) s, e)) in_flight,
      refl,
      reopens t later d in_flight
          (let k = ap (λ (x : Circuit). x.recovery_seconds) s in ground arith),
    )
