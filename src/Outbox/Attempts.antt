-- ===== src/Outbox/Attempts.antt =====
-- `OutboxPublisher.run_once`: what becomes of an event, and how often it is tried.
use ops_pilot_ai.Base.{
  ℕ, ◌+◌, ◌<◌, ◌≤◌, String, Bool, true, false, ◌||◌, Option, none, some, ◌≡◌, ◌⊎◌, inl, inr, refl,
  arith, leb, Bool-cases, nat_eq,
}
use ops_pilot_ai.Storage.Rows.{OutboxEventRecord}
use ops_pilot_ai.Outbox.{
  Delivery, delivered, permanent, retryable, other, OutboxPublisher, ceiling, is_pending, fail,
  settle, publish,
}

module _ (sink : OutboxEventRecord → Delivery) (uniform : ℕ → ℕ)
    (uniform_le : (n : ℕ) → uniform n ≤ n) (p : OutboxPublisher) where
  -- The ways in which an attempt on the pending event `e` can leave it as `e'`.
  abbrev pub Fate : ℕ → OutboxEventRecord → OutboxEventRecord → Type 0
  Fate now e e' =
      ((e'.published_at ≡ some now) × (e'.dead_lettered_at ≡ none))
      ⊎ ((e'.published_at ≡ none) × (e'.dead_lettered_at ≡ some now))
      ⊎ ((e'.published_at ≡ none)
          × (e'.dead_lettered_at ≡ none)
          × (e'.publish_attempts < p.max_attempts)
          × (t : ℕ) × (e'.next_attempt_at ≡ some t)
          × (now ≤ t)
          × (t ≤ now + ceiling p e'.publish_attempts))

  fail-Fate :
      (now d : ℕ) (e : OutboxEventRecord) (m : String) (s : Option ℕ) (is_permanent : Bool)
      → e.published_at ≡ none
      → e.dead_lettered_at ≡ none
      → d ≤ ceiling p e.publish_attempts
      → Fate now e (fail p now d e m s is_permanent)
  fail-Fate now d e m s is_permanent a b l =
      elim (Bool-cases (is_permanent || leb p.max_attempts e.publish_attempts)) [
        | inl t ↦ rw t (inr (inl (a, refl)))
        | inr f ↦ rw f (inr (inr (a, b, ground arith, now + d, refl, omega arith, omega arith)))
      ]

  settle-Fate :
      (now d : ℕ) (e : OutboxEventRecord) (r : Delivery)
      → e.published_at ≡ none
      → e.dead_lettered_at ≡ none
      → d ≤ ceiling p e.publish_attempts
      → Fate now e (settle p now d e r)
  settle-Fate now d e delivered a b l = inl (refl, b)
  settle-Fate now d e (permanent m s) a b l = fail-Fate now d e m s true a b l
  settle-Fate now d e (retryable m s) a b l = fail-Fate now d e m s false a b l
  settle-Fate now d e (other m) a b l = fail-Fate now d e m none false a b l

  pending_lem :
      (now : ℕ) (e : OutboxEventRecord)
      → is_pending now e ≡ true
      → (e.published_at ≡ none) × (e.dead_lettered_at ≡ none)
  unfolding is_pending
  pending_lem now e h = ground arith

  -- An attempt on a pending event, made at `now`, publishes it, or writes it off as a dead letter,
  -- or leaves it to a later attempt: then fewer attempts than the maximum were made, and the next
  -- one is due between `now` and `now` plus the ceiling of the retry delay.
  pub publish-Fate :
      (now : ℕ) (e : OutboxEventRecord)
      → is_pending now e ≡ true
      → Fate now e (publish sink uniform p now e)
  unfolding publish
  publish-Fate now e h =
      let (a, b) = pending_lem now e h in
      let n = ceiling p (e.publish_attempts + 1) in
      settle-Fate now (uniform n) (record e { publish_attempts = e.publish_attempts + 1 })
        (sink (record e { publish_attempts = e.publish_attempts + 1 })) a b (uniform_le n)
