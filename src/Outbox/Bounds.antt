-- ===== src/Outbox/Bounds.antt =====
-- `OutboxPublisher.run_once`: no event is tried more than `max_attempts` times.
use ops_pilot_ai.Base.{
  All-of, In-take, All-select, ℕ, ◌+◌, ◌<◌, ◌≤◌, true, none, List, [], ◌∷◌, ◌≡◌, inl, inr, arith,
  All, In, All-In, In-select, select, order_by, In-order_by,
}
use ops_pilot_ai.Storage.Tables
use ops_pilot_ai.Storage.Rows.{OutboxEventRecord}
use ops_pilot_ai.Outbox.{
  Delivery, OutboxPublisher, earlier_event, is_pending, pending_for_publish,
  delete_published_before, publish, publish_all, run_once,
}
use ops_pilot_ai.Outbox.Attempts.{publish-Fate}

In-pending :
    (limit now : ℕ) (rows : List OutboxEventRecord) (e : OutboxEventRecord)
    → In e (pending_for_publish limit now rows)
    → In e rows × (is_pending now e ≡ true)
unfolding pending_for_publish
In-pending limit now rows e m = (In-select (is_pending now) e rows).0 (
    (In-order_by earlier_event e (select (is_pending now) rows)).0
      (In-take e limit (order_by earlier_event (select (is_pending now) rows)) m))

-- An event that was tried at most `n` times, and fewer times while it waits for another attempt.
abbrev pub Tried : ℕ → OutboxEventRecord → Type 0
Tried n e =
    (e.publish_attempts ≤ n)
    × (e.published_at ≡ none → e.dead_lettered_at ≡ none → e.publish_attempts < n)

module _ (sink : OutboxEventRecord → Delivery) (uniform : ℕ → ℕ)
    (uniform_le : (n : ℕ) → uniform n ≤ n) (p : OutboxPublisher) where
  publish_counts :
      (now : ℕ) (e : OutboxEventRecord)
      → (publish sink uniform p now e).publish_attempts ≡ e.publish_attempts + 1
  unfolding publish
  publish_counts now e = ground arith

  was_waiting :
      (now : ℕ) (e : OutboxEventRecord)
      → is_pending now e ≡ true
      → Tried p.max_attempts e
      → e.publish_attempts < p.max_attempts
  unfolding is_pending
  was_waiting now e h t = let w = t.1 in ground arith

  publish-Tried :
      (now : ℕ) (e : OutboxEventRecord)
      → is_pending now e ≡ true
      → Tried p.max_attempts e
      → Tried p.max_attempts (publish sink uniform p now e)
  publish-Tried now e h t =
      let n = publish_counts now e in
      let w = was_waiting now e h t in
      (
        omega arith,
        λ a b. elim (publish-Fate sink uniform uniform_le p now e h) [
          | inl (x, y) ↦ absurd (cc (x, a))
          | inr (inl (x, y)) ↦ absurd (cc (y, b))
          | inr (inr (_, _, l, _, _, _, _)) ↦ l
        ],
      )

  -- An event of the batch: it was pending, and tried as often as allowed.
  abbrev Due : ℕ → OutboxEventRecord → Type 0
  Due now e = (is_pending now e ≡ true) × Tried p.max_attempts e

  publish_all-Tried :
      (now : ℕ) (events rows : List OutboxEventRecord)
      → All (Due now) events
      → All (Tried p.max_attempts) rows
      → All (Tried p.max_attempts) (publish_all sink uniform p now events rows)
  unfolding publish_all
  publish_all-Tried now [] rows d t = t
  publish_all-Tried now (e ∷ events) rows d t =
      publish_all-Tried now events
        (Tables.save (λ (r : OutboxEventRecord). r.sequence) (publish sink uniform p now e) rows)
        d.1
        (Tables.All-save (λ (r : OutboxEventRecord). r.sequence) (Tried p.max_attempts)
          (publish sink uniform p now e) rows t (publish-Tried now e d.0.0 d.0.1))

  -- If every row of the outbox was tried at most `max_attempts` times, and fewer times while it is
  -- neither published nor a dead letter, then the same holds of the table that `run_once` commits,
  -- whatever the sink answers.
  pub run_once-Tried :
      (now : ℕ) (rows : List OutboxEventRecord)
      → All (Tried p.max_attempts) rows
      → All (Tried p.max_attempts) (run_once sink uniform p now rows).0
  unfolding run_once delete_published_before
  run_once-Tried now rows t =
      let events = pending_for_publish p.batch_size now rows in
      All-select (Tried p.max_attempts) _ (publish_all sink uniform p now events rows) (
        publish_all-Tried now events rows
          (All-of (Due now) events (λ e m.
            let (i, w) = In-pending p.batch_size now rows e m in
            (w, All-In (Tried p.max_attempts) e rows t i)))
          t)
