-- ===== src/Outbox.antt =====
-- backend/app/services/outbox.py: the publisher of the outbox, with retries and dead letters.
pub mod Attempts
pub mod Bounds
use ops_pilot_ai.Base.{
  ℕ, zero, suc, ◌+◌, ◌-◌, ◌*◌, ◌^◌, min, String, Bool, true, false, not, ◌&&◌, ◌||◌, Option, none,
  some, List, [], ◌∷◌, if◌then◌else◌, ltb, leb, eqb, is_none, is_some, take, select, order_by,
  length, contains, nat_eq, ◌==◌, map, ◌⊎◌, inl, inr,
}
use ops_pilot_ai.Storage.Tables as Rows
use ops_pilot_ai.Storage.Rows.{OutboxEventRecord}
use ops_pilot_ai.Storage.Database.{Db}

-- What `sink.publish` does, with the first 1000 characters of the error's text: it returns, or
-- raises `PermanentOutboxError`, `RetryableOutboxError` or another exception.
pub data Delivery : Type 0 where
  delivered : Delivery
  permanent retryable : String → Option ℕ → Delivery
  other : String → Delivery

-- The settings of `OutboxPublisher`.
pub record OutboxPublisher : Type 0 where
  pub batch_size : ℕ
  pub retention : ℕ
  pub max_attempts : ℕ
  pub retry_base_seconds : ℕ
  pub retry_max_seconds : ℕ

-- The upper end of `_retry_delay`'s interval.
unfoldable pub ceiling : OutboxPublisher → ℕ → ℕ
ceiling p attempt = min p.retry_max_seconds (p.retry_base_seconds * 2 ^ (attempt - 1))

-- The `where` clause of `pending_for_publish`
unfoldable pub is_pending : ℕ → OutboxEventRecord → Bool
is_pending now e =
    is_none e.published_at
    && is_none e.dead_lettered_at
    && elim e.next_attempt_at [ none ↦ true | some t ↦ leb t now ]

abbrev pub earlier_event : OutboxEventRecord → OutboxEventRecord → Bool
earlier_event a b = ltb a.sequence b.sequence

-- `OutboxRepository.pending_for_publish`
unfoldable pub pending_for_publish : ℕ → ℕ → List OutboxEventRecord → List OutboxEventRecord
pending_for_publish limit now rows =
    take limit (order_by earlier_event (select (is_pending now) rows))

-- `OutboxRepository.delete_published_before(now - retention, limit)`: the rows kept and the number
-- of those deleted.
abbrev is_old : ℕ → ℕ → OutboxEventRecord → Bool
is_old now retention e = elim e.published_at [ none ↦ false | some t ↦ ltb (t + retention) now ]

unfoldable pub old_sequences : ℕ → ℕ → ℕ → List OutboxEventRecord → List ℕ
old_sequences now retention limit rows =
    map (λ (e : OutboxEventRecord). e.sequence)
      (take limit (order_by earlier_event (select (is_old now retention) rows)))

unfoldable pub delete_published_before :
    ℕ → ℕ → ℕ → List OutboxEventRecord → List OutboxEventRecord × ℕ
delete_published_before now retention limit rows =
    let selected = old_sequences now retention limit rows in
    (select (λ (e : OutboxEventRecord). not (contains selected e.sequence)) rows, length selected)

-- The handler of an error. `delay` is the number that `random.uniform` draws.
abbrev pub fail :
    OutboxPublisher → ℕ → ℕ → OutboxEventRecord → String → Option ℕ → Bool → OutboxEventRecord
fail p now delay event message status_code is_permanent =
    let failed = record event { last_error = some message; last_status_code = status_code } in
    if is_permanent || leb p.max_attempts event.publish_attempts
    then record failed { dead_lettered_at = some now; next_attempt_at = none }
    else record failed { next_attempt_at = some (now + delay) }

abbrev pub settle : OutboxPublisher → ℕ → ℕ → OutboxEventRecord → Delivery → OutboxEventRecord
settle p now delay event delivered = record event {
  published_at = some now;
  next_attempt_at = none;
  last_error = none;
  last_status_code = none;
}
settle p now delay event (permanent m s) = fail p now delay event m s true
settle p now delay event (retryable m s) = fail p now delay event m s false
settle p now delay event (other m) = fail p now delay event m none false

module _ (sink : OutboxEventRecord → Delivery) (uniform : ℕ → ℕ) (p : OutboxPublisher) where
  -- One turn of the loop: the row after the attempt. `uniform n` is a draw from 0 to `n`.
  unfoldable pub publish : ℕ → OutboxEventRecord → OutboxEventRecord
  publish now event =
      let tried : OutboxEventRecord = record event {
        publish_attempts = event.publish_attempts + 1;
      } in
      settle p now (uniform (ceiling p tried.publish_attempts)) tried (sink tried)

  -- The loop over the batch: the table after it.
  unfoldable pub publish_all :
      ℕ → List OutboxEventRecord → List OutboxEventRecord → List OutboxEventRecord
  publish_all now [] rows = rows
  publish_all now (e ∷ events) rows =
      publish_all now events
        (Rows.save (λ (r : OutboxEventRecord). r.sequence) (publish now e) rows)

  -- The number of events of the batch that were published.
  unfoldable pub count_published : ℕ → List OutboxEventRecord → ℕ
  count_published now events = length (select (λ e. is_some (publish now e).published_at) events)

  -- `run_once`: the table it commits, and the numbers it returns, or the number of failures in the
  -- `OutboxPublishError` that it raises after the commit.
  unfoldable pub run_once : ℕ → List OutboxEventRecord → List OutboxEventRecord × (ℕ × ℕ ⊎ ℕ)
  run_once now rows =
      let events = pending_for_publish p.batch_size now rows in
      let (kept, deleted) =
        delete_published_before now p.retention p.batch_size (publish_all now events rows) in
      let published = count_published now events in
      let failed = length events - published in
      (kept, if eqb failed 0 then inl (published, deleted) else inr failed)
