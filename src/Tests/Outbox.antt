-- ===== src/Tests/Outbox.antt =====
-- An outbox with one waiting event, and sinks that accept or refuse it.
use ops_pilot_ai.Base.{
  ℕ, ◌≤◌, true, none, some, [], ◌∷◌, ◌≡◌, inl, refl, arith, All, select, order_by,
}
use ops_pilot_ai.Storage.Rows.{OutboxEventRecord}
use ops_pilot_ai.Storage.Tables
use ops_pilot_ai.Outbox.{
  Delivery, delivered, retryable, OutboxPublisher, is_pending, publish, publish_all, run_once,
  pending_for_publish, delete_published_before, old_sequences, count_published,
}
use ops_pilot_ai.Outbox.Attempts.{Fate, publish-Fate}
use ops_pilot_ai.Outbox.Bounds.{Tried, run_once-Tried}

abbrev waiting : OutboxEventRecord
waiting = record {
  sequence = 7;
  event_id = 8;
  event_type = "incident.created";
  aggregate_type = "incident";
  aggregate_id = 100;
  incident_id = 100;
  trace_id = 101;
  aggregate_version = 1;
  payload = [];
  occurred_at = 0;
  published_at = none;
  publish_attempts = 2;
  next_attempt_at = some 90;
  dead_lettered_at = none;
  last_error = some "busy";
  last_status_code = some 503;
}

abbrev busy : OutboxEventRecord → Delivery
busy e = retryable "busy" (some 503)

abbrev accepts : OutboxEventRecord → Delivery
accepts e = delivered

abbrev lowest : ℕ → ℕ
lowest n = 0

lowest_le : (n : ℕ) → lowest n ≤ n
lowest_le n = omega arith

abbrev publisher : OutboxPublisher
publisher = record {
  batch_size = 10;
  retention = 1000;
  max_attempts = 3;
  retry_base_seconds = 2;
  retry_max_seconds = 300;
}

is_due : is_pending 100 waiting ≡ true
unfolding is_pending
is_due = refl

publish_example :
    Fate busy lowest lowest_le publisher 100 waiting (publish busy lowest publisher 100 waiting)
publish_example = publish-Fate busy lowest lowest_le publisher 100 waiting is_due

waiting-Tried : All (Tried 3) (waiting ∷ [])
waiting-Tried = ((omega arith, λ a b. omega arith), tt)

bound_example : All (Tried 3) (run_once busy lowest publisher 100 (waiting ∷ [])).0
bound_example = run_once-Tried busy lowest lowest_le publisher 100 (waiting ∷ []) waiting-Tried

-- The third failure of three makes it a dead letter.
dead_letter : (publish busy lowest publisher 100 waiting).dead_lettered_at ≡ some 100
unfolding publish
dead_letter = refl

accepted_runs : (run_once accepts lowest publisher 100 (waiting ∷ [])).1 ≡ inl (1, 0)
unfolding run_once pending_for_publish is_pending select order_by publish_all publish
    count_published delete_published_before old_sequences Tables.save
accepted_runs = refl
