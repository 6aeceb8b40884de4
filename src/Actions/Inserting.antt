-- ===== src/Actions/Inserting.antt =====
-- `ActionRequestService.create`, step by step.
use ops_pilot_ai.Base.{
  ℕ, ◌+◌, Bool, true, false, none, some, [], ◌∷◌, ◌++◌, ◌≡◌, ◌≢◌, ap, arith, ok, err, Error,
  Bool-cases, inl, inr,
}
use ops_pilot_ai.Domain.Actions.{status_value}
use ops_pilot_ai.Storage.Rows.{
  PolicyDecisionRecord, ActionRequestRecord, IncidentRecord, uuid, text,
}
use ops_pilot_ai.Storage.Database.{Db}
use ops_pilot_ai.Storage.Database.Scope.{Context}
use ops_pilot_ai.Storage.Repositories.{
  get_decision, get_incident, get_by_idempotency_key, get_by_policy_decision,
}
use ops_pilot_ai.Policies.Rules.{PolicyDecision}
use ops_pilot_ai.Policies.Service.{authorize_action_creation}
use ops_pilot_ai.Events.{record_event, about}
use ops_pilot_ai.Events.Recording.{record_event_inversion}
use ops_pilot_ai.Actions.{
  ActionInput, FingerprintPayload, fingerprint, validate_approval, violates_unique, action_row,
  id_or_null, user_or_system, insert_action, insert_or_raced, replay_or_insert, create,
}
use ops_pilot_ai.Actions.Capabilities.{validate_capability_parameters, validate_rollback_capability}

module _ (c : Context) (digest : FingerprintPayload → ℕ) (r : ActionInput) (a p now : ℕ)
    (db : Db) where
  pub no_decision :
      {x : (ActionRequestRecord × Bool) × Db}
      → get_decision c r.policy_decision_id db ≡ none
      → create c digest r a p now db ≢ ok x
  unfolding create
  no_decision n h = ground arith

  pub create_checks :
      (s : PolicyDecisionRecord) (x : (ActionRequestRecord × Bool) × Db)
      → get_decision c r.policy_decision_id db ≡ some s
      → create c digest r a p now db ≡ ok x
      → (s.allowed ≡ true)
        × (validate_capability_parameters s.capability r.parameters db ≡ ok (tt, db))
        × (validate_rollback_capability s.capability r.rollback_capability db ≡ ok (tt, db))
        × (replay_or_insert c s r
              (fingerprint digest r)
              a
              p
              now
              (get_by_idempotency_key c s.environment_id r.idempotency_key db)
              db
            ≡ ok x)
  unfolding create validate_capability_parameters validate_rollback_capability
  create_checks s x g h = ground arith

module _ (c : Context) (s : PolicyDecisionRecord) (r : ActionInput) (mark a p now : ℕ)
    (db : Db) where
  pub replayed :
      (e : ActionRequestRecord) (x : (ActionRequestRecord × Bool) × Db)
      → replay_or_insert c s r mark a p now (some e) db ≡ ok x
      → (x ≡ ((e, true), db)) × (e.request_fingerprint ≡ mark)
  unfolding replay_or_insert
  replayed e x h = ground arith

  pub not_approved :
      (e : Error) {x : (ActionRequestRecord × Bool) × Db}
      → validate_approval c s.id s.approval_required r.approval_id r.parameters a db ≡ err e
      → replay_or_insert c s r mark a p now none db ≢ ok x
  unfolding replay_or_insert
  not_approved e f h = ground arith

  pub not_authorized :
      (e : Error) {x : (ActionRequestRecord × Bool) × Db}
      → validate_approval c s.id s.approval_required r.approval_id r.parameters a db ≡ ok (tt, db)
      → authorize_action_creation c s p db ≡ err e
      → replay_or_insert c s r mark a p now none db ≢ ok x
  unfolding replay_or_insert
  not_authorized e f g h = ground arith

  pub no_incident :
      (d : PolicyDecision) {x : (ActionRequestRecord × Bool) × Db}
      → validate_approval c s.id s.approval_required r.approval_id r.parameters a db ≡ ok (tt, db)
      → authorize_action_creation c s p db ≡ ok (d, db)
      → get_incident c s.incident_id db ≡ none
      → replay_or_insert c s r mark a p now none db ≢ ok x
  unfolding replay_or_insert
  no_incident d f g n h = ground arith

  pub allows :
      (d : PolicyDecision) (db' : Db) {x : (ActionRequestRecord × Bool) × Db}
      → validate_approval c s.id s.approval_required r.approval_id r.parameters a db ≡ ok (tt, db)
      → authorize_action_creation c s p db ≡ ok (d, db')
      → replay_or_insert c s r mark a p now none db ≡ ok x
      → (d.allowed ≡ true) × (get_by_policy_decision c s.id db ≡ none)
  unfolding replay_or_insert
  allows d db' f g h = ground arith

  pub inserts :
      (d : PolicyDecision) (incident : IncidentRecord) (x : (ActionRequestRecord × Bool) × Db)
      → validate_approval c s.id s.approval_required r.approval_id r.parameters a db ≡ ok (tt, db)
      → authorize_action_creation c s p db ≡ ok (d, db)
      → get_incident c s.incident_id db ≡ some incident
      → replay_or_insert c s r mark a p now none db ≡ ok x
      → insert_or_raced c s r mark incident now (violates_unique s r db) db ≡ ok x
  unfolding replay_or_insert
  inserts d incident x f g n h = ground arith

-- What one creation adds to the database.
abbrev pub added : ActionRequestRecord → Db → Db
added row db = record db { actions = db.actions ++ row ∷ []; next_id = db.next_id + 1 }

raced_missing :
    (c : Context) (s : PolicyDecisionRecord) (r : ActionInput) (mark now : ℕ) (db : Db)
    (incident : IncidentRecord) {x : (ActionRequestRecord × Bool) × Db}
    → get_by_idempotency_key c s.environment_id r.idempotency_key db ≡ none
    → insert_or_raced c s r mark incident now true db ≢ ok x
unfolding insert_or_raced
raced_missing c s r mark now db incident n h = ground arith

insert_event :
    (c : Context) (s : PolicyDecisionRecord) (r : ActionInput) (mark now : ℕ) (db db' : Db)
    (incident : IncidentRecord) (l : ActionRequestRecord) (again : Bool)
    → insert_or_raced c s r mark incident now false db ≡ ok ((l, again), db')
    → (l ≡ action_row c s r mark now db.next_id)
      × (again ≡ false)
      × (record_event c incident "action.requested" now
            (user_or_system c)
            (("actionId", uuid l.id)
              ∷ ("approvalId", id_or_null r.approval_id)
              ∷ ("capability", text l.capability)
              ∷ ("status", text (status_value l.status))
              ∷ [])
            (about "action_request" l.id l.version)
            (added l db)
          ≡ ok (tt, db'))
unfolding insert_or_raced insert_action
insert_event c s r mark now db db' incident l again h = ground arith

-- The new row goes to the end of the actions; the rules, decisions and approvals stay as they are.
pub inserted :
    (c : Context) (s : PolicyDecisionRecord) (r : ActionInput) (mark now : ℕ) (db db' : Db)
    (incident : IncidentRecord) (l : ActionRequestRecord) (again : Bool)
    → get_by_idempotency_key c s.environment_id r.idempotency_key db ≡ none
    → insert_or_raced c s r mark incident now (violates_unique s r db) db ≡ ok ((l, again), db')
    → (l ≡ action_row c s r mark now db.next_id)
      × (again ≡ false)
      × (violates_unique s r db ≡ false)
      × (db'.actions ≡ db.actions ++ l ∷ [])
      × (db'.policy_rules ≡ db.policy_rules)
      × (db'.policy_decisions ≡ db.policy_decisions)
      × (db'.approvals ≡ db.approvals)
inserted c s r mark now db db' incident l again n h = elim (Bool-cases (violates_unique s r db)) [
  | inl t ↦ absurd (raced_missing c s r mark now db incident n (rw t at h))
  | inr f ↦
      let (e, b, v) = insert_event c s r mark now db db' incident l again (rw f at h) in
      let (j, m, q) =
        record_event_inversion c incident "action.requested" now (user_or_system c) _ _ (added l db)
          db' v in
      (
        e,
        b,
        f,
        ap (λ (x : Db). x.actions) q,
        ap (λ (x : Db). x.policy_rules) q,
        ap (λ (x : Db). x.policy_decisions) q,
        ap (λ (x : Db). x.approvals) q,
      )
]
