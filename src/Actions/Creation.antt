-- ===== src/Actions/Creation.antt =====
-- `ActionRequestService.create`: which actions it creates.
use ops_pilot_ai.Base.{
  ℕ, Bool, true, false, none, some, [], ◌∷◌, ◌++◌, ◌≡◌, arith, ok, ◌⊎◌, Option-cases, Result-cases,
  inl, inr, All,
}
use ops_pilot_ai.Storage.Rows.{PolicyDecisionRecord, ActionRequestRecord}
use ops_pilot_ai.Storage.Database.{Db}
use ops_pilot_ai.Storage.Database.Scope.{Context}
use ops_pilot_ai.Storage.Repositories.{
  get_decision, get_incident, get_by_idempotency_key, get_by_policy_decision,
}
use ops_pilot_ai.Policies.Service.{authorize_action_creation}
use ops_pilot_ai.Policies.Capacity.{Authorized, authorize-Authorized}
use ops_pilot_ai.Actions.{
  ActionInput, FingerprintPayload, fingerprint, validate_approval, replay_or_insert, create,
}
use ops_pilot_ai.Actions.Inserting.{
  no_decision, create_checks, replayed, not_approved, not_authorized, no_incident, allows, inserts,
  inserted,
}
use ops_pilot_ai.Actions.Requested.{IsRequested, Clashes, action_row-IsRequested, unique-Clashes}
use ops_pilot_ai.Actions.Approvals.{IsApproved, validate_approval-IsApproved}

-- What holds when an action is created from the decision `s`.
pub record IsCreated (c : Context) (r : ActionInput) (mark a p now : ℕ) (db db' : Db)
    (s : PolicyDecisionRecord) (l : ActionRequestRecord) : Type 0 where
  pub stored : get_decision c r.policy_decision_id db ≡ some s
  pub allowed : s.allowed ≡ true
  pub unused : get_by_policy_decision c s.id db ≡ none
  pub new_key : get_by_idempotency_key c s.environment_id r.idempotency_key db ≡ none
  pub unique : All (λ (x : ActionRequestRecord). ¬ (Clashes s r x)) db.actions
  pub approved : IsApproved c s.id s.approval_required r.approval_id r.parameters a db
  pub authorized : Authorized c s p db
  pub requested : IsRequested c s r db.next_id mark now l
  pub appended : db'.actions ≡ db.actions ++ l ∷ []
  pub same_rules : db'.policy_rules ≡ db.policy_rules
  pub same_decisions : db'.policy_decisions ≡ db.policy_decisions
  pub same_approvals : db'.approvals ≡ db.approvals

-- `create` returned the action that had the idempotency key.
pub record IsReplayed (c : Context) (r : ActionInput) (mark : ℕ) (db db' : Db)
    (s : PolicyDecisionRecord) (l : ActionRequestRecord) : Type 0 where
  pub stored : get_decision c r.policy_decision_id db ≡ some s
  pub allowed : s.allowed ≡ true
  pub same_key : get_by_idempotency_key c s.environment_id r.idempotency_key db ≡ some l
  pub same_fingerprint : l.request_fingerprint ≡ mark
  pub unchanged : db' ≡ db

module _ (c : Context) (s : PolicyDecisionRecord) (r : ActionInput) (mark a p now : ℕ) (db db' : Db)
    (l : ActionRequestRecord) (again : Bool)
    (stored : get_decision c r.policy_decision_id db ≡ some s) (permitted : s.allowed ≡ true)
    (free : get_by_idempotency_key c s.environment_id r.idempotency_key db ≡ none)
    (h : replay_or_insert c s r mark a p now none db ≡ ok ((l, again), db')) where
  after_approval :
      validate_approval c s.id s.approval_required r.approval_id r.parameters a db ≡ ok (tt, db)
      → IsApproved c s.id s.approval_required r.approval_id r.parameters a db
      → IsCreated c r mark a p now db db' s l × (again ≡ false)
  after_approval f ok_approval = elim (Result-cases (authorize_action_creation c s p db)) [
    | inr (e, g) ↦ absurd (not_authorized c s r mark a p now db e f g h)
    | inl ((d, db₁), g) ↦
        let (yes_allowed, unused) = allows c s r mark a p now db d db₁ f g h in
        let (auth, same) = authorize-Authorized c s p db db₁ d g yes_allowed in
        let g' = rw same at g in
        elim (Option-cases (get_incident c s.incident_id db)) [
          | inl n ↦ absurd (no_incident c s r mark a p now db d f g' n h)
          | inr (incident, n) ↦
              let (row, new, u, w, rules, decisions, approvals) =
                inserted c s r mark now db db' incident l again free
                  (inserts c s r mark a p now db d incident ((l, again), db') f g' n h) in
              (
                record {
                  stored = stored;
                  allowed = permitted;
                  unused = unused;
                  new_key = free;
                  unique = unique-Clashes s r db u;
                  approved = ok_approval;
                  authorized = auth;
                  requested = rw row (action_row-IsRequested c s r mark now db.next_id);
                  appended = w;
                  same_rules = rules;
                  same_decisions = decisions;
                  same_approvals = approvals;
                },
                new,
              )
        ]
  ]

  insert-IsCreated : IsCreated c r mark a p now db db' s l × (again ≡ false)
  insert-IsCreated =
      elim (Result-cases
        (validate_approval c s.id s.approval_required r.approval_id r.parameters a db)) [
          | inr (e, f) ↦ absurd (not_approved c s r mark a p now db e f h)
          | inl ((u, db₁), f) ↦
              let (k, same) =
                validate_approval-IsApproved c s.id s.approval_required r.approval_id r.parameters a
                  db db₁ f in
              after_approval (rw same at f) k
        ]

-- A call of `create` that returns found a policy decision that allows the action. Either it
-- returned the action of the decision's environment that has the idempotency key and the
-- fingerprint of the call, and changed nothing; or it appended one action, READY at its first
-- version, for what the decision is about and as the call and its fingerprint say, signed by
-- the caller: then no action of the environment had this key, no action had this decision or
-- this approval, an approval was given exactly when the decision required one, approved, in
-- time, for these parameters and unused, and the rule of the decision authorized the action
-- once more.
pub create-IsCreated :
    (c : Context) (digest : FingerprintPayload → ℕ) (r : ActionInput) (a p now : ℕ) (db db' : Db)
    (l : ActionRequestRecord) (again : Bool)
    → create c digest r a p now db ≡ ok ((l, again), db')
    → (s : PolicyDecisionRecord) × ((IsReplayed c r (fingerprint digest r) db db' s l
          × (again ≡ true))
        ⊎ (IsCreated c r (fingerprint digest r) a p now db db' s l × (again ≡ false)))
create-IsCreated c digest r a p now db db' l again h =
    elim (Option-cases (get_decision c r.policy_decision_id db)) [
      | inl n ↦ absurd (no_decision c digest r a p now db n h)
      | inr (s, g) ↦
          let (allowed, _, _, f) = create_checks c digest r a p now db s ((l, again), db') g h in
          elim (Option-cases (get_by_idempotency_key c s.environment_id r.idempotency_key db)) [
            | inr (e, k) ↦
                let (q, same) =
                  replayed c s r (fingerprint digest r) a p now db e ((l, again), db')
                    (rw k at f) in
                let own : e ≡ l = ground (arith, q) in
                (
                  s,
                  inl (
                    record {
                      stored = g;
                      allowed = allowed;
                      same_key = rw own at k;
                      same_fingerprint = rw own at same;
                      unchanged = ground (arith, q);
                    },
                    ground (arith, q),
                  ),
                )
            | inl k ↦ (
              s,
              inr (
                  insert-IsCreated c s r (fingerprint digest r) a p now db db' l again g allowed k
                    (rw k at f)),
            )
          ]
    ]
