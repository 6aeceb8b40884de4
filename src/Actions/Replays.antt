-- ===== src/Actions/Replays.antt =====
-- `ActionRequestService.create`: a request that is sent again.
use ops_pilot_ai.Base.{
  ℕ, ◌++◌, String, Bool, true, none, some, List, [], ◌∷◌, ◌≡◌, refl, arith, ok, inl, inr, ◌&&◌,
  ◌==◌, nat_eq, string_eq, find-append,
}
use ops_pilot_ai.Storage.Rows.{Value, PolicyDecisionRecord, ActionRequestRecord}
use ops_pilot_ai.Storage.Database.{Db}
use ops_pilot_ai.Storage.Database.Scope.{Context, in_scope}
use ops_pilot_ai.Storage.Repositories.{get_decision, get_by_idempotency_key}
use ops_pilot_ai.Actions.{ActionInput, FingerprintPayload, fingerprint, replay_or_insert, create}
use ops_pilot_ai.Actions.Capabilities.{validate_capability_parameters, validate_rollback_capability}
use ops_pilot_ai.Actions.Inserting.{create_checks}
use ops_pilot_ai.Actions.Creation.{create-IsCreated}

-- The checks read nothing of the database.
checks_elsewhere :
    (capability : String) (parameters : List (String × Value)) (db db' : Db)
    → validate_capability_parameters capability parameters db ≡ ok (tt, db)
    → validate_capability_parameters capability parameters db' ≡ ok (tt, db')
unfolding validate_capability_parameters
checks_elsewhere capability parameters db db' h = ground arith

same_decision :
    (c : Context) (i : ℕ) (db db' : Db)
    → db'.policy_decisions ≡ db.policy_decisions
    → get_decision c i db' ≡ get_decision c i db
unfolding get_decision
same_decision c i db db' e = rw e refl

decision_in_scope :
    (c : Context) (i : ℕ) (db : Db) (s : PolicyDecisionRecord)
    → get_decision c i db ≡ some s
    → in_scope c s.environment_id ≡ true
unfolding get_decision
decision_in_scope c i db s h = ground arith

-- The row that was appended is found under its key.
found_again :
    (c : Context) (e : ℕ) (key : String) (db db' : Db) (l : ActionRequestRecord)
    → in_scope c e ≡ true
    → l.environment_id ≡ e
    → l.idempotency_key ≡ key
    → get_by_idempotency_key c e key db ≡ none
    → db'.actions ≡ db.actions ++ l ∷ []
    → get_by_idempotency_key c e key db' ≡ some l
unfolding get_by_idempotency_key
found_again c e key db db' l s same_environment same_key n w =
    let own : (l.environment_id == e && l.idempotency_key == key) ≡ true =
      rw ((nat_eq.equals_iff _ _).1 same_environment, (string_eq.equals_iff _ _).1 same_key) refl in
    rw (w, s) (find-append _ db.actions l (rw s at n) own)

replay_returns :
    (c : Context) (digest : FingerprintPayload → ℕ) (r : ActionInput) (a p now : ℕ) (db : Db)
    (s : PolicyDecisionRecord) (l : ActionRequestRecord)
    → get_decision c r.policy_decision_id db ≡ some s
    → s.allowed ≡ true
    → validate_capability_parameters s.capability r.parameters db ≡ ok (tt, db)
    → validate_rollback_capability s.capability r.rollback_capability db ≡ ok (tt, db)
    → get_by_idempotency_key c s.environment_id r.idempotency_key db ≡ some l
    → l.request_fingerprint ≡ fingerprint digest r
    → create c digest r a p now db ≡ ok ((l, true), db)
unfolding create replay_or_insert
replay_returns c digest r a p now db s l g v f w k e = ground arith

rollback_elsewhere :
    (capability : String) (r : ActionInput) (db db' : Db)
    → validate_rollback_capability capability r.rollback_capability db ≡ ok (tt, db)
    → validate_rollback_capability capability r.rollback_capability db' ≡ ok (tt, db')
unfolding validate_rollback_capability
rollback_elsewhere capability r db db' h = ground arith

-- A request that `create` has answered gets the same action again, at whatever times it is sent
-- again by the same principal to the database that the answer left, and then changes nothing.
pub create_twice :
    (c : Context) (digest : FingerprintPayload → ℕ) (r : ActionInput) (a p now a' p' now' : ℕ)
    (db db' : Db) (l : ActionRequestRecord) (again : Bool)
    → create c digest r a p now db ≡ ok ((l, again), db')
    → create c digest r a' p' now' db' ≡ ok ((l, true), db')
create_twice c digest r a p now a' p' now' db db' l again h =
    let (s, cases) = create-IsCreated c digest r a p now db db' l again h in
    elim cases [
      | inl (f, _) ↦
          let (allowed, v, w, _) =
            create_checks c digest r a p now db s ((l, again), db') f.stored h in
          rw f.unchanged (
            replay_returns c digest r a' p' now' db s l f.stored allowed v w f.same_key
              f.same_fingerprint)
      | inr (f, _) ↦
          let (allowed, v, w, _) =
            create_checks c digest r a p now db s ((l, again), db') f.stored h in
          let g : get_decision c r.policy_decision_id db' ≡ some s =
            rw (same_decision c r.policy_decision_id db db' f.same_decisions) f.stored in
          let k =
            found_again c s.environment_id r.idempotency_key db db' l
              (decision_in_scope c r.policy_decision_id db s f.stored) f.requested.environment
              f.requested.key f.new_key f.appended in
          replay_returns c digest r a' p' now' db' s l g allowed
            (checks_elsewhere s.capability r.parameters db db' v)
            (rollback_elsewhere s.capability r db db' w) k f.requested.fingerprint
    ]
