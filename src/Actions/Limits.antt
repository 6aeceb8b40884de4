-- ===== src/Actions/Limits.antt =====
-- The executions that a rule allows per incident, and the actions of
-- backend/app/services/actions.py that count for it.
use ops_pilot_ai.Base.{
  ℕ, suc, ◌<◌, ◌≤◌, Bool, true, Option, some, [], ◌∷◌, ◌++◌, ◌≡◌, arith, ok, inl, inr, Bool-cases,
  if◌then◌else◌, length-select-append,
}
use ops_pilot_ai.Storage.Tables
use ops_pilot_ai.Storage.Rows.{PolicyRuleRecord, PolicyDecisionRecord, ActionRequestRecord}
use ops_pilot_ai.Storage.Database.{Db}
use ops_pilot_ai.Storage.Database.Scope.{Context}
use ops_pilot_ai.Storage.Repositories.{
  get_decision, get_policy, counts_for, count_actions_for_incident_rule,
}
use ops_pilot_ai.Policies.Decisions.{HasCapacity}
use ops_pilot_ai.Actions.{ActionInput, FingerprintPayload, fingerprint, create}
use ops_pilot_ai.Actions.Creation.{IsCreated, create-IsCreated}

-- No incident has more actions under a rule than the rule allows.
abbrev pub IsWithinLimits : Db → Type 0
IsWithinLimits db =
    (i k n : ℕ) (rule : PolicyRuleRecord)
    → Tables.get (λ (r : PolicyRuleRecord). r.id) k db.policy_rules ≡ some rule
    → rule.max_executions_per_incident ≡ some n
    → count_actions_for_incident_rule i k db ≤ n

stored_decision :
    (c : Context) (i : ℕ) (db : Db) (s : PolicyDecisionRecord)
    → get_decision c i db ≡ some s
    → (Tables.get (λ (d : PolicyDecisionRecord). d.id) s.id db.policy_decisions ≡ some s)
unfolding get_decision
stored_decision c i db s h =
    ground (arith, Tables.get_key (λ (d : PolicyDecisionRecord). d.id) i db.policy_decisions s)

stored_rule :
    (c : Context) (i : ℕ) (db : Db) (rule : PolicyRuleRecord)
    → get_policy c i db ≡ some rule
    → Tables.get (λ (r : PolicyRuleRecord). r.id) i db.policy_rules ≡ some rule
unfolding get_policy
stored_rule c i db rule h = ground arith

-- An action counts under the rule of its decision.
counts_under :
    (i k : ℕ) (db : Db) (s : PolicyDecisionRecord) (l : ActionRequestRecord)
    → Tables.get (λ (d : PolicyDecisionRecord). d.id) l.policy_decision_id db.policy_decisions
      ≡ some s
    → counts_for i k db.policy_decisions l ≡ true
    → (l.incident_id ≡ i) × (s.matched_rule_id ≡ some k)
unfolding counts_for
counts_under i k db s l e h = ground arith

count_after :
    (i k : ℕ) (db db' : Db) (l : ActionRequestRecord)
    → db'.actions ≡ db.actions ++ l ∷ []
    → db'.policy_decisions ≡ db.policy_decisions
    → count_actions_for_incident_rule i k db' ≡ (
        if counts_for i k db.policy_decisions l
        then suc (count_actions_for_incident_rule i k db)
        else count_actions_for_incident_rule i k db)
unfolding count_actions_for_incident_rule
count_after i k db db' l e d =
    rw (e, d) (length-select-append (counts_for i k db.policy_decisions) db.actions l)

below_limit : (o : Option ℕ) (n m : ℕ) → o ≡ some n → HasCapacity o (some m) → m < n
below_limit o n m e h = let k = rw e at h in k

created_counts :
    (c : Context) (r : ActionInput) (mark a p now : ℕ) (db db' : Db) (s : PolicyDecisionRecord)
    (l : ActionRequestRecord)
    → IsWithinLimits db
    → IsCreated c r mark a p now db db' s l
    → IsWithinLimits db'
created_counts c r mark a p now db db' s l v f i k n rule g m =
    let g' = rw f.same_rules at g in
    let e = count_after i k db db' l f.appended f.same_decisions in
    elim (Bool-cases (counts_for i k db.policy_decisions l)) [
      | inr t ↦ let b = v i k n rule g' m in rw (e, t) b
      | inl t ↦
          let own = stored_decision c r.policy_decision_id db s f.stored in
          let same_decision : l.policy_decision_id ≡ s.id = f.requested.decision in
          let same_incident : l.incident_id ≡ s.incident_id = f.requested.incident in
          let (at_incident, under) = counts_under i k db s l (rw same_decision own) t in
          let au = f.authorized in
          let named = au.named in
          let q : au.rule.id ≡ k = ground (arith, named, under) in
          let w = stored_rule c au.rule.id db au.rule au.stored in
          let same_rule : au.rule ≡ rule = ground (arith, w, q, g') in
          let z : s.incident_id ≡ i = cc (same_incident, at_incident) in
          let b : count_actions_for_incident_rule i k db < n =
            rw (← q, ← z)
              (below_limit au.rule.max_executions_per_incident n _ (rw same_rule m)
                au.grants.capacity) in
          rw (e, t) (omega arith)
    ]

-- A call of `create` that returns, made where no incident has more actions under a stored rule than
-- the rule's limit, leaves it so.
pub create-IsWithinLimits :
    (c : Context) (digest : FingerprintPayload → ℕ) (r : ActionInput) (a p now : ℕ) (db db' : Db)
    (l : ActionRequestRecord) (again : Bool)
    → IsWithinLimits db
    → create c digest r a p now db ≡ ok ((l, again), db')
    → IsWithinLimits db'
create-IsWithinLimits c digest r a p now db db' l again v h =
    elim (create-IsCreated c digest r a p now db db' l again h).1 [
      | inl (f, _) ↦ rw f.unchanged v
      | inr (f, _) ↦ created_counts c r (fingerprint digest r) a p now db db' _ l v f
    ]
