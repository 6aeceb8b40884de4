-- ===== src/Storage/Repositories.antt =====
-- backend/app/storage/repositories.py: the queries of the modelled services. A principal with a
-- limited scope sees the rows of its own environments only.
use ops_pilot_ai.Base.{
  ℕ, map, max, contains, String, Bool, true, false, not, ◌&&◌, ◌||◌, Option, none, some, List, [],
  ◌∷◌, nat_eq, string_eq, ◌==◌, if◌then◌else◌, ltb, ltb_ℤ, select, find, order_by, is_none,
  option_beq, length,
}
use ops_pilot_ai.Domain.Investigations.{
  InvestigationHitlSubjectType, hitl_subject_type_eq, hitl_wait_status_eq,
  InvestigationHitlWaitStatus,
}
use ops_pilot_ai.Storage.Tables
use ops_pilot_ai.Storage.Rows.{
  EnvironmentRecord, ResourceRecord, IncidentRecord, PolicyRuleRecord, PolicyDecisionRecord,
  ApprovalRecord, ActionRequestRecord, ResourceLockRecord, ActionProposalRecord,
  InvestigationRunRecord, InvestigationHitlWaitRecord, EvidenceRecord, HypothesisRecord,
}
use ops_pilot_ai.Storage.Database.{Db}
use ops_pilot_ai.Storage.Database.Scope.{Context, in_scope}

abbrev keep_if : {A : Type 0} → (A → Bool) → Option A → Option A
keep_if p none = none
keep_if p (some a) = if p a then some a else none

-- `EnvironmentRepository.get`
unfoldable pub get_environment : Context → ℕ → Db → Option EnvironmentRecord
get_environment c i db =
    keep_if (λ e. in_scope c e.id) (Tables.get (λ (e : EnvironmentRecord). e.id) i db.environments)

-- `ResourceRepository.get`
unfoldable pub get_resource : Context → ℕ → Db → Option ResourceRecord
get_resource c i db =
    keep_if (λ r. in_scope c r.environment_id)
      (Tables.get (λ (r : ResourceRecord). r.id) i db.resources)

abbrev is_visible : Context → Db → IncidentRecord → Bool
is_visible none db i = true
is_visible (some p) db i =
    p.unrestricted_environments || not (is_none (get_resource (some p) i.resource_id db))

-- `IncidentRepository.get`: a limited scope joins the incident's resource.
unfoldable pub get_incident : Context → ℕ → Db → Option IncidentRecord
unfolding get_resource
get_incident c i db =
    keep_if (is_visible c db) (Tables.get (λ (r : IncidentRecord). r.id) i db.incidents)

-- `PolicyRepository.get`
unfoldable pub get_policy : Context → ℕ → Db → Option PolicyRuleRecord
get_policy c i db =
    keep_if (λ r. in_scope c r.environment_id)
      (Tables.get (λ (r : PolicyRuleRecord). r.id) i db.policy_rules)

-- `PolicyRepository.get_decision`
unfoldable pub get_decision : Context → ℕ → Db → Option PolicyDecisionRecord
get_decision c i db =
    keep_if (λ r. in_scope c r.environment_id)
      (Tables.get (λ (r : PolicyDecisionRecord). r.id) i db.policy_decisions)

-- `ORDER BY priority DESC, created_at, id`
unfoldable pub earlier_rule : PolicyRuleRecord → PolicyRuleRecord → Bool
earlier_rule a b =
    ltb_ℤ b.priority a.priority
    || (not (ltb_ℤ a.priority b.priority)
        && (ltb a.created_at b.created_at || (a.created_at == b.created_at && ltb a.id b.id)))

abbrev pub is_enabled_in : ℕ → PolicyRuleRecord → Bool
is_enabled_in environment_id r = r.environment_id == environment_id && r.enabled

-- `PolicyRepository.list_for_environment(environment_id, enabled_only=True)`
unfoldable pub list_for_environment : Context → ℕ → Db → List PolicyRuleRecord
list_for_environment c environment_id db =
    if not (in_scope c environment_id)
    then []
    else order_by earlier_rule (select (is_enabled_in environment_id) db.policy_rules)

-- Whether an action belongs to the incident, and its decision was matched by the rule.
unfoldable pub counts_for : ℕ → ℕ → List PolicyDecisionRecord → ActionRequestRecord → Bool
counts_for incident_id rule_id decisions a =
    a.incident_id == incident_id
    && elim (Tables.get (λ (d : PolicyDecisionRecord). d.id) a.policy_decision_id decisions) [
      | none ↦ false
      | some d ↦ option_beq d.matched_rule_id (some rule_id)
    ]

-- `PolicyRepository.count_actions_for_incident_rule`
unfoldable pub count_actions_for_incident_rule : ℕ → ℕ → Db → ℕ
count_actions_for_incident_rule incident_id rule_id db =
    length (select (counts_for incident_id rule_id db.policy_decisions) db.actions)

-- `ApprovalRepository.get`
unfoldable pub get_approval : Context → ℕ → Db → Option ApprovalRecord
get_approval c i db =
    keep_if (λ r. in_scope c r.environment_id)
      (Tables.get (λ (r : ApprovalRecord). r.id) i db.approvals)

-- `ActionRequestRepository.get`
unfoldable pub get_action : Context → ℕ → Db → Option ActionRequestRecord
get_action c i db =
    keep_if (λ r. in_scope c r.environment_id)
      (Tables.get (λ (r : ActionRequestRecord). r.id) i db.actions)

-- `ActionRequestRepository.get_by_idempotency_key`
unfoldable pub get_by_idempotency_key : Context → ℕ → String → Db → Option ActionRequestRecord
get_by_idempotency_key c environment_id key db =
    if not (in_scope c environment_id)
    then none
    else find
        (λ (a : ActionRequestRecord).
          a.environment_id == environment_id && a.idempotency_key == key)
        db.actions

-- `ActionRequestRepository.get_by_policy_decision`
unfoldable pub get_by_policy_decision : Context → ℕ → Db → Option ActionRequestRecord
get_by_policy_decision c policy_decision_id db =
    find
      (λ (a : ActionRequestRecord).
        a.policy_decision_id == policy_decision_id && in_scope c a.environment_id)
      db.actions

-- `ActionRequestRepository.get_by_approval`
unfoldable pub get_by_approval : Context → ℕ → Db → Option ActionRequestRecord
get_by_approval c approval_id db =
    find
      (λ (a : ActionRequestRecord).
        option_beq a.approval_id (some approval_id) && in_scope c a.environment_id)
      db.actions

-- `ResourceLockRepository.get_for_resource`
unfoldable pub get_lock_for_resource : Context → ℕ → Db → Option ResourceLockRecord
get_lock_for_resource c resource_id db =
    find (λ (l : ResourceLockRecord). l.resource_id == resource_id && in_scope c l.environment_id)
      db.locks

-- `ResourceLockRepository.get_for_action`
unfoldable pub get_lock_for_action : Context → ℕ → Db → Option ResourceLockRecord
get_lock_for_action c action_id db =
    find
      (λ (l : ResourceLockRecord).
        l.action_request_id == action_id && is_none l.released_at && in_scope c l.environment_id)
      db.locks

-- `ActionProposalRepository.get_by_approval`
unfoldable pub get_proposal_by_approval : Context → ℕ → Db → Option ActionProposalRecord
get_proposal_by_approval c approval_id db =
    find
      (λ (r : ActionProposalRecord).
        option_beq r.approval_id (some approval_id) && in_scope c r.environment_id)
      db.action_proposals

abbrev is_run_visible : Context → Db → InvestigationRunRecord → Bool
is_run_visible none db r = true
is_run_visible (some p) db r =
    p.unrestricted_environments || not (is_none (get_incident (some p) r.incident_id db))

-- `InvestigationRepository.get_run`: a limited scope joins the resource of the run's incident.
unfoldable pub get_run : Context → ℕ → Db → Option InvestigationRunRecord
unfolding get_incident
get_run c i db =
    keep_if (is_run_visible c db)
      (Tables.get (λ (r : InvestigationRunRecord). r.id) i db.investigation_runs)

-- `InvestigationRepository.get_waiting_hitl_for_subject`
unfoldable pub get_waiting_hitl_for_subject :
    InvestigationHitlSubjectType → ℕ → Db → Option InvestigationHitlWaitRecord
get_waiting_hitl_for_subject subject_type subject_id db =
    find
      (λ (w : InvestigationHitlWaitRecord).
        w.subject_type == subject_type
        && w.subject_id == subject_id
        && w.status == InvestigationHitlWaitStatus.waiting)
      db.hitl_waits

-- `EvidenceRepository.existing_ids_for_incident`
unfoldable pub existing_ids_for_incident : ℕ → List ℕ → Db → List ℕ
existing_ids_for_incident incident_id evidence_ids db =
    map (λ (e : EvidenceRecord). e.id)
      (select (λ (e : EvidenceRecord). e.incident_id == incident_id && contains evidence_ids e.id)
        db.evidence)

-- `HypothesisRepository.get`, which knows of no scope
unfoldable pub get_hypothesis : ℕ → Db → Option HypothesisRecord
get_hypothesis i db = Tables.get (λ (r : HypothesisRecord). r.id) i db.hypotheses

-- The highest ordinal of the incident's hypotheses, or 0.
unfoldable pub last_ordinal : ℕ → List HypothesisRecord → ℕ
last_ordinal incident_id [] = 0
last_ordinal incident_id (h ∷ rows) =
    let rest = last_ordinal incident_id rows in
    if h.incident_id == incident_id then max h.ordinal rest else rest
