-- ===== src/Approvals/Settling.antt =====
-- `ApprovalService.decide`, step by step.
use ops_pilot_ai.Base.{
  ℕ, [], ◌∷◌, true, none, some, ◌≡◌, ◌≢◌, ◌∙◌, arith, ok, err, Error, inl, inr, Option-cases,
  Result-cases, nat_eq,
}
use ops_pilot_ai.Domain.Approvals.{approval_status_eq, ApprovalDecision, approve, reject, value}
use ops_pilot_ai.Domain.Investigations.{InvestigationHitlSubjectType}
use ops_pilot_ai.Storage.Tables
use ops_pilot_ai.Storage.Rows.{uuid, text, ApprovalRecord, PolicyDecisionRecord, IncidentRecord}
use ops_pilot_ai.Storage.Database.{Db}
use ops_pilot_ai.Storage.Database.Scope.{Context}
use ops_pilot_ai.Storage.Repositories.{get_decision, get_incident, list_for_environment}
use ops_pilot_ai.Policies.Rules
use ops_pilot_ai.Policies.Rules.{PolicyDecision}
use ops_pilot_ai.Policies.Service.{query_of, validate_target, revalidate_snapshot}
use ops_pilot_ai.Events.{record_event, about}
use ops_pilot_ai.Actions.{FingerprintPayload, user_or_system}
use ops_pilot_ai.Proposals.{resolve_approval}
use ops_pilot_ai.Waits.{resolve_subject}
use ops_pilot_ai.Approvals.{resolve, settle, check_policy}
use ops_pilot_ai.Approvals.Waiting.{resolve_subject_keeps}
use ops_pilot_ai.Approvals.Keeping.{record_event_keeps, resolve_approval_keeps}

abbrev with_approval : ApprovalRecord → Db → Db
with_approval a db = record db {
  approvals = Tables.save (λ (r : ApprovalRecord). r.id) a db.approvals;
}

module _ (c : Context) (row : ApprovalRecord) (now : ℕ) (db db' : Db) where
  no_incident :
      get_incident c row.incident_id (with_approval row db) ≡ none
      → resolve c row now db ≢ ok (tt, db')
  unfolding resolve
  no_incident n h = ground arith

  resolve_event :
      (i : IncidentRecord)
      → get_incident c row.incident_id (with_approval row db) ≡ some i
      → resolve c row now db ≡ ok (tt, db')
      → record_event c i "approval.resolved" now
          (user_or_system c)
          (("approvalId", uuid row.id) ∷ ("status", text (value row.status)) ∷ [])
          (about "approval" row.id row.version)
          (with_approval row db)
        ≡ ok (tt, db')
  unfolding resolve
  resolve_event i n h = rw n at h

  resolve_stores :
      resolve c row now db ≡ ok (tt, db')
      → db'.approvals ≡ Tables.save (λ (r : ApprovalRecord). r.id) row db.approvals
  resolve_stores h = elim (Option-cases (get_incident c row.incident_id (with_approval row db))) [
    | inl n ↦ absurd (no_incident n h)
    | inr (i, n) ↦
        record_event_keeps c i "approval.resolved" now (user_or_system c) _ _ (with_approval row db)
          db' (resolve_event i n h)
  ]

module _ (c : Context) (digest : FingerprintPayload → ℕ) (row row' : ApprovalRecord) (now x y z : ℕ)
    (db db' : Db) where
  not_resolved :
      (e : Error) → resolve c row now db ≡ err e → settle c digest row now x y z db ≢ ok (row', db')
  unfolding settle
  not_resolved e f h = ground arith

  proposal_fails :
      (e : Error) (d : Db)
      → resolve c row now db ≡ ok (tt, d)
      → resolve_approval c digest row now x y z d ≡ err e
      → settle c digest row now x y z db ≢ ok (row', db')
  unfolding settle
  proposal_fails e d f g h = ground arith

  last_step :
      (d d' : Db)
      → resolve c row now db ≡ ok (tt, d)
      → resolve_approval c digest row now x y z d ≡ ok (tt, d')
      → settle c digest row now x y z db ≡ ok (row', db')
      → (row' ≡ row)
        × (resolve_subject c InvestigationHitlSubjectType.approval row.id (value row.status) now d'
            ≡ ok (tt, db'))
  unfolding settle
  last_step d d' f g h = ground arith

  pub settle_stores :
      settle c digest row now x y z db ≡ ok (row', db')
      → (row' ≡ row) × (db'.approvals ≡ Tables.save (λ (r : ApprovalRecord). r.id) row db.approvals)
  settle_stores h = elim (Result-cases (resolve c row now db)) [
    | inr (e, f) ↦ absurd (not_resolved e f h)
    | inl ((_, d), f) ↦ elim (Result-cases (resolve_approval c digest row now x y z d)) [
      | inr (e, g) ↦ absurd (proposal_fails e d f g h)
      | inl ((_, d'), g) ↦
          let (same, k) = last_step d d' f g h in
          (
            same,
            resolve_subject_keeps c InvestigationHitlSubjectType.approval row.id (value row.status)
                  now d' db' k
                ∙ (resolve_approval_keeps c digest row now x y z d d' g
                    ∙ resolve_stores c row now db d f),
          )
    ]
  ]

-- The rules of the day still allow what the decision of the approval asks about, with an approval.
pub record StillAsked (c : Context) (a : ApprovalRecord) (now : ℕ) (db : Db) : Type 0 where
  pub snapshot : PolicyDecisionRecord
  pub stored : get_decision c a.policy_decision_id db ≡ some snapshot
  pub allowed :
      (Rules.decide
        (list_for_environment c snapshot.environment_id db)
        (query_of snapshot)
        now
        none).allowed
      ≡ true
  pub approval_required :
      (Rules.decide
        (list_for_environment c snapshot.environment_id db)
        (query_of snapshot)
        now
        none).approval_required
      ≡ true

abbrev pub IsSupported : Context → ApprovalRecord → ℕ → Db → ApprovalDecision → Type 0
IsSupported c a now db approve = StillAsked c a now db
IsSupported c a now db reject = Unit

module _ (c : Context) (a : ApprovalRecord) (now : ℕ) (db db' : Db) where
  no_snapshot :
      get_decision c a.policy_decision_id db ≡ none → check_policy c a now approve db ≢ ok (tt, db')
  unfolding check_policy
  no_snapshot n h = ground arith

  policy_checks :
      (s : PolicyDecisionRecord)
      → get_decision c a.policy_decision_id db ≡ some s
      → check_policy c a now approve db ≡ ok (tt, db')
      → ((Rules.decide (list_for_environment c s.environment_id db) (query_of s) now none).allowed
          ≡ true)
        × ((Rules.decide
              (list_for_environment c s.environment_id db)
              (query_of s)
              now
              none).approval_required
            ≡ true)
        × (db' ≡ db)
  unfolding check_policy revalidate_snapshot validate_target
  policy_checks s n h = ground arith

pub check_policy-IsSupported :
    (c : Context) (a : ApprovalRecord) (now : ℕ) (d : ApprovalDecision) (db db' : Db)
    → check_policy c a now d db ≡ ok (tt, db')
    → IsSupported c a now db d × (db' ≡ db)
unfolding check_policy
check_policy-IsSupported c a now reject db db' h = (tt, ground (arith, h))
check_policy-IsSupported c a now approve db db' h =
    elim (Option-cases (get_decision c a.policy_decision_id db)) [
      | inl n ↦ absurd (no_snapshot c a now db db' n h)
      | inr (s, n) ↦
          let (x, y, same) = policy_checks c a now db db' s n h in
          (record { snapshot = s; stored = n; allowed = x; approval_required = y }, same)
    ]
