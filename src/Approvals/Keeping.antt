-- ===== src/Approvals/Keeping.antt =====
-- What the calls of `ApprovalService.decide` to other services leave of the approvals.
use ops_pilot_ai.Base.{
  ℕ, String, Bool, true, false, Option, none, some, ◌≡◌, ◌≢◌, ◌∙◌, ap, arith, ok, err, Error, ◌==◌,
  inl, inr, Option-cases, Result-cases, Bool-cases,
}
use ops_pilot_ai.Domain.Actions.{
  ActionProposalStatus, action_ready, awaiting_approval, action_proposal_status_eq,
}
use ops_pilot_ai.Domain.Approvals.{approved, approval_status_eq}
use ops_pilot_ai.Storage.Tables
use ops_pilot_ai.Storage.Rows.{
  ApprovalRecord, ActionProposalRecord, ActionRequestRecord, IncidentRecord,
}
use ops_pilot_ai.Storage.Database.{Db}
use ops_pilot_ai.Storage.Database.Scope.{Context}
use ops_pilot_ai.Storage.Repositories.{get_incident, get_proposal_by_approval}
use ops_pilot_ai.Events.{Payload, Aggregate, record_event}
use ops_pilot_ai.Events.Recording.{record_event_inversion}
use ops_pilot_ai.Actions.{FingerprintPayload, create}
use ops_pilot_ai.Actions.Creation.{create-IsCreated}
use ops_pilot_ai.Proposals.{
  proposal_event, proposal_input, resolved_proposal, finish_proposal, resolve_waiting,
  resolve_approval,
}

pub record_event_keeps :
    (c : Context) (incident : IncidentRecord) (event_type : String) (t : ℕ) (actor : String)
    (payload : Payload) (a : Aggregate) (db db' : Db)
    → record_event c incident event_type t actor payload a db ≡ ok (tt, db')
    → db'.approvals ≡ db.approvals
record_event_keeps c incident event_type t actor payload a db db' h =
    let (j, m, q) = record_event_inversion c incident event_type t actor payload a db db' h in
    ap (λ (x : Db). x.approvals) q

module _ (c : Context) (p : ActionProposalRecord) (e : String) (now : ℕ) (db db' : Db) where
  proposal_event_keeps : proposal_event c p e now db ≡ ok (tt, db') → db'.approvals ≡ db.approvals
  unfolding proposal_event
  proposal_event_keeps h = elim (Option-cases (get_incident c p.incident_id db)) [
    | inl n ↦ let k = rw n at h in ground (arith, k)
    | inr (i, f) ↦ record_event_keeps c i e now "agent" _ _ db db' (rw f at h)
  ]

abbrev with_proposal : ActionProposalRecord → Db → Db
with_proposal p db = record db {
  action_proposals = Tables.save (λ (r : ActionProposalRecord). r.id) p db.action_proposals;
}

finish_event :
    (c : Context) (p : ActionProposalRecord) (s : ActionProposalStatus) (o : Option ℕ) (now : ℕ)
    (db db' : Db)
    → finish_proposal c p s o now db ≡ ok (tt, db')
    → proposal_event c
        (resolved_proposal p s o now)
        "action.proposal_resolved"
        now
        (with_proposal (resolved_proposal p s o now) db)
      ≡ ok (tt, db')
unfolding finish_proposal
finish_event c p s o now db db' h = ground arith

finish_proposal_keeps :
    (c : Context) (p : ActionProposalRecord) (s : ActionProposalStatus) (o : Option ℕ) (now : ℕ)
    (db db' : Db)
    → finish_proposal c p s o now db ≡ ok (tt, db')
    → db'.approvals ≡ db.approvals
finish_proposal_keeps c p s o now db db' h =
    proposal_event_keeps c (resolved_proposal p s o now) "action.proposal_resolved" now
      (with_proposal (resolved_proposal p s o now) db) db' (finish_event c p s o now db db' h)

module _ (c : Context) (digest : FingerprintPayload → ℕ) (p : ActionProposalRecord)
    (a : ApprovalRecord) (now x y z : ℕ) (db db' : Db) where
  no_decision :
      p.policy_decision_id ≡ none → resolve_waiting c digest p a now x y z true db ≢ ok (tt, db')
  unfolding resolve_waiting
  no_decision n h = ground arith

  not_created :
      (i : ℕ) (e : Error)
      → p.policy_decision_id ≡ some i
      → create c digest (proposal_input p a i) x y z db ≡ err e
      → resolve_waiting c digest p a now x y z true db ≢ ok (tt, db')
  unfolding resolve_waiting
  not_created i e n f h = ground arith

  after_creation :
      (i : ℕ) (l : ActionRequestRecord) (again : Bool) (d : Db)
      → p.policy_decision_id ≡ some i
      → create c digest (proposal_input p a i) x y z db ≡ ok ((l, again), d)
      → resolve_waiting c digest p a now x y z true db ≡ ok (tt, db')
      → finish_proposal c p action_ready (some l.id) now d ≡ ok (tt, db')
  unfolding resolve_waiting
  after_creation i l again d n f h = ground arith

  rejection :
      resolve_waiting c digest p a now x y z false db ≡ ok (tt, db')
      → finish_proposal c p ActionProposalStatus.rejected p.action_request_id now db ≡ ok (tt, db')
  unfolding resolve_waiting
  rejection h = h

create_keeps :
    (c : Context) (digest : FingerprintPayload → ℕ) (r : _) (x y z : ℕ) (db d : Db)
    (l : ActionRequestRecord) (again : Bool)
    → create c digest r x y z db ≡ ok ((l, again), d)
    → d.approvals ≡ db.approvals
create_keeps c digest r x y z db d l again h =
    elim (create-IsCreated c digest r x y z db d l again h).1 [
      | inl (f, _) ↦ ap (λ (v : Db). v.approvals) f.unchanged
      | inr (f, _) ↦ f.same_approvals
    ]

resolve_waiting_keeps :
    (c : Context) (digest : FingerprintPayload → ℕ) (p : ActionProposalRecord) (a : ApprovalRecord)
    (now x y z : ℕ) (b : Bool) (db db' : Db)
    → resolve_waiting c digest p a now x y z b db ≡ ok (tt, db')
    → db'.approvals ≡ db.approvals
resolve_waiting_keeps c digest p a now x y z false db db' h =
    finish_proposal_keeps c p ActionProposalStatus.rejected p.action_request_id now db db'
      (rejection c digest p a now x y z db db' h)
resolve_waiting_keeps c digest p a now x y z true db db' h =
    elim (Option-cases p.policy_decision_id) [
      | inl n ↦ absurd (no_decision c digest p a now x y z db db' n h)
      | inr (i, n) ↦ elim (Result-cases (create c digest (proposal_input p a i) x y z db)) [
        | inr (e, f) ↦ absurd (not_created c digest p a now x y z db db' i e n f h)
        | inl (((l, again), d), f) ↦
            finish_proposal_keeps c p action_ready (some l.id) now d db'
              (after_creation c digest p a now x y z db db' i l again d n f h)
            ∙ create_keeps c digest (proposal_input p a i) x y z db d l again f
      ]
    ]

module _ (c : Context) (digest : FingerprintPayload → ℕ) (a : ApprovalRecord) (now x y z : ℕ)
    (db db' : Db) where
  no_proposal :
      get_proposal_by_approval c a.id db ≡ none
      → resolve_approval c digest a now x y z db ≡ ok (tt, db')
      → db' ≡ db
  unfolding resolve_approval
  no_proposal n h = ground arith

  other_proposal :
      (p : ActionProposalRecord)
      → get_proposal_by_approval c a.id db ≡ some p
      → (p.status == awaiting_approval) ≡ false
      → resolve_approval c digest a now x y z db ≡ ok (tt, db')
      → db' ≡ db
  unfolding resolve_approval
  other_proposal p n s h = ground arith

  waiting_proposal :
      (p : ActionProposalRecord)
      → get_proposal_by_approval c a.id db ≡ some p
      → (p.status == awaiting_approval) ≡ true
      → resolve_approval c digest a now x y z db ≡ ok (tt, db')
      → resolve_waiting c digest p a now x y z (a.status == approved) db ≡ ok (tt, db')
  unfolding resolve_approval
  waiting_proposal p n s h = ground arith

  pub resolve_approval_keeps :
      resolve_approval c digest a now x y z db ≡ ok (tt, db') → db'.approvals ≡ db.approvals
  resolve_approval_keeps h = elim (Option-cases (get_proposal_by_approval c a.id db)) [
    | inl n ↦ ap (λ (v : Db). v.approvals) (no_proposal n h)
    | inr (p, n) ↦ elim (Bool-cases (p.status == awaiting_approval)) [
      | inr s ↦ ap (λ (v : Db). v.approvals) (other_proposal p n s h)
      | inl s ↦
          resolve_waiting_keeps c digest p a now x y z (a.status == approved) db db'
            (waiting_proposal p n s h)
    ]
  ]
