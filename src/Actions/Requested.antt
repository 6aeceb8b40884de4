-- ===== src/Actions/Requested.antt =====
-- The row that `ActionRequestService.create` inserts, field by field, and the rows that stand in its
-- way.
use ops_pilot_ai.Base.{
  ℕ, Bool, true, false, ◌&&◌, ◌||◌, Option, none, some, ◌≡◌, ◌⊎◌, refl, inl, inr, ◌==◌, nat_eq,
  string_eq, any-false, All, All-map,
}
use ops_pilot_ai.Domain.Actions.{ready}
use ops_pilot_ai.Storage.Rows.{PolicyDecisionRecord, ActionRequestRecord}
use ops_pilot_ai.Storage.Database.{Db}
use ops_pilot_ai.Storage.Database.Scope.{Context}
use ops_pilot_ai.Storage.Database.Actors.{IsSigned, actor_or_system-IsSigned}
use ops_pilot_ai.Actions.{ActionInput, violates_unique, same_approval, action_row}

-- The row asks for what the decision is about, as the call says, READY at its first version.
pub record IsRequested (c : Context) (s : PolicyDecisionRecord) (r : ActionInput) (i mark now : ℕ)
    (row : ActionRequestRecord) : Type 0 where
  pub id : row.id ≡ i
  pub decision : row.policy_decision_id ≡ s.id
  pub approval : row.approval_id ≡ r.approval_id
  pub environment : row.environment_id ≡ s.environment_id
  pub incident : row.incident_id ≡ s.incident_id
  pub resource : row.resource_id ≡ s.resource_id
  pub capability : row.capability ≡ s.capability
  pub status : row.status ≡ ready
  pub parameters : row.parameters ≡ r.parameters
  pub criteria : row.verification_criteria ≡ r.verification_criteria
  pub rollback : row.rollback_capability ≡ r.rollback_capability
  pub key : row.idempotency_key ≡ r.idempotency_key
  pub fingerprint : row.request_fingerprint ≡ mark
  pub creator : IsSigned c (some row.created_by)
  pub not_cancelled : (row.cancelled_by ≡ none) × (row.cancellation_reason ≡ none)
  pub first_version : row.version ≡ 1
  pub updated : row.updated_at ≡ now

pub action_row-IsRequested :
    (c : Context) (s : PolicyDecisionRecord) (r : ActionInput) (mark now i : ℕ)
    → IsRequested c s r i mark now (action_row c s r mark now i)
action_row-IsRequested c s r mark now i = record {
  id = refl;
  decision = refl;
  approval = refl;
  environment = refl;
  incident = refl;
  resource = refl;
  capability = refl;
  status = refl;
  parameters = refl;
  criteria = refl;
  rollback = refl;
  key = refl;
  fingerprint = refl;
  creator = actor_or_system-IsSigned c;
  not_cancelled = (refl, refl);
  first_version = refl;
  updated = refl;
}

-- The row has the key of the call in the environment of the decision, or was created by the
-- decision, or by the approval of the call.
abbrev pub Clashes : PolicyDecisionRecord → ActionInput → ActionRequestRecord → Type 0
Clashes s r a =
    ((a.environment_id ≡ s.environment_id) × (a.idempotency_key ≡ r.idempotency_key))
    ⊎ ((a.policy_decision_id ≡ s.id)
        ⊎ ((i : ℕ) × (a.approval_id ≡ some i) × (r.approval_id ≡ some i)))

refuted :
    (a b d e : Bool) → (a && b || d || e) ≡ false → (a && b ≡ false) × (d ≡ false) × (e ≡ false)
refuted true true d e h = absurd (cc h)
refuted true false true e h = absurd (cc h)
refuted true false false e h = (refl, refl, h)
refuted false b true e h = absurd (cc h)
refuted false b false e h = (refl, refl, h)

approval_clash : (o p : Option ℕ) (i : ℕ) → o ≡ some i → p ≡ some i → same_approval o p ≡ true
approval_clash o p i e f = rw (e, f) ((nat_eq.equals_iff i i).1 refl)

no_clash :
    (s : PolicyDecisionRecord) (r : ActionInput) (a : ActionRequestRecord)
    → (a.environment_id == s.environment_id && a.idempotency_key == r.idempotency_key
        || a.policy_decision_id == s.id
        || same_approval a.approval_id r.approval_id)
      ≡ false
    → ¬ (Clashes s r a)
no_clash s r a h k =
    let (x, y, z) =
      refuted (a.environment_id == s.environment_id) (a.idempotency_key == r.idempotency_key)
        (a.policy_decision_id == s.id) (same_approval a.approval_id r.approval_id) h in
    elim k [
      | inl (e, f) ↦
          let u = (nat_eq.equals_iff a.environment_id s.environment_id).1 e in
          let v = (string_eq.equals_iff a.idempotency_key r.idempotency_key).1 f in
          cc (rw (u, v) at x)
      | inr m ↦ elim m [
        | inl e ↦ cc (y, (nat_eq.equals_iff a.policy_decision_id s.id).1 e)
        | inr (i, e, f) ↦ cc (z, approval_clash a.approval_id r.approval_id i e f)
      ]
    ]

pub unique-Clashes :
    (s : PolicyDecisionRecord) (r : ActionInput) (db : Db)
    → violates_unique s r db ≡ false
    → All (λ (a : ActionRequestRecord). ¬ (Clashes s r a)) db.actions
unfolding violates_unique
unique-Clashes s r db h =
    All-map _ (λ (a : ActionRequestRecord). ¬ (Clashes s r a)) (λ a t. no_clash s r a t) db.actions
      (any-false _ db.actions h)
