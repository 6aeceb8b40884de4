-- ===== src/Actions/Approvals.antt =====
-- `ActionRequestService._validate_approval`: what a given approval must satisfy.
use ops_pilot_ai.Base.{
  ℕ, ◌<◌, String, Bool, true, false, Option, none, some, List, ◌≡◌, ◌≢◌, refl, arith, ok, ◌==◌,
  Option-cases, inl, inr,
}
use ops_pilot_ai.Domain.Approvals.{approved, approval_status_eq}
use ops_pilot_ai.Storage.Values.{same_mapping}
use ops_pilot_ai.Storage.Rows.{Value, ApprovalRecord}
use ops_pilot_ai.Storage.Database.{Db}
use ops_pilot_ai.Storage.Database.Scope.{Context}
use ops_pilot_ai.Storage.Repositories.{get_approval, get_by_approval}
use ops_pilot_ai.Actions.{validate_approval}

-- An approval that an action of the decision `s` with these parameters may use at the time `now`.
pub record IsUsable (c : Context) (s i : ℕ) (parameters : List (String × Value)) (now : ℕ) (db : Db)
    : Type 0 where
  pub approval : ApprovalRecord
  pub stored : get_approval c i db ≡ some approval
  pub of_decision : approval.policy_decision_id ≡ s
  pub is_approved : (approval.status == approved) ≡ true
  pub in_time : now < approval.expires_at
  pub same_parameters : same_mapping approval.parameters parameters ≡ true
  pub unused : get_by_approval c approval.id db ≡ none

-- An approval is given exactly when it is required, and then is usable.
abbrev pub IsApproved : Context → ℕ → Bool → Option ℕ → List (String × Value) → ℕ → Db → Type 0
IsApproved c s false o parameters now db = o ≡ none
IsApproved c s true none parameters now db = ⊥
IsApproved c s true (some i) parameters now db = IsUsable c s i parameters now db

module _ (c : Context) (s i : ℕ) (parameters : List (String × Value)) (now : ℕ) (db db' : Db) where
  no_approval :
      get_approval c i db ≡ none
      → validate_approval c s true (some i) parameters now db ≢ ok (tt, db')
  unfolding validate_approval
  no_approval n h = ground arith

  approval_checks :
      (a : ApprovalRecord)
      → get_approval c i db ≡ some a
      → validate_approval c s true (some i) parameters now db ≡ ok (tt, db')
      → (a.policy_decision_id ≡ s)
        × ((a.status == approved) ≡ true)
        × (now < a.expires_at)
        × (same_mapping a.parameters parameters ≡ true)
        × (get_by_approval c a.id db ≡ none)
        × (db' ≡ db)
  unfolding validate_approval
  approval_checks a g h = ground arith

pub validate_approval-IsApproved :
    (c : Context) (s : ℕ) (b : Bool) (o : Option ℕ) (parameters : List (String × Value)) (now : ℕ)
    (db db' : Db)
    → validate_approval c s b o parameters now db ≡ ok (tt, db')
    → IsApproved c s b o parameters now db × (db' ≡ db)
unfolding validate_approval
validate_approval-IsApproved c s false none parameters now db db' h = (refl, ground arith)
validate_approval-IsApproved c s false (some i) parameters now db db' h = absurd (ground arith)
validate_approval-IsApproved c s true none parameters now db db' h = absurd (ground arith)
validate_approval-IsApproved c s true (some i) parameters now db db' h =
    elim (Option-cases (get_approval c i db)) [
      | inl n ↦ absurd (no_approval c s i parameters now db db' n h)
      | inr (a, g) ↦
          let (d, st, t, m, u, e) = approval_checks c s i parameters now db db' a g h in
          (
            record {
              approval = a;
              stored = g;
              of_decision = d;
              is_approved = st;
              in_time = t;
              same_parameters = m;
              unused = u;
            },
            e,
          )
    ]
