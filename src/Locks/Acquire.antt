-- ===== src/Locks/Acquire.antt =====
-- `ResourceLockService.acquire`: what a call that returns has checked, and what it leaves.
use ops_pilot_ai.Base.{
  ℕ, String, true, Option, none, some, List, ◌≡◌, ◌≢◌, inl, inr, arith, ok, err, nat_eq,
  Option-cases, Bool-cases, Result-cases, Error, if◌then◌else◌,
}
use ops_pilot_ai.Domain.Actions.{action_request_status_eq}
use ops_pilot_ai.Storage.Values.{same_mapping}
use ops_pilot_ai.Storage.Rows.{Value, PolicyDecisionRecord, ApprovalRecord, ResourceLockRecord}
use ops_pilot_ai.Storage.Tables
use ops_pilot_ai.Storage.Database.{Db}
use ops_pilot_ai.Storage.Database.Scope.{Context}
use ops_pilot_ai.Storage.Repositories.{get_decision, get_approval, list_for_environment}
use ops_pilot_ai.Policies.Rules.{PolicyDecision, decide}
use ops_pilot_ai.Policies.Service.{revalidate_snapshot, query_of, validate_target}
use ops_pilot_ai.Locks.{approval_valid, check_approval, revalidate_authorization}

saved_lock : ResourceLockRecord → Db → Db
saved_lock l db = record db { locks = Tables.save (λ (r : ResourceLockRecord). r.id) l db.locks }

revalidate_result :
    (c : Context) (s : PolicyDecisionRecord) (now : ℕ) (db db' : Db) (d : PolicyDecision)
    → revalidate_snapshot c s now db ≡ ok (d, db')
    → (d ≡ decide (list_for_environment c s.environment_id db) (query_of s) now none) × (db' ≡ db)
unfolding revalidate_snapshot validate_target
revalidate_result c s now db db' d h = ground arith

-- An approval that covers the action: it answers the decision, it is approved and has not expired,
-- and its parameters are those of the action.
pub record Approved (c : Context) (snapshot_id : ℕ) (approval_id : Option ℕ)
    (parameters : List (String × Value)) (now : ℕ) (db : Db) : Type 0 where
  pub approval : ApprovalRecord
  pub i : ℕ
  pub named : approval_id ≡ some i
  pub stored : get_approval c i db ≡ some approval
  pub valid : approval_valid snapshot_id now (some approval) ≡ true
  pub parameters_kept : same_mapping approval.parameters parameters ≡ true

check_approval-Approved :
    (c : Context) (snapshot_id i : ℕ) (a : ApprovalRecord) (approval_id : Option ℕ)
    (parameters : List (String × Value)) (now : ℕ) (db db' : Db)
    → approval_id ≡ some i
    → get_approval c i db ≡ some a
    → check_approval c snapshot_id approval_id parameters now db ≡ ok (tt, db')
    → (approval_valid snapshot_id now (some a) ≡ true)
      × (same_mapping a.parameters parameters ≡ true)
      × (db' ≡ db)
unfolding check_approval
check_approval-Approved c snapshot_id i a approval_id parameters now db db' n e h = ground arith

check_approval_finds :
    (c : Context) (snapshot_id : ℕ) (approval_id : Option ℕ) (parameters : List (String × Value))
    (now : ℕ) (db db' : Db)
    → check_approval c snapshot_id approval_id parameters now db ≡ ok (tt, db')
    → (i : ℕ) × (approval_id ≡ some i)
unfolding check_approval
check_approval_finds c snapshot_id approval_id parameters now db db' h = ground arith

check_approval-missing :
    (c : Context) (snapshot_id i : ℕ) (approval_id : Option ℕ) (parameters : List (String × Value))
    (now : ℕ) (db : Db) {r : Unit {0} × Db}
    → approval_id ≡ some i
    → get_approval c i db ≡ none
    → check_approval c snapshot_id approval_id parameters now db ≢ ok r
unfolding check_approval
check_approval-missing c snapshot_id i approval_id parameters now db n e h = ground arith

check_approval_lem :
    (c : Context) (snapshot_id : ℕ) (approval_id : Option ℕ) (parameters : List (String × Value))
    (now : ℕ) (db db' : Db)
    → check_approval c snapshot_id approval_id parameters now db ≡ ok (tt, db')
    → Approved c snapshot_id approval_id parameters now db × (db' ≡ db)
check_approval_lem c snapshot_id approval_id parameters now db db' h =
    let (i, n) = check_approval_finds c snapshot_id approval_id parameters now db db' h in
    elim (Option-cases (get_approval c i db)) [
      | inl e ↦ absurd (check_approval-missing c snapshot_id i approval_id parameters now db n e h)
      | inr (a, e) ↦
          let (v, p, k) =
            check_approval-Approved c snapshot_id i a approval_id parameters now db db' n e h in
          (record { approval = a; i = i; named = n; stored = e; valid = v; parameters_kept = p }, k)
    ]

-- What a call of `_revalidate_authorization` that returns has found: the rules of today decide the
-- query of the snapshot as the snapshot says, and an approval covers the action if one is required.
pub record Revalidated (c : Context) (snapshot_id : ℕ) (approval_id : Option ℕ)
    (parameters : List (String × Value)) (policy_now approval_now : ℕ) (db : Db) : Type 0 where
  pub snapshot : PolicyDecisionRecord
  pub stored : get_decision c snapshot_id db ≡ some snapshot
  pub current : PolicyDecision
  pub decided :
      current
      ≡ decide
          (list_for_environment c snapshot.environment_id db)
          (query_of snapshot)
          policy_now
          none
  pub allowed : current.allowed ≡ true
  pub approval_kept : current.approval_required ≡ snapshot.approval_required
  pub approved :
      snapshot.approval_required ≡ true
      → Approved c snapshot.id approval_id parameters approval_now db

no_snapshot :
    (c : Context) (snapshot_id : ℕ) (approval_id : Option ℕ) (parameters : List (String × Value))
    (p a : ℕ) (db : Db) {r : Unit {0} × Db}
    → get_decision c snapshot_id db ≡ none
    → revalidate_authorization c snapshot_id approval_id parameters p a db ≢ ok r
unfolding revalidate_authorization
no_snapshot c snapshot_id approval_id parameters p a db e h = ground arith

policy_fails :
    (c : Context) (snapshot_id : ℕ) (s : PolicyDecisionRecord) (approval_id : Option ℕ)
    (parameters : List (String × Value)) (p a : ℕ) (db : Db) (e : Error) {r : Unit {0} × Db}
    → get_decision c snapshot_id db ≡ some s
    → revalidate_snapshot c s p db ≡ err e
    → revalidate_authorization c snapshot_id approval_id parameters p a db ≢ ok r
unfolding revalidate_authorization
policy_fails c snapshot_id s approval_id parameters p a db e g f h = ground arith

after_policy :
    (c : Context) (snapshot_id : ℕ) (s : PolicyDecisionRecord) (d : PolicyDecision)
    (approval_id : Option ℕ) (parameters : List (String × Value)) (p a : ℕ) (db db' : Db)
    → get_decision c snapshot_id db ≡ some s
    → revalidate_snapshot c s p db ≡ ok (d, db)
    → revalidate_authorization c snapshot_id approval_id parameters p a db ≡ ok (tt, db')
    → (d.allowed ≡ true)
      × (d.approval_required ≡ s.approval_required)
      × ((if s.approval_required
            then check_approval c s.id approval_id parameters a db
            else ok (tt, db))
          ≡ ok (tt, db'))
unfolding revalidate_authorization
after_policy c snapshot_id s d approval_id parameters p a db db' e r h = ground arith

split_approval :
    (c : Context) (s : PolicyDecisionRecord) (approval_id : Option ℕ)
    (parameters : List (String × Value)) (a : ℕ) (db db' : Db)
    → (if s.approval_required
        then check_approval c s.id approval_id parameters a db
        else ok (tt, db))
      ≡ ok (tt, db')
    → (s.approval_required ≡ true → Approved c s.id approval_id parameters a db) × (db' ≡ db)
split_approval c s approval_id parameters a db db' h = elim (Bool-cases s.approval_required) [
  | inl t ↦
      let (k, e) = check_approval_lem c s.id approval_id parameters a db db' (rw t at h) in
      (λ u. k, e)
  | inr f ↦ (λ u. absurd (cc (f, u)), ground (arith, rw f at h))
]

pub revalidate-Revalidated :
    (c : Context) (snapshot_id : ℕ) (approval_id : Option ℕ) (parameters : List (String × Value))
    (p a : ℕ) (db db' : Db)
    → revalidate_authorization c snapshot_id approval_id parameters p a db ≡ ok (tt, db')
    → Revalidated c snapshot_id approval_id parameters p a db × (db' ≡ db)
revalidate-Revalidated c snapshot_id approval_id parameters p a db db' h =
    elim (Option-cases (get_decision c snapshot_id db)) [
      | inl n ↦ absurd (no_snapshot c snapshot_id approval_id parameters p a db n h)
      | inr (s, e) ↦ elim (Result-cases (revalidate_snapshot c s p db)) [
        | inr (x, f) ↦ absurd (policy_fails c snapshot_id s approval_id parameters p a db x e f h)
        | inl ((d, db₁), r) ↦
            let (decided, same) = revalidate_result c s p db db₁ d r in
            let (t, k, rest) =
              after_policy c snapshot_id s d approval_id parameters p a db db' e (rw same at r) h in
            let (approved, unchanged) = split_approval c s approval_id parameters a db db' rest in
            (
              record {
                snapshot = s;
                stored = e;
                current = d;
                decided = decided;
                allowed = t;
                approval_kept = k;
                approved = approved;
              },
              unchanged,
            )
      ]
    ]
