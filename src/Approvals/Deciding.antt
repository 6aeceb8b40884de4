-- ===== src/Approvals/Deciding.antt =====
-- `ApprovalService.decide`: who decides an approval, on what, and how often.
use ops_pilot_ai.Base.{
  ℕ, true, false, none, some, ◌≡◌, ◌≢◌, ◌∙◌, ◌⊎◌, refl, ap, arith, ok, err, Error, ◌==◌, inl, inr,
  Option-cases, Result-cases, Bool-cases, leb, nat_eq,
}
use ops_pilot_ai.Domain.Approvals.{
  ApprovalStatus, ApprovalStatus-discrete, pending, approved, rejected, expired, approval_status_eq,
}
use ops_pilot_ai.Storage.Tables
use ops_pilot_ai.Storage.Rows.{ApprovalRecord}
use ops_pilot_ai.Storage.Database.{Db}
use ops_pilot_ai.Storage.Database.Scope.{Context}
use ops_pilot_ai.Storage.Repositories.{get_approval}
use ops_pilot_ai.Actions.{FingerprintPayload}
use ops_pilot_ai.Approvals.{
  DecisionInput, Clock, settle, is_requester, only_editable, check_policy, decided, out_of_time,
  decide_pending, decide,
}
use ops_pilot_ai.Approvals.Settling.{settle_stores, check_policy-IsSupported}
use ops_pilot_ai.Approvals.Outcomes.{IsExpired, IsGiven, out_of_time-IsExpired, decided-IsGiven}

-- What a call of `decide` that returns has found and stored.
pub record IsDecided (c : Context) (i : ℕ) (r : DecisionInput) (t : Clock) (db db' : Db)
    (row : ApprovalRecord) : Type 0 where
  pub approval : ApprovalRecord
  pub stored : get_approval c i db ≡ some approval
  pub current : approval.version ≡ r.expected_version
  pub was_pending : approval.status ≡ pending
  pub saved : db'.approvals ≡ Tables.save (λ (x : ApprovalRecord). x.id) row db.approvals
  pub outcome : IsExpired c approval row t.now ⊎ IsGiven c approval row r t db

module _ (c : Context) (digest : FingerprintPayload → ℕ) (a row : ApprovalRecord)
    (r : DecisionInput) (t : Clock) (db db' : Db) where
  not_supported :
      (e : Error)
      → check_policy c a t.check r.decision db ≡ err e
      → decide_pending c digest a r t false db ≢ ok (row, db')
  unfolding decide_pending
  not_supported e f h = ground arith

  given_steps :
      check_policy c a t.check r.decision db ≡ ok (tt, db)
      → decide_pending c digest a r t false db ≡ ok (row, db')
      → (is_requester c a ≡ false)
        × (only_editable a.editable_parameter_keys r.parameter_edits ≡ true)
        × (settle c digest (decided c a r t.now) t.now t.approval t.policy t.action db
            ≡ ok (row, db'))
  unfolding decide_pending
  given_steps f h = ground arith

  expired_step :
      decide_pending c digest a r t true db ≡ ok (row, db')
      → settle c digest (out_of_time c a t.now) t.now t.approval t.policy t.action db
        ≡ ok (row, db')
  unfolding decide_pending
  expired_step h = h

  pending_cases :
      decide_pending c digest a r t (leb a.expires_at t.now) db ≡ ok (row, db')
      → (db'.approvals ≡ Tables.save (λ (x : ApprovalRecord). x.id) row db.approvals)
        × (IsExpired c a row t.now ⊎ IsGiven c a row r t db)
  pending_cases h = elim (Bool-cases (leb a.expires_at t.now)) [
    | inl l ↦
        let (same, w) =
          settle_stores c digest (out_of_time c a t.now) row t.now t.approval t.policy t.action db
            db' (expired_step (rw l at h)) in
        (rw same w, inl (rw same (out_of_time-IsExpired c a t.now (ground (arith, l)))))
    | inr l ↦ elim (Result-cases (check_policy c a t.check r.decision db)) [
      | inr (e, f) ↦ absurd (not_supported e f (rw l at h))
      | inl ((_, d), f) ↦
          let (k, same_db) = check_policy-IsSupported c a t.check r.decision db d f in
          let (x, y, g) = given_steps (rw same_db at f) (rw l at h) in
          let (same, w) =
            settle_stores c digest (decided c a r t.now) row t.now t.approval t.policy t.action db
              db' g in
          (rw same w, inr (rw same (decided-IsGiven c a r t db (ground (arith, l)) x y k)))
    ]
  ]

module _ (c : Context) (digest : FingerprintPayload → ℕ) (i : ℕ) (r : DecisionInput) (t : Clock)
    (db : Db) where
  no_approval :
      {x : ApprovalRecord × Db} → get_approval c i db ≡ none → decide c digest i r t db ≢ ok x
  unfolding decide
  no_approval n h = ground arith

  approval_checks :
      (a : ApprovalRecord) (x : ApprovalRecord × Db)
      → get_approval c i db ≡ some a
      → decide c digest i r t db ≡ ok x
      → (a.version ≡ r.expected_version)
        × ((a.status == pending) ≡ true)
        × (decide_pending c digest a r t (leb a.expires_at t.now) db ≡ ok x)
  unfolding decide
  approval_checks a x n h = ground arith

-- A call of `decide` that returns found the approval PENDING and at the expected version, and
-- stored the row that it returns, which asks for the same approval, at the next version, signed
-- by the caller at the time of the call. Either the time of the approval was over, and the row
-- is EXPIRED with its parameters as they were; or the principal of the call, if it has one, is
-- not the one who asked for the approval, the edits are of editable keys only, and a row
-- APPROVED by a decision to approve is supported by the rules of the day, which allow the
-- action with an approval, while a decision to reject leaves the row REJECTED; then the row has
-- the comment, and each parameter is as an edit gives it, or as it was where no edit names it.
pub decide-IsDecided :
    (c : Context) (digest : FingerprintPayload → ℕ) (i : ℕ) (r : DecisionInput) (t : Clock)
    (db db' : Db) (row : ApprovalRecord)
    → decide c digest i r t db ≡ ok (row, db')
    → IsDecided c i r t db db' row
decide-IsDecided c digest i r t db db' row h = elim (Option-cases (get_approval c i db)) [
  | inl n ↦ absurd (no_approval c digest i r t db n h)
  | inr (a, n) ↦
      let (v, p, k) = approval_checks c digest i r t db a (row, db') n h in
      let (w, o) = pending_cases c digest a row r t db db' k in
      record {
        approval = a;
        stored = n;
        current = v;
        was_pending = (approval_status_eq.equals_iff a.status pending).0 p;
        saved = w;
        outcome = o;
      }
]

stored_row :
    (c : Context) (i : ℕ) (db : Db) (a : ApprovalRecord)
    → get_approval c i db ≡ some a
    → (Tables.get (λ (r : ApprovalRecord). r.id) i db.approvals ≡ some a) × (a.id ≡ i)
unfolding get_approval
stored_row c i db a h =
    ground (arith, Tables.get_key (λ (x : ApprovalRecord). x.id) i db.approvals a)

still_pending : (s t : ApprovalStatus) → s ≡ t → (t == pending) ≡ false → (s == pending) ≡ false
still_pending s t e h = rw e h

-- The row is resolved, whichever way.
not_pending :
    (c : Context) (i : ℕ) (r : DecisionInput) (t : Clock) (db db' : Db) (row : ApprovalRecord)
    (k : IsDecided c i r t db db' row)
    → (row.id ≡ k.approval.id) × ((row.status == pending) ≡ false)
unfolding ApprovalStatus-discrete
not_pending c i r t db db' row k = elim k.outcome [
  | inl x ↦ (x.resolution.same.id, still_pending row.status expired x.status refl)
  | inr g ↦ (
    g.resolution.same.id,
    elim g.verdict [
      | inl (_, s, _) ↦ still_pending row.status approved s refl
      | inr (_, s) ↦ still_pending row.status rejected s refl
    ],
  )
]

-- An approval is decided once: after a call of `decide` that returns, no call for the approval
-- returns in the database that it left, whoever calls, with whatever decision and at whatever time.
pub decided_once :
    (c c' : Context) (digest : FingerprintPayload → ℕ) (i : ℕ) (r r' : DecisionInput) (t t' : Clock)
    (db db' : Db) (row : ApprovalRecord) (x : ApprovalRecord × Db)
    → decide c digest i r t db ≡ ok (row, db')
    → decide c' digest i r' t' db' ≢ ok x
decided_once c c' digest i r r' t t' db db' row x h =
    let k = decide-IsDecided c digest i r t db db' row h in
    let (same_id, n) = not_pending c i r t db db' row k in
    let (f, e) = stored_row c i db k.approval k.stored in
    let own = same_id ∙ e in
    let w = Tables.get-save (λ (x : ApprovalRecord). x.id) row i db.approvals in
    let saved = k.saved in
    let after : Tables.get (λ (x : ApprovalRecord). x.id) i db'.approvals ≡ some row =
      ground (arith, saved, own, f, w) in
    λ g. elim (Option-cases (get_approval c' i db')) [
      | inl m ↦ no_approval c' digest i r' t' db' m g
      | inr (a, m) ↦
          let (_, p, _) = approval_checks c' digest i r' t' db' a x m g in
          let (u, _) = stored_row c' i db' a m in
          let same : a ≡ row = ground (arith, u, after) in
          let q = ap (λ (y : ApprovalRecord). y.status == pending) same in absurd (cc (p, q, n))
    ]
