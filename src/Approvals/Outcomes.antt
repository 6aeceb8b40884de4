-- ===== src/Approvals/Outcomes.antt =====
-- The row that `ApprovalService.decide` leaves, field by field.
use ops_pilot_ai.Base.{
  ℕ, String, suc, ◌<◌, ◌≤◌, true, false, Option, none, some, ◌≡◌, ◌⊎◌, refl, arith, inl, inr,
}
use ops_pilot_ai.Domain.Approvals.{
  ApprovalStatus, approved, rejected, expired, ApprovalDecision, approve, reject,
}
use ops_pilot_ai.Storage.Rows.{ApprovalRecord}
use ops_pilot_ai.Storage.Values.{get_item}
use ops_pilot_ai.Storage.Database.{Db}
use ops_pilot_ai.Storage.Database.Scope.{Context}
use ops_pilot_ai.Storage.Database.Actors.{
  IsSigned, IsOther, same_actor-IsOther, actor_or_system-IsSigned,
}
use ops_pilot_ai.Events.{Payload}
use ops_pilot_ai.Approvals.{
  DecisionInput, Clock, is_requester, only_editable, resolved, decided, out_of_time, target_of,
}
use ops_pilot_ai.Approvals.Edits.{AreEditable, IsEdited, only_editable-AreEditable, merge-IsEdited}
use ops_pilot_ai.Approvals.Settling.{StillAsked, IsSupported}

-- The row asks for the same approval.
pub record AsksTheSame (a row : ApprovalRecord) : Type 0 where
  pub id : row.id ≡ a.id
  pub decision : row.policy_decision_id ≡ a.policy_decision_id
  pub environment : row.environment_id ≡ a.environment_id
  pub incident : row.incident_id ≡ a.incident_id
  pub resource : row.resource_id ≡ a.resource_id
  pub capability : row.capability ≡ a.capability
  pub requester : row.requested_by ≡ a.requested_by
  pub expiry : row.expires_at ≡ a.expires_at
  pub editable_keys : row.editable_parameter_keys ≡ a.editable_parameter_keys

-- The row is resolved at the next version, by the caller, now, with the comment.
pub record IsResolved (c : Context) (a row : ApprovalRecord) (now : ℕ) (comment : Option String)
    : Type 0 where
  pub same : AsksTheSame a row
  pub signed : IsSigned c row.decided_by
  pub decided_at : row.decided_at ≡ some now
  pub commented : row.decision_comment ≡ comment
  pub next_version : row.version ≡ suc a.version
  pub updated : row.updated_at ≡ now

-- The time of the approval was over, and the row is EXPIRED.
pub record IsExpired (c : Context) (a row : ApprovalRecord) (now : ℕ) : Type 0 where
  pub late : a.expires_at ≤ now
  pub status : row.status ≡ expired
  pub unedited : row.parameters ≡ a.parameters
  pub resolution : IsResolved c a row now (some "Approval expired")

-- A decision on an approval that is in time.
pub record IsGiven (c : Context) (a row : ApprovalRecord) (r : DecisionInput) (t : Clock) (db : Db)
    : Type 0 where
  pub in_time : t.now < a.expires_at
  pub by_other : IsOther c a.requested_by
  pub editable : AreEditable a.editable_parameter_keys r.parameter_edits
  pub verdict :
      ((r.decision ≡ approve) × (row.status ≡ approved) × StillAsked c a t.check db)
      ⊎ ((r.decision ≡ reject) × (row.status ≡ rejected))
  pub edited :
      (k : String)
      → IsEdited r.parameter_edits k (get_item k a.parameters) (get_item k row.parameters)
  pub resolution : IsResolved c a row t.now r.comment

resolved-IsResolved :
    (c : Context) (a : ApprovalRecord) (p : Payload) (s : ApprovalStatus) (now : ℕ)
    (comment : Option String)
    → IsResolved c a (resolved c (record a { parameters = p }) s now comment) now comment
resolved-IsResolved c a p s now comment = record {
  same = record {
    id = refl;
    decision = refl;
    environment = refl;
    incident = refl;
    resource = refl;
    capability = refl;
    requester = refl;
    expiry = refl;
    editable_keys = refl;
  };
  signed = actor_or_system-IsSigned c;
  decided_at = refl;
  commented = refl;
  next_version = omega arith;
  updated = refl;
}

pub out_of_time-IsExpired :
    (c : Context) (a : ApprovalRecord) (now : ℕ)
    → a.expires_at ≤ now
    → IsExpired c a (out_of_time c a now) now
out_of_time-IsExpired c a now h = record {
  late = h;
  status = refl;
  unedited = refl;
  resolution = resolved-IsResolved c a a.parameters expired now (some "Approval expired");
}

is_requester-IsOther :
    (c : Context) (a : ApprovalRecord) → is_requester c a ≡ false → IsOther c a.requested_by
is_requester-IsOther none a h = tt
is_requester-IsOther (some p) a h = same_actor-IsOther p a.requested_by h

verdict_of :
    (c : Context) (a : ApprovalRecord) (now : ℕ) (db : Db) (d : ApprovalDecision)
    → IsSupported c a now db d
    → ((d ≡ approve) × (target_of d ≡ approved) × StillAsked c a now db)
      ⊎ ((d ≡ reject) × (target_of d ≡ rejected))
verdict_of c a now db approve k = inl (refl, refl, k)
verdict_of c a now db reject k = inr (refl, refl)

pub decided-IsGiven :
    (c : Context) (a : ApprovalRecord) (r : DecisionInput) (t : Clock) (db : Db)
    → t.now < a.expires_at
    → is_requester c a ≡ false
    → only_editable a.editable_parameter_keys r.parameter_edits ≡ true
    → IsSupported c a t.check db r.decision
    → IsGiven c a (decided c a r t.now) r t db
decided-IsGiven c a r t db h x y k = record {
  in_time = h;
  by_other = is_requester-IsOther c a x;
  editable = only_editable-AreEditable a.editable_parameter_keys r.parameter_edits y;
  verdict = verdict_of c a t.check db r.decision k;
  edited = λ j. merge-IsEdited j r.parameter_edits a.parameters;
  resolution =
      resolved-IsResolved c a (decided c a r t.now).parameters (target_of r.decision) t.now
        r.comment;
}
