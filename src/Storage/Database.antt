-- ===== src/Storage/Database.antt =====
-- backend/app/storage/database.py, transactions.py and the transaction of a request.
-- A service call is a function of the database. An exception ends the request: its session is
-- rolled back, so that an error carries no database.
pub mod Scope
pub mod Actors
use ops_pilot_ai.Base.{
  ℕ, ◌+◌, Bool, true, false, List, [], Option, none, some, ◌≡◌, refl, Result, ok, err, Error,
  if◌then◌else◌, arith,
}
use ops_pilot_ai.Storage.Rows.{
  EnvironmentRecord, ResourceRecord, IncidentRecord, IncidentEventRecord, OutboxEventRecord,
  PolicyRuleRecord, PolicyDecisionRecord, ApprovalRecord, ActionRequestRecord, ResourceLockRecord,
  PlanRecord, RunnerTaskRecord, ActionProposalRecord, InvestigationRunRecord,
  InvestigationHitlWaitRecord, EvidenceRecord, HypothesisRecord,
}

-- `next_id` stands for `uuid4`, `next_sequence` for the identity column of the outbox.
pub record Db : Type 0 where
  pub environments : List EnvironmentRecord
  pub resources : List ResourceRecord
  pub incidents : List IncidentRecord
  pub incident_events : List IncidentEventRecord
  pub outbox_events : List OutboxEventRecord
  pub policy_rules : List PolicyRuleRecord
  pub policy_decisions : List PolicyDecisionRecord
  pub approvals : List ApprovalRecord
  pub actions : List ActionRequestRecord
  pub locks : List ResourceLockRecord
  pub plans : List PlanRecord
  pub tasks : List RunnerTaskRecord
  pub action_proposals : List ActionProposalRecord
  pub investigation_runs : List InvestigationRunRecord
  pub hitl_waits : List InvestigationHitlWaitRecord
  pub evidence : List EvidenceRecord
  pub hypotheses : List HypothesisRecord
  pub next_id : ℕ
  pub next_sequence : ℕ

abbrev pub empty_db : Db
empty_db = record {
  environments = [];
  resources = [];
  incidents = [];
  incident_events = [];
  outbox_events = [];
  policy_rules = [];
  policy_decisions = [];
  approvals = [];
  actions = [];
  locks = [];
  plans = [];
  tasks = [];
  action_proposals = [];
  investigation_runs = [];
  hitl_waits = [];
  evidence = [];
  hypotheses = [];
  next_id = 1;
  next_sequence = 1;
}

abbrev pub Tx : Type 0 → Type 0
Tx A = Db → Result (A × Db)

module _ {A : Type 0} where
  abbrev pub pure : A → Tx A
  pure a db = ok (a, db)

  abbrev pub raise : Error → Tx A
  raise e db = err e

  abbrev pub gets : (Db → A) → Tx A
  gets f db = ok (f db, db)

  -- `if x is None: raise e`
  abbrev pub or_raise : Option A → Error → Tx A
  or_raise none e = raise e
  or_raise (some a) e = pure a

  abbrev pub lift : Result A → Tx A
  lift (ok a) = pure a
  lift (err e) = raise e

infixl 5 ◌>>=◌ ◌>>◌
abbrev pub ◌>>=◌ : {A B : Type 0} → Tx A → (A → Tx B) → Tx B
◌>>=◌ m f db = elim (m db) [ ok (a, db') ↦ f a db' | err e ↦ err e ]

abbrev pub ◌>>◌ : {A B : Type 0} → Tx A → Tx B → Tx B
m >> k = m >>= λ _. k

-- `if c: raise e`
abbrev pub raise_if : Bool → Error → Tx (Unit {0})
raise_if true e db = err e
raise_if false e db = ok (tt, db)

abbrev pub modify : (Db → Db) → Tx (Unit {0})
modify f db = ok (tt, f db)

-- The `uuid4` of a new row.
abbrev pub fresh : Tx ℕ
fresh db = ok (db.next_id, record db { next_id = db.next_id + 1 })

-- A call that returns went through its first part.
pub >>=-eq-ok :
    {A B : Type 0} (m : Tx A) (f : A → Tx B) {db : Db} {r : B × Db}
    → (m >>= f) db ≡ ok r
    → (a : A) × (db' : Db) × (m db ≡ ok (a, db')) × (f a db' ≡ ok r)
>>=-eq-ok {A} {B} m f {db} {r} h = go (m db) refl h
  where
    go :
        (x : Result (A × Db))
        → m db ≡ x
        → (elim x [ ok (a, db') ↦ f a db' | err e ↦ err e ]) ≡ ok r
        → (a : A) × (db' : Db) × (m db ≡ ok (a, db')) × (f a db' ≡ ok r)
    go (ok (a, db')) e p = (a, db', e, p)
    go (err x) e p = absurd (cc p)
