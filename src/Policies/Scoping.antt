-- ===== src/Policies/Scoping.antt =====
-- `create_rule` and `update_rule`: the resources that a rule names lie in its environment.
use ops_pilot_ai.Base.{
  ℕ, ◌+◌, true, none, some, List, [], ◌∷◌, ◌++◌, ◌≡◌, ◌≢◌, arith, ok, err, Error, nat_eq, All,
  All-append, Option-cases, Result-cases, inl, inr,
}
use ops_pilot_ai.Storage.Tables
use ops_pilot_ai.Storage.Rows.{ResourceRecord, PolicyRuleRecord}
use ops_pilot_ai.Storage.Database.{Db}
use ops_pilot_ai.Storage.Database.Scope.{Context}
use ops_pilot_ai.Storage.Repositories.{get_resource, get_policy}
use ops_pilot_ai.Policies.Service.{lies_in}
use ops_pilot_ai.Policies.Management.{
  RuleInput, validate_resource_scope, rule_row, insert_rule, create_rule, updated_rule, save_rule,
  update_rule,
}

-- The resource is stored, in the environment.
abbrev pub LiesIn : Db → ℕ → ℕ → Type 0
LiesIn db e i =
    (x : ResourceRecord) × (Tables.get (λ (r : ResourceRecord). r.id) i db.resources ≡ some x)
    × (x.environment_id ≡ e)

-- Every resource that a rule names is stored, in the environment of the rule.
abbrev pub IsScoped : Db → Type 0
IsScoped db =
    All (λ (r : PolicyRuleRecord). All (LiesIn db r.environment_id) r.resource_ids) db.policy_rules

-- A call of `create_rule` or `update_rule` that returns.
pub data Changed (db db' : Db) : Type 0 where
  created :
      (c : Context) (r : RuleInput) (now : ℕ) (row : PolicyRuleRecord)
      → create_rule c r now db ≡ ok (row, db')
      → Changed db db'
  updated :
      (c : Context) (i v : ℕ) (r : RuleInput) (now : ℕ) (row : PolicyRuleRecord)
      → update_rule c i v r now db ≡ ok (row, db')
      → Changed db db'

found_in :
    (c : Context) (e i : ℕ) (db : Db) (x : ResourceRecord)
    → get_resource c i db ≡ some x
    → lies_in e (some x) ≡ true
    → (Tables.get (λ (r : ResourceRecord). r.id) i db.resources ≡ some x) × (x.environment_id ≡ e)
unfolding get_resource
found_in c e i db x g h = ground arith

scope_step :
    (c : Context) (e i : ℕ) (is : List ℕ) (db db' : Db)
    → validate_resource_scope c e (i ∷ is) db ≡ ok (tt, db')
    → (lies_in e (get_resource c i db) ≡ true) × (validate_resource_scope c e is db ≡ ok (tt, db'))
unfolding validate_resource_scope
scope_step c e i is db db' h = ground arith

scope_end :
    (c : Context) (e : ℕ) (db db' : Db)
    → validate_resource_scope c e [] db ≡ ok (tt, db')
    → db' ≡ db
unfolding validate_resource_scope
scope_end c e db db' h = ground arith

validated :
    (c : Context) (e : ℕ) (is : List ℕ) (db db' : Db)
    → validate_resource_scope c e is db ≡ ok (tt, db')
    → All (LiesIn db e) is × (db' ≡ db)
validated c e [] db db' h = (tt, scope_end c e db db' h)
validated c e (i ∷ is) db db' h =
    let (l, k) = scope_step c e i is db db' h in
    let (rest, same) = validated c e is db db' k in
    elim (Option-cases (get_resource c i db)) [
      | inl n ↦ absurd (cc (rw n at l))
      | inr (x, g) ↦ let (t, q) = found_in c e i db x g (rw g at l) in (((x, t, q), rest), same)
    ]

create_refused :
    (c : Context) (r : RuleInput) (now : ℕ) (db : Db) (e : Error) {x : PolicyRuleRecord × Db}
    → validate_resource_scope c r.environment_id r.resource_ids db ≡ err e
    → create_rule c r now db ≢ ok x
unfolding create_rule
create_refused c r now db e f h = ground arith

create_steps :
    (c : Context) (r : RuleInput) (now : ℕ) (db db' : Db) (row : PolicyRuleRecord)
    → validate_resource_scope c r.environment_id r.resource_ids db ≡ ok (tt, db)
    → create_rule c r now db ≡ ok (row, db')
    → (row ≡ rule_row r now db.next_id)
      × (db' ≡ record db { policy_rules = db.policy_rules ++ row ∷ []; next_id = db.next_id + 1 })
unfolding create_rule insert_rule
create_steps c r now db db' row f h = ground arith

update_missing :
    (c : Context) (i v : ℕ) (r : RuleInput) (now : ℕ) (db : Db) {x : PolicyRuleRecord × Db}
    → get_policy c i db ≡ none
    → update_rule c i v r now db ≢ ok x
unfolding update_rule
update_missing c i v r now db n h = ground arith

update_refused :
    (c : Context) (i v : ℕ) (r : RuleInput) (now : ℕ) (db : Db) (rule : PolicyRuleRecord)
    (e : Error) {x : PolicyRuleRecord × Db}
    → get_policy c i db ≡ some rule
    → validate_resource_scope c rule.environment_id r.resource_ids db ≡ err e
    → update_rule c i v r now db ≢ ok x
unfolding update_rule
update_refused c i v r now db rule e g f h = ground arith

update_steps :
    (c : Context) (i v : ℕ) (r : RuleInput) (now : ℕ) (db db' : Db) (rule row : PolicyRuleRecord)
    → get_policy c i db ≡ some rule
    → validate_resource_scope c rule.environment_id r.resource_ids db ≡ ok (tt, db)
    → update_rule c i v r now db ≡ ok (row, db')
    → (rule.version ≡ v)
      × (row ≡ updated_rule rule r now)
      × (db' ≡ record db {
        policy_rules = Tables.save (λ (x : PolicyRuleRecord). x.id) row db.policy_rules;
      })
unfolding update_rule save_rule
update_steps c i v r now db db' rule row g f h = ground arith

-- What `update_rule` changed.
pub record IsUpdated (c : Context) (i v : ℕ) (r : RuleInput) (now : ℕ) (db db' : Db)
    (row : PolicyRuleRecord) : Type 0 where
  pub rule : PolicyRuleRecord
  pub stored : get_policy c i db ≡ some rule
  pub current : rule.version ≡ v
  pub written : row ≡ updated_rule rule r now
  pub in_scope : All (LiesIn db rule.environment_id) r.resource_ids
  pub rules : db' ≡ record db {
    policy_rules = Tables.save (λ (x : PolicyRuleRecord). x.id) row db.policy_rules;
  }

pub update_rule-IsUpdated :
    (c : Context) (i v : ℕ) (r : RuleInput) (now : ℕ) (db db' : Db) (row : PolicyRuleRecord)
    → update_rule c i v r now db ≡ ok (row, db')
    → IsUpdated c i v r now db db' row
update_rule-IsUpdated c i v r now db db' row h = elim (Option-cases (get_policy c i db)) [
  | inl n ↦ absurd (update_missing c i v r now db n h)
  | inr (rule, g) ↦
      elim (Result-cases (validate_resource_scope c rule.environment_id r.resource_ids db)) [
        | inr (e, f) ↦ absurd (update_refused c i v r now db rule e g f h)
        | inl ((u, db₁), f) ↦
            let (l, same) = validated c rule.environment_id r.resource_ids db db₁ f in
            let (a, b, w) = update_steps c i v r now db db' rule row g (rw same at f) h in
            record { rule = rule; stored = g; current = a; written = b; in_scope = l; rules = w }
      ]
]

-- Where every resource that a rule names is stored in the environment of the rule, this stays so
-- after a call of `create_rule` or `update_rule` that returns.
pub Changed-IsScoped : (db db' : Db) → IsScoped db → Changed db db' → IsScoped db'
Changed-IsScoped db db' v (created c r now row h) =
    elim (Result-cases (validate_resource_scope c r.environment_id r.resource_ids db)) [
      | inr (e, f) ↦ absurd (create_refused c r now db e f h)
      | inl ((u, db₁), f) ↦
          let (l, same) = validated c r.environment_id r.resource_ids db db₁ f in
          let (a, w) = create_steps c r now db db' row (rw same at f) h in
          rw w (
            All-append (λ (x : PolicyRuleRecord). All (LiesIn db x.environment_id) x.resource_ids)
              db.policy_rules row v (rw a l))
    ]
Changed-IsScoped db db' v (updated c i w r now row h) =
    let k = update_rule-IsUpdated c i w r now db db' row h in
    rw k.rules (
      Tables.All-save (λ (x : PolicyRuleRecord). x.id)
        (λ (x : PolicyRuleRecord). All (LiesIn db x.environment_id) x.resource_ids) row
        db.policy_rules v (rw k.written k.in_scope))
