-- ===== src/Policies/Priority.antt =====
-- `PolicyService.dry_run` and `revalidate_snapshot`: which rules of the database decide.
use mathlib.Core.Path.{subst}
use ops_pilot_ai.Base.{
  ℕ, true, false, none, List, ◌∷◌, ◌≡◌, arith, Bool-cases, inl, inr, ltb_ℤ, In, All-In, In-select,
  In-append, In-middle, In-order_by, order_by-IsSorted, IsSorted-later, IsSorted, ok, refl, sym,
}
use ops_pilot_ai.Storage.Rows.{PolicyRuleRecord}
use ops_pilot_ai.Storage.Database.{Db}
use ops_pilot_ai.Storage.Database.Scope.{Context, in_scope}
use ops_pilot_ai.Storage.Repositories.{earlier_rule, is_enabled_in, list_for_environment}
use ops_pilot_ai.Policies.Rules.{PolicyDecision, Query, matches, decide}
use ops_pilot_ai.Policies.Service.{dry_run, validate_target}
use ops_pilot_ai.Policies.Decisions.{Grants, IsFirst, decide-allowed_iff}

earlier_asym : (a b : PolicyRuleRecord) → earlier_rule a b ≡ true → earlier_rule b a ≡ false
unfolding earlier_rule
earlier_asym a b h = ground arith

earlier_not_trans :
    (a b c : PolicyRuleRecord)
    → earlier_rule a b ≡ false
    → earlier_rule b c ≡ false
    → earlier_rule a c ≡ false
unfolding earlier_rule
earlier_not_trans a b c h k = ground arith

higher_is_earlier :
    (a b : PolicyRuleRecord) → ltb_ℤ b.priority a.priority ≡ true → earlier_rule a b ≡ true
unfolding earlier_rule
higher_is_earlier a b h = rw h refl

-- A rule that is enabled in the environment and matches the query.
pub record Applies (environment_id : ℕ) (q : Query) (db : Db) (rule : PolicyRuleRecord)
    : Type 0 where
  pub stored : In rule db.policy_rules
  pub enabled : is_enabled_in environment_id rule ≡ true
  pub matched : matches rule q ≡ true

not_higher :
    (a b : PolicyRuleRecord) → earlier_rule b a ≡ false → ltb_ℤ a.priority b.priority ≡ false
not_higher a b h = elim (Bool-cases (ltb_ℤ a.priority b.priority)) [
  | inl t ↦ cc (higher_is_earlier b a t, h)
  | inr f ↦ f
]

same_priority : (a : PolicyRuleRecord) → ltb_ℤ a.priority a.priority ≡ false
same_priority a = ground arith

-- In a sorted list no matching rule has a higher priority than the first one.
first_is_highest :
    (rules : List PolicyRuleRecord) (q : Query) (rule other : PolicyRuleRecord)
    → IsSorted earlier_rule rules
    → IsFirst rules q rule
    → In other rules
    → matches other q ≡ true
    → ltb_ℤ rule.priority other.priority ≡ false
first_is_highest rules q rule other sorted f i m =
    elim (In-append other f.skipped (rule ∷ f.later) (subst (In other) f.split i)) [
      | inl k ↦ cc (All-In (λ r. matches r q ≡ false) other f.skipped f.unmatched k, m)
      | inr k ↦ elim k [
        | inl e ↦ rw e (same_priority rule)
        | inr l ↦ not_higher rule other (
            All-In (λ y. earlier_rule y rule ≡ false) other f.later
              (IsSorted-later earlier_rule f.skipped f.later rule
                (subst (IsSorted earlier_rule) f.split sorted))
              l)
      ]
    ]

-- The call that allows: an ALLOW rule in its window, to which no applicable rule of the environment
-- is preferred by priority.
pub record Allows (environment_id : ℕ) (q : Query) (t : ℕ) (db : Db) : Type 0 where
  pub rule : PolicyRuleRecord
  pub applies : Applies environment_id q db rule
  pub grants : Grants rule t none
  pub highest :
      (other : PolicyRuleRecord)
      → Applies environment_id q db other
      → ltb_ℤ rule.priority other.priority ≡ false

module _ (c : Context) (environment_id : ℕ) (db : Db) where
  listed :
      (r : PolicyRuleRecord)
      → In r (list_for_environment c environment_id db)
      → In r db.policy_rules
        × (is_enabled_in environment_id r ≡ true)
        × (in_scope c environment_id ≡ true)
  unfolding list_for_environment
  listed r m = elim (Bool-cases (in_scope c environment_id)) [
    | inl s ↦
        let k = (In-order_by earlier_rule r _).0 (rw s at m) in
        let (i, e) = (In-select (is_enabled_in environment_id) r db.policy_rules).0 k in (i, e, s)
    | inr s ↦ absurd (rw s at m)
  ]

  is_listed :
      (r : PolicyRuleRecord)
      → in_scope c environment_id ≡ true
      → In r db.policy_rules
      → is_enabled_in environment_id r ≡ true
      → In r (list_for_environment c environment_id db)
  unfolding list_for_environment
  is_listed r s i e = rw s (
      (In-order_by earlier_rule r _).1
        ((In-select (is_enabled_in environment_id) r db.policy_rules).1 (i, e)))

  list-IsSorted : IsSorted earlier_rule (list_for_environment c environment_id db)
  unfolding list_for_environment
  list-IsSorted = elim (Bool-cases (in_scope c environment_id)) [
    | inl s ↦ rw s (order_by-IsSorted earlier_rule earlier_asym earlier_not_trans _)
    | inr s ↦ rw s tt
  ]

  pub decide-Allows :
      (q : Query) (t : ℕ)
      → (decide (list_for_environment c environment_id db) q t none).allowed ≡ true
      → Allows environment_id q t db
  decide-Allows q t h =
      let (rule, f, g) = (decide-allowed_iff q t none _).0 h in
      let m : In rule (list_for_environment c environment_id db) =
        subst (In rule) (sym f.split) (In-middle rule f.skipped f.later) in
      let (i, e, s) = listed rule m in
      record {
        rule = rule;
        applies = record { stored = i; enabled = e; matched = f.matched };
        grants = g;
        highest = λ other a.
            first_is_highest _ q rule other list-IsSorted f (is_listed other s a.stored a.enabled)
              a.matched;
      }

dry_run_result :
    (c : Context) (environment_id : ℕ) (q : Query) (now : ℕ) (db db' : Db) (d : PolicyDecision)
    → dry_run c environment_id q now db ≡ ok (d, db')
    → (d ≡ decide (list_for_environment c environment_id db) q now none) × (db' ≡ db)
unfolding dry_run validate_target
dry_run_result c environment_id q now db db' d h = ground arith

-- A dry run that allows a query found an ALLOW rule in its window that is enabled in the
-- environment and matches, such that no other rule of that kind has a higher priority; it changes
-- nothing in the database.
pub dry_run-Allows :
    (c : Context) (environment_id : ℕ) (q : Query) (now : ℕ) (db db' : Db) (d : PolicyDecision)
    → dry_run c environment_id q now db ≡ ok (d, db')
    → d.allowed ≡ true
    → Allows environment_id q now db × (db' ≡ db)
dry_run-Allows c environment_id q now db db' d h a =
    let (e, s) = dry_run_result c environment_id q now db db' d h in
    (decide-Allows c environment_id db q now (rw e at a), s)
