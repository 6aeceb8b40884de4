-- ===== src/Tests/Policies.antt =====
-- The policies at concrete rules.
use ops_pilot_ai.Base.{
  err, ℕ, true, false, none, some, [], ◌∷◌, ◌≡◌, ◌⊎◌, ◌↔◌, ◌≤◌, ◌<◌, ◌*◌, ◌%◌, ◌+◌, refl, ok,
  contains, nat_eq, select, order_by, all,
}
use ops_pilot_ai.Domain.Plans.{risk_value}
use ops_pilot_ai.Domain.Policies.{autonomy_value, PolicyEffect-discrete}
use ops_pilot_ai.Storage.Rows.{PolicyDecisionRecord, PolicyRuleRecord}
use ops_pilot_ai.Storage.Tables
use ops_pilot_ai.Storage.Repositories.{
  get_environment, get_resource, get_policy, list_for_environment, earlier_rule,
  count_actions_for_incident_rule, counts_for,
}
use ops_pilot_ai.Storage.Database.Scope.{in_scope}
use ops_pilot_ai.Policies.Rules.{
  PolicyDecision, decide, decide_by, matches, inside_maintenance_window, weekday, day_length,
}
use ops_pilot_ai.Policies.Service.{
  evaluate, dry_run, validate_target, authorize_action_creation, locked_rule, query_of,
}
use ops_pilot_ai.Policies.Decisions.{IsFirst, Grants, decide-allowed_iff}
use ops_pilot_ai.Policies.Priority.{Allows, dry_run-Allows}
use ops_pilot_ai.Policies.Capacity.{Authorized, authorize-Authorized}
use ops_pilot_ai.Policies.Windows.{HasValidWindow, window_valid, inside_iff, valid_window_recurs}
use ops_pilot_ai.Storage.Database.{Db}
use ops_pilot_ai.Tests.World.{rule, fallback, query, monday, decision, db}

decide_example :
    ((decide (rule ∷ fallback ∷ []) query monday (some 1)).allowed ≡ true)
    ↔ ((r : PolicyRuleRecord) × IsFirst (rule ∷ fallback ∷ []) query r × Grants r monday (some 1))
decide_example = decide-allowed_iff query monday (some 1) (rule ∷ fallback ∷ [])

-- With two executions made, the limit of the rule is reached.
limit_holds : (decide (rule ∷ fallback ∷ []) query monday (some 2)).allowed ≡ false
unfolding decide decide_by matches inside_maintenance_window risk_value autonomy_value
    PolicyEffect-discrete
limit_holds = refl

abbrev approved_rule : PolicyRuleRecord
approved_rule = record rule { approval_required = true }

needs_approval : (decide (approved_rule ∷ []) query monday (some 1)).approval_required ≡ true
unfolding decide decide_by matches inside_maintenance_window risk_value autonomy_value
    PolicyEffect-discrete
needs_approval = refl

abbrev granted : PolicyDecision
granted = decide (rule ∷ fallback ∷ []) query monday none

dry_run_returns : dry_run none 1 query monday db ≡ ok (granted, db)
unfolding dry_run validate_target get_environment get_resource in_scope list_for_environment
    earlier_rule decide decide_by matches inside_maintenance_window risk_value autonomy_value
    PolicyEffect-discrete select order_by Tables.get
dry_run_returns = refl

granted_allowed : granted.allowed ≡ true
unfolding decide decide_by matches inside_maintenance_window risk_value autonomy_value
    PolicyEffect-discrete
granted_allowed = refl

dry_run_example : Allows 1 query monday db × (db ≡ db)
dry_run_example = dry_run-Allows none 1 query monday db db granted dry_run_returns granted_allowed

abbrev authorized : PolicyDecision
authorized = decide (rule ∷ []) (query_of decision) monday (some 1)

authorize_returns : authorize_action_creation none decision monday db ≡ ok (authorized, db)
unfolding authorize_action_creation locked_rule validate_target get_environment get_resource
    get_policy in_scope count_actions_for_incident_rule counts_for decide decide_by matches
    inside_maintenance_window risk_value autonomy_value PolicyEffect-discrete select Tables.get
authorize_returns = refl

authorized_allowed : authorized.allowed ≡ true
unfolding decide decide_by matches inside_maintenance_window risk_value autonomy_value
    PolicyEffect-discrete
authorized_allowed = refl

authorize_example : Authorized none decision monday db × (db ≡ db)
authorize_example =
    authorize-Authorized none decision monday db db authorized authorize_returns authorized_allowed

inside_example : (inside_maintenance_window rule monday ≡ true) ↔ (
    ((rule.maintenance_days ≡ []) ⊎ (contains rule.maintenance_days (weekday monday) ≡ true))
    × (60 * 60_000_000 ≤ monday % day_length)
    × (monday % day_length < 120 * 60_000_000))
inside_example = inside_iff rule 60 120 monday refl refl

rule_window : HasValidWindow rule
unfolding window_valid all
rule_window = refl

recurs_example :
    (t : ℕ) × (monday ≤ t)
    × (t ≤ monday + 8 * day_length)
    × (inside_maintenance_window rule t ≡ true)
recurs_example = valid_window_recurs rule monday rule_window

abbrev evaluated : (PolicyDecision × PolicyDecisionRecord) × Db
evaluated = elim (evaluate none 1 100 query monday db) [
  | ok r ↦ r
  | err e ↦ ((granted, decision), db)
]
