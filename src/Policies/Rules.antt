-- ===== src/Policies/Rules.antt =====
-- backend/app/services/policies.py: `_matches`, `_inside_maintenance_window` and `_decide`.
use ops_pilot_ai.Base.{
  ℕ, ◌+◌, ◌-◌, ◌*◌, ◌/◌, ◌%◌, String, Bool, true, false, not, ◌&&◌, ◌||◌, Option, none, some, List,
  [], ◌∷◌, nat_eq, string_eq, ◌==◌, contains, if◌then◌else◌, leb, ltb,
}
use ops_pilot_ai.Domain.Plans.{PlanStepRisk, risk_value}
use ops_pilot_ai.Domain.Policies.{
  PolicyEffect, allow, policy_effect_eq, AutonomyLevel, autonomy_value,
}
use ops_pilot_ai.Storage.Rows.{
  PolicyRuleRecord, Reason, matched, window_closed, limit_reached, default_deny,
}

pub record PolicyDecision : Type 0 where
  pub allowed : Bool
  pub approval_required : Bool
  pub matched_rule_id : Option ℕ
  pub matched_rule_name : Option String
  pub effect : Option PolicyEffect
  pub reason : Reason
  pub matched_rule_version : Option ℕ
  pub remaining_executions : Option ℕ

-- What `_decide` is asked about.
pub record Query : Type 0 where
  pub resource_id : ℕ
  pub capability : String
  pub autonomy_level : AutonomyLevel
  pub risk : PlanStepRisk

abbrev pub is_empty : {A : Type 0} → List A → Bool
is_empty [] = true
is_empty (x ∷ xs) = false

-- `_matches`: an empty list of a rule restricts nothing.
unfoldable pub matches : PolicyRuleRecord → Query → Bool
matches rule q =
    (is_empty rule.resource_ids || contains rule.resource_ids q.resource_id)
    && (is_empty rule.capabilities || contains rule.capabilities q.capability)
    && (is_empty rule.autonomy_levels
        || contains rule.autonomy_levels (autonomy_value q.autonomy_level))
    && (is_empty rule.risk_levels || contains rule.risk_levels (risk_value q.risk))

-- `datetime.hour`, `datetime.minute` and `datetime.weekday()` of an instant in UTC. The first day,
-- 1970-01-01, was a Thursday, and Monday is weekday 0.
abbrev pub day_length : ℕ
day_length = 86_400_000_000

abbrev pub hour : ℕ → ℕ
hour t = t % day_length / 3_600_000_000

abbrev pub minute : ℕ → ℕ
minute t = t % 3_600_000_000 / 60_000_000

abbrev pub weekday : ℕ → ℕ
weekday t = (t / day_length + 3) % 7

abbrev pub inside_bounds : List ℕ → Option ℕ → Option ℕ → ℕ → Bool
inside_bounds days (some start) (some end) now =
    if not (is_empty days) && not (contains days (weekday now))
    then false
    else let m = hour now * 60 + minute now in leb start m && ltb m end
inside_bounds days _ _ now = true

-- `_inside_maintenance_window`
unfoldable pub inside_maintenance_window : PolicyRuleRecord → ℕ → Bool
inside_maintenance_window rule now =
    inside_bounds rule.maintenance_days rule.maintenance_start_minute rule.maintenance_end_minute
      now

-- The part of the loop body of `_decide` that counts executions: what is left of the limit, and
-- whether the action is still allowed.
pub record Verdict : Type 0 where
  pub allowed : Bool
  pub reason : Reason
  pub remaining : Option ℕ

abbrev count_executions : PolicyRuleRecord → Option ℕ → Option ℕ → Bool → Reason → Verdict
count_executions rule (some limit) (some consumed) allowed reason =
    let remaining = limit - consumed in
    if allowed && remaining == 0
    then record { allowed = false; reason = limit_reached rule.name; remaining = some remaining }
    else if allowed
    then record { allowed = allowed; reason = reason; remaining = some (remaining - 1) }
    else record { allowed = allowed; reason = reason; remaining = some remaining }
count_executions rule _ _ allowed reason = record {
  allowed = allowed;
  reason = reason;
  remaining = none;
}

abbrev judge : PolicyRuleRecord → ℕ → Option ℕ → Verdict
judge rule evaluated_at consumed =
    if rule.effect == allow && not (inside_maintenance_window rule evaluated_at)
    then count_executions rule rule.max_executions_per_incident consumed false
        (window_closed rule.name)
    else count_executions rule rule.max_executions_per_incident consumed (rule.effect == allow)
        (matched rule.effect rule.name rule.priority)

-- The loop body of `_decide` for a rule that matches.
unfoldable pub decide_by : PolicyRuleRecord → ℕ → Option ℕ → PolicyDecision
decide_by rule evaluated_at consumed =
    let v = judge rule evaluated_at consumed in
    record {
      allowed = v.allowed;
      approval_required = v.allowed && rule.approval_required;
      matched_rule_id = some rule.id;
      matched_rule_name = some rule.name;
      effect = some rule.effect;
      reason = v.reason;
      matched_rule_version = some rule.version;
      remaining_executions = v.remaining;
    }

abbrev pub denied_by_default : PolicyDecision
denied_by_default = record {
  allowed = false;
  approval_required = false;
  matched_rule_id = none;
  matched_rule_name = none;
  effect = none;
  reason = default_deny;
  matched_rule_version = none;
  remaining_executions = none;
}

-- `_decide`: the first rule that matches decides.
unfoldable pub decide : List PolicyRuleRecord → Query → ℕ → Option ℕ → PolicyDecision
decide [] q evaluated_at consumed = denied_by_default
decide (rule ∷ rules) q evaluated_at consumed =
    let rest = decide rules q evaluated_at consumed in
    if matches rule q then decide_by rule evaluated_at consumed else rest
