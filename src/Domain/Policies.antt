-- ===== src/Domain/Policies.antt =====
-- backend/app/domain/policies.py
use ops_pilot_ai.Base.{String, HasEquals, of_discrete}

pub data PolicyEffect : Type 0 where
  allow deny : PolicyEffect

pub data AutonomyLevel : Type 0 where
  l0 l1 l2 l3 l4 : AutonomyLevel

unfoldable pub PolicyEffect-discrete : Discrete PolicyEffect
PolicyEffect-discrete = hlevel

instance abbrev pub policy_effect_eq : HasEquals PolicyEffect
policy_effect_eq = of_discrete PolicyEffect-discrete

-- `AutonomyLevel.value`
unfoldable pub autonomy_value : AutonomyLevel → String
autonomy_value l0 = "L0"
autonomy_value l1 = "L1"
autonomy_value l2 = "L2"
autonomy_value l3 = "L3"
autonomy_value l4 = "L4"
