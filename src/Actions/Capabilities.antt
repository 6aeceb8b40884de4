-- ===== src/Actions/Capabilities.antt =====
-- backend/app/services/action_capabilities.py, and the checks of
-- backend/app/services/actions.py on the capability of an action and its parameters.
use ops_pilot_ai.Base.{
  String, count, is_blank, Bool, true, false, not, ◌&&◌, Option, none, some, List, [], ◌∷◌,
  string_eq, ◌==◌, leb, application, find,
}
use ops_pilot_ai.Domain.Plans.{PlanStepRisk}
use ops_pilot_ai.Domain.Security.{of_id, of_name}
use ops_pilot_ai.Storage.Rows.{Value, null, flag, number, text, uuid, instant, actor, uuids}
use ops_pilot_ai.Storage.Values.{get_item}
use ops_pilot_ai.Storage.Database.{Tx, pure, raise, or_raise, raise_if, ◌>>=◌, ◌>>◌}

pub data Availability : Type 0 where
  available reserved : Availability

pub data Effect : Type 0 where
  mutation observation : Effect

pub data CompensationMode : Type 0 where
  manual_escalation not_applicable unavailable : CompensationMode

pub record ActionCapabilityDefinition : Type 0 where
  pub capability : String
  pub parameter_key : String
  pub availability : Availability
  pub effect : Effect
  pub recommended_risk : PlanStepRisk
  pub execution_connector : Option String
  pub verification_operation : Option String
  pub verification_parameter_key : Option String
  pub compensation_mode : CompensationMode

-- A definition with the defaults of the class.
abbrev of_capability : String → String → Effect → PlanStepRisk → ActionCapabilityDefinition
of_capability capability parameter_key effect risk = record {
  capability = capability;
  parameter_key = parameter_key;
  availability = reserved;
  effect = effect;
  recommended_risk = risk;
  execution_connector = none;
  verification_operation = none;
  verification_parameter_key = none;
  compensation_mode = unavailable;
}

abbrev by_docker : CompensationMode → ActionCapabilityDefinition → ActionCapabilityDefinition
by_docker mode d = record d {
  availability = available;
  execution_connector = some "docker";
  verification_operation = some "docker.container_health";
  verification_parameter_key = some "containerId";
  compensation_mode = mode;
}

-- `ACTION_CAPABILITY_DEFINITIONS`
abbrev pub action_capability_definitions : List ActionCapabilityDefinition
action_capability_definitions =
    by_docker manual_escalation
      (of_capability "container.restart" "containerId" mutation PlanStepRisk.medium)
    ∷ by_docker not_applicable
        (of_capability "health.check" "target" observation PlanStepRisk.read_only)
    ∷ of_capability "service.reload" "serviceName" mutation PlanStepRisk.medium
    ∷ of_capability "traffic_probe.pause" "probeId" mutation PlanStepRisk.low
    ∷ of_capability "traffic_probe.resume" "probeId" mutation PlanStepRisk.low
    ∷ []

-- `action_capability_definition`
unfoldable pub action_capability_definition : String → Option ActionCapabilityDefinition
action_capability_definition capability =
    find (λ (d : ActionCapabilityDefinition). d.capability == capability)
      action_capability_definitions

-- `definition is None or definition.availability != "available"`, negated
abbrev pub offered : Option ActionCapabilityDefinition → Option ActionCapabilityDefinition
offered none = none
offered (some d) = elim d.availability [ available ↦ some d | reserved ↦ none ]

-- `set(parameters) == {required}`
others_absent : String → List (String × Value) → Bool
others_absent required [] = true
others_absent required ((k, v) ∷ p) = k == required && others_absent required p

unfoldable pub only_key : String → List (String × Value) → Bool
unfolding others_absent
only_key required [] = false
only_key required ((k, v) ∷ p) = k == required && others_absent required p

abbrev pub valid_text : String → Bool
valid_text s = not (is_blank s) && leb (count s) 300

-- `isinstance(value, str) and value.strip() and len(value) <= 300`; the texts of UUIDs and instants
-- are such texts.
unfoldable pub valid_value : Option Value → Bool
valid_value none = false
valid_value (some (text s)) = valid_text s
valid_value (some (uuid i)) = true
valid_value (some (instant i)) = true
valid_value (some (actor (of_id i))) = true
valid_value (some (actor (of_name s))) = valid_text s
valid_value (some null) = false
valid_value (some (flag b)) = false
valid_value (some (number n)) = false
valid_value (some (uuids is)) = false

-- `validate_capability_parameters`
unfoldable pub validate_capability_parameters : String → List (String × Value) → Tx (Unit {0})
validate_capability_parameters capability parameters = do
  definition ←
      or_raise (offered (action_capability_definition capability))
        (application "ACTION_CAPABILITY_UNSUPPORTED" 422)
  raise_if (not (only_key definition.parameter_key parameters))
      (application "ACTION_PARAMETERS_INVALID" 422)
  raise_if (not (valid_value (get_item definition.parameter_key parameters)))
      (application "ACTION_PARAMETERS_INVALID" 422)

-- `validate_rollback_capability`
unfoldable pub validate_rollback_capability : String → Option String → Tx (Unit {0})
validate_rollback_capability capability none = pure tt
validate_rollback_capability capability (some r) =
    raise (application "ACTION_ROLLBACK_CAPABILITY_UNSUPPORTED" 422)
