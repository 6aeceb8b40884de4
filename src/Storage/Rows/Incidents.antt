-- ===== src/Storage/Rows/Incidents.antt =====
-- models.py: environments, resources, incidents, their events, and the outbox.
use ops_pilot_ai.Base.{ℕ, String, Bool, Option, List}
use ops_pilot_ai.Domain.Incidents.{IncidentStatus, Severity}
use ops_pilot_ai.Domain.Security.{ActorId}

-- What a JSON object of an event or of a request holds under a key.
pub data Value : Type 0 where
  null : Value
  flag : Bool → Value
  number : ℕ → Value
  text : String → Value
  uuid : ℕ → Value
  instant : ℕ → Value
  actor : ActorId → Value
  uuids : List ℕ → Value

pub record EnvironmentRecord : Type 0 where
  pub id : ℕ
  pub name : String
  pub slug : String
  pub description : Option String

pub record ResourceRecord : Type 0 where
  pub id : ℕ
  pub environment_id : ℕ
  pub name : String
  pub kind : String
  pub criticality : String
  pub version : ℕ
  pub attributes : List (String × Value)

pub record IncidentRecord : Type 0 where
  pub id : ℕ
  pub title : String
  pub status : IncidentStatus
  pub severity : Severity
  pub resource_id : ℕ
  pub owner : Option String
  pub version : ℕ
  pub event_cursor : ℕ
  pub trace_id : ℕ
  pub autonomy_level : String
  pub replan_count : ℕ
  pub tool_budget_used : ℕ
  pub tool_budget_limit : ℕ
  pub observability_runner_id : Option ℕ
  pub observability_lost_at : Option ℕ
  pub updated_at : ℕ

pub record IncidentEventRecord : Type 0 where
  pub incident_id : ℕ
  pub event_type : String
  pub occurred_at : ℕ
  pub actor_type : String
  pub actor_id : Option ActorId
  pub payload : List (String × Value)

pub record OutboxEventRecord : Type 0 where
  pub sequence : ℕ
  pub event_id : ℕ
  pub event_type : String
  pub aggregate_type : String
  pub aggregate_id : ℕ
  pub incident_id : ℕ
  pub trace_id : ℕ
  pub aggregate_version : ℕ
  pub payload : List (String × Value)
  pub occurred_at : ℕ
  pub published_at : Option ℕ
  pub publish_attempts : ℕ
  pub next_attempt_at : Option ℕ
  pub dead_lettered_at : Option ℕ
  pub last_error : Option String
  pub last_status_code : Option ℕ
