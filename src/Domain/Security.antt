-- ===== src/Domain/Security.antt =====
-- backend/app/domain/security.py: who makes a request.
use ops_pilot_ai.Base.{ℕ, String, Bool, Option, none, some, List}

pub data PrincipalKind : Type 0 where
  user service : PrincipalKind

pub data PrincipalRole : Type 0 where
  admin operator viewer runtime : PrincipalRole

pub record AuthenticatedPrincipal : Type 0 where
  pub id : Option ℕ
  pub name : String
  pub kind : PrincipalKind
  pub role : PrincipalRole
  pub environment_ids : List ℕ
  pub unrestricted_environments : Bool

-- An actor id is the text of the principal's UUID, or its name.
pub data ActorId : Type 0 where
  of_id : ℕ → ActorId
  of_name : String → ActorId

abbrev pub actor_type_of : PrincipalKind → String
actor_type_of service = "service"
actor_type_of user = "user"

abbrev pub actor_id_of : Option ℕ → String → ActorId
actor_id_of (some i) n = of_id i
actor_id_of none n = of_name n

abbrev pub actor_type : AuthenticatedPrincipal → String
actor_type p = actor_type_of p.kind

abbrev pub actor_id : AuthenticatedPrincipal → ActorId
actor_id p = actor_id_of p.id p.name
