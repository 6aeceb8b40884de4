-- ===== src/Storage/Database/Scope.antt =====
-- backend/app/core/principal_context.py and `_environment_scope` of storage/repositories.py: the
-- principal of a request limits the environments whose rows it can see.
use ops_pilot_ai.Base.{
  ℕ, String, Bool, true, List, Option, none, some, contains, nat_eq, if◌then◌else◌,
}
use ops_pilot_ai.Domain.Security.{AuthenticatedPrincipal, ActorId, of_name, actor_type, actor_id}

-- `principal_context.get()`
abbrev pub Context : Type 0
Context = Option AuthenticatedPrincipal

-- `_environment_scope`
unfoldable pub environment_scope : Context → Option (List ℕ)
environment_scope none = none
environment_scope (some p) = if p.unrestricted_environments then none else some p.environment_ids

abbrev in_environments : Option (List ℕ) → ℕ → Bool
in_environments none e = true
in_environments (some es) e = contains es e

-- `scope is None or environment_id in scope`
unfoldable pub in_scope : Context → ℕ → Bool
unfolding environment_scope
in_scope c e = in_environments (environment_scope c) e

-- `actor.actor_id if actor else "system"`
abbrev pub actor_or_system : Context → ActorId
actor_or_system none = of_name "system"
actor_or_system (some p) = actor_id p

-- `actor.actor_id if actor else None`
abbrev pub actor_or_none : Context → Option ActorId
actor_or_none none = none
actor_or_none (some p) = some (actor_id p)

-- `principal.actor_type if principal else actor_type`
abbrev pub actor_type_or : Context → String → String
actor_type_or none t = t
actor_type_or (some p) t = actor_type p
