-- ===== src/Storage/Database/Actors.antt =====
-- `actor_id` of backend/app/core/security.py and its uses: who a row says has acted.
use ops_pilot_ai.Base.{
  ℕ, String, true, false, Option, none, some, ◌≡◌, ◌∙◌, refl, sym, ap, ◌⊎◌, inl, inr, nat_eq,
  string_eq,
}
use ops_pilot_ai.Domain.Security.{
  AuthenticatedPrincipal, ActorId, of_id, of_name, actor_id_of, actor_id,
}
use ops_pilot_ai.Storage.Values.{same_actor}
use ops_pilot_ai.Storage.Database.Scope.{Context, actor_or_system}

-- A principal is named by its UUID, or by its name where it has no UUID.
abbrev NamesBy : Option ℕ → String → ActorId → Type 0
NamesBy o s a = ((i : ℕ) × (o ≡ some i) × (a ≡ of_id i)) ⊎ ((o ≡ none) × (a ≡ of_name s))

abbrev pub Names : AuthenticatedPrincipal → ActorId → Type 0
Names p a = NamesBy p.id p.name a

-- What a call writes as its actor: the name of its principal, or "system" where it has none.
abbrev pub Signs : Context → ActorId → Type 0
Signs none a = a ≡ of_name "system"
Signs (some p) a = Names p a

abbrev pub IsSigned : Context → Option ActorId → Type 0
IsSigned c o = (a : ActorId) × (o ≡ some a) × Signs c a

-- The principal of a call, if it has one, is not the actor.
abbrev pub IsOther : Context → ActorId → Type 0
IsOther none a = Unit
IsOther (some p) a = ¬ (Names p a)

actor_id-Names : (o : Option ℕ) (s : String) → NamesBy o s (actor_id_of o s)
actor_id-Names none s = inr (refl, refl)
actor_id-Names (some i) s = inl (i, refl, refl)

pub actor_or_system-IsSigned : (c : Context) → IsSigned c (some (actor_or_system c))
actor_or_system-IsSigned none = (of_name "system", refl, refl)
actor_or_system-IsSigned (some p) = (actor_id p, refl, actor_id-Names p.id p.name)

named_once : (o : Option ℕ) (s : String) (a : ActorId) → NamesBy o s a → a ≡ actor_id_of o s
named_once o s a (inl (i, e, f)) = f ∙ ap (λ (x : Option ℕ). actor_id_of x s) (sym e)
named_once o s a (inr (e, f)) = f ∙ ap (λ (x : Option ℕ). actor_id_of x s) (sym e)

same_actor_self : (a : ActorId) → same_actor a a ≡ true
same_actor_self (of_id i) = (nat_eq.equals_iff i i).1 refl
same_actor_self (of_name s) = (string_eq.equals_iff s s).1 refl

pub same_actor-IsOther :
    (p : AuthenticatedPrincipal) (a : ActorId)
    → same_actor a (actor_id p) ≡ false
    → IsOther (some p) a
same_actor-IsOther p a h n =
    cc (h, ap (λ (x : ActorId). same_actor a x) (named_once p.id p.name a n), same_actor_self a)
