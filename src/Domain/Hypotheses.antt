-- ===== src/Domain/Hypotheses.antt =====
-- backend/app/domain/hypotheses: the hypothesis statuses, their table and `transition_hypothesis`.
use ops_pilot_ai.Base.{
  String, List, [], ◌∷◌, ◌≡◌, ◌≢◌, ◌⊎◌, inl, inr, ◌↔◌, true, arith, refl, HasEquals, of_discrete,
  contains, if◌then◌else◌, Result, ok, err, value_error,
}
use ops_pilot_ai.Domain.Machine.{Reach, here, next, trans}
use mathlib.Core.Path.{subst}

pub data HypothesisStatus : Type 0 where
  proposed supported weakened rejected confirmed : HypothesisStatus

unfoldable pub HypothesisStatus-discrete : Discrete HypothesisStatus
HypothesisStatus-discrete = hlevel

instance abbrev pub hypothesis_status_eq : HasEquals HypothesisStatus
hypothesis_status_eq = of_discrete HypothesisStatus-discrete

-- `HypothesisStatus.value`
unfoldable pub value : HypothesisStatus → String
value proposed = "proposed"
value supported = "supported"
value weakened = "weakened"
value rejected = "rejected"
value confirmed = "confirmed"

-- `_ALLOWED_TRANSITIONS`
unfoldable pub allowed_transitions : HypothesisStatus → List HypothesisStatus
unfolding HypothesisStatus-discrete
allowed_transitions proposed = supported ∷ weakened ∷ rejected ∷ confirmed ∷ []
allowed_transitions supported = weakened ∷ rejected ∷ confirmed ∷ []
allowed_transitions weakened = supported ∷ rejected ∷ []
allowed_transitions confirmed = weakened ∷ rejected ∷ []
allowed_transitions rejected = []

-- `transition_hypothesis`
unfoldable pub transition_hypothesis : HypothesisStatus → HypothesisStatus → Result HypothesisStatus
transition_hypothesis current target =
    if contains (allowed_transitions current) target then ok target else err value_error

proposed_is_initial :
    (s t : HypothesisStatus) → contains (allowed_transitions s) t ≡ true → t ≢ proposed
unfolding allowed_transitions
proposed_is_initial s t h e = ground arith

rejected_is_final :
    (s t : HypothesisStatus) → contains (allowed_transitions s) t ≡ true → s ≢ rejected
unfolding allowed_transitions
rejected_is_final s t h e = ground arith

to_weakened : (s : HypothesisStatus) → s ≢ rejected → Reach allowed_transitions s weakened
unfolding allowed_transitions
to_weakened rejected h = absurd (h refl)
to_weakened weakened h = here
to_weakened s h = next here refl

from_weakened : (t : HypothesisStatus) → t ≢ proposed → Reach allowed_transitions weakened t
unfolding allowed_transitions
from_weakened proposed h = absurd (h refl)
from_weakened weakened h = here
from_weakened confirmed h = next {t = supported} (next here refl) refl
from_weakened t h = next here refl

reach_bounds :
    {s t : HypothesisStatus}
    → Reach allowed_transitions s t
    → (s ≡ t) ⊎ ((s ≢ rejected) × (t ≢ proposed))
reach_bounds here = inl refl
reach_bounds (next {t} {u} r a) = elim (reach_bounds r) [
  | inl e ↦ inr (rw e (rejected_is_final t u a), proposed_is_initial t u a)
  | inr (p, q) ↦ inr (p, proposed_is_initial t u a)
]

-- A hypothesis can come from one status to another by allowed transitions exactly when the two are
-- the same, or the first is not REJECTED and the second is not PROPOSED.
pub reach_iff :
    (s t : HypothesisStatus)
    → Reach allowed_transitions s t ↔ ((s ≡ t) ⊎ ((s ≢ rejected) × (t ≢ proposed)))
reach_iff s t = (
  reach_bounds,
  elim [
    | inl e ↦ subst (Reach allowed_transitions s) e here
    | inr (p, q) ↦ trans (to_weakened s p) (from_weakened t q)
  ],
)
