-- ===== src/Plans/Dependencies.antt =====
-- `_validate_plan_dependencies` of backend/app/services/plans.py: which dependencies it accepts.
use ops_pilot_ai.Base.{
  ℕ, ◌+◌, ◌<◌, ◌≤◌, String, true, false, none, some, List, [], ◌∷◌, ◌≡◌, ◌≢◌, ◌↔◌, ◌∙◌, refl, sym,
  ap, arith, ok, err, Error, inl, inr, nat_eq, string_eq, ◌==◌, contains, All, All-map,
  Option-cases, Result-cases, Bool-cases, int, str, int-str, str-inj, eqb,
}
use ops_pilot_ai.Plans.{
  PlanStepInput, validate_dependency, validate_step, validate_steps, validate_plan_dependencies,
}

-- The dependency is the spelling of the ordinal of an earlier step.
abbrev pub IsDependency : ℕ → String → Type 0
IsDependency ordinal d = (k : ℕ) × (d ≡ str k) × (1 ≤ k) × (k < ordinal)

abbrev pub NoRepeats : List String → Type 0
NoRepeats [] = Unit
NoRepeats (d ∷ ds) = All (λ (e : String). d ≢ e) ds × NoRepeats ds

-- The dependencies of the steps from the step `ordinal` on.
abbrev pub AreDependencies : ℕ → List PlanStepInput → Type 0
AreDependencies ordinal [] = Unit
AreDependencies ordinal (s ∷ ss) =
    All (IsDependency ordinal) s.dependencies
    × NoRepeats s.dependencies
    × AreDependencies (ordinal + 1) ss

-- The dependency names none of the ordinals.
abbrev IsNew : List ℕ → String → Type 0
IsNew seen d = (k : ℕ) → d ≡ str k → contains seen k ≡ false

unreadable :
    (o : ℕ) (seen : List ℕ) (d : String) (n : ℕ)
    → int d ≡ none
    → validate_dependency o seen d ≢ ok n
unfolding validate_dependency
unreadable o seen d n e h = ground arith

read :
    (o : ℕ) (seen : List ℕ) (d : String) (n k : ℕ)
    → int d ≡ some k
    → validate_dependency o seen d ≡ ok n
    → (n ≡ k) × ((str k == d) ≡ true) × (1 ≤ k) × (k < o) × (contains seen k ≡ false)
unfolding validate_dependency
read o seen d n k e h = ground arith

accepts :
    (o : ℕ) (seen : List ℕ) (d : String) (n : ℕ)
    → int d ≡ some n
    → (str n == d) ≡ true
    → 1 ≤ n
    → n < o
    → contains seen n ≡ false
    → validate_dependency o seen d ≡ ok n
unfolding validate_dependency
accepts o seen d n e s a b c = ground arith

dependency_iff :
    (o : ℕ) (seen : List ℕ) (d : String) (n : ℕ)
    → (validate_dependency o seen d ≡ ok n)
      ↔ ((d ≡ str n) × (1 ≤ n) × (n < o) × (contains seen n ≡ false))
dependency_iff o seen d n = (
  λ h. elim (Option-cases (int d)) [
    | inl e ↦ absurd (unreadable o seen d n e h)
    | inr (k, e) ↦
        let (q, s, a, b, c) = read o seen d n k e h in
        let w = sym ((string_eq.equals_iff (str k) d).0 s) in rw q (w, a, b, c)
  ],
  λ (e, a, b, c).
      accepts o seen d n (ap int e ∙ int-str n) ((string_eq.equals_iff (str n) d).1 (sym e)) a b c,
)

step_fails :
    (o : ℕ) (seen : List ℕ) (d : String) (ds : List String) (e : Error)
    → validate_dependency o seen d ≡ err e
    → validate_step o seen (d ∷ ds) ≢ ok tt
unfolding validate_step
step_fails o seen d ds e f h = cc (rw (f, validate_step) at h)

step_goes_on :
    (o : ℕ) (seen : List ℕ) (d : String) (ds : List String) (n : ℕ)
    → validate_dependency o seen d ≡ ok n
    → validate_step o seen (d ∷ ds) ≡ validate_step o (n ∷ seen) ds
unfolding validate_step
step_goes_on o seen d ds n f = rw (f, validate_step) refl

-- Of the texts that differ from `d`, those that are new after `d` are the new ones.
IsNew-before :
    (seen : List ℕ) (d : String) (n : ℕ) (e : String)
    → d ≡ str n
    → IsNew (n ∷ seen) e
    → (d ≢ e) × IsNew seen e
IsNew-before seen d n e q f =
    (λ s. let w = f n (sym s ∙ q) in absurd (ground arith), λ k s. let w = f k s in ground arith)

IsNew-after :
    (seen : List ℕ) (d : String) (n : ℕ) (e : String)
    → d ≡ str n
    → d ≢ e
    → IsNew seen e
    → IsNew (n ∷ seen) e
IsNew-after seen d n e q ne f k s = elim (Bool-cases (eqb n k)) [
  | inl t ↦ let w : n ≡ k = ground arith in absurd (ne (q ∙ (ap str w ∙ sym s)))
  | inr t ↦ let w = f k s in ground arith
]

All-both :
    (P Q : String → Type 0) (xs : List String) → All (λ d. P d × Q d) xs → All P xs × All Q xs
All-both P Q [] h = (tt, tt)
All-both P Q (x ∷ xs) h = let (a, b) = All-both P Q xs h.1 in ((h.0.0, a), (h.0.1, b))

All-join :
    (P Q : String → Type 0) (xs : List String) → All P xs → All Q xs → All (λ d. P d × Q d) xs
All-join P Q [] h k = tt
All-join P Q (x ∷ xs) h k = ((h.0, k.0), All-join P Q xs h.1 k.1)

step_iff :
    (o : ℕ) (seen : List ℕ) (ds : List String)
    → (validate_step o seen ds ≡ ok tt)
      ↔ (All (IsDependency o) ds × NoRepeats ds × All (IsNew seen) ds)
unfolding validate_step
step_iff o seen [] = (λ h. (tt, tt, tt), λ h. refl)
step_iff o seen (d ∷ ds) = (
  λ h. elim (Result-cases (validate_dependency o seen d)) [
    | inr (e, f) ↦ absurd (step_fails o seen d ds e f h)
    | inl (n, f) ↦
        let (q, a, b, c) = (dependency_iff o seen d n).0 f in
        let (x, y, z) = (step_iff o (n ∷ seen) ds).0 (sym (step_goes_on o seen d ds n f) ∙ h) in
        let (u, w) =
          All-both (λ e. d ≢ e) (IsNew seen) ds
            (All-map (IsNew (n ∷ seen)) _ (λ e p. IsNew-before seen d n e q p) ds z) in
        (((n, q, a, b), x), (u, y), ((λ k s. rw (str-inj k n (sym s ∙ q)) c), w))
  ],
  λ (((n, q, a, b), x), (u, y), (v, w)).
      step_goes_on o seen d ds n ((dependency_iff o seen d n).1 (q, a, b, v n q))
      ∙ (step_iff o (n ∷ seen) ds).1 (
        x,
        y,
        All-map (λ e. (d ≢ e) × IsNew seen e) (IsNew (n ∷ seen))
            (λ e p. IsNew-after seen d n e q p.0 p.1) ds (All-join _ _ ds u w),
      ),
)

all-IsNew : (ds : List String) → All (IsNew []) ds
all-IsNew [] = tt
all-IsNew (d ∷ ds) = (λ k s. refl, all-IsNew ds)

steps_fail :
    (o : ℕ) (s : PlanStepInput) (ss : List PlanStepInput) (e : Error)
    → validate_step o [] s.dependencies ≡ err e
    → validate_steps o (s ∷ ss) ≢ ok tt
unfolding validate_steps
steps_fail o s ss e f h = cc (rw (f, validate_steps) at h)

steps_go_on :
    (o : ℕ) (s : PlanStepInput) (ss : List PlanStepInput)
    → validate_step o [] s.dependencies ≡ ok tt
    → validate_steps o (s ∷ ss) ≡ validate_steps (o + 1) ss
unfolding validate_steps
steps_go_on o s ss f = rw (f, validate_steps) refl

steps_iff : (o : ℕ) (ss : List PlanStepInput) → (validate_steps o ss ≡ ok tt) ↔ AreDependencies o ss
unfolding validate_steps
steps_iff o [] = (λ h. tt, λ h. refl)
steps_iff o (s ∷ ss) = (
  λ h. elim (Result-cases (validate_step o [] s.dependencies)) [
    | inr (e, f) ↦ absurd (steps_fail o s ss e f h)
    | inl (u, f) ↦
        let (x, y, _) = (step_iff o [] s.dependencies).0 f in
        (x, y, (steps_iff (o + 1) ss).0 (sym (steps_go_on o s ss f) ∙ h))
  ],
  λ (x, y, z).
      steps_go_on o s ss ((step_iff o [] s.dependencies).1 (x, y, all-IsNew s.dependencies))
      ∙ (steps_iff (o + 1) ss).1 z,
)

-- The steps of a plan pass `_validate_plan_dependencies` exactly when every dependency of a step is
-- the decimal spelling of the ordinal of an earlier step, counted from 1, and no step repeats a
-- dependency.
pub validate_plan_dependencies_iff :
    (steps : List PlanStepInput)
    → (validate_plan_dependencies steps ≡ ok tt) ↔ AreDependencies 1 steps
unfolding validate_plan_dependencies
validate_plan_dependencies_iff steps = steps_iff 1 steps
