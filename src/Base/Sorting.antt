-- ===== src/Base/Sorting.antt =====
-- `ORDER BY`: a stable insertion sort by a strict comparison.
use mathlib.Core.Bool.{Bool, true, false}
use mathlib.Core.List.{List, [], ◌∷◌, ◌++◌}
use mathlib.Core.Logic.{◌⊎◌, ◌↔◌, inl, inr}
use mathlib.Core.Path.{◌≡◌}
use ops_pilot_ai.Base.Tests.{if◌then◌else◌, Bool-cases}
use ops_pilot_ai.Base.Lists.{In, All}

-- No later entry comes before an earlier one.
abbrev pub IsSorted : {A : Type 0} → (A → A → Bool) → List A → Type 0
IsSorted before [] = Unit
IsSorted before (x ∷ xs) = All (λ y. before y x ≡ false) xs × IsSorted before xs

module _ {A : Type 0} (before : A → A → Bool) where
  insert : A → List A → List A
  insert a [] = a ∷ []
  insert a (x ∷ xs) = if before x a then x ∷ insert a xs else a ∷ x ∷ xs

  unfoldable pub order_by : List A → List A
  unfolding insert
  order_by [] = []
  order_by (x ∷ xs) = insert x (order_by xs)

  In-insert : (a b : A) (xs : List A) → In b (insert a xs) ↔ ((b ≡ a) ⊎ In b xs)
  unfolding insert
  In-insert a b [] = (λ h. h, λ h. h)
  In-insert a b (x ∷ xs) = elim (Bool-cases (before x a)) [
    | inl later ↦ rw later (
      elim [
        | inl e ↦ inr (inl e)
        | inr m ↦ elim ((In-insert a b xs).0 m) [ inl e ↦ inl e | inr k ↦ inr (inr k) ]
      ],
      elim [
        | inl e ↦ inr ((In-insert a b xs).1 (inl e))
        | inr m ↦ elim m [ inl e ↦ inl e | inr k ↦ inr ((In-insert a b xs).1 (inr k)) ]
      ],
    )
    | inr sooner ↦ rw sooner (λ h. h, λ h. h)
  ]

  -- Sorting neither drops nor adds an entry.
  pub In-order_by : (b : A) (xs : List A) → In b (order_by xs) ↔ In b xs
  unfolding order_by
  In-order_by b [] = (λ h. h, λ h. h)
  In-order_by b (x ∷ xs) = (
    λ h. elim ((In-insert x b (order_by xs)).0 h) [
      | inl e ↦ inl e
      | inr m ↦ inr ((In-order_by b xs).0 m)
    ],
    elim [
      | inl e ↦ (In-insert x b (order_by xs)).1 (inl e)
      | inr m ↦ (In-insert x b (order_by xs)).1 (inr ((In-order_by b xs).1 m))
    ],
  )

module _ {A : Type 0} (before : A → A → Bool)
    (asym : (x y : A) → before x y ≡ true → before y x ≡ false)
    (not_trans : (x y z : A) → before x y ≡ false → before y z ≡ false → before x z ≡ false) where
  All-after :
      (a x : A) (xs : List A)
      → before x a ≡ false
      → All (λ y. before y x ≡ false) xs
      → All (λ y. before y a ≡ false) xs
  All-after a x [] h k = tt
  All-after a x (y ∷ xs) h k = (not_trans y x a k.0 h, All-after a x xs h k.1)

  All-insert :
      (a x : A) (xs : List A)
      → before a x ≡ false
      → All (λ y. before y x ≡ false) xs
      → All (λ y. before y x ≡ false) (insert before a xs)
  unfolding insert
  All-insert a x [] h k = (h, tt)
  All-insert a x (y ∷ xs) h k = elim (Bool-cases (before y a)) [
    | inl later ↦ rw later (k.0, All-insert a x xs h k.1)
    | inr sooner ↦ rw sooner (h, k)
  ]

  insert-IsSorted :
      (a : A) (xs : List A) → IsSorted before xs → IsSorted before (insert before a xs)
  unfolding insert
  insert-IsSorted a [] h = (tt, tt)
  insert-IsSorted a (x ∷ xs) h = elim (Bool-cases (before x a)) [
    | inl later ↦ rw later (All-insert a x xs (asym x a later) h.0, insert-IsSorted a xs h.1)
    | inr sooner ↦ rw sooner ((sooner, All-after a x xs sooner h.0), h)
  ]

  pub order_by-IsSorted : (xs : List A) → IsSorted before (order_by before xs)
  unfolding order_by
  order_by-IsSorted [] = tt
  order_by-IsSorted (x ∷ xs) = insert-IsSorted x (order_by before xs) (order_by-IsSorted xs)

-- In a sorted list what stands behind an entry does not come before it.
pub IsSorted-later :
    {A : Type 0} (before : A → A → Bool) (xs ys : List A) (x : A)
    → IsSorted before (xs ++ (x ∷ ys))
    → All (λ y. before y x ≡ false) ys
IsSorted-later before [] ys x h = h.0
IsSorted-later before (w ∷ xs) ys x h = IsSorted-later before xs ys x h.1
