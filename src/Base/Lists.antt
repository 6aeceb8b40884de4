-- ===== src/Base/Lists.antt =====
-- Lists over the native numbers.
use Prim.Native.Nat.{ℕ, zero, suc}
use mathlib.Core.Bool.{Bool, true, false, ◌&&◌, ◌||◌}
use mathlib.Core.Option.{Option, none, some}
use mathlib.Core.List.{List, [], ◌∷◌, ◌++◌}
use mathlib.Core.Logic.{◌⊎◌, ◌↔◌, inl, inr}
use mathlib.Core.Path.{◌≡◌, refl, sym, ap, subst}
use ops_pilot_ai.Base.Tests.{if◌then◌else◌, Bool-cases}

module _ {ℓ} {A : Type ℓ} where
  abbrev pub length : List A → ℕ
  length [] = 0
  length (x ∷ xs) = suc (length xs)

  abbrev pub take : ℕ → List A → List A
  take zero xs = []
  take (suc n) [] = []
  take (suc n) (x ∷ xs) = x ∷ take n xs

  -- The first entry that passes the test.
  unfoldable pub find : (A → Bool) → List A → Option A
  find p [] = none
  find p (x ∷ xs) = if p x then some x else find p xs

  -- The entries that pass the test, in order.
  unfoldable pub select : (A → Bool) → List A → List A
  select p [] = []
  select p (x ∷ xs) = let rest = select p xs in if p x then x ∷ rest else rest

  unfoldable pub any : (A → Bool) → List A → Bool
  any p [] = false
  any p (x ∷ xs) = p x || any p xs

  unfoldable pub all : (A → Bool) → List A → Bool
  all p [] = true
  all p (x ∷ xs) = p x && all p xs

  -- A predicate of every entry.
  abbrev pub All {κ} : (A → Type κ) → List A → Type κ
  All P [] = Unit
  All P (x ∷ xs) = P x × All P xs

-- Membership, with the place kept.
abbrev pub In : {A : Type 0} → A → List A → Type 0
In a [] = ⊥
In a (x ∷ xs) = (a ≡ x) ⊎ In a xs

pub All-In : {A : Type 0} (P : A → Type 0) (a : A) (xs : List A) → All P xs → In a xs → P a
All-In P a [] h m = absurd m
All-In P a (x ∷ xs) h (inl e) = subst P (sym e) h.0
All-In P a (x ∷ xs) h (inr m) = All-In P a xs h.1 m

-- An entry of `select p xs` is an entry of `xs` that passes the test.
pub In-select :
    {A : Type 0} (p : A → Bool) (b : A) (xs : List A)
    → In b (select p xs) ↔ (In b xs × (p b ≡ true))
unfolding select
In-select p b [] = (λ h. absurd h, λ h. absurd h.0)
In-select p b (x ∷ xs) = elim (Bool-cases (p x)) [
  | inl t ↦ rw t (
    elim [ inl e ↦ (inl e, rw e t) | inr m ↦ let (k, u) = (In-select p b xs).0 m in (inr k, u) ],
    λ (m, u). elim m [ inl e ↦ inl e | inr k ↦ inr ((In-select p b xs).1 (k, u)) ],
  )
  | inr f ↦ rw f (
    λ m. let (k, u) = (In-select p b xs).0 m in (inr k, u),
    λ (m, u). elim m [ inl e ↦ absurd (cc (u, f, ap p e)) | inr k ↦ (In-select p b xs).1 (k, u) ],
  )
]

pub In-append : {A : Type 0} (b : A) (xs ys : List A) → In b (xs ++ ys) → In b xs ⊎ In b ys
In-append b [] ys h = inr h
In-append b (x ∷ xs) ys (inl e) = inl (inl e)
In-append b (x ∷ xs) ys (inr m) = elim (In-append b xs ys m) [ inl k ↦ inl (inr k) | inr k ↦ inr k ]

pub In-middle : {A : Type 0} (b : A) (xs ys : List A) → In b (xs ++ (b ∷ ys))
In-middle b [] ys = inl refl
In-middle b (x ∷ xs) ys = inr (In-middle b xs ys)

pub All-append {ℓ κ} :
    {A : Type ℓ} (P : A → Type κ) (xs : List A) (y : A) → All P xs → P y → All P (xs ++ (y ∷ []))
All-append P [] y h p = (p, tt)
All-append P (x ∷ xs) y h p = (h.0, All-append P xs y h.1 p)

pub All-map {ℓ κ} :
    {A : Type ℓ} (P Q : A → Type κ) → ((a : A) → P a → Q a) → (xs : List A) → All P xs → All Q xs
All-map P Q f [] h = tt
All-map P Q f (x ∷ xs) h = (f x h.0, All-map P Q f xs h.1)

pub All-of : {A : Type 0} (P : A → Type 0) (xs : List A) → ((a : A) → In a xs → P a) → All P xs
All-of P [] f = tt
All-of P (x ∷ xs) f = (f x (inl refl), All-of P xs (λ a m. f a (inr m)))

pub In-take : {A : Type 0} (b : A) (n : ℕ) (xs : List A) → In b (take n xs) → In b xs
In-take b zero xs h = absurd h
In-take b (suc n) [] h = absurd h
In-take b (suc n) (x ∷ xs) (inl e) = inl e
In-take b (suc n) (x ∷ xs) (inr m) = inr (In-take b n xs m)

pub All-select :
    {A : Type 0} (P : A → Type 0) (f : A → Bool) (xs : List A) → All P xs → All P (select f xs)
All-select P f xs h = All-of P (select f xs) (λ a m. All-In P a xs h ((In-select f a xs).0 m).0)

-- What `find` returns stands in the list and passes the test.
pub find-In :
    {A : Type 0} (p : A → Bool) (b : A) (xs : List A) → find p xs ≡ some b → In b xs × (p b ≡ true)
unfolding find
find-In p b [] h = absurd (cc h)
find-In p b (x ∷ xs) h = elim (Bool-cases (p x)) [
  | inl t ↦ let e : x ≡ b = cc (rw t at h) in (inl (sym e), cc (ap p e, t))
  | inr f ↦ let (m, u) = find-In p b xs (rw f at h) in (inr m, u)
]

pub any-false :
    {A : Type 0} (p : A → Bool) (xs : List A) → any p xs ≡ false → All (λ x. p x ≡ false) xs
unfolding any
any-false p [] h = tt
any-false p (x ∷ xs) h = elim (Bool-cases (p x)) [
  | inl t ↦ absurd (cc (rw t at h))
  | inr f ↦ (f, any-false p xs (rw f at h))
]

-- Where `find` returns nothing, no entry passes the test.
pub find-none :
    {A : Type 0} (p : A → Bool) (xs : List A) → find p xs ≡ none → All (λ x. p x ≡ false) xs
unfolding find
find-none p [] h = tt
find-none p (x ∷ xs) h = elim (Bool-cases (p x)) [
  | inl t ↦ absurd (cc (rw t at h))
  | inr f ↦ (f, find-none p xs (rw f at h))
]

-- An entry at the end counts if it passes the test.
pub length-select-append {ℓ} :
    {A : Type ℓ} (p : A → Bool) (xs : List A) (y : A)
    → length (select p (xs ++ y ∷ []))
      ≡ (if p y then suc (length (select p xs)) else length (select p xs))
unfolding select
length-select-append p [] y = elim (Bool-cases (p y)) [ inl t ↦ rw t refl | inr f ↦ rw f refl ]
length-select-append p (x ∷ xs) y =
    let e = length-select-append p xs y in
    elim (Bool-cases (p x)) [
      | inl t ↦ elim (Bool-cases (p y)) [
        | inl u ↦ rw (t, u) (ap (λ (n : ℕ). suc n) (rw u at e))
        | inr u ↦ rw (t, u) (ap (λ (n : ℕ). suc n) (rw u at e))
      ]
      | inr f ↦ rw f e
    ]

-- Nothing passes before the end, and the last entry does.
pub find-append {ℓ} :
    {A : Type ℓ} (p : A → Bool) (xs : List A) (y : A)
    → find p xs ≡ none
    → p y ≡ true
    → find p (xs ++ y ∷ []) ≡ some y
unfolding find
find-append p [] y n t = rw t refl
find-append p (x ∷ xs) y n t = elim (Bool-cases (p x)) [
  | inl u ↦ absurd (cc (rw u at n))
  | inr u ↦ rw u (find-append p xs y (rw u at n) t)
]
