-- ===== src/Base/Equality.antt =====
-- Python's `==` and `in`: one operator for every type that has an instance of `HasEquals`.
use Prim.Native.Nat.{ℕ}
use Prim.Native.String.{String}
use mathlib.Core.Path.{◌≡◌, refl}
use mathlib.Core.Logic.{◌↔◌}
use mathlib.Core.Bool.{Bool, true, false, ◌||◌}
use mathlib.Core.Option.{Option, none, some}
use mathlib.Core.List.{List, [], ◌∷◌}
use native.Mathlib.Omega.{arith}
use text.Mathlib.Text.{◌==◌ as str_eq}
use text.Mathlib.TextEquality.{eq_iff}
use ops_pilot_ai.Base.Tests.{eqb}

pub record HasEquals {ℓ} (A : Type ℓ) : Type ℓ where
  pub equals : A → A → Bool
  pub equals_iff : (a b : A) → (equals a b ≡ true) ↔ (a ≡ b)

infix 50 ◌==◌
abbrev pub ◌==◌ {ℓ} : {A : Type ℓ} ⦃e : HasEquals A⦄ → A → A → Bool
◌==◌ ⦃e⦄ = e.equals

pub eqb_iff : (a b : ℕ) → (eqb a b ≡ true) ↔ (a ≡ b)
eqb_iff a b = ground arith

instance abbrev pub nat_eq : HasEquals ℕ
nat_eq = record { equals = eqb; equals_iff = eqb_iff }

instance abbrev pub string_eq : HasEquals String
string_eq = record { equals = str_eq; equals_iff = eq_iff }

-- Equality of an enumeration, from a decision of equality.
abbrev pub dec_beq {ℓ} : {A : Type ℓ} {a b : A} → Dec (a ≡ b) → Bool
dec_beq (yes p) = true
dec_beq (no p) = false

pub dec_beq_iff {ℓ} : {A : Type ℓ} {a b : A} (d : Dec (a ≡ b)) → (dec_beq d ≡ true) ↔ (a ≡ b)
dec_beq_iff (yes p) = (λ h. p, λ h. refl)
dec_beq_iff (no p) = (λ h. cc h, λ h. absurd (p h))

abbrev pub of_discrete {ℓ} : {A : Type ℓ} → Discrete A → HasEquals A
of_discrete d = record { equals = λ a b. dec_beq (d a b); equals_iff = λ a b. dec_beq_iff (d a b) }

module _ {ℓ} {A : Type ℓ} ⦃e : HasEquals A⦄ where
  abbrev pub contains : List A → A → Bool
  contains [] a = false
  contains (x ∷ xs) a = a == x || contains xs a

  abbrev pub option_beq : Option A → Option A → Bool
  option_beq none none = true
  option_beq (some a) (some b) = a == b
  option_beq _ _ = false
