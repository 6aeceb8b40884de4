-- ===== src/Base/Decimals.antt =====
-- Python's `int` and `str` on the decimal spellings of natural numbers.
use Prim.Native.Nat.{ℕ, zero, suc, ◌+◌, ◌-◌, ◌*◌, ◌/◌, ◌%◌, ◌<◌}
use Prim.Native.Char.{Char, code}
use Prim.Native.String.{String, [], ◌∷◌, char_at}
use mathlib.Core.Bool.{◌&&◌}
use mathlib.Core.Option.{Option, none, some}
use mathlib.Core.Logic.{inl, inr}
use mathlib.Core.Path.{◌≡◌, refl, sym, ap, ◌∙◌}
use native.Mathlib.Omega.{arith}
use ops_pilot_ai.Base.Tests.{leb, ltb, if◌then◌else◌, Bool-cases}

unfoldable pub digit : ℕ → Char
digit d = char_at "0123456789" d

-- The digits of a number before `rest`; a number has fewer digits than its successor counts.
unfoldable pub spell : ℕ → ℕ → String → String
unfolding digit
spell zero n rest = rest
spell (suc fuel) n rest =
    let more = spell fuel (n / 10) (digit (n % 10) ∷ rest) in
    if ltb n 10 then digit (n % 10) ∷ rest else more

-- `str`
unfoldable pub str : ℕ → String
unfolding spell
str n = spell (suc n) n []

unfoldable pub digits : ℕ → String → Option ℕ
digits n [] = some n
digits n (ch ∷ rest) =
    let c = code ch in
    let more = digits (n * 10 + (c - 48)) rest in if leb 48 c && leb c 57 then more else none

-- `int` on a text of the digits 0 to 9.
unfoldable pub int : String → Option ℕ
unfolding digits
int [] = none
int (ch ∷ rest) = digits 0 (ch ∷ rest)

code-digit : (d : ℕ) → d < 10 → code (digit d) ≡ 48 + d
unfolding digit
code-digit zero h = refl
code-digit (suc zero) h = refl
code-digit (suc (suc zero)) h = refl
code-digit (suc (suc (suc zero))) h = refl
code-digit (suc (suc (suc (suc zero)))) h = refl
code-digit (suc (suc (suc (suc (suc zero))))) h = refl
code-digit (suc (suc (suc (suc (suc (suc zero)))))) h = refl
code-digit (suc (suc (suc (suc (suc (suc (suc zero))))))) h = refl
code-digit (suc (suc (suc (suc (suc (suc (suc (suc zero)))))))) h = refl
code-digit (suc (suc (suc (suc (suc (suc (suc (suc (suc zero))))))))) h = refl
code-digit (suc (suc (suc (suc (suc (suc (suc (suc (suc (suc n)))))))))) h =
    absurd (omega (arith, h))

digits_step :
    (n d : ℕ) (rest : String) → d < 10 → digits n (digit d ∷ rest) ≡ digits (n * 10 + d) rest
unfolding digits
digits_step n d rest h = ground (arith, code-digit d)

digits-spell :
    (fuel n : ℕ) (rest : String) → n < fuel → digits 0 (spell fuel n rest) ≡ digits n rest
unfolding spell
digits-spell zero n rest h = absurd (omega (arith, h))
digits-spell (suc fuel) n rest h = elim (Bool-cases (ltb n 10)) [
  | inl t ↦ rw t (
      digits_step 0 (n % 10) rest (omega arith)
      ∙ ap (λ (m : ℕ). digits m rest) (let k = t in ground arith))
  | inr f ↦ rw f (
      digits-spell fuel (n / 10) (digit (n % 10) ∷ rest) (let k = f in ground (arith, h))
      ∙ (digits_step (n / 10) (n % 10) rest (omega arith)
          ∙ ap (λ (m : ℕ). digits m rest) (omega arith)))
]

spell_more :
    (fuel n : ℕ) (ch : Char) (rest : String)
    → int (spell fuel n (ch ∷ rest)) ≡ digits 0 (spell fuel n (ch ∷ rest))
unfolding int spell
spell_more zero n ch rest = refl
spell_more (suc fuel) n ch rest = elim (Bool-cases (ltb n 10)) [
  | inl t ↦ rw t refl
  | inr f ↦ rw f (spell_more fuel (n / 10) (digit (n % 10)) (ch ∷ rest))
]

spell-int : (fuel n : ℕ) → int (spell (suc fuel) n []) ≡ digits 0 (spell (suc fuel) n [])
unfolding int spell
spell-int fuel n = elim (Bool-cases (ltb n 10)) [
  | inl t ↦ rw t refl
  | inr f ↦ rw f (spell_more fuel (n / 10) (digit (n % 10)) [])
]

-- What `str` spells, `int` reads.
pub int-str : (n : ℕ) → int (str n) ≡ some n
unfolding str digits
int-str n = spell-int n n ∙ digits-spell (suc n) n [] (omega arith)

-- Different numbers are spelled differently.
pub str-inj : (n m : ℕ) → str n ≡ str m → n ≡ m
str-inj n m e =
    let k : some n ≡ some m = sym (int-str n) ∙ (ap int e ∙ int-str m) in ground (arith, k)
