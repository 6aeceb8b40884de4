-- ===== src/Storage/Tables.antt =====
-- A table is the list of its rows, in the order of insertion; a row is found by a key of its own.
use mathlib.Core.Path.{subst}
use ops_pilot_ai.Base.{
  ℕ, List, [], ◌∷◌, ◌++◌, Option, none, some, ◌≡◌, refl, arith, eqb, All, Bool-cases, inl, inr,
  if◌then◌else◌, is_some,
}

-- `select(T).where(T.key == k)` on a unique key
module _ {A : Type 0} (key : A → ℕ) where
  unfoldable pub get : ℕ → List A → Option A
  get k [] = none
  get k (r ∷ rows) = if eqb (key r) k then some r else get k rows

  -- The row with the key of `r` is written over by `r`.
  unfoldable pub save : A → List A → List A
  save r [] = []
  save r (x ∷ rows) = if eqb (key x) (key r) then r ∷ rows else x ∷ save r rows

  pub get-save :
      (r : A) (k : ℕ) (rows : List A)
      → get k (save r rows) ≡ (
          if eqb (key r) k
          then (if is_some (get (key r) rows) then some r else none)
          else get k rows)
  unfolding get save
  get-save r k [] = ground arith
  get-save r k (x ∷ rows) = ground (arith, get-save r k rows)

  pub get-append :
      (k : ℕ) (rows : List A) (r : A)
      → get k (rows ++ r ∷ [])
        ≡ (if is_some (get k rows) then get k rows else if eqb (key r) k then some r else none)
  unfolding get
  get-append k [] r = refl
  get-append k (x ∷ rows) r = ground (arith, get-append k rows r)

  -- What is found under a key has that key.
  pub get_key : (k : ℕ) (rows : List A) (r : A) → get k rows ≡ some r → key r ≡ k
  unfolding get
  get_key k [] r h = ground arith
  get_key k (x ∷ rows) r h = ground (arith, get_key k rows r)

  -- A write keeps what holds of every row, if it holds of the row written.
  pub All-save {κ} :
      (P : A → Type κ) (r : A) (rows : List A) → All P rows → P r → All P (save r rows)
  unfolding save
  All-save P r [] h p = tt
  All-save P r (x ∷ rows) h p = elim (Bool-cases (eqb (key x) (key r))) [
    | inl e ↦ rw e (p, h.1)
    | inr n ↦ rw n (h.0, All-save P r rows h.1 p)
  ]

  pub All-get {κ} :
      (P : A → Type κ) (k : ℕ) (rows : List A) (r : A) → All P rows → get k rows ≡ some r → P r
  unfolding get
  All-get P k [] r h e = absurd (ground arith)
  All-get P k (x ∷ rows) r h e = elim (Bool-cases (eqb (key x) k)) [
    | inl t ↦ subst P (cc (rw t at e)) h.0
    | inr f ↦ All-get P k rows r h.1 (rw f at e)
  ]
