-- ===== src/Locks/Rows.antt =====
-- Lock rows whose identifiers and resources are all different: what a write and an insertion do.
use ops_pilot_ai.Base.{
  ℕ, Option, none, some, List, [], ◌∷◌, ◌++◌, ◌≡◌, ◌≢◌, inl, inr, refl, arith, ap, ◌∙◌, All, All-In,
  In, All-append, if◌then◌else◌, nat_eq, eqb,
}
use ops_pilot_ai.Storage.Tables
use ops_pilot_ai.Storage.Rows.{ResourceLockRecord}

-- The rows have different values of the column `key`.
abbrev pub Distinct : (ResourceLockRecord → ℕ) → List ResourceLockRecord → Type 0
Distinct key [] = Unit
Distinct key (x ∷ xs) = All (λ (y : ResourceLockRecord). key x ≢ key y) xs × Distinct key xs

abbrev pub id_of : ResourceLockRecord → ℕ
id_of l = l.id

abbrev pub resource_of : ResourceLockRecord → ℕ
resource_of l = l.resource_id

-- The row of a resource.
unfoldable pub row_of : ℕ → List ResourceLockRecord → Option ResourceLockRecord
row_of r [] = none
row_of r (l ∷ ls) = if eqb l.resource_id r then some l else row_of r ls

module _ (lock l : ResourceLockRecord) (same_id : l.id ≡ lock.id)
    (same_resource : l.resource_id ≡ lock.resource_id) where
  save_head :
      (x : ResourceLockRecord) (xs : List ResourceLockRecord)
      → lock ≡ x
      → Tables.save id_of l (x ∷ xs) ≡ l ∷ xs
  unfolding Tables.save
  save_head x xs e = let k = ap id_of e in ground arith

  save_tail :
      (x : ResourceLockRecord) (xs : List ResourceLockRecord)
      → x.id ≢ lock.id
      → Tables.save id_of l (x ∷ xs) ≡ x ∷ Tables.save id_of l xs
  unfolding Tables.save
  save_tail x xs n = ground arith

  row_of_head :
      (r : ℕ) (x : ResourceLockRecord) (xs : List ResourceLockRecord)
      → lock.resource_id ≡ x.resource_id
      → row_of r (l ∷ xs) ≡ (if eqb lock.resource_id r then some l else row_of r (x ∷ xs))
  unfolding row_of
  row_of_head r x xs e = ground arith

  row_of_step :
      (r : ℕ) (x : ResourceLockRecord) (xs ys : List ResourceLockRecord)
      → x.resource_id ≢ lock.resource_id
      → row_of r ys ≡ (if eqb lock.resource_id r then some l else row_of r xs)
      → row_of r (x ∷ ys) ≡ (if eqb lock.resource_id r then some l else row_of r (x ∷ xs))
  unfolding row_of
  row_of_step r x xs ys n ih = ground arith

  pub row_of-save :
      (r : ℕ) (rows : List ResourceLockRecord)
      → In lock rows
      → Distinct id_of rows
      → Distinct resource_of rows
      → row_of r (Tables.save id_of l rows)
        ≡ (if eqb lock.resource_id r then some l else row_of r rows)
  row_of-save r [] m i d = absurd m
  row_of-save r (x ∷ xs) (inl e) i d = rw (save_head x xs e) (row_of_head r x xs (ap resource_of e))
  row_of-save r (x ∷ xs) (inr m) i d =
      rw (save_tail x xs (All-In (λ (y : ResourceLockRecord). x.id ≢ y.id) lock xs i.0 m)) (
        row_of_step r x xs (Tables.save id_of l xs)
          (All-In (λ (y : ResourceLockRecord). x.resource_id ≢ y.resource_id) lock xs d.0 m)
          (row_of-save r xs m i.1 d.1))

  pub Distinct-save :
      (key : ResourceLockRecord → ℕ) (rows : List ResourceLockRecord)
      → key l ≡ key lock
      → In lock rows
      → Distinct id_of rows
      → Distinct key rows
      → Distinct key (Tables.save id_of l rows)
  Distinct-save key [] k m i d = absurd m
  Distinct-save key (x ∷ xs) k (inl e) i d = rw (save_head x xs e) (rw (k ∙ ap key e) d.0, d.1)
  Distinct-save key (x ∷ xs) k (inr m) i d =
      rw (save_tail x xs (All-In (λ (y : ResourceLockRecord). x.id ≢ y.id) lock xs i.0 m)) (
        Tables.All-save id_of (λ (y : ResourceLockRecord). key x ≢ key y) l xs d.0
            (rw k (All-In (λ (y : ResourceLockRecord). key x ≢ key y) lock xs d.0 m)),
        Distinct-save key xs k m i.1 d.1,
      )

-- An insertion of a row whose key no other row has.
pub Distinct-append :
    (key : ResourceLockRecord → ℕ) (rows : List ResourceLockRecord) (l : ResourceLockRecord)
    → All (λ (y : ResourceLockRecord). key y ≢ key l) rows
    → Distinct key rows
    → Distinct key (rows ++ l ∷ [])
Distinct-append key [] l n d = (tt, tt)
Distinct-append key (x ∷ xs) l n d = (
  All-append (λ (y : ResourceLockRecord). key x ≢ key y) xs l d.0 n.0,
  Distinct-append key xs l n.1 d.1,
)

pub row_of-append :
    (r : ℕ) (rows : List ResourceLockRecord) (l : ResourceLockRecord)
    → All (λ (y : ResourceLockRecord). y.resource_id ≢ l.resource_id) rows
    → row_of r (rows ++ l ∷ []) ≡ (if eqb l.resource_id r then some l else row_of r rows)
unfolding row_of
row_of-append r [] l n = refl
row_of-append r (x ∷ xs) l n = let h = n.0 in ground (arith, row_of-append r xs l n.1)

-- A row of the table is the row of its resource.
pub row_of-In :
    (lock : ResourceLockRecord) (rows : List ResourceLockRecord)
    → In lock rows
    → Distinct resource_of rows
    → row_of lock.resource_id rows ≡ some lock
unfolding row_of
row_of-In lock [] m d = absurd m
row_of-In lock (x ∷ xs) (inl e) d = let k = ap resource_of e in ground arith
row_of-In lock (x ∷ xs) (inr m) d =
    let n = All-In (λ (y : ResourceLockRecord). x.resource_id ≢ y.resource_id) lock xs d.0 m in
    ground (arith, row_of-In lock xs m d.1)

pub row_of-none :
    (r : ℕ) (rows : List ResourceLockRecord)
    → All (λ (y : ResourceLockRecord). y.resource_id ≢ r) rows
    → row_of r rows ≡ none
unfolding row_of
row_of-none r [] n = refl
row_of-none r (x ∷ xs) n = let h = n.0 in ground (arith, row_of-none r xs n.1)
