-- ===== src/Domain/Machine.antt =====
-- What the four transition tables of backend/app/domain share: a status moves along its table.
use ops_pilot_ai.Base.{List, true, [], ◌∷◌, ◌≡◌, HasEquals, contains}

-- `u` can be reached from `s` by moves that the table allows.
pub data Reach {S : Type 0} ⦃e : HasEquals S⦄ (table : S → List S) (s : S) : S → Type 0 where
  here : Reach table s s
  next : {t u : S} → Reach table s t → contains (table t) u ≡ true → Reach table s u

-- The statuses that a record has had, the latest first, when every change was allowed.
pub data History {S : Type 0} ⦃e : HasEquals S⦄ (table : S → List S) (start : S)
    : List S → S → Type 0 where
  opened : (h : List S) → h ≡ start ∷ [] → History table start h start
  moved :
      {h : List S} {s : S} (k : List S) (t : S)
      → History table start h s
      → contains (table s) t ≡ true
      → k ≡ t ∷ h
      → History table start k t

-- A run may be extended at its start.
pub before :
    {S : Type 0} ⦃e : HasEquals S⦄ {table : S → List S} {s t u : S}
    → contains (table s) t ≡ true
    → Reach table t u
    → Reach table s u
before a here = next here a
before a (next r b) = next (before a r) b

pub trans :
    {S : Type 0} ⦃e : HasEquals S⦄ {table : S → List S} {s t u : S}
    → Reach table s t
    → Reach table t u
    → Reach table s u
trans r here = r
trans r (next q a) = next (trans r q) a
