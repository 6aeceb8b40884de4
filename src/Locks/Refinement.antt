-- ===== src/Locks/Refinement.antt =====
-- The calls of backend/app/services/resource_locks.py against the promise of `Locks.Spec`.
use ops_pilot_ai.Base.{
  ℕ, ◌<◌, ◌≤◌, true, false, Option, none, some, List, [], ◌∷◌, ◌++◌, ◌≡◌, ◌≢◌, inl, inr, refl,
  arith, All, In, All-In, All-map, All-append, any, Bool-cases, if◌then◌else◌, is_none, eqb, nat_eq,
  ◌==◌,
}
use ops_pilot_ai.Storage.Tables
use ops_pilot_ai.Storage.Rows.{ResourceLockRecord}
use ops_pilot_ai.Storage.Database.{Db}
use ops_pilot_ai.Locks.{is_active, is_taken}
use ops_pilot_ai.Locks.Rows.{
  Distinct, id_of, resource_of, row_of, row_of-save, row_of-append, row_of-In, row_of-none,
  Distinct-save, Distinct-append,
}
use ops_pilot_ai.Locks.Spec.{Lease, Move, rests, grants}
use ops_pilot_ai.Locks.Storing.{stored}

-- No two lock rows share an identifier or a resource, and the next identifier is new.
pub record IsLockTable (db : Db) : Type 0 where
  pub ids : Distinct id_of db.locks
  pub resources : Distinct resource_of db.locks
  pub below : All (λ (l : ResourceLockRecord). l.id < db.next_id) db.locks

-- A row as the lease that it stands for: a released one has no time left.
unfoldable pub view_of : ResourceLockRecord → Lease
view_of l = record {
  holder = l.action_request_id;
  token = l.fencing_token;
  until = if is_none l.released_at then l.expires_at else 0;
}

abbrev view : Option ResourceLockRecord → Option Lease
view none = none
view (some l) = some (view_of l)

-- The lease of a resource.
unfoldable pub lease : ℕ → Db → Option Lease
lease r db = view (row_of r db.locks)

pub active_until :
    (l : ResourceLockRecord) (now : ℕ) → is_active l now ≡ true → now < (view_of l).until
unfolding view_of
active_until l now h = ground arith

pub inactive_until :
    (l : ResourceLockRecord) (now : ℕ) → is_active l now ≡ false → (view_of l).until ≤ now
unfolding view_of
inactive_until l now h = ground arith

-- `l` is written over the row `lock`, which stands for the lease `k`.
module _ (db db' : Db) (lock l : ResourceLockRecord) (v : IsLockTable db)
    (member : In lock db.locks) (same_id : l.id ≡ lock.id)
    (same_resource : l.resource_id ≡ lock.resource_id) (write : db'.locks ≡ stored l db)
    (ids : db.next_id ≤ db'.next_id) where
  pub write-IsLockTable : IsLockTable db'
  write-IsLockTable = record {
    ids =
        rw write
          (Distinct-save lock l same_id same_resource id_of db.locks same_id member v.ids v.ids);
    resources = rw write (
        Distinct-save lock l same_id same_resource resource_of db.locks same_resource member v.ids
          v.resources);
    below = rw write (
        Tables.All-save id_of (λ (x : ResourceLockRecord). x.id < db'.next_id) l db.locks
          (All-map (λ (x : ResourceLockRecord). x.id < db.next_id)
            (λ (x : ResourceLockRecord). x.id < db'.next_id) (λ x b. omega (arith, b)) db.locks
            v.below)
          (let b =
              All-In (λ (x : ResourceLockRecord). x.id < db.next_id) lock db.locks v.below member in
            omega arith));
  }

  -- The resource of the row then has the lease of `l`, and every other one keeps its own.
  pub write-Move :
      (now : ℕ)
      → Move now (some (view_of lock)) (some (view_of l))
      → (r : ℕ) → Move now (lease r db) (lease r db')
  unfolding lease
  write-Move now m r =
      let e = row_of-save lock l same_id same_resource r db.locks member v.ids v.resources in
      elim (Bool-cases (eqb lock.resource_id r)) [
        | inl t ↦
            let q : lock.resource_id ≡ r = ground arith in
            rw (write, e, t, ← q, row_of-In lock db.locks member v.resources) m
        | inr f ↦ rests (rw (write, e, f) refl)
      ]

free_rows :
    (r : ℕ) (rows : List ResourceLockRecord)
    → any (λ (l : ResourceLockRecord). l.resource_id == r) rows ≡ false
    → All (λ (l : ResourceLockRecord). l.resource_id ≢ r) rows
unfolding any
free_rows r [] h = tt
free_rows r (x ∷ xs) h = (ground arith, free_rows r xs (ground arith))

-- `l` is inserted for a resource that has no row.
module _ (db db' : Db) (l : ResourceLockRecord) (v : IsLockTable db)
    (free : is_taken l.resource_id db ≡ false) (new_id : l.id ≡ db.next_id)
    (write : db'.locks ≡ db.locks ++ l ∷ []) (ids : db.next_id < db'.next_id) where
  others_free : All (λ (y : ResourceLockRecord). y.resource_id ≢ l.resource_id) db.locks
  unfolding is_taken
  others_free = free_rows l.resource_id db.locks free

  pub insert-IsLockTable : IsLockTable db'
  insert-IsLockTable = record {
    ids = rw write (
        Distinct-append id_of db.locks l
          (All-map (λ (x : ResourceLockRecord). x.id < db.next_id)
            (λ (x : ResourceLockRecord). x.id ≢ l.id) (λ x b e. omega (arith, b, e, new_id))
            db.locks v.below)
          v.ids);
    resources = rw write (Distinct-append resource_of db.locks l others_free v.resources);
    below = rw write (
        All-append (λ (x : ResourceLockRecord). x.id < db'.next_id) db.locks l
          (All-map (λ (x : ResourceLockRecord). x.id < db.next_id)
            (λ (x : ResourceLockRecord). x.id < db'.next_id) (λ x b. omega (arith, b)) db.locks
            v.below)
          (omega arith));
  }

  none_before : row_of l.resource_id db.locks ≡ none
  none_before = row_of-none l.resource_id db.locks others_free

  pub insert-Move : (now : ℕ) → l.fencing_token ≡ 1 → (r : ℕ) → Move now (lease r db) (lease r db')
  unfolding lease view_of
  insert-Move now t r =
      let e = row_of-append r db.locks l others_free in
      elim (Bool-cases (eqb l.resource_id r)) [
        | inl s ↦
            let q : l.resource_id ≡ r = ground arith in
            grants (view_of l) (rw (← q, none_before) refl) (rw (write, e, s) refl) t
        | inr f ↦ rests (rw (write, e, f) refl)
      ]
