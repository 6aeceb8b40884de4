-- ===== src/Locks/Ageing.antt =====
-- Any number of changes of the lock table of backend/app/services/resource_locks.py, one after the
-- other.
use ops_pilot_ai.Base.{ℕ, ◌<◌, ◌≤◌, Option, some, ◌≡◌, ◌≢◌, inl, inr, refl, arith, Bool-cases, eqb}
use ops_pilot_ai.Storage.Database.{Db}
use ops_pilot_ai.Locks.Spec.{Lease, Move, rests, grants, passes, changes, ends}
use ops_pilot_ai.Locks.Refinement.{IsLockTable, lease}
use ops_pilot_ai.Locks.Histories.{Called, Called-Keeps}

pub data Run : Db → Db → Type 0 where
  here : {db : Db} → Run db db
  after : {db db' db'' : Db} (now : ℕ) → Called now db db' → Run db' db'' → Run db db''

-- A lease is as old as another when its token is at least as high, and is higher for a different
-- holder.
pub record Follows (k l : Lease) : Type 0 where
  pub token_kept : k.token ≤ l.token
  pub holder_kept : k.holder ≢ l.holder → k.token < l.token

Move-Follows :
    (now : ℕ) (k : Lease) (w : Option Lease)
    → Move now (some k) w
    → (l : Lease) × (w ≡ some l) × Follows k l
Move-Follows now k w (rests e) =
    (k, e, record { token_kept = omega arith; holder_kept = λ n. absurd (n refl) })
Move-Follows now k w (grants l e _ _) = absurd (ground (arith, e))
Move-Follows now k w (passes o l e _ f t) =
    let s : o ≡ k = ground (arith, e) in
    (l, f, rw (← s) record { token_kept = omega (arith, t); holder_kept = λ n. omega (arith, t) })
Move-Follows now k w (changes o l e _ f same t) =
    let s : o ≡ k = ground (arith, e) in
    (
      l,
      f,
      rw (← s) record { token_kept = omega (arith, t); holder_kept = λ n. absurd (n (cc same)) },
    )
Move-Follows now k w (ends o l e f same t _) =
    let s : o ≡ k = ground (arith, e) in
    (
      l,
      f,
      rw (← s) record { token_kept = omega (arith, t); holder_kept = λ n. absurd (n (cc same)) },
    )

Follows-trans : (j k l : Lease) → Follows j k → Follows k l → Follows j l
Follows-trans j k l f g =
    let a = f.token_kept in
    let b = g.token_kept in
    record {
      token_kept = omega arith;
      holder_kept = λ n. elim (Bool-cases (eqb j.holder k.holder)) [
        | inl e ↦
            let s : j.holder ≡ k.holder = ground arith in
            let c = g.holder_kept (λ t. n (cc (s, t))) in omega arith
        | inr e ↦ let c = f.holder_kept (λ t. ground arith) in omega arith
      ];
    }

-- From a table in which no two lock rows share an identifier or a resource and the next identifier
-- is above all of theirs, after any sequence of such changes as Called-Keeps is about, the table is
-- still such a table; a resource that had a lease has one, whose fencing token is at least as high,
-- and strictly higher when its holder is another action.
pub Run-Follows :
    (db db' : Db)
    → IsLockTable db
    → Run db db'
    → IsLockTable db'
      × ((r : ℕ) (k : Lease)
          → lease r db ≡ some k
          → (l : Lease) × (lease r db' ≡ some l) × Follows k l)
Run-Follows db _ v here =
    (v, λ r k e. (k, e, record { token_kept = omega arith; holder_kept = λ n. absurd (n refl) }))
Run-Follows db db'' v (after {db' = db'} now s t) =
    let (v', move) = Called-Keeps now db db' v s in
    let (v'', rest) = Run-Follows db' db'' v' t in
    (
      v'',
      λ r k e.
          let (l, f, o) = Move-Follows now k (lease r db') (rw e at (move r)) in
          let (m, g, q) = rest r l f in (m, g, Follows-trans k l m o q),
    )
