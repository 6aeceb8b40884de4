-- ===== src/Locks/Spec.antt =====
-- What the leases of backend/app/services/resource_locks.py promise for each resource, apart from
-- how the rows keep it.
use ops_pilot_ai.Base.{ℕ, ◌+◌, ◌<◌, ◌≤◌, Option, none, some, ◌≡◌}

-- Who holds a resource, with which token, until when.
pub record Lease : Type 0 where
  pub holder : ℕ
  pub token : ℕ
  pub until : ℕ

-- What a call at the time `now` may do to the lease of one resource.
pub data Move (now : ℕ) (v w : Option Lease) : Type 0 where
  rests : w ≡ v → Move now v w
  grants : (l : Lease) → v ≡ none → w ≡ some l → l.token ≡ 1 → Move now v w
  passes :
      (k l : Lease) → v ≡ some k → k.until ≤ now → w ≡ some l → l.token ≡ k.token + 1 → Move now v w
  changes :
      (k l : Lease)
      → v ≡ some k
      → now < k.until
      → w ≡ some l
      → l.holder ≡ k.holder
      → l.token ≡ k.token
      → Move now v w
  ends :
      (k l : Lease)
      → v ≡ some k
      → w ≡ some l
      → l.holder ≡ k.holder
      → l.token ≡ k.token
      → l.until ≡ 0
      → Move now v w
