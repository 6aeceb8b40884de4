-- ===== src/Locks/Calls.antt =====
-- The calls of backend/app/services/resource_locks.py, one by one, against `Locks.Spec`.
use ops_pilot_ai.Base.{
  ℕ, ◌<◌, ◌≤◌, Bool, false, ◌&&◌, Option, none, some, ◌≡◌, inl, inr, refl, arith, ap, In, find-In,
  Option-cases, Result-cases, ok, nat_eq, ◌==◌, All-map,
}
use ops_pilot_ai.Domain.Security.{ActorId}
use ops_pilot_ai.Storage.Rows.{ActionRequestRecord, ResourceLockRecord}
use ops_pilot_ai.Storage.Database.{Db}
use ops_pilot_ai.Storage.Database.Scope.{Context, in_scope}
use ops_pilot_ai.Storage.Repositories.{get_action, get_lock_for_resource, get_lock_for_action}
use ops_pilot_ai.Locks.{
  revalidate_authorization, is_taken, acquire, renew, release, ended, release_for_action,
}
use ops_pilot_ai.Locks.Acquire.{revalidate-Revalidated}
use ops_pilot_ai.Locks.Spec.{Move, rests, passes, changes, ends}
use ops_pilot_ai.Locks.Storing.{saved, creation_stores}
use ops_pilot_ai.Locks.Creation.{acquire-Created}
use ops_pilot_ai.Locks.Fencing.{acquire-Acquired, acquire-le-next_id, not_authorized, no_action}
use ops_pilot_ai.Locks.Leases.{renew_keeps_token, release_ends_lease}
use ops_pilot_ai.Locks.Refinement.{
  IsLockTable, lease, view_of, write-IsLockTable, write-Move, insert-IsLockTable, insert-Move,
  active_until, inactive_until,
}

-- What is promised of each change.
abbrev pub Keeps : ℕ → Db → Db → Type 0
Keeps now db db' = IsLockTable db' × ((r : ℕ) → Move now (lease r db) (lease r db'))

pub other-Keeps :
    (now : ℕ) (db db' : Db)
    → IsLockTable db
    → db'.locks ≡ db.locks
    → db.next_id ≤ db'.next_id
    → Keeps now db db'
unfolding lease
other-Keeps now db db' v e n = (
  record {
    ids = rw e v.ids;
    resources = rw e v.resources;
    below = rw e (
        All-map (λ (x : ResourceLockRecord). x.id < db.next_id)
          (λ (x : ResourceLockRecord). x.id < db'.next_id) (λ x b. omega (arith, b)) db.locks
          v.below);
  },
  λ r. rests (rw e refl),
)

found_for_resource :
    (c : Context) (r : ℕ) (db : Db) (l : ResourceLockRecord)
    → get_lock_for_resource c r db ≡ some l
    → In l db.locks × (l.resource_id ≡ r)
unfolding get_lock_for_resource
found_for_resource c r db l h =
    let (m, p) =
      find-In (λ (x : ResourceLockRecord). x.resource_id == r && in_scope c x.environment_id) l
        db.locks h in
    (m, ground arith)

found_for_action :
    (c : Context) (i : ℕ) (db : Db) (l : ResourceLockRecord)
    → get_lock_for_action c i db ≡ some l
    → In l db.locks
unfolding get_lock_for_action
found_for_action c i db l h = (find-In _ l db.locks h).0

-- A call of `acquire` on a resource that has a row.
acquire_row :
    (c : Context) (n i : ℕ) (commit : Bool) (p a now : ℕ) (db db' : Db)
    (action : ActionRequestRecord) (lock l : ResourceLockRecord) (again : Bool)
    → IsLockTable db
    → get_action c i db ≡ some action
    → revalidate_authorization c action.policy_decision_id action.approval_id action.parameters p a
        db
      ≡ ok (tt, db)
    → get_lock_for_resource c action.resource_id db ≡ some lock
    → acquire c n i commit p a now db ≡ ok ((l, again), db')
    → Keeps now db db'
unfolding view_of
acquire_row c n i commit p a now db db' action lock l again v g f s h =
    let k = acquire-Acquired c n i commit p a now db db' action lock l again g s h in
    let ids = acquire-le-next_id c n i commit p a now db db' action lock l again g f s h in
    let (m, e) = found_for_resource c action.resource_id db lock s in
    elim k.outcome [
      | inl (x, y, z) ↦ other-Keeps now db db' v (ap (λ (d : Db). d.locks) y) ids
      | inr (x, t, w) ↦ (
        write-IsLockTable db db' lock l v m t.same_row t.same_resource w ids,
        write-Move db db' lock l v m t.same_row t.same_resource w ids now (
            passes (view_of lock) (view_of l) refl (inactive_until lock now t.was_free) refl
              t.next_token),
      )
    ]

-- A call of `acquire` on a resource that has none.
acquire_creates :
    (c : Context) (n i : ℕ) (commit : Bool) (p a now : ℕ) (db db' : Db)
    (action : ActionRequestRecord) (l : ResourceLockRecord) (again : Bool)
    → IsLockTable db
    → get_action c i db ≡ some action
    → revalidate_authorization c action.policy_decision_id action.approval_id action.parameters p a
        db
      ≡ ok (tt, db)
    → get_lock_for_resource c action.resource_id db ≡ none
    → acquire c n i commit p a now db ≡ ok ((l, again), db')
    → Keeps now db db'
acquire_creates c n i commit p a now db db' action l again v g f s h =
    let (x, k, r) = acquire-Created c n i commit p a now db db' action l again g s h in
    let (new_id, w, ids) =
      creation_stores c n i commit p a now db db' action l again g f s k.was_free h in
    let free : is_taken l.resource_id db ≡ false = rw k.resource k.was_free in
    (
      insert-IsLockTable db db' l v free new_id w ids,
      insert-Move db db' l v free new_id w ids now k.first_token,
    )

pub acquire-Keeps :
    (c : Context) (n i : ℕ) (commit : Bool) (p a now : ℕ) (db db' : Db) (l : ResourceLockRecord)
    (again : Bool)
    → IsLockTable db
    → acquire c n i commit p a now db ≡ ok ((l, again), db')
    → Keeps now db db'
acquire-Keeps c n i commit p a now db db' l again v h = elim (Option-cases (get_action c i db)) [
  | inl e ↦ absurd (no_action c n i commit p a now db e h)
  | inr (action, g) ↦
      elim (Result-cases (
        revalidate_authorization c action.policy_decision_id action.approval_id action.parameters p
          a db)) [
            | inr (e, f) ↦ absurd (not_authorized c n i commit p a now db action e g f h)
            | inl ((u, db₁), f) ↦
                let (_, same) =
                  revalidate-Revalidated c action.policy_decision_id action.approval_id
                    action.parameters p a db db₁ f in
                let f' = rw same at f in
                elim (Option-cases (get_lock_for_resource c action.resource_id db)) [
                  | inl s ↦ acquire_creates c n i commit p a now db db' action l again v g f' s h
                  | inr (lock, s) ↦
                      acquire_row c n i commit p a now db db' action lock l again v g f' s h
                ]
          ]
]

pub renew-Keeps :
    (c : Context) (n i token now written : ℕ) (db db' : Db) (l : ResourceLockRecord)
    → IsLockTable db
    → 0 < n
    → renew c n i token now written db ≡ ok (l, db')
    → Keeps now db db'
unfolding view_of
renew-Keeps c n i token now written db db' l v p h =
    let (lock, o, e, w, t, _) = renew_keeps_token c n i token now written db db' l p h in
    let m = found_for_action c i db lock o.found in
    let same_id : l.id ≡ lock.id = ap (λ (x : ResourceLockRecord). x.id) e in
    let same_resource : l.resource_id ≡ lock.resource_id =
      ap (λ (x : ResourceLockRecord). x.resource_id) e in
    let write = ap (λ (d : Db). d.locks) w in
    let ids : db.next_id ≤ db'.next_id = let k = ap (λ (d : Db). d.next_id) w in omega arith in
    (
      write-IsLockTable db db' lock l v m same_id same_resource write ids,
      write-Move db db' lock l v m same_id same_resource write ids now (
          changes (view_of lock) (view_of l) refl (active_until lock now o.active) refl
            (ap (λ (x : ResourceLockRecord). x.action_request_id) e)
            (ap (λ (x : ResourceLockRecord). x.fencing_token) e)),
    )

pub release-Keeps :
    (c : Context) (i token now written : ℕ) (db db' : Db) (l : ResourceLockRecord)
    → IsLockTable db
    → release c i token now written db ≡ ok (l, db')
    → Keeps now db db'
unfolding view_of
release-Keeps c i token now written db db' l v h =
    let (lock, o, same_id, same_resource, holder, t, _, _, write, ids) =
      release_ends_lease c i token now written db db' l h in
    let m = found_for_action c i db lock o.found in
    (
      write-IsLockTable db db' lock l v m same_id same_resource write ids,
      write-Move db db' lock l v m same_id same_resource write ids now (
          changes (view_of lock) (view_of l) refl (active_until lock now o.active) refl holder
            (let k = o.token_kept in cc (t, k))),
    )

ends_none :
    (c : Context) (i written : ℕ) (by : ActorId) (db db' : Db) (o : Option ResourceLockRecord)
    → get_lock_for_action c i db ≡ none
    → release_for_action c i written by db ≡ ok (o, db')
    → db' ≡ db
unfolding release_for_action
ends_none c i written by db db' o n h = ground arith

ends_one :
    (c : Context) (i written : ℕ) (by : ActorId) (db db' : Db) (o : Option ResourceLockRecord)
    (lock : ResourceLockRecord)
    → get_lock_for_action c i db ≡ some lock
    → release_for_action c i written by db ≡ ok (o, db')
    → db' ≡ saved (ended lock written by) db
unfolding release_for_action
ends_one c i written by db db' o lock g h = ground arith

pub release_for_action-Keeps :
    (c : Context) (i now written : ℕ) (by : ActorId) (db db' : Db) (o : Option ResourceLockRecord)
    → IsLockTable db
    → release_for_action c i written by db ≡ ok (o, db')
    → Keeps now db db'
unfolding view_of
release_for_action-Keeps c i now written by db db' o v h =
    elim (Option-cases (get_lock_for_action c i db)) [
      | inl n ↦
          let e = ends_none c i written by db db' o n h in
          other-Keeps now db db' v (ap (λ (d : Db). d.locks) e)
            (let k = ap (λ (d : Db). d.next_id) e in omega arith)
      | inr (lock, g) ↦
          let e = ends_one c i written by db db' o lock g h in
          let l = ended lock written by in
          let m = found_for_action c i db lock g in
          let w = ap (λ (d : Db). d.locks) e in
          let ids : db.next_id ≤ db'.next_id =
            let k = ap (λ (d : Db). d.next_id) e in omega arith in
          (
            write-IsLockTable db db' lock l v m refl refl w ids,
            write-Move db db' lock l v m refl refl w ids now
                (ends (view_of lock) (view_of l) refl refl refl refl refl),
          )
    ]
