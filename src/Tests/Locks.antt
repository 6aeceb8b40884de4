-- ===== src/Tests/Locks.antt =====
-- The lock of a resource, held by another action, by the action itself, or expired.
use ops_pilot_ai.Base.{
  ℕ, ◌+◌, Bool, true, false, none, some, [], ◌≡◌, ◌≢◌, refl, arith, Result, ok, err, select,
  order_by, find,
}
use ops_pilot_ai.Domain.Actions.{ActionRequestStatus-discrete}
use ops_pilot_ai.Domain.Plans.{risk_value}
use ops_pilot_ai.Domain.Policies.{autonomy_value, PolicyEffect-discrete}
use ops_pilot_ai.Storage.Tables
use ops_pilot_ai.Storage.Rows.{ResourceLockRecord}
use ops_pilot_ai.Storage.Database.{Db}
use ops_pilot_ai.Storage.Database.Scope.{in_scope}
use ops_pilot_ai.Storage.Repositories.{
  get_environment, get_resource, get_incident, get_decision, get_action, get_lock_for_resource,
  get_lock_for_action, list_for_environment, earlier_rule,
}
use ops_pilot_ai.Events.{record_event}
use ops_pilot_ai.Policies.Rules.{decide, decide_by, matches, inside_maintenance_window}
use ops_pilot_ai.Policies.Service.{validate_target, revalidate_snapshot}
use ops_pilot_ai.Locks.{
  is_taken, insert_lock, revalidate_authorization, is_active, find_or_create, take_over, acquire,
  lock_event, owned_active, renew, release,
}
use ops_pilot_ai.Locks.Refinement.{IsLockTable, lease}
use ops_pilot_ai.Locks.Spec.{Lease}
use ops_pilot_ai.Locks.Histories.{Called, acquired, Called-Keeps}
use ops_pilot_ai.Locks.Calls.{Keeps}
use ops_pilot_ai.Locks.Ageing.{here, after, Follows, Run-Follows}
use ops_pilot_ai.Locks.Creation.{Created, acquire-Created}
use ops_pilot_ai.Locks.Acquire.{Revalidated}
use ops_pilot_ai.Locks.Fencing.{Acquired, acquire-Acquired, acquire_excludes}
use ops_pilot_ai.Locks.Ownership.{Owned}
use ops_pilot_ai.Locks.Storing.{saved}
use ops_pilot_ai.Locks.Leases.{renewed, renew_keeps_token, stale_token_fenced}
use ops_pilot_ai.Tests.World.{action, other_lock, own_lock, monday, db, db_with}

abbrev second : ℕ
second = 1_000_000

found_action : get_action none 40 (db_with other_lock) ≡ some action
unfolding get_action in_scope Tables.get
found_action = refl

found_lock : get_lock_for_resource none 10 (db_with other_lock) ≡ some other_lock
unfolding get_lock_for_resource in_scope find
found_lock = refl

-- While the lease of the other action runs, the action gets nothing.
excludes_example :
    acquire none second 40 true monday monday monday (db_with other_lock)
    ≢ ok ((own_lock, false), db)
excludes_example =
    acquire_excludes none second 40 true monday monday monday (db_with other_lock) action other_lock
      ((own_lock, false), db) found_action found_lock refl (λ e. absurd (omega (arith, e)))

abbrev result_of : Result ((ResourceLockRecord × Bool) × Db) → (ResourceLockRecord × Bool) × Db
result_of (ok r) = r
result_of (err e) = ((other_lock, true), db)

-- A second later the lease of the other action has ended.
abbrev late : ℕ
late = monday + second

abbrev taken : (ResourceLockRecord × Bool) × Db
taken = result_of (acquire none second 40 true late late late (db_with other_lock))

acquire_returns :
    acquire none second 40 true late late late (db_with other_lock)
    ≡ ok ((taken.0.0, false), taken.1)
unfolding acquire get_action ActionRequestStatus-discrete revalidate_authorization get_decision
    decide decide_by matches inside_maintenance_window risk_value autonomy_value
    PolicyEffect-discrete select order_by earlier_rule list_for_environment get_environment
    get_resource in_scope validate_target revalidate_snapshot Tables.get get_lock_for_resource find
    find_or_create take_over lock_event get_incident record_event Tables.save
acquire_returns = refl

acquire_example :
    Acquired none second late late late action
      (db_with other_lock)
      taken.1
      other_lock
      taken.0.0
      false
acquire_example =
    acquire-Acquired none second 40 true late late late (db_with other_lock) taken.1 action
      other_lock taken.0.0 false found_action found_lock acquire_returns

-- The next fencing token.
taken_token : taken.0.0.fencing_token ≡ 4
unfolding acquire get_action ActionRequestStatus-discrete revalidate_authorization get_decision
    decide decide_by matches inside_maintenance_window risk_value autonomy_value
    PolicyEffect-discrete select order_by earlier_rule list_for_environment get_environment
    get_resource in_scope validate_target revalidate_snapshot Tables.get get_lock_for_resource find
    find_or_create take_over lock_event get_incident record_event Tables.save
taken_token = refl

abbrev lock_of : Result (ResourceLockRecord × Db) → ResourceLockRecord × Db
lock_of (ok r) = r
lock_of (err e) = (other_lock, db)

abbrev kept : ResourceLockRecord × Db
kept = lock_of (renew none second 40 3 monday monday (db_with own_lock))

renew_returns : renew none second 40 3 monday monday (db_with own_lock) ≡ ok (kept.0, kept.1)
unfolding renew owned_active get_action ActionRequestStatus-discrete in_scope get_lock_for_action
    find Tables.get Tables.save
renew_returns = refl

renew_example :
    (lock : ResourceLockRecord) × Owned none 40 3 monday (db_with own_lock) lock
    × (kept.0 ≡ renewed lock second monday)
    × (kept.1 ≡ saved kept.0 (db_with own_lock))
    × (kept.0.fencing_token ≡ 3)
    × (is_active kept.0 monday ≡ true)
renew_example =
    renew_keeps_token none second 40 3 monday monday (db_with own_lock) kept.1 kept.0 (omega arith)
      renew_returns

found_own : get_lock_for_action none 40 (db_with own_lock) ≡ some own_lock
unfolding get_lock_for_action in_scope find
found_own = refl

-- The token of an earlier holder.
fenced_example :
    (renew none second 40 2 monday monday (db_with own_lock) ≢ ok (own_lock, db))
    × (release none 40 2 monday monday (db_with own_lock) ≢ ok (own_lock, db))
fenced_example =
    stale_token_fenced none second 40 2 monday monday (db_with own_lock) own_lock (own_lock, db)
      (omega arith) found_own (λ e. absurd (omega (arith, e)))

found_alone : get_action none 40 db ≡ some action
unfolding get_action in_scope Tables.get
found_alone = refl

found_none : get_lock_for_resource none 10 db ≡ none
unfolding get_lock_for_resource find
found_none = refl

abbrev made : (ResourceLockRecord × Bool) × Db
made = result_of (acquire none second 40 true monday monday monday db)

create_returns :
    acquire none second 40 true monday monday monday db ≡ ok ((made.0.0, false), made.1)
unfolding acquire get_action ActionRequestStatus-discrete revalidate_authorization get_decision
    decide decide_by matches inside_maintenance_window risk_value autonomy_value
    PolicyEffect-discrete select order_by earlier_rule list_for_environment get_environment
    get_resource in_scope validate_target revalidate_snapshot Tables.get get_lock_for_resource find
    find_or_create is_taken insert_lock lock_event get_incident record_event Tables.save
create_returns = refl

create_example :
    (false ≡ false)
    × Created action monday second db made.0.0
    × Revalidated none 30 none [] monday monday db
create_example =
    acquire-Created none second 40 true monday monday monday db made.1 action made.0.0 false
      found_alone found_none create_returns

table_example : IsLockTable (db_with other_lock)
table_example = record { ids = (tt, tt); resources = (tt, tt); below = (omega arith, tt) }

-- The action takes over the lease of another one.
handed_over : Called late (db_with other_lock) taken.1
handed_over = acquired none second 40 true late late late taken.0.0 false acquire_returns

keeps_example : Keeps late (db_with other_lock) taken.1
keeps_example = Called-Keeps late (db_with other_lock) taken.1 table_example handed_over

aged_example :
    IsLockTable taken.1
    × ((r : ℕ) (k : Lease)
        → lease r (db_with other_lock) ≡ some k
        → (l : Lease) × (lease r taken.1 ≡ some l) × Follows k l)
aged_example = Run-Follows (db_with other_lock) taken.1 table_example (after late handed_over here)
