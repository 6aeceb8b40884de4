-- ===== src/Policies/Snapshots.antt =====
-- `PolicyService.evaluate`: the snapshot that it stores.
use ops_pilot_ai.Base.{nat_eq}
