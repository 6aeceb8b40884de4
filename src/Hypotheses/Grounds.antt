-- ===== src/Hypotheses/Grounds.antt =====
-- What backend/app/services/hypotheses.py keeps of the evidence for hypotheses.
use ops_pilot_ai.Base.{ℕ, String, List, ◌≡◌, ok, nat_eq}
use ops_pilot_ai.Storage.Rows.{HypothesisRecord}
use ops_pilot_ai.Storage.Database.{Db}
use ops_pilot_ai.Storage.Database.Scope.{Context}
use ops_pilot_ai.Hypotheses.{create, HypothesisChange, update}
use ops_pilot_ai.Hypotheses.Evidence.{AreGrounded}
use ops_pilot_ai.Hypotheses.Creating.{create-AreGrounded}
use ops_pilot_ai.Hypotheses.Updating.{update-AreGrounded}

-- A call of `create` or `update` that returns.
pub data Changed (db db' : Db) : Type 0 where
  created :
      (c : Context) (incident_id : ℕ) (summary : String) (confidence : ℕ)
      (supporting contradicting : List ℕ) (now : ℕ) (h : HypothesisRecord)
      → create c incident_id summary confidence supporting contradicting now db ≡ ok (h, db')
      → Changed db db'
  updated :
      (c : Context) (incident_id hypothesis_id v : ℕ) (r : HypothesisChange) (now : ℕ)
      (h : HypothesisRecord)
      → update c incident_id hypothesis_id v r now db ≡ ok (h, db')
      → Changed db db'

-- Where all the evidence that a hypothesis names is stored for its incident, and none of it both
-- supports and contradicts the hypothesis, this stays so after a call of `create` or `update` that
-- returns.
pub Changed-AreGrounded : (db db' : Db) → AreGrounded db → Changed db db' → AreGrounded db'
Changed-AreGrounded db db' v (created c n summary confidence s k now h p) =
    create-AreGrounded c n summary confidence s k now db db' h v p
Changed-AreGrounded db db' v (updated c n hid w r now h p) =
    update-AreGrounded c n hid w r now db db' h v p
