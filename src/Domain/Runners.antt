-- ===== src/Domain/Runners.antt =====
-- backend/app/domain/runners/models.py
use ops_pilot_ai.Base.{HasEquals, of_discrete}

pub data RunnerStatus : Type 0 where
  online offline draining disabled : RunnerStatus

unfoldable pub RunnerStatus-discrete : Discrete RunnerStatus
RunnerStatus-discrete = hlevel

instance abbrev pub runner_status_eq : HasEquals RunnerStatus
runner_status_eq = of_discrete RunnerStatus-discrete
