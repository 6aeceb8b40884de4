-- ===== src/Domain/RunnerTasks.antt =====
-- backend/app/domain/runner_tasks/models.py
use ops_pilot_ai.Base.{HasEquals, of_discrete}

pub data RunnerTaskStatus : Type 0 where
  queued leased succeeded failed cancelled : RunnerTaskStatus

unfoldable pub RunnerTaskStatus-discrete : Discrete RunnerTaskStatus
RunnerTaskStatus-discrete = hlevel

instance abbrev pub runner_task_status_eq : HasEquals RunnerTaskStatus
runner_task_status_eq = of_discrete RunnerTaskStatus-discrete
