-- ===== src/Domain/Models.antt =====
-- src/firstgreen/domain/models.py: the statuses of runs, tasks, attempts and verifications.
-- A `StrEnum` member is its text, so the comparison of members is that of their values.
use firstgreen.Prelude.{String}

pub data RunStatus : Type 0 where
  created running completed cancelled failed : RunStatus

pub data TaskStatus : Type 0 where
  queued ready running verifying verified failed cancelled blocked : TaskStatus

pub data AttemptStatus : Type 0 where
  created starting running agent_completed verifying passed : AttemptStatus
  winner superseded failed cancelled orphaned : AttemptStatus

pub data VerificationStatus : Type 0 where
  queued running passed failed timed_out : VerificationStatus

abbrev pub run_value : RunStatus → String
run_value RunStatus.created = "created"
run_value RunStatus.running = "running"
run_value RunStatus.completed = "completed"
run_value RunStatus.cancelled = "cancelled"
run_value RunStatus.failed = "failed"

abbrev pub task_value : TaskStatus → String
task_value TaskStatus.queued = "queued"
task_value TaskStatus.ready = "ready"
task_value TaskStatus.running = "running"
task_value TaskStatus.verifying = "verifying"
task_value TaskStatus.verified = "verified"
task_value TaskStatus.failed = "failed"
task_value TaskStatus.cancelled = "cancelled"
task_value TaskStatus.blocked = "blocked"

abbrev pub attempt_value : AttemptStatus → String
attempt_value AttemptStatus.created = "created"
attempt_value AttemptStatus.starting = "starting"
attempt_value AttemptStatus.running = "running"
attempt_value AttemptStatus.agent_completed = "agent_completed"
attempt_value AttemptStatus.verifying = "verifying"
attempt_value AttemptStatus.passed = "passed"
attempt_value AttemptStatus.winner = "winner"
attempt_value AttemptStatus.superseded = "superseded"
attempt_value AttemptStatus.failed = "failed"
attempt_value AttemptStatus.cancelled = "cancelled"
attempt_value AttemptStatus.orphaned = "orphaned"
