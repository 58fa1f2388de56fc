-- ===== src/Db/Samples.antt =====
-- A small database, for the tests and the witnesses.
use firstgreen.Prelude.{ℕ, String, true, none, some, List, [], ◌∷◌}
use firstgreen.Domain.Models.{RunStatus, TaskStatus, AttemptStatus}
use firstgreen.Db.Tables.{RunRow, TaskRow, AttemptRow, EventRow, Database}

abbrev pub sample_run : RunStatus → RunRow
sample_run s = record {
  id = "r";
  manifest_hash = "h";
  repo_path = "/repo";
  base_sha = "sha";
  policy_snapshot = "{}";
  status = s;
  created_at = "0";
  started_at = some "0";
  finished_at = none;
}

abbrev pub sample_row : TaskStatus → TaskRow
sample_row s = record {
  id = "t";
  run_id = "r";
  task_key = "model";
  prompt = "do it";
  replay_safe = true;
  status = s;
  winner_attempt_id = none;
  verified_at = none;
}

abbrev pub sample_attempt : String → ℕ → AttemptStatus → AttemptRow
sample_attempt a n s = record {
  id = a;
  task_id = "t";
  ordinal = n;
  role = "primary";
  status = s;
  base_sha = "sha";
  config_snapshot = "{}";
  workspace_path = some "/work";
  branch = some "branch";
  started_at = some "0";
  finished_at = none;
}

abbrev pub sample_event : EventRow
sample_event = record {
  sequence = 0;
  id = "e";
  run_id = some "r";
  task_id = none;
  attempt_id = none;
  type = "scheduler.ready_set";
  timestamp = "0";
  payload = "{}";
}

-- A run with a task and its attempts.
abbrev pub database : RunStatus → TaskStatus → List AttemptRow → Database
database run task attempts = record {
  runs = sample_run run ∷ [];
  tasks = sample_row task ∷ [];
  dependencies = [];
  attempts = attempts;
  verifications = [];
  events = [];
  decisions = [];
  leases = [];
  samples = [];
  winners = [];
}

abbrev pub sample_db : Database
sample_db =
    database RunStatus.running TaskStatus.verifying (
      sample_attempt "a" 1 AttemptStatus.passed ∷ sample_attempt "b" 2 AttemptStatus.verifying ∷ [])

abbrev pub failed_db : Database
failed_db =
    database RunStatus.failed TaskStatus.failed (sample_attempt "a" 1 AttemptStatus.failed ∷ [])
