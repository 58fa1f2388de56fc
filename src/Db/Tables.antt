-- ===== src/Db/Tables.antt =====
-- The tables of src/firstgreen/db/repository.py (`SCHEMA`) that the scheduler writes. A nullable
-- column is an `Option`; the status columns hold the statuses of the domain.
use firstgreen.Prelude.{ℕ, String, Bool, Option, List}
use firstgreen.Prelude.Int.{ℤ}
use firstgreen.Domain.Models.{RunStatus, TaskStatus, AttemptStatus}

pub record RunRow : Type 0 where
  pub id : String
  pub manifest_hash : String
  pub repo_path : String
  pub base_sha : String
  pub policy_snapshot : String
  pub status : RunStatus
  pub created_at : String
  pub started_at : Option String
  pub finished_at : Option String

pub record TaskRow : Type 0 where
  pub id : String
  pub run_id : String
  pub task_key : String
  pub prompt : String
  pub replay_safe : Bool
  pub status : TaskStatus
  pub winner_attempt_id : Option String
  pub verified_at : Option String

pub record DependencyRow : Type 0 where
  pub task_id : String
  pub dependency_id : String

pub record AttemptRow : Type 0 where
  pub id : String
  pub task_id : String
  pub ordinal : ℕ
  pub role : String
  pub status : AttemptStatus
  pub base_sha : String
  pub config_snapshot : String
  pub workspace_path : Option String
  pub branch : Option String
  pub started_at : Option String
  pub finished_at : Option String

pub data CommandStatus : Type 0 where
  passed failed timed_out skipped : CommandStatus

pub record VerificationRow : Type 0 where
  pub id : String
  pub attempt_id : String
  pub command_index : ℕ
  pub verification_round : ℕ
  pub command_json : String
  pub status : CommandStatus
  pub exit_code : Option ℤ
  pub started_at : Option String
  pub finished_at : Option String
  pub output_path : Option String

pub record EventRow : Type 0 where
  pub sequence : ℕ
  pub id : String
  pub run_id : Option String
  pub task_id : Option String
  pub attempt_id : Option String
  pub type : String
  pub timestamp : String
  pub payload : String

pub record DecisionRow : Type 0 where
  pub id : String
  pub run_id : String
  pub task_id : Option String
  pub attempt_id : Option String
  pub decision_type : String
  pub signals : String
  pub policy_version : String
  pub policy_snapshot : String
  pub timestamp : String

pub record LeaseRow : Type 0 where
  pub id : String
  pub resource_key : String
  pub owner_id : String
  pub acquired_at : String
  pub expires_at : Option String
  pub released_at : Option String

pub record SampleRow : Type 0 where
  pub repo_fingerprint : String
  pub task_class : String
  pub adapter : String
  pub model : String
  pub verifier_profile : String
  pub duration_seconds : ℕ
  pub outcome : String
  pub censored : Bool

pub record WinnerRow : Type 0 where
  pub task_id : String
  pub attempt_id : String

pub record Database : Type 0 where
  pub runs : List RunRow
  pub tasks : List TaskRow
  pub dependencies : List DependencyRow
  pub attempts : List AttemptRow
  pub verifications : List VerificationRow
  pub events : List EventRow
  pub decisions : List DecisionRow
  pub leases : List LeaseRow
  pub samples : List SampleRow
  pub winners : List WinnerRow
