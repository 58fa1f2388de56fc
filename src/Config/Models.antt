-- ===== src/Config/Models.antt =====
-- src/firstgreen/config.py: the manifest's records and the checks of their fields. Seconds, dollars
-- and quantiles are counted in thousandths; a path is its text.
use firstgreen.Prelude.{
  ℕ, String, Bool, false, not, ◌&&◌, ◌||◌, Option, none, some, List, ltb, leb, is_some, is_empty,
}
use firstgreen.Prelude.Int.{ℤ}
use firstgreen.Prelude.Result.{Result, value_error, raise_if, ◌>>◌}

pub record CommandConfig : Type 0 where
  pub argv : Option (List String)
  pub command : Option String
  pub shell : Bool

-- `argv`'s `min_length=1`, then `exactly_one_command`.
unfoldable pub check_command : CommandConfig → Result (Unit {0})
check_command c = do
  raise_if (elim c.argv [ none ↦ false | some l ↦ is_empty l ]) value_error
  raise_if (is_none_argv && is_none_command || not is_none_argv && not is_none_command) value_error
  raise_if (not is_none_command && not c.shell) value_error
  where
    is_none_argv : Bool
    is_none_argv = not (is_some c.argv)

    is_none_command : Bool
    is_none_command = not (is_some c.command)

pub record VerifyConfig : Type 0 where
  pub commands : List CommandConfig
  pub allowed_changed_paths : List String

pub record TaskLimits : Type 0 where
  pub max_attempts : ℕ
  pub max_estimated_usd : Option ℕ

pub record ResourceConfig : Type 0 where
  pub key : String
  pub capacity : ℕ

pub record TaskConfig : Type 0 where
  pub id : String
  pub task_class : String
  pub priority : ℤ
  pub estimated_duration : ℕ
  pub estimate_source : String
  pub prompt : String
  pub replay_safe : Bool
  pub dependencies : List String
  pub resources : List ResourceConfig
  pub limits : TaskLimits
  pub verify : VerifyConfig

pub data ConcurrencyMode : Type 0 where
  static auto : ConcurrencyMode

pub record ConcurrencyConfig : Type 0 where
  pub mode : ConcurrencyMode
  pub min_root : ℕ
  pub max_root : ℕ
  pub initial_root : ℕ
  pub total_agent_thread_budget : ℕ
  pub verifier_slots : ℕ
  pub control_window_seconds : ℕ
  pub cooldown_seconds : ℕ

-- The fields' `ge=1`, then `valid_limits`.
unfoldable pub check_concurrency : ConcurrencyConfig → Result (Unit {0})
check_concurrency c = do
  raise_if (ltb c.min_root 1 || (ltb c.max_root 1 || ltb c.initial_root 1)) value_error
  raise_if (ltb c.total_agent_thread_budget 1 || ltb c.verifier_slots 1) value_error
  raise_if (ltb c.control_window_seconds 1) value_error
  raise_if (not (leb c.min_root c.initial_root && leb c.initial_root c.max_root)) value_error
  raise_if (ltb c.total_agent_thread_budget c.max_root) value_error

pub record HedgeConfig : Type 0 where
  pub enabled : Bool
  pub quantile : ℕ
  pub min_samples : ℕ
  pub fallback_after_seconds : Option ℕ
  pub max_replicas : ℕ
  pub cancel_loser : Bool

pub record BudgetConfig : Type 0 where
  pub max_run_estimated_usd : Option ℕ
  pub max_hedge_estimated_usd : Option ℕ

pub data ReadyQueuePolicy : Type 0 where
  stable critical_path : ReadyQueuePolicy

pub record SchedulerConfig : Type 0 where
  pub ready_queue_policy : ReadyQueuePolicy
  pub concurrency : ConcurrencyConfig
  pub hedge : HedgeConfig
  pub budgets : BudgetConfig

pub record VerificationDefaults : Type 0 where
  pub command_timeout_seconds : ℕ
  pub max_output_bytes : ℕ
  pub delivery_commands : List CommandConfig
  pub executable_overrides : List (String × String)

-- The parts of a manifest that the scheduler's decisions read.
pub record Manifest : Type 0 where
  pub scheduler : SchedulerConfig
  pub max_subagent_threads : ℕ
  pub verification_defaults : VerificationDefaults
  pub tasks : List TaskConfig
