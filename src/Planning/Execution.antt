-- ===== src/Planning/Execution.antt =====
-- src/firstgreen/planning/workflow.py, `plan_to_manifest`: the manifest that runs an approved plan. The
-- text of the worker's prompt is an argument, and so is whether the hash of the estimates has changed.
pub mod Acyclic
pub mod Valid
pub mod Ahead
pub mod Apart
pub mod Runs
use firstgreen.Prelude.{
  ℕ, zero, suc, min, max, String, Bool, true, false, not, ◌&&◌, ◌||◌, Option, none, some, List, [],
  ◌∷◌, ◌++◌, any, map, ◌==◌, if◌then◌else◌, length, mem, is_empty, nat_eq,
}
use firstgreen.Prelude.Int.{pos}
use firstgreen.Prelude.Result.{Result, ok, value_error, raise_if, ◌>>=◌, ◌>>◌}
use firstgreen.PathPatterns.{parts}
use firstgreen.Config.Models.{
  CommandConfig, ResourceConfig, TaskConfig, ConcurrencyConfig, auto, static, critical_path,
  Manifest, check_concurrency,
}
use firstgreen.Config.Dag.{valid_dag}
use firstgreen.Planning.Models.{
  EstimateSource, unit, deterministic_heuristic_v1, merged, PlanTask, ParallelismAnalysis,
}
use firstgreen.Planning.Texts.{append, slashes, rstrip_slashes, segments, contains}
use firstgreen.Planning.Parallelism.{by_id}
use firstgreen.Planning.Paths.{name_of}
use firstgreen.Planning.Analysis.{analyze_parallelism}
use firstgreen.Planning.Merge.{sorted_set}
use firstgreen.Planning.Verifiers.{Command}

-- `value.replace("\\", "/").rstrip("/")`, and all below it if its name has no dot.
abbrev patterns_of : String → List String
patterns_of value =
    let path = rstrip_slashes (slashes value) in
    if contains (name_of (parts (segments path))) "."
    then path ∷ []
    else path ∷ append path "/**" ∷ []

abbrev all_patterns : List String → List String
all_patterns [] = []
all_patterns (p ∷ ps) = patterns_of p ++ all_patterns ps

unfoldable pub path_patterns : List String → List String
unfolding rstrip_slashes slashes contains parts segments append
path_patterns paths = sorted_set (all_patterns paths)

-- The sets `visited` and `paths`.
pub record Collected : Type 0 where
  pub visited : List String
  pub paths : List String

pub collect_each : (String → Collected → Collected) → List String → Collected → Collected
collect_each f [] c = c
collect_each f (d ∷ ds) c = collect_each f ds (f d c)

-- `paths.update(task.likely_paths)`, for the task of an id.
abbrev enter : List PlanTask → String → Collected → Collected
enter tasks current c = record {
  visited = current ∷ c.visited;
  paths = c.paths ++ elim (by_id tasks current) [ none ↦ [] | some t ↦ t.likely_paths ];
}

abbrev next_of : List PlanTask → String → List String
next_of tasks current = elim (by_id tasks current) [ none ↦ [] | some t ↦ t.dependencies ]

-- `collect`; each call that goes on visits another task, so that the number of tasks and one more is
-- fuel enough.
pub collect : List PlanTask → ℕ → String → Collected → Collected
collect tasks zero current c = c
collect tasks (suc fuel) current c =
    let deeper =
      collect_each (collect tasks fuel) (next_of tasks current) (enter tasks current c) in
    if mem current c.visited then c else deeper

unfoldable pub transitive_task_paths : List PlanTask → String → List String
unfolding collect collect_each by_id
transitive_task_paths tasks id =
    sorted_set (collect tasks (suc (length tasks)) id (record { visited = []; paths = [] })).paths

-- The strings of `policy` that the code tells apart.
pub data Policy : Type 0 where
  single auto_policy other_policy : Policy

abbrev pub is_single : Policy → Bool
is_single single = true
is_single other = false

abbrev is_auto : Policy → Bool
is_auto auto_policy = true
is_auto other = false

abbrev source_text : EstimateSource → String
source_text unit = "unit"
source_text deterministic_heuristic_v1 = "deterministic_heuristic_v1"
source_text merged = "merged"

abbrev argv_command : Command → CommandConfig
argv_command argv = record { argv = some argv; command = none; shell = false }

abbrev pub exclusive : String → ResourceConfig
exclusive key = record { key = key; capacity = 1 }

unfoldable pub concurrency_for : Policy → ℕ → ConcurrencyConfig
concurrency_for policy parallelism = record {
  mode = if is_auto policy then auto else static;
  min_root = 1;
  max_root = parallelism;
  initial_root = if is_auto policy then 1 else parallelism;
  total_agent_thread_budget = max 1 parallelism;
  verifier_slots = max 1 (min 2 parallelism);
  control_window_seconds = 60;
  cooldown_seconds = 120;
}

abbrev pub lacks_command : PlanTask → Bool
lacks_command t = is_empty t.verifier || any is_empty t.verifier

-- The validators of ConcurrencyConfig and Manifest.
unfoldable pub checked : Manifest → Result Manifest
unfolding check_concurrency valid_dag
checked m = do check_concurrency m.scheduler.concurrency; order ← valid_dag m.tasks; ok m

-- `max(1, min(recommended_root_slots, len(tasks)))`, or 1 under the policy `single`.
abbrev pub slots_for : Policy → ℕ → ℕ → ℕ
slots_for policy recommended count = if is_single policy then 1 else max 1 (min recommended count)

module _ (prompt : PlanTask → List String → String) (replay_safe : Bool) where
  unfoldable pub task_config : List PlanTask → PlanTask → TaskConfig
  unfolding path_patterns transitive_task_paths
  task_config tasks t =
      let allowed = path_patterns (transitive_task_paths tasks t.id) in
      record {
        id = t.id;
        task_class = "planned";
        priority = pos 0;
        estimated_duration = t.estimated_duration;
        estimate_source = source_text t.estimate_source;
        prompt = prompt t allowed;
        replay_safe = replay_safe;
        dependencies = t.dependencies;
        resources = map exclusive t.resources;
        limits = record { max_attempts = 3; max_estimated_usd = none };
        verify = record { commands = map argv_command t.verifier; allowed_changed_paths = allowed };
      }

  -- The manifest before its validators run.
  unfoldable pub manifest_of : Policy → ℕ → List PlanTask → List Command → Manifest
  unfolding task_config concurrency_for
  manifest_of policy parallelism tasks delivery = record {
    scheduler = record {
      ready_queue_policy = critical_path;
      concurrency = concurrency_for policy parallelism;
      hedge = record {
        enabled = replay_safe;
        quantile = 900;
        min_samples = 10;
        fallback_after_seconds = some 900000;
        max_replicas = 1;
        cancel_loser = true;
      };
      budgets = record { max_run_estimated_usd = none; max_hedge_estimated_usd = none };
    };
    max_subagent_threads = 1;
    verification_defaults = record {
      command_timeout_seconds = 900;
      max_output_bytes = 2000000;
      delivery_commands = map argv_command delivery;
      executable_overrides = [];
    };
    tasks = map (task_config tasks) tasks;
  }

  -- The guards on the commands are the fields' `min_length=1`.
  unfoldable pub plan_to_manifest : Policy → Bool → List PlanTask → List Command → Result Manifest
  unfolding analyze_parallelism manifest_of checked
  plan_to_manifest policy stale tasks delivery = do
    current ← analyze_parallelism 5 tasks
    raise_if stale value_error
    raise_if (any lacks_command tasks || any is_empty delivery) value_error
    checked (
        manifest_of policy (slots_for policy current.recommended_root_slots (length tasks)) tasks
          delivery)
