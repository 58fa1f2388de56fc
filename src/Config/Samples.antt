-- ===== src/Config/Samples.antt =====
-- A small manifest, for the tests and the witnesses.
use firstgreen.Prelude.{String, true, false, none, some, List, [], ◌∷◌}
use firstgreen.Prelude.Int.{pos}
use firstgreen.Config.Models.{
  CommandConfig, TaskConfig, ResourceConfig, Manifest, ConcurrencyConfig, auto, critical_path,
}

abbrev pub resource : String → ResourceConfig
resource key = record { key = key; capacity = 1 }

abbrev pub pytest : CommandConfig
pytest = record { argv = some ("pytest" ∷ []); command = none; shell = false }

abbrev pub sample_task : String → List String → List ResourceConfig → TaskConfig
sample_task id dependencies resources = record {
  id = id;
  task_class = "code";
  priority = pos 0;
  estimated_duration = 5;
  estimate_source = "manifest";
  prompt = "do it";
  replay_safe = true;
  dependencies = dependencies;
  resources = resources;
  limits = record { max_attempts = 3; max_estimated_usd = none };
  verify = record { commands = pytest ∷ []; allowed_changed_paths = [] };
}

-- Two tasks that use the database, the second after the first, and one on its own.
abbrev pub model_task : TaskConfig
model_task = sample_task "model" [] (resource "db" ∷ [])

abbrev pub view_task : TaskConfig
view_task = sample_task "view" ("model" ∷ []) (resource "db" ∷ [])

abbrev pub docs_task : TaskConfig
docs_task = sample_task "docs" [] []

abbrev pub sample_tasks : List TaskConfig
sample_tasks = model_task ∷ view_task ∷ docs_task ∷ []

abbrev pub sample_concurrency : ConcurrencyConfig
sample_concurrency = record {
  mode = auto;
  min_root = 1;
  max_root = 3;
  initial_root = 2;
  total_agent_thread_budget = 9;
  verifier_slots = 1;
  control_window_seconds = 10;
  cooldown_seconds = 30;
}

abbrev pub sample_manifest : Manifest
sample_manifest = record {
  scheduler = record {
    ready_queue_policy = critical_path;
    concurrency = sample_concurrency;
    hedge = record {
      enabled = true;
      quantile = 900;
      min_samples = 2;
      fallback_after_seconds = some 60;
      max_replicas = 1;
      cancel_loser = true;
    };
    budgets = record { max_run_estimated_usd = none; max_hedge_estimated_usd = none };
  };
  max_subagent_threads = 4;
  verification_defaults = record {
    command_timeout_seconds = 900;
    max_output_bytes = 2000;
    delivery_commands = [];
    executable_overrides = [];
  };
  tasks = sample_tasks;
}
