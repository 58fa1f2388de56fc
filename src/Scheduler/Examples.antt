-- ===== src/Scheduler/Examples.antt =====
-- Tests and witnesses for the scheduling policies.
use firstgreen.Prelude.{
  ℕ, String, Bool, true, false, ◌≡◌, ◌≢◌, refl, none, some, List, [], ◌∷◌, arith, is_empty, sort,
}
use firstgreen.Prelude.Result.{ok, Returns}
use firstgreen.Scheduler.Concurrency.{
  PressureSnapshot, pressure_reasons, ConcurrencyState, ConcurrencyDecision, AimdController, hold,
  increase, decide, subagent_threads_per_root, admit_nested_threads, ThreadAdmission, signals_of,
}
use firstgreen.Scheduler.Concurrency.Bounds.{IsBounded, IsControlled, Window, decide-IsControlled}
use firstgreen.Scheduler.Hedging.{
  RuntimeBucket, Samples, HedgeInputs, historical_level, empirical_quantile, evaluate,
}
use firstgreen.Scheduler.Racing.{AttemptOutcome, RaceResult, Job, first, first_verified_wins}
use firstgreen.Scheduler.Racing.Winner.{Any, Accepted, winner-Accepted}

abbrev four_roots : ConcurrencyState
four_roots = record {
  current_root = 4;
  min_root = 1;
  max_root = 8;
  last_change_at = 0;
  pressure_windows = 0;
  healthy_windows = 0;
}

four_roots-IsBounded : IsBounded four_roots
four_roots-IsBounded = record { positive = omega arith; lower = omega arith; upper = omega arith }

abbrev calm : PressureSnapshot
calm = record {
  backlog = 3;
  completed_samples = 2;
  rate_limit_errors = 0;
  spawn_errors = 0;
  verifier_queue_wait = 0;
  memory_percent = 40000;
  normalized_load = 500;
  cancellation_backlog = 0;
}

abbrev pressed : PressureSnapshot
pressed = record calm { rate_limit_errors = 1; memory_percent = 95000 }

abbrev thirty : AimdController
thirty = record { cooldown_seconds = 30; min_completed_samples = 1 }

reasons_named : pressure_reasons pressed ≡ "provider_rate_limit" ∷ "memory_pressure" ∷ []
unfolding pressure_reasons
reasons_named = refl

decide-IsControlled_example :
    Returns (IsControlled four_roots) (decide thirty four_roots pressed 40000000 "auto")
decide-IsControlled_example =
    decide-IsControlled thirty four_roots pressed 40000000 "auto" four_roots-IsBounded

abbrev five_roots : ConcurrencyState
five_roots = record four_roots { current_root = 5; last_change_at = 40000000; healthy_windows = 1 }

abbrev raised : ConcurrencyDecision
raised = record {
  old_root = 4;
  new_root = 5;
  action = increase;
  reason = "healthy_backlog" ∷ [];
  signals =
      ("backlog", 3)
      ∷ ("completed_samples", 2)
      ∷ ("rate_limit_errors", 0)
      ∷ ("spawn_errors", 0)
      ∷ ("verifier_queue_wait_seconds", 0)
      ∷ ("memory_percent", 40000)
      ∷ ("normalized_load", 500)
      ∷ ("cancellation_backlog", 0)
      ∷ ("min_root", 1)
      ∷ ("max_root", 8)
      ∷ [];
}

calm_raises : decide thirty four_roots calm 40000000 "auto" ≡ ok (five_roots, raised)
unfolding decide signals_of
calm_raises = refl

pressed-reasons : is_empty (pressure_reasons pressed) ≡ false
unfolding pressure_reasons
pressed-reasons = refl

raised-no_hold : raised.action ≢ hold
raised-no_hold e = cc

abbrev two_windows : List Window
two_windows =
    record { snapshot = calm; now = 40000000; mode = "auto" }
    ∷ record { snapshot = pressed; now = 90000000; mode = "auto" }
    ∷ []

granted_two : subagent_threads_per_root 12 4 5 ≡ ok 2
unfolding subagent_threads_per_root
granted_two = refl

abbrev reduced : ThreadAdmission
reduced = record { allowed = true; granted_threads = 2; reason = "reduced_to_budget" }

reduced_to_two : admit_nested_threads 6 4 8 true ≡ ok reduced
unfolding admit_nested_threads
reduced_to_two = refl

abbrev open_gates : HedgeInputs
open_gates = record {
  replay_safe = true;
  enabled = true;
  winner_absent = true;
  primary_active = true;
  replicas = 0;
  max_replicas = 1;
  budget_available = true;
  slots_available = true;
  resources_available = true;
  controller_backoff = false;
  elapsed_seconds = 80;
  threshold = record { seconds = some 60; source = historical_level 0; sample_count = 3 };
  estimated_extra_cost = none;
}

launched : (evaluate open_gates).launch ≡ true
unfolding evaluate
launched = refl

abbrev four_samples : List ℕ
four_samples = 40 ∷ 10 ∷ 30 ∷ 20 ∷ []

quantile_of_four : empirical_quantile four_samples 750 ≡ ok 30
unfolding empirical_quantile
quantile_of_four = refl

abbrev sample_bucket : RuntimeBucket
sample_bucket = record {
  repo_fingerprint = "repo";
  task_class = "code";
  adapter = "codex";
  model = "m";
  verifier_profile = "pytest";
}

abbrev sample_table : Samples
sample_table = (("codex" ∷ "m" ∷ []), 10 ∷ 20 ∷ []) ∷ []

-- A store that accepts the first claim.
abbrev claim_once : String → Bool → Bool × Bool
claim_once a free = (free, false)

abbrev outcome : String → Bool → ℕ → AttemptOutcome
outcome a verified n = record {
  attempt_id = a;
  verified = verified;
  ordinal = n;
  verification_feedback = none;
}

abbrev primary_job : Job
primary_job = record { name = "primary"; ends = ok (outcome "a" false 1) }

abbrev backup_job : Job
backup_job = record { name = "backup"; ends = ok (outcome "b" true 2) }

abbrev race_result : RaceResult
race_result = record {
  winner_attempt_id = some "b";
  launched_backup = true;
  cancelled_attempt_ids = [];
  outcomes = outcome "a" false 1 ∷ outcome "b" true 2 ∷ [];
}

backup_wins :
    (first_verified_wins claim_once primary_job backup_job "always-race" true true
      (λ _. first)
      true).0
    ≡ ok race_result
unfolding first_verified_wins sort
backup_wins = refl

winner-Accepted_example : Any claim_once (Accepted claim_once "b") race_result.outcomes
winner-Accepted_example =
    winner-Accepted claim_once primary_job backup_job "always-race" true true (λ _. first) true
      race_result "b" backup_wins refl
