-- ===== src/Scheduler/Concurrency.antt =====
-- src/firstgreen/scheduler/concurrency.py: AIMD control of the root concurrency, and the
-- admission of nested threads. Times are microseconds since the epoch; the measured floats
-- (seconds of queue wait, memory percent, load) are counted in thousandths.
pub mod Bounds
pub mod Threads
use firstgreen.Prelude.{
  ℕ, ◌+◌, ◌-◌, ◌*◌, ◌/◌, min, max, String, Bool, true, false, not, ◌&&◌, ◌||◌, List, [], ◌∷◌, ◌++◌,
  ◌==◌, ltb, leb, nat_eq, if◌then◌else◌, is_empty,
}
use firstgreen.Prelude.Result.{Result, ok, err, value_error, ◌>>=◌}

pub record PressureSnapshot : Type 0 where
  pub backlog : ℕ
  pub completed_samples : ℕ
  pub rate_limit_errors : ℕ
  pub spawn_errors : ℕ
  pub verifier_queue_wait : ℕ
  pub memory_percent : ℕ
  pub normalized_load : ℕ
  pub cancellation_backlog : ℕ

abbrev when : Bool → String → List String
when test reason = if test then reason ∷ [] else []

-- `pressure_reasons` with its default thresholds: 30 seconds, 90 percent, a load of 1.5.
unfoldable pub pressure_reasons : PressureSnapshot → List String
pressure_reasons s =
    when (ltb 0 s.rate_limit_errors) "provider_rate_limit"
    ++ (when (ltb 0 s.spawn_errors) "spawn_errors"
        ++ (when (ltb 30000 s.verifier_queue_wait) "verifier_queue_pressure"
            ++ (when (ltb 90000 s.memory_percent) "memory_pressure"
                ++ (when (ltb 1500 s.normalized_load) "host_load_pressure"
                    ++ when (ltb 0 s.cancellation_backlog) "cancellation_backlog"))))

pub record ConcurrencyState : Type 0 where
  pub current_root : ℕ
  pub min_root : ℕ
  pub max_root : ℕ
  pub last_change_at : ℕ
  pub pressure_windows : ℕ
  pub healthy_windows : ℕ

-- The constructor with its `__post_init__`.
unfoldable pub new_state : ℕ → ℕ → ℕ → ℕ → ℕ → ℕ → Result ConcurrencyState
new_state current low high at pressure healthy =
    if leb 1 low && (leb low current && leb current high)
    then ok (record {
      current_root = current;
      min_root = low;
      max_root = high;
      last_change_at = at;
      pressure_windows = pressure;
      healthy_windows = healthy;
    })
    else err value_error

pub data Action : Type 0 where
  hold decrease increase : Action

-- `reason` is the list that the code joins by commas.
pub record ConcurrencyDecision : Type 0 where
  pub old_root : ℕ
  pub new_root : ℕ
  pub action : Action
  pub reason : List String
  pub signals : List (String × ℕ)

pub record AimdController : Type 0 where
  pub cooldown_seconds : ℕ
  pub min_completed_samples : ℕ

unfoldable pub signals_of : ConcurrencyState → PressureSnapshot → List (String × ℕ)
signals_of state snapshot =
    ("backlog", snapshot.backlog)
    ∷ ("completed_samples", snapshot.completed_samples)
    ∷ ("rate_limit_errors", snapshot.rate_limit_errors)
    ∷ ("spawn_errors", snapshot.spawn_errors)
    ∷ ("verifier_queue_wait_seconds", snapshot.verifier_queue_wait)
    ∷ ("memory_percent", snapshot.memory_percent)
    ∷ ("normalized_load", snapshot.normalized_load)
    ∷ ("cancellation_backlog", snapshot.cancellation_backlog)
    ∷ ("min_root", state.min_root)
    ∷ ("max_root", state.max_root)
    ∷ []

-- The decision from the current root count to `new`.
abbrev decision :
    ConcurrencyState → PressureSnapshot → ℕ → Action → List String → ConcurrencyDecision
decision state snapshot new action reason = record {
  old_root = state.current_root;
  new_root = new;
  action = action;
  reason = reason;
  signals = signals_of state snapshot;
}

-- `elapsed < cooldown`, for times in microseconds.
abbrev pub cooling : AimdController → ConcurrencyState → ℕ → Bool
cooling c state now = ltb now (state.last_change_at + c.cooldown_seconds * 1000000)

abbrev pub is_healthy : AimdController → ConcurrencyState → PressureSnapshot → Bool
is_healthy c state snapshot =
    ltb 0 snapshot.backlog
    && (leb c.min_completed_samples snapshot.completed_samples
        && ltb state.current_root state.max_root)

unfoldable pub decide :
    AimdController
    → ConcurrencyState
    → PressureSnapshot
    → ℕ
    → String
    → Result (ConcurrencyState × ConcurrencyDecision)
unfolding pressure_reasons new_state
decide c state snapshot now mode =
    if not (mode == "auto")
    then ok (state, decision state snapshot state.current_root hold ("static_mode" ∷ []))
    else if cooling c state now
    then ok (state, decision state snapshot state.current_root hold ("cooldown" ∷ []))
    else let reasons = pressure_reasons snapshot in
      if not (is_empty reasons)
      then (do
        let new_root = max state.min_root (state.current_root / 2)
        next ← new_state new_root state.min_root state.max_root now (state.pressure_windows + 1) 0
        ok (next, decision state snapshot new_root decrease reasons))
      else if is_healthy c state snapshot
      then (do
        let new_root = min state.max_root (state.current_root + 1)
        next ← new_state new_root state.min_root state.max_root now 0 (state.healthy_windows + 1)
        ok (next, decision state snapshot new_root increase ("healthy_backlog" ∷ [])))
      else ok (state, decision state snapshot state.current_root hold ("insufficient_signal" ∷ []))

pub record ThreadAdmission : Type 0 where
  pub allowed : Bool
  pub granted_threads : ℕ
  pub reason : String

-- A negative `configured_max_subagents` is no number of the model.
unfoldable pub subagent_threads_per_root : ℕ → ℕ → ℕ → Result ℕ
subagent_threads_per_root total_agent_threads max_root configured_max_subagents =
    if ltb total_agent_threads max_root || ltb max_root 1
    then err value_error
    else ok (min configured_max_subagents ((total_agent_threads - max_root) / max_root))

-- `available` may be negative in the source; its two tests are then false, as they are at 0.
unfoldable pub admit_nested_threads : ℕ → ℕ → ℕ → Bool → Result ThreadAdmission
admit_nested_threads active_thread_caps requested_threads total_budget allow_reduction =
    if ltb (min requested_threads total_budget) 1
    then err value_error
    else let available = total_budget - active_thread_caps in
      if leb requested_threads available
      then ok
          (record { allowed = true; granted_threads = requested_threads; reason = "within_budget" })
      else if allow_reduction && leb 1 available
      then ok (record { allowed = true; granted_threads = available; reason = "reduced_to_budget" })
      else ok (record {
        allowed = false;
        granted_threads = 0;
        reason = "nested_thread_budget_exhausted";
      })
