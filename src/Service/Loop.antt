-- ===== src/Service/Loop.antt =====
-- src/firstgreen/service.py, `_run_started`: the loop that ranks the ready tasks, adjusts the root
-- concurrency, starts tasks and waits for them. A task of asyncio is the id of the task that it
-- runs; the rows that the loop writes through the repository are the entries of its log, in order.
pub mod Counts
pub mod Turns
pub mod Rule
pub mod Accounting
pub mod Safety
pub mod Progress
pub mod Total
pub mod Outcome
pub mod Limit
use firstgreen.Prelude.{
  ℕ, zero, suc, ◌+◌, ◌-◌, ◌*◌, String, Bool, true, false, not, ◌&&◌, ◌||◌, Option, none, some, List,
  [], ◌∷◌, ◌++◌, map, ◌==◌, nat_eq, if◌then◌else◌, is_empty, keep, mem, length,
}
use firstgreen.Prelude.Result.{Result, ok, err, ◌>>=◌}
use firstgreen.Domain.Models.{RunStatus}
use firstgreen.Config.Models.{
  TaskConfig, ConcurrencyMode, ConcurrencyConfig, Manifest, auto, static, SchedulerConfig,
}
use firstgreen.Config.Dag.{ids}
use firstgreen.Scheduler.Concurrency.{
  PressureSnapshot, ConcurrencyState, new_state, ConcurrencyDecision, AimdController, decide,
  subagent_threads_per_root,
}
use firstgreen.Scheduler.Queue.{RankedTask, ranked_ready_tasks}
use firstgreen.Service.Admission.{Hold, Selection, admit}

-- What the process finds outside itself in each turn: the host's pressure, the time, and which of
-- the running tasks have finished when the wait returns, with their results.
pub record World : Type 0 where
  pub sample : ℕ → PressureSnapshot
  pub clock : ℕ → ℕ
  pub wait : ℕ → List TaskConfig → List (String × Bool)

-- The events and decisions, with the values that the code reports in them.
pub data Entry : Type 0 where
  ready_set : List String → ℕ → ℕ → Entry
  tasks_blocked : List String → Entry
  root_concurrency : ConcurrencyDecision → Entry
  admission_hold : Hold → ℕ → ℕ → Entry
  ready_queue_select : String → ℕ → ℕ → ℕ → Entry
  task_admitted : String → ℕ → ℕ → ℕ → Entry
  task_finished : String → Bool → Entry

pub record LoopState : Type 0 where
  pub pending : List TaskConfig
  pub running : List TaskConfig
  pub verified_keys : List String
  pub failed : ℕ
  pub concurrency : ConcurrencyState
  pub ready_work_count : ℕ
  pub log : List Entry

abbrev pub append_log : List Entry → LoopState → LoopState
append_log es s = record s { log = s.log ++ es }

abbrev pub pop : String → List TaskConfig → List TaskConfig
pop x ts = keep (λ (t : TaskConfig). not (t.id == x)) ts

abbrev pub snapshot_of : LoopState → PressureSnapshot → PressureSnapshot
snapshot_of s h = record {
  backlog = length s.pending;
  completed_samples = length s.verified_keys + s.failed;
  rate_limit_errors = h.rate_limit_errors;
  spawn_errors = h.spawn_errors;
  verifier_queue_wait = h.verifier_queue_wait;
  memory_percent = h.memory_percent;
  normalized_load = h.normalized_load;
  cancellation_backlog = h.cancellation_backlog;
}

-- The controller that the loop makes, with the class's default number of samples.
abbrev pub controller : ConcurrencyConfig → AimdController
controller c = record { cooldown_seconds = c.cooldown_seconds; min_completed_samples = 1 }

-- In the mode given; `static` leaves the count as it is.
unfoldable pub adjust :
    ConcurrencyMode → ConcurrencyConfig → PressureSnapshot → ℕ → LoopState → Result LoopState
unfolding decide
adjust static c host now s = ok s
adjust auto c host now s =
    decide (controller c) s.concurrency (snapshot_of s host) now "auto" >>= λ d.
    ok (append_log (root_concurrency (d.1) ∷ []) (record s { concurrency = d.0 }))

-- The body of the loop over the selected tasks, from the position given on.
unfoldable pub start_each : ℕ → ℕ → ℕ → ℕ → List RankedTask → LoopState → LoopState
start_each ready limit threads position [] s = s
start_each ready limit threads position (r ∷ rs) s =
    start_each ready limit threads (suc position) rs (record s {
      pending = pop r.task.id s.pending;
      running = s.running ++ r.task ∷ [];
      log =
          s.log
          ++ ready_queue_select r.task.id position ready r.bottom_level
            ∷ task_admitted r.task.id r.bottom_level limit threads
            ∷ [];
    })

-- `verified_keys.add`
abbrev pub add_key : String → List String → List String
add_key x xs = if mem x xs then xs else x ∷ xs

unfoldable pub finish_one : String → Bool → LoopState → LoopState
finish_one x true s = record s {
  running = pop x s.running;
  verified_keys = add_key x s.verified_keys;
  log = s.log ++ task_finished x true ∷ [];
}
finish_one x false s = record s {
  running = pop x s.running;
  failed = suc s.failed;
  log = s.log ++ task_finished x false ∷ [];
}

unfoldable pub finish_each : List (String × Bool) → LoopState → LoopState
unfolding finish_one
finish_each [] s = s
finish_each ((x, result) ∷ rest) s = finish_each rest (finish_one x result s)

-- The break: what is pending can never start.
unfoldable pub block_pending : LoopState → LoopState
block_pending s =
    append_log (tasks_blocked (ids s.pending) ∷ [])
      (record s { failed = s.failed + length s.pending })

abbrev pub hold_entries : ℕ → ℕ → List Hold → List Entry
hold_entries ready limit holds = map (λ h. admission_hold h ready limit) holds

-- From the limit to the start of the selected tasks.
unfoldable pub start_selected :
    ConcurrencyConfig → ℕ → List RankedTask → LoopState → Result LoopState
unfolding admit start_each subagent_threads_per_root
start_selected c max_subagents ranked s =
    subagent_threads_per_root c.total_agent_thread_budget c.max_root max_subagents >>= λ threads.
    (let limit = s.concurrency.current_root in
      let ready = length ranked in
      let choice = admit limit s.running (length s.running) ranked in
      ok (
        start_each ready limit threads 1 choice.selected
          (append_log (hold_entries ready limit choice.holds) s)))

-- How a turn leaves the loop: by the break, or to go on.
pub data Turn : Type 0 where
  broke goes_on : LoopState → Turn

abbrev pub wait_for_running : World → ℕ → LoopState → LoopState
wait_for_running w n s = if is_empty s.running then s else finish_each (w.wait n s.running) s

abbrev pub note_ready : List RankedTask → LoopState → LoopState
note_ready ranked s =
    append_log
      (ready_set (map (λ (r : RankedTask). r.task.id) ranked) (length s.pending) (length s.running)
        ∷ [])
      (record s { ready_work_count = length ranked })

unfoldable pub turn : Manifest → World → ℕ → LoopState → Result Turn
unfolding ranked_ready_tasks adjust start_selected block_pending finish_each
turn m w n s =
    ranked_ready_tasks s.pending s.verified_keys m.scheduler.ready_queue_policy (some m.tasks)
    >>= λ ranked.
        (let noted = note_ready ranked s in
          if is_empty ranked && is_empty s.running then ok (broke (block_pending noted)) else (do
            adjusted ←
                adjust m.scheduler.concurrency.mode m.scheduler.concurrency (w.sample n) (w.clock n)
                  noted
            started ← start_selected m.scheduler.concurrency m.max_subagent_threads ranked adjusted
            ok (goes_on (wait_for_running w n started))))

-- `while pending or running`, at most as many turns as the fuel.
pub data Loop : Type 0 where
  ended : LoopState → Loop
  out_of_fuel : LoopState → Loop

abbrev pub is_over : LoopState → Bool
is_over s = is_empty s.pending && is_empty s.running

unfoldable pub loop : ℕ → Manifest → World → ℕ → LoopState → Result Loop
unfolding turn
loop zero m w n s = if is_over s then ok (ended s) else ok (out_of_fuel s)
loop (suc fuel) m w n s =
    if is_over s
    then ok (ended s)
    else turn m w n s >>= λ t. elim t [
      | broke b ↦ ok (ended b)
      | goes_on g ↦ loop fuel m w (suc n) g
    ]

-- The state in which the loop starts; the last change is a cooldown ago.
unfoldable pub initial_state : Manifest → ℕ → Result LoopState
unfolding new_state
initial_state m now =
    let c = m.scheduler.concurrency in
    new_state c.initial_root c.min_root c.max_root (now - c.cooldown_seconds * 1000000) 0 0
    >>= λ concurrency. ok (record {
      pending = m.tasks;
      running = [];
      verified_keys = [];
      failed = 0;
      concurrency = concurrency;
      ready_work_count = 0;
      log = [];
    })

pub record RunOutcome : Type 0 where
  pub verified : ℕ
  pub failed : ℕ
  pub status : RunStatus

-- The end of the run; `delivered` is the result of the final delivery.
abbrev outcome_of : LoopState → ℕ → RunOutcome
outcome_of s failed = record {
  verified = length s.verified_keys;
  failed = failed;
  status = if nat_eq failed 0 then RunStatus.completed else RunStatus.failed;
}

unfoldable pub conclude : Manifest → Bool → LoopState → RunOutcome
conclude m delivered s =
    if nat_eq s.failed 0 && (not (nat_eq (length m.tasks) 0) && not (nat_eq (length m.tasks) 1))
    then outcome_of s (if delivered then s.failed else suc s.failed)
    else outcome_of s s.failed

-- The run from its first turn to its outcome, with turns enough for every task to start and finish.
unfoldable pub run_started : Manifest → World → ℕ → Bool → Result (Option RunOutcome)
unfolding initial_state loop conclude
run_started m w now delivered = initial_state m now >>= λ s.
    loop (2 * length m.tasks) m w 0 s >>= λ l. elim l [
      | ended f ↦ ok (some (conclude m delivered f))
      | out_of_fuel f ↦ ok none
    ]
