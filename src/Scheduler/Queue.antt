-- ===== src/Scheduler/Queue.antt =====
-- src/firstgreen/scheduler/queue.py: the ready queue and its two policies. Durations are whole
-- milliseconds: on these the rounding to three decimals changes nothing. A manifest may give a finer
-- duration, which the source rounds, and which the model has not.
pub mod Levels
pub mod Examples
pub mod Ready
use firstgreen.Prelude.{
  ℕ, zero, suc, ◌+◌, max, String, Bool, true, false, not, ◌&&◌, ◌||◌, Option, none, some, List, [],
  ◌∷◌, map, ◌==◌, if◌then◌else◌, nat_eq, leb, length, all, any, keep, mem, sort, text_leb, is_empty,
  ◌++◌,
}
use firstgreen.Prelude.Int.{ℤ, leb_ℤ}
use firstgreen.Prelude.Result.{Result, ok, err, value_error, key_error, raise_if, ◌>>=◌, ◌>>◌}
use firstgreen.Config.Models.{TaskConfig, ReadyQueuePolicy, stable, critical_path}
use firstgreen.Config.Dag.{ids}

abbrev pub Memo : Type 0
Memo = List (String × ℕ)

-- `task_id in memo` and `memo[task_id]`.
abbrev pub has : String → Memo → Bool
has k [] = false
has k ((j, v) ∷ m) = j == k || has k m

abbrev pub level_at : Memo → String → ℕ
level_at [] k = 0
level_at ((j, v) ∷ m) k = if j == k then v else level_at m k

-- `successors[task_id]`: the tasks that depend on it, once for each mention.
mentions : String → List String → String → List String
mentions key [] t = []
mentions key (d ∷ ds) t = let rest = mentions key ds t in if d == key then t ∷ rest else rest

unfoldable pub successors : List TaskConfig → String → List String
unfolding mentions
successors [] key = []
successors (t ∷ ts) key = mentions key t.dependencies t.id ++ successors ts key

unfoldable pub duration_of : List TaskConfig → String → ℕ
duration_of [] key = 0
duration_of (t ∷ ts) key = if t.id == key then t.estimated_duration else duration_of ts key

-- `max((rank(item) for item in nodes), default=0.0)`, with the memo that the calls fill.
pub best_rank : (String → Memo → Result (ℕ × Memo)) → List String → Memo → Result (ℕ × Memo)
best_rank f [] memo = ok (0, memo)
best_rank f (x ∷ xs) memo = do
  first ← f x memo
  rest ← best_rank f xs (first.1)
  ok (max (first.0) (rest.0), rest.1)

module _ (tasks : List TaskConfig) where
  -- `rank`; without fuel it refuses, as for a cycle.
  pub rank : ℕ → List String → String → Memo → Result (ℕ × Memo)
  rank zero visiting task_id memo = err value_error
  rank (suc fuel) visiting task_id memo =
      let tail = best_rank (rank fuel (task_id ∷ visiting)) (successors tasks task_id) memo in
      if has task_id memo
      then ok (level_at memo task_id, memo)
      else if mem task_id visiting
      then err value_error
      else (tail >>= λ t.
          let result = duration_of tasks task_id + t.0 in ok (result, (task_id, result) ∷ t.1))

  -- The final loop over the sorted ids.
  pub rank_each : List String → Memo → Result Memo
  rank_each [] memo = ok memo
  rank_each (x ∷ xs) memo = rank (suc (length tasks)) [] x memo >>= λ r. rank_each xs (r.1)

  unfoldable pub bottom_levels : Result Memo
  unfolding rank rank_each best_rank successors duration_of
  bottom_levels = do
    raise_if (not (all (λ t. all (λ d. mem d (ids tasks)) t.dependencies) tasks)) value_error
    rank_each (sort text_leb (ids tasks)) []

pub record RankedTask : Type 0 where
  pub task : TaskConfig
  pub bottom_level : ℕ

-- `(-priority, id)` in order.
abbrev pub stable_le : RankedTask → RankedTask → Bool
stable_le a b =
    if not (leb_ℤ a.task.priority b.task.priority)
    then true
    else if not (leb_ℤ b.task.priority a.task.priority)
    then false
    else text_leb a.task.id b.task.id

-- `(-ranks[id], -priority, id)` in order.
abbrev pub critical_le : RankedTask → RankedTask → Bool
critical_le a b =
    if not (leb a.bottom_level b.bottom_level)
    then true
    else if not (leb b.bottom_level a.bottom_level)
    then false
    else stable_le a b

abbrev pub queue_le : ReadyQueuePolicy → RankedTask → RankedTask → Bool
queue_le stable = stable_le
queue_le critical_path = critical_le

abbrev pub is_ready : List String → TaskConfig → Bool
is_ready terminal_green t = all (λ d. mem d terminal_green) t.dependencies

-- `all_tasks or tasks`
abbrev pub all_or : Option (List TaskConfig) → List TaskConfig → List TaskConfig
all_or none tasks = tasks
all_or (some []) tasks = tasks
all_or (some (t ∷ ts)) tasks = t ∷ ts

-- The entry of a ready task; `ranks[task.id]` is in the memo.
abbrev pub entry_of : Memo → TaskConfig → RankedTask
entry_of ranks t = record { task = t; bottom_level = level_at ranks t.id }

unfoldable pub ranked_ready_tasks :
    List TaskConfig
    → List String
    → ReadyQueuePolicy
    → Option (List TaskConfig)
    → Result (List RankedTask)
unfolding bottom_levels sort
ranked_ready_tasks tasks terminal_green policy all_tasks =
    bottom_levels (all_or all_tasks tasks) >>= λ ranks.
    (let ready = keep (is_ready terminal_green) tasks in
      raise_if (not (all (λ (t : TaskConfig). has t.id ranks) ready)) key_error
      >> ok (sort (queue_le policy) (map (entry_of ranks) ready)))

unfoldable pub ready_tasks :
    List TaskConfig
    → List String
    → ReadyQueuePolicy
    → Option (List TaskConfig)
    → Result (List TaskConfig)
unfolding ranked_ready_tasks
ready_tasks tasks terminal_green policy all_tasks =
    ranked_ready_tasks tasks terminal_green policy all_tasks >>= λ l.
    ok (map (λ (r : RankedTask). r.task) l)
