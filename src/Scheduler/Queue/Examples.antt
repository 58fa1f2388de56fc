-- ===== src/Scheduler/Queue/Examples.antt =====
-- Tests and witnesses for the ready queue.
use mathlib.Core.List.{Perm}
use firstgreen.Prelude.{◌≤◌, String, ◌≡◌, refl, some, List, [], ◌∷◌, map, keep, sort, All}
use firstgreen.Prelude.Result.{ok, err, key_error, Returns}
use firstgreen.Config.Models.{critical_path}
use firstgreen.Config.Dag.{valid_dag}
use firstgreen.Config.Samples.{sample_tasks, model_task, docs_task}
use firstgreen.Scheduler.Queue.{
  Memo, level_at, bottom_levels, RankedTask, is_ready, ranked_ready_tasks,
}
use firstgreen.Scheduler.Queue.Ready.{InOrder, HasLevel, ranked_ready_correct}
use firstgreen.Scheduler.Queue.Levels.Paths.{needs, IsChain, total, chain-le-level, level_attained}
use firstgreen.Scheduler.Queue.Levels.Valid.{HasAll, valid_dag-levels}

abbrev sample_levels : Memo
sample_levels = ("model", 10) ∷ ("view", 5) ∷ ("docs", 5) ∷ []

levels_computed : bottom_levels sample_tasks ≡ ok sample_levels
unfolding bottom_levels sort
levels_computed = refl

abbrev sample_queue : List RankedTask
sample_queue =
    record { task = model_task; bottom_level = 10 }
    ∷ record { task = docs_task; bottom_level = 5 }
    ∷ []

queue_computed :
    ranked_ready_tasks sample_tasks [] critical_path (some sample_tasks) ≡ ok sample_queue
unfolding ranked_ready_tasks
queue_computed = refl

ranked_ready_correct_example :
    InOrder critical_path sample_queue
    × Perm (map (λ (r : RankedTask). r.task) sample_queue) (keep (is_ready []) sample_tasks)
    × ((ranks : Memo) × (bottom_levels sample_tasks ≡ ok ranks) × All (HasLevel ranks) sample_queue)
ranked_ready_correct_example =
    ranked_ready_correct sample_tasks [] critical_path (some sample_tasks) queue_computed

-- A pending task that `all_tasks` has not.
level_missing :
    ranked_ready_tasks (model_task ∷ []) [] critical_path (some (docs_task ∷ [])) ≡ err key_error
unfolding ranked_ready_tasks
level_missing = refl

view_follows : IsChain sample_tasks "model" ("view" ∷ [])
unfolding needs
view_follows = (refl, tt)

chain-le-level_example : total sample_tasks "model" ("view" ∷ []) ≤ level_at sample_levels "model"
chain-le-level_example =
    chain-le-level sample_tasks "model" ("view" ∷ []) levels_computed refl view_follows

level_attained_example :
    (ys : List String) × IsChain sample_tasks "model" ys
    × (total sample_tasks "model" ys ≡ level_at sample_levels "model")
level_attained_example = level_attained sample_tasks "model" levels_computed refl

accepted : valid_dag sample_tasks ≡ ok ("docs" ∷ "view" ∷ "model" ∷ [])
unfolding valid_dag
accepted = refl

valid_dag-levels_example : Returns (HasAll sample_tasks) (bottom_levels sample_tasks)
valid_dag-levels_example = valid_dag-levels sample_tasks accepted
