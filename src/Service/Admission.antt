-- ===== src/Service/Admission.antt =====
-- src/firstgreen/service.py, `_run_started`: which of the ready tasks a turn of the scheduler's loop
-- starts, under the root limit and the exclusive resources.
pub mod Exclusive
pub mod Capacity
use firstgreen.Prelude.{
  ℕ, suc, ◌+◌, ◌-◌, String, Bool, true, false, not, ◌&&◌, ◌||◌, List, [], ◌∷◌, ◌++◌, map,
  if◌then◌else◌, leb, keep, mem, is_empty,
}
use firstgreen.Config.Models.{TaskConfig, ResourceConfig}
use firstgreen.Scheduler.Queue.{RankedTask}

-- `{resource.key for resource in task.resources}`
unfoldable pub resource_keys : TaskConfig → List String
resource_keys t = map (λ (r : ResourceConfig). r.key) t.resources

unfoldable pub active_resources : List TaskConfig → List String
unfolding resource_keys
active_resources [] = []
active_resources (t ∷ ts) = resource_keys t ++ active_resources ts

-- `resources & held`
abbrev pub conflicts : List String → List String → List String
conflicts resources held = keep (λ r. mem r held) resources

-- An `admission_hold` decision: the task and the resources that it waits for.
pub record Hold : Type 0 where
  pub task_key : String
  pub resources : List String

pub record Selection : Type 0 where
  pub selected : List RankedTask
  pub holds : List Hold

abbrev nothing : Selection
nothing = record { selected = []; holds = [] }

abbrev pub hold_first : RankedTask → List String → Selection → Selection
hold_first r c s = record s { holds = record { task_key = r.task.id; resources = c } ∷ s.holds }

abbrev pub select_first : RankedTask → Selection → Selection
select_first r s = record s { selected = r ∷ s.selected }

-- The `for ranked in ranked_ready` loop: `count` tasks are selected so far, and `held` are the
-- resources of the running tasks and of those.
unfoldable pub select : ℕ → ℕ → List String → List RankedTask → Selection
unfolding resource_keys
select capacity count held [] = nothing
select capacity count held (r ∷ rest) =
    let c = conflicts (resource_keys r.task) held in
    let skipped = select capacity count held rest in
    let more = select capacity (suc count) (resource_keys r.task ++ held) rest in
    if not (is_empty c)
    then hold_first r c skipped
    else if leb capacity (suc count)
    then select_first r nothing
    else select_first r more

-- `capacity = max(0, limit - len(running))`: subtraction stops at 0.
unfoldable pub admit : ℕ → List TaskConfig → ℕ → List RankedTask → Selection
unfolding select active_resources
admit limit running running_count ranked =
    select (limit - running_count) 0 (active_resources running) ranked
