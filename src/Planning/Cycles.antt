-- ===== src/Planning/Cycles.antt =====
-- src/firstgreen/planning/compiler.py, `_cycle_nodes`: the tasks that a search in the graph of
-- dependencies finds on a cycle.
pub mod Acyclic
pub mod Complete
pub mod Ranks
use firstgreen.Prelude.{
  ℕ, zero, suc, String, List, [], ◌∷◌, ◌++◌, ◌==◌, if◌then◌else◌, keep, length, mem, is_some,
}
use firstgreen.Planning.Models.{PlanTask}
use firstgreen.Planning.Parallelism.{by_id, plan_ids, deps_of}

-- The two sets that the search fills.
pub record Search : Type 0 where
  pub visited : List String
  pub cycle : List String

-- `visiting[visiting.index(node):]`, where the last visited node stands first.
abbrev pub take_through : String → List String → List String
take_through node [] = []
take_through node (x ∷ xs) =
    let rest = take_through node xs in if x == node then x ∷ [] else x ∷ rest

pub visit_each : (String → Search → Search) → List String → Search → Search
visit_each f [] s = s
visit_each f (node ∷ nodes) s = visit_each f nodes (f node s)

module _ (tasks : List PlanTask) where
  -- The dependencies that are in the graph.
  abbrev pub edges : String → List String
  edges node = keep (λ d. is_some (by_id tasks d)) (deps_of tasks node)

  abbrev leave : String → Search → Search
  leave node s = record s { visited = node ∷ s.visited }

  -- `visit`; without fuel it reports a cycle. No path without a cycle is longer than the number of
  -- tasks, which is why one more is enough.
  pub visit : ℕ → List String → String → Search → Search
  visit zero visiting node s = record s { cycle = node ∷ s.cycle }
  visit (suc fuel) visiting node s =
      let deeper = leave node (visit_each (visit fuel (node ∷ visiting)) (edges node) s) in
      if mem node visiting
      then record s { cycle = take_through node visiting ++ s.cycle }
      else if mem node s.visited
      then s
      else deeper

  -- The loop over the graph's keys, of which a second visit does nothing.
  unfoldable pub search : Search
  unfolding visit visit_each deps_of by_id
  search =
      visit_each (visit (suc (length tasks)) []) (plan_ids tasks)
        (record { visited = []; cycle = [] })

  unfoldable pub cycle_nodes : List String
  unfolding search
  cycle_nodes = search.cycle
