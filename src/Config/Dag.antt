-- ===== src/Config/Dag.antt =====
-- src/firstgreen/config.py, `Manifest.valid_dag`: distinct ids, known dependencies, no cycle.
pub mod Acyclic
pub mod Complete
use firstgreen.Prelude.{
  ℕ, zero, suc, String, Bool, true, false, not, ◌&&◌, ◌||◌, List, [], ◌∷◌, map, ◌==◌, if◌then◌else◌,
  all, length, mem, distinct,
}
use firstgreen.Prelude.Result.{Result, ok, err, value_error, raise_if, ◌>>=◌, ◌>>◌}
use firstgreen.Config.Models.{TaskConfig}

abbrev pub ids : List TaskConfig → List String
ids tasks = map (λ (t : TaskConfig). t.id) tasks

-- `graph[node]`, for the ids of the manifest.
unfoldable pub dependencies_of : List TaskConfig → String → List String
dependencies_of [] node = []
dependencies_of (t ∷ ts) node = if t.id == node then t.dependencies else dependencies_of ts node

-- A loop that visits every node of a list, with what has been visited so far.
pub visit_each :
    (String → List String → Result (List String)) → List String → List String → Result (List String)
visit_each f [] visited = ok visited
visit_each f (node ∷ nodes) visited = f node visited >>= λ v. visit_each f nodes v

module _ (tasks : List TaskConfig) where
  -- `visit`, with the set `visiting` as an argument, since it is restored on return. Without fuel
  -- it refuses, as for a cycle: no path without a cycle is longer than the number of tasks.
  pub visit : ℕ → List String → String → List String → Result (List String)
  visit zero visiting node visited = err value_error
  visit (suc fuel) visiting node visited =
      let deeper = visit_each (visit fuel (node ∷ visiting)) (dependencies_of tasks node) visited in
      if mem node visiting
      then err value_error
      else if mem node visited
      then ok visited
      else (deeper >>= λ v. ok (node ∷ v))

  unfoldable pub valid_dag : Result (List String)
  unfolding visit visit_each dependencies_of
  valid_dag = do
    raise_if (not (distinct (ids tasks))) value_error
    raise_if (not (all (λ t. all (λ d. mem d (ids tasks)) t.dependencies) tasks)) value_error
    visit_each (visit (suc (length tasks)) []) (ids tasks) []
