-- ===== src/Config/Examples.antt =====
-- Tests and witnesses for the manifest's checks.
use firstgreen.Prelude.{
  ℕ, String, ◌≡◌, refl, List, [], ◌∷◌, ◌==◌, if◌then◌else◌, arith, eq_iff, Within,
}
use firstgreen.Prelude.Result.{ok, err, value_error, Returns}
use firstgreen.Config.Models.{check_concurrency}
use firstgreen.Config.Dag.{ids, dependencies_of, valid_dag}
use firstgreen.Config.Dag.Acyclic.{IsTopological, valid_dag-IsTopological}
use firstgreen.Config.Dag.Complete.{IsRanked, valid_dag_total}
use firstgreen.Config.Samples.{sample_task, sample_tasks, sample_concurrency}

abbrev sample_order : List String
sample_order = "docs" ∷ "view" ∷ "model" ∷ []

sample-accepted : valid_dag sample_tasks ≡ ok sample_order
unfolding valid_dag
sample-accepted = refl

cycle-refused :
    valid_dag (sample_task "a" ("b" ∷ []) [] ∷ sample_task "b" ("a" ∷ []) [] ∷ []) ≡ err value_error
unfolding valid_dag
cycle-refused = refl

limits-refused :
    check_concurrency (record sample_concurrency { total_agent_thread_budget = 2 })
    ≡ err value_error
unfolding check_concurrency
limits-refused = refl

valid_dag-IsTopological_example :
    IsTopological sample_tasks sample_order × Within (ids sample_tasks) sample_order
valid_dag-IsTopological_example = valid_dag-IsTopological sample_tasks sample-accepted

abbrev sample_rank : String → ℕ
sample_rank x = if x == "view" then 1 else 0

sample-IsRanked : IsRanked sample_tasks sample_rank
unfolding dependencies_of
sample-IsRanked x =
    ground (arith, eq_iff "model" x, eq_iff "view" x, eq_iff "docs" x, eq_iff x "view")

valid_dag_total_example : Returns (λ _. Unit) (valid_dag sample_tasks)
valid_dag_total_example = valid_dag_total sample_tasks sample_rank refl refl sample-IsRanked
