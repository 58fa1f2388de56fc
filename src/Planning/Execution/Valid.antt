-- ===== src/Planning/Execution/Valid.antt =====
-- src/firstgreen/planning/workflow.py: the manifest of a plan that the analysis accepts passes the checks
-- of src/firstgreen/config.py, so that a run of it comes to an end.
use firstgreen.Prelude.{
  ℕ, ◌<◌, ◌≤◌, String, Bool, true, false, ◌||◌, ◌≡◌, refl, subst, sym, ◌∙◌, ap, List, [], ◌∷◌,
  arith, ◌==◌, eq_iff, eq_refl, Bool-cases, inl, inr, All, All-of_mem, any, all, length, map, mem,
  distinct, is_empty, Within,
}
use firstgreen.Prelude.Result.{ok, Returns, Returns-bind}
use firstgreen.Config.Models.{TaskConfig, Manifest, check_concurrency}
use firstgreen.Config.Dag.{ids, dependencies_of, valid_dag}
use firstgreen.Config.Dag.Complete.{valid_dag_total}
use firstgreen.Planning.Models.{PlanTask, ParallelismAnalysis}
use firstgreen.Planning.Parallelism.{plan_ids, deps_of}
use firstgreen.Planning.Verifiers.{Command}
use firstgreen.Planning.Analysis.{analyze_parallelism}
use firstgreen.Planning.Analysis.Sound.{analyze-IsAnalysed}
use firstgreen.Planning.Execution.{
  Policy, task_config, concurrency_for, manifest_of, plan_to_manifest, lacks_command, slots_for,
  checked,
}
use firstgreen.Planning.Execution.Acyclic.{
  IsOrdered, analyze-IsOrdered, each-task, deps-first, deps-later, deps-none,
}

concurrency-passes :
    (policy : Policy) (n : ℕ) → 1 ≤ n → check_concurrency (concurrency_for policy n) ≡ ok tt
unfolding concurrency_for check_concurrency
concurrency-passes policy n h = ground arith

module _ (prompt : PlanTask → List String → String) (replay_safe : Bool)
    (all_tasks : List PlanTask) where
  abbrev config : PlanTask → TaskConfig
  config = task_config prompt replay_safe all_tasks

  ids-config : (ts : List PlanTask) → ids (map config ts) ≡ plan_ids ts
  unfolding task_config
  ids-config [] = refl
  ids-config (t ∷ ts) = ap (λ l. t.id ∷ l) (ids-config ts)

  dependencies-config :
      (ts : List PlanTask) (x : String)
      → distinct (plan_ids ts) ≡ true
      → dependencies_of (map config ts) x ≡ deps_of ts x
  unfolding task_config dependencies_of
  dependencies-config [] x d = sym (deps-none [] x refl)
  dependencies-config (t ∷ ts) x d = elim (Bool-cases (t.id == x)) [
    | inl same ↦
        subst (λ z. dependencies_of (map config (t ∷ ts)) z ≡ deps_of (t ∷ ts) z)
          ((eq_iff t.id x).0 same) (here ∙ sym (deps-first t ts (ground arith)))
    | inr other ↦ rw other (
        dependencies-config ts x (ground arith) ∙ elim (Bool-cases (mem x (plan_ids ts))) [
          | inl m ↦ sym (deps-later t ts x m)
          | inr n ↦
              deps-none ts x n
              ∙ sym (deps-none (t ∷ ts) x (ground (arith, n, eq_iff t.id x, eq_iff x t.id)))
        ])
  ]
    where
      here : dependencies_of (map config (t ∷ ts)) t.id ≡ t.dependencies
      here = rw (eq_refl t.id) refl

  all-config :
      (known : List String) (ts : List PlanTask)
      → All (λ (t : PlanTask). Within t.dependencies known) ts
      → all (λ (c : TaskConfig). all (λ d. mem d known) c.dependencies) (map config ts) ≡ true
  unfolding task_config
  all-config known [] h = refl
  all-config known (t ∷ ts) h = rw (each_known t.dependencies h.0) (all-config known ts h.1)
    where
      each_known : (ds : List String) → Within ds known → all (λ d. mem d known) ds ≡ true
      each_known [] w = refl
      each_known (d ∷ ds) w = ground (arith, w.0, each_known ds w.1)

valid-config :
    (prompt : PlanTask → List String → String) (replay_safe : Bool) (tasks : List PlanTask)
    → distinct (plan_ids tasks) ≡ true
    → IsOrdered tasks
    → Returns (λ _. Unit) (valid_dag (map (config prompt replay_safe tasks) tasks))
valid-config prompt replay_safe tasks d o =
    let same = ids-config prompt replay_safe tasks tasks in
    let known =
      each-task (λ x ds. Within ds (plan_ids tasks)) tasks d
        (λ x m.
          All-of_mem (λ j. mem j (plan_ids tasks) ≡ true) (deps_of tasks x)
            (λ j i. o.known x j i)) in
    valid_dag_total (map (config prompt replay_safe tasks) tasks) o.place (rw same d)
      (rw same (all-config prompt replay_safe tasks (plan_ids tasks) tasks known))
      (λ x.
        rw (dependencies-config prompt replay_safe tasks tasks x d)
          (All-of_mem (λ j. o.place j < o.place x) (deps_of tasks x) (λ j i. o.earlier x j i)))

-- What a run of the manifest relies on.
pub record IsPlanned (tasks : List PlanTask) (m : Manifest) : Type 0 where
  pub concurrency : check_concurrency m.scheduler.concurrency ≡ ok tt
  pub acyclic : Returns (λ _. Unit) (valid_dag m.tasks)
  pub same_ids : ids m.tasks ≡ plan_ids tasks

-- A plan that the analysis accepts and whose tasks all have commands becomes a manifest that passes
-- the checks on its tasks and on its concurrency, unless its estimates are stale.
pub manifest_passes :
    (prompt : PlanTask → List String → String) (replay_safe : Bool) (policy : Policy)
    (tasks : List PlanTask) (delivery : List Command) {a : ParallelismAnalysis}
    → analyze_parallelism 5 tasks ≡ ok a
    → (any lacks_command tasks || any is_empty delivery) ≡ false
    → Returns (IsPlanned tasks) (plan_to_manifest prompt replay_safe policy false tasks delivery)
unfolding plan_to_manifest checked manifest_of
manifest_passes prompt replay_safe policy tasks delivery {a} e c =
    let v = analyze-IsAnalysed 5 tasks e in
    let slots = slots_for policy a.recommended_root_slots (length tasks) in
    let fine = concurrency-passes policy slots (ground arith) in
    let valid = valid-config prompt replay_safe tasks v.unique (analyze-IsOrdered 5 tasks e) in
    rw (e, c, fine)
      (Returns-bind (λ _. Unit) (IsPlanned tasks)
        (valid_dag (map (config prompt replay_safe tasks) tasks)) _ valid
        (λ order u. record {
          concurrency = fine;
          acyclic = valid;
          same_ids = ids-config prompt replay_safe tasks tasks;
        }))
