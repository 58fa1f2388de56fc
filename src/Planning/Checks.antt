-- ===== src/Planning/Checks.antt =====
-- src/firstgreen/planning/compiler.py, `validate_plan`. The messages are the constructors of `PlanError`
-- in the order in which the code appends them.
pub mod Rules
use firstgreen.Prelude.{
  ℕ, String, Bool, true, false, not, ◌&&◌, ◌||◌, List, [], ◌∷◌, ◌++◌, ◌==◌, ltb, all, any, length,
  mem, distinct, is_empty,
}
use firstgreen.Planning.Models.{RepositoryMap, PlanTask, ConflictConstraint}
use firstgreen.Planning.Texts.{Host, contains, text_matches}
use firstgreen.Planning.Parallelism.{plan_ids}
use firstgreen.Planning.Paths.{
  normal, looks_like_test_path, has_source_scope, write_overlap, is_some_overlap, path_known,
}
use firstgreen.Planning.Cycles.{cycle_nodes}
use firstgreen.Planning.Merge.{gather}

pub data PlanError : Type 0 where
  duplicate_ids : PlanError
  task_count : PlanError
  dependency_cycle : List String → PlanError
  multiple_producers : String → PlanError
  empty_or_coordination : String → PlanError
  no_completion_condition : String → PlanError
  no_verifier : String → PlanError
  no_likely_paths : String → PlanError
  isolated_test : String → PlanError
  missing_artifact : String → String → PlanError
  unknown_dependency : String → String → PlanError
  denied_path : String → String → PlanError
  outside_allowed : String → String → PlanError
  conflict_not_represented : String → String → PlanError

-- `if test: errors.append(error)`
abbrev pub when {ℓ} : {A : Type ℓ} → Bool → A → List A
when true e = e ∷ []
when false e = []

-- `for x in xs: if test(x): errors.append(error(x))`
abbrev pub each {ℓ} : {A : Type ℓ} → (String → Bool) → (String → A) → List String → List A
each test error [] = []
each test error (x ∷ xs) = when (test x) (error x) ++ each test error xs

-- The loop over the produced artifacts, with those of `producers`.
abbrev pub repeated : List String → List String → List PlanError
repeated producers [] = []
repeated producers (a ∷ more) =
    when (mem a producers) (multiple_producers a) ++ repeated (a ∷ producers) more

abbrev pub produced : List PlanTask → List String
produced tasks = gather (λ (t : PlanTask). t.produces) tasks

abbrev pub coordination_phrases : List String
coordination_phrases =
    "think about the problem" ∷ "coordinate the other agents" ∷ "discuss possible solutions" ∷ []

-- `tuple(sorted((a, b))) in conflict_pairs`
abbrev pub is_represented : List ConflictConstraint → String → String → Bool
is_represented conflicts a b =
    any
      (λ (c : ConflictConstraint). c.task_a == a && c.task_b == b || c.task_a == b && c.task_b == a)
      conflicts

abbrev pub unrepresented : List ConflictConstraint → PlanTask → List PlanTask → List PlanError
unrepresented conflicts left [] = []
unrepresented conflicts left (right ∷ rest) =
    when
      (is_some_overlap (write_overlap left right)
        && not (is_represented conflicts left.id right.id))
      (conflict_not_represented left.id right.id)
    ++ unrepresented conflicts left rest

abbrev pub all_unrepresented : List ConflictConstraint → List PlanTask → List PlanError
all_unrepresented conflicts [] = []
all_unrepresented conflicts (left ∷ rest) =
    unrepresented conflicts left rest ++ all_unrepresented conflicts rest

pub record PlanRules : Type 0 where
  pub max_tasks : ℕ
  pub allow_paths : List String
  pub deny_paths : List String

module _ (host : Host) (repo_map : RepositoryMap) (rules : PlanRules) (external : List String) where
  abbrev pub objective_of : PlanTask → String
  objective_of t = host.lower (host.strip t.objective)

  abbrev pub coordination_only : PlanTask → Bool
  coordination_only t =
      is_empty t.produces
      && (is_empty t.likely_paths && any (contains (objective_of t)) coordination_phrases)

  abbrev pub is_isolated_test : List PlanTask → PlanTask → Bool
  is_isolated_test tasks t =
      not (is_empty t.likely_paths)
      && (all (looks_like_test_path host) t.likely_paths
          && (is_empty t.dependencies
              && (not (mem t.id (gather (λ (u : PlanTask). u.dependencies) tasks))
                  && any (λ u. has_source_scope host u repo_map) tasks)))

  abbrev pub is_denied : String → Bool
  is_denied path = any (text_matches host (normal path)) rules.deny_paths

  abbrev pub is_outside : String → Bool
  is_outside path =
      not (is_empty rules.allow_paths)
      && not (any (text_matches host (normal path)) rules.allow_paths)

  abbrev pub path_errors : String → List String → List PlanError
  path_errors id [] = []
  path_errors id (p ∷ ps) =
      when (is_denied p) (denied_path id p)
      ++ (when (is_outside p) (outside_allowed id p) ++ path_errors id ps)

  -- The body of the loop over the tasks.
  abbrev pub task_errors : List PlanTask → PlanTask → List PlanError
  task_errors tasks t =
      when (objective_of t == "" || coordination_only t) (empty_or_coordination t.id)
      ++ (when (is_empty t.verifier && is_empty t.verification_hints) (no_completion_condition t.id)
          ++ (when (is_empty t.verifier) (no_verifier t.id)
              ++ (when (not t.read_only && is_empty t.likely_paths) (no_likely_paths t.id)
                  ++ (when (is_isolated_test tasks t) (isolated_test t.id)
                      ++ (each (λ a. not (mem a (produced tasks)) && not (mem a external))
                            (missing_artifact t.id) t.requires
                          ++ (each (λ d. not (mem d (plan_ids tasks))) (unknown_dependency t.id)
                                t.dependencies
                              ++ path_errors t.id t.likely_paths))))))

  abbrev pub all_task_errors : List PlanTask → List PlanTask → List PlanError
  all_task_errors tasks [] = []
  all_task_errors tasks (t ∷ ts) = task_errors tasks t ++ all_task_errors tasks ts

  unfoldable pub plan_errors : List PlanTask → List ConflictConstraint → List PlanError
  unfolding cycle_nodes contains looks_like_test_path has_source_scope text_matches normal
      write_overlap
  plan_errors tasks conflicts =
      when (not (distinct (plan_ids tasks))) duplicate_ids
      ++ (when (is_empty tasks || ltb rules.max_tasks (length tasks)) task_count
          ++ (when (not (is_empty (cycle_nodes tasks))) (dependency_cycle (cycle_nodes tasks))
              ++ (repeated [] (produced tasks)
                  ++ (all_task_errors tasks tasks ++ all_unrepresented conflicts tasks))))

  -- The `warnings`: paths that the repository does not have.
  abbrev unknown_paths : List PlanTask → List (String × String)
  unknown_paths [] = []
  unknown_paths (t ∷ ts) =
      each (λ p. not (path_known p repo_map)) (λ p. (t.id, p)) t.likely_paths ++ unknown_paths ts

  unfoldable pub plan_warnings : List PlanTask → List (String × String)
  unfolding path_known
  plan_warnings tasks = unknown_paths tasks
