-- ===== src/Planning/Checks/Rules.antt =====
-- src/firstgreen/planning/compiler.py, `validate_plan`: what a plan without errors is.
use firstgreen.Prelude.{
  ◌≤◌, String, Bool, true, false, not, ◌&&◌, ◌||◌, ◌≡◌, refl, List, [], ◌∷◌, ◌++◌, arith, All,
  All-imp, any, ltb, length, mem, distinct, is_empty, eq_iff,
}
use firstgreen.Planning.Models.{RepositoryMap, PlanTask, ConflictConstraint}
use firstgreen.Planning.Texts.{Host, text_matches}
use firstgreen.Planning.Parallelism.{plan_ids}
use firstgreen.Planning.Paths.{normal, write_overlap, is_some_overlap}
use firstgreen.Planning.Cycles.{cycle_nodes}
use firstgreen.Planning.Cycles.Acyclic.{IsTopological, cycle_nodes-IsTopological}
use firstgreen.Planning.Checks.{
  PlanError, when, each, repeated, produced, is_represented, unrepresented, all_unrepresented,
  PlanRules, is_denied, is_outside, path_errors, task_errors, all_task_errors, plan_errors,
}

-- An empty list of errors has empty parts.
append-nil-parts {ℓ} : {A : Type ℓ} (xs ys : List A) → xs ++ ys ≡ [] → (xs ≡ []) × (ys ≡ [])
append-nil-parts [] ys e = (refl, e)
append-nil-parts (x ∷ xs) ys e = absurd (cc)

when-nil {ℓ} : {A : Type ℓ} (b : Bool) (e : A) → when b e ≡ [] → b ≡ false
when-nil true e h = absurd (cc)
when-nil false e h = refl

each-nil {ℓ} :
    {A : Type ℓ} (test : String → Bool) (error : String → A) (xs : List String)
    → each test error xs ≡ []
    → All (λ x. test x ≡ false) xs
each-nil test error [] h = tt
each-nil test error (x ∷ xs) h =
    let (a, b) = append-nil-parts (when (test x) (error x)) (each test error xs) h in
    (when-nil (test x) (error x) a, each-nil test error xs b)

repeated-nil :
    (seen artifacts : List String)
    → repeated seen artifacts ≡ []
    → (distinct artifacts ≡ true) × All (λ a. mem a seen ≡ false) artifacts
repeated-nil seen [] h = (refl, tt)
repeated-nil seen (a ∷ more) h =
    let (x, y) =
      append-nil-parts (when (mem a seen) (PlanError.multiple_producers a))
        (repeated (a ∷ seen) more) h in
    let (d, fresh) = repeated-nil (a ∷ seen) more y in
    (
      ground (arith, d, other a seen more fresh),
      (
        when-nil (mem a seen) (PlanError.multiple_producers a) x,
        All-imp (λ b. mem b (a ∷ seen) ≡ false) (λ b. mem b seen ≡ false) more (λ b n. ground arith)
            fresh,
      ),
    )
  where
    other :
        (a : String) (seen more : List String)
        → All (λ b. mem b (a ∷ seen) ≡ false) more
        → mem a more ≡ false
    other a seen [] f = refl
    other a seen (b ∷ more) f = ground (arith, f.0, eq_iff a b, eq_iff b a, other a seen more f.1)

module _ (host : Host) (repo_map : RepositoryMap) (rules : PlanRules) (external : List String) where
  -- A path that the rules admit.
  pub record IsAdmitted (path : String) : Type 0 where
    pub not_denied : any (text_matches host (normal path)) rules.deny_paths ≡ false
    pub allowed :
        (is_empty rules.allow_paths || any (text_matches host (normal path)) rules.allow_paths)
        ≡ true

  -- A task that can be run and verified within the plan.
  pub record IsSoundTask (tasks : List PlanTask) (t : PlanTask) : Type 0 where
    pub verified : is_empty t.verifier ≡ false
    pub bounded : (t.read_only || not (is_empty t.likely_paths)) ≡ true
    pub supplied : All (λ a. (mem a (produced tasks) || mem a external) ≡ true) t.requires
    pub known : All (λ d. mem d (plan_ids tasks) ≡ true) t.dependencies
    pub admitted : All IsAdmitted t.likely_paths

  abbrev pub Represented : List ConflictConstraint → PlanTask → List PlanTask → Type 0
  Represented conflicts t us =
      All
        (λ (u : PlanTask).
          is_some_overlap (write_overlap t u) ≡ true → is_represented conflicts t.id u.id ≡ true)
        us

  abbrev pub AllRepresented : List ConflictConstraint → List PlanTask → Type 0
  AllRepresented conflicts [] = Unit
  AllRepresented conflicts (t ∷ ts) = Represented conflicts t ts × AllRepresented conflicts ts

  pub record IsSound (tasks : List PlanTask) (conflicts : List ConflictConstraint) : Type 0 where
    pub unique : distinct (plan_ids tasks) ≡ true
    pub some_task : 1 ≤ length tasks
    pub few : length tasks ≤ rules.max_tasks
    pub order : List String
    pub topological : IsTopological tasks order
    pub ordered : All (λ k. mem k order ≡ true) (plan_ids tasks)
    pub one_producer : distinct (produced tasks) ≡ true
    pub sound_tasks : All (IsSoundTask tasks) tasks
    pub represented : AllRepresented conflicts tasks

  path_errors-nil :
      (id : String) (ps : List String)
      → path_errors host repo_map rules external id ps ≡ []
      → All IsAdmitted ps
  path_errors-nil id [] h = tt
  path_errors-nil id (p ∷ ps) h =
      let denied = is_denied host repo_map rules external p in
      let outside = is_outside host repo_map rules external p in
      let (a, b) = append-nil-parts (when denied (PlanError.denied_path id p)) _ h in
      let (c, d) = append-nil-parts (when outside (PlanError.outside_allowed id p)) _ b in
      let nd = when-nil denied (PlanError.denied_path id p) a in
      let no = when-nil outside (PlanError.outside_allowed id p) c in
      (record { not_denied = nd; allowed = ground arith }, path_errors-nil id ps d)

  task_errors-nil :
      (tasks : List PlanTask) (t : PlanTask)
      → task_errors host repo_map rules external tasks t ≡ []
      → IsSoundTask tasks t
  task_errors-nil tasks t h =
      let (a, h₁) = append-nil-parts (when _ (PlanError.empty_or_coordination t.id)) _ h in
      let (b, h₂) = append-nil-parts (when _ (PlanError.no_completion_condition t.id)) _ h₁ in
      let (c, h₃) = append-nil-parts (when _ (PlanError.no_verifier t.id)) _ h₂ in
      let (d, h₄) = append-nil-parts (when _ (PlanError.no_likely_paths t.id)) _ h₃ in
      let (e, h₅) = append-nil-parts (when _ (PlanError.isolated_test t.id)) _ h₄ in
      let (f, h₆) = append-nil-parts (each _ (PlanError.missing_artifact t.id) t.requires) _ h₅ in
      let (g, i) =
        append-nil-parts (each _ (PlanError.unknown_dependency t.id) t.dependencies) _ h₆ in
      let bounded = when-nil _ (PlanError.no_likely_paths t.id) d in
      record {
        verified = when-nil _ (PlanError.no_verifier t.id) c;
        bounded = ground arith;
        supplied =
            All-imp (λ x. (not (mem x (produced tasks)) && not (mem x external)) ≡ false)
              (λ x. (mem x (produced tasks) || mem x external) ≡ true) t.requires
              (λ x n. ground arith) (each-nil _ (PlanError.missing_artifact t.id) t.requires f);
        known =
            All-imp (λ x. not (mem x (plan_ids tasks)) ≡ false) (λ x. mem x (plan_ids tasks) ≡ true)
              t.dependencies (λ x n. ground arith)
              (each-nil _ (PlanError.unknown_dependency t.id) t.dependencies g);
        admitted = path_errors-nil t.id t.likely_paths i;
      }

  all_task_errors-nil :
      (tasks ts : List PlanTask)
      → all_task_errors host repo_map rules external tasks ts ≡ []
      → All (IsSoundTask tasks) ts
  all_task_errors-nil tasks [] h = tt
  all_task_errors-nil tasks (t ∷ ts) h =
      let (a, b) =
        append-nil-parts (task_errors host repo_map rules external tasks t)
          (all_task_errors host repo_map rules external tasks ts) h in
      (task_errors-nil tasks t a, all_task_errors-nil tasks ts b)

  unrepresented-nil :
      (conflicts : List ConflictConstraint) (t : PlanTask) (us : List PlanTask)
      → unrepresented conflicts t us ≡ []
      → Represented conflicts t us
  unrepresented-nil conflicts t [] h = tt
  unrepresented-nil conflicts t (u ∷ us) h =
      let missing =
        is_some_overlap (write_overlap t u) && not (is_represented conflicts t.id u.id) in
      let (a, b) =
        append-nil-parts (when missing (PlanError.conflict_not_represented t.id u.id))
          (unrepresented conflicts t us) h in
      let n = when-nil missing (PlanError.conflict_not_represented t.id u.id) a in
      ((λ o. ground arith), unrepresented-nil conflicts t us b)

  all_unrepresented-nil :
      (conflicts : List ConflictConstraint) (ts : List PlanTask)
      → all_unrepresented conflicts ts ≡ []
      → AllRepresented conflicts ts
  all_unrepresented-nil conflicts [] h = tt
  all_unrepresented-nil conflicts (t ∷ ts) h =
      let (a, b) =
        append-nil-parts (unrepresented conflicts t ts) (all_unrepresented conflicts ts) h in
      (unrepresented-nil conflicts t ts a, all_unrepresented-nil conflicts ts b)

  count-nil :
      (tasks : List PlanTask)
      → (is_empty tasks || ltb rules.max_tasks (length tasks)) ≡ false
      → (1 ≤ length tasks) × (length tasks ≤ rules.max_tasks)
  count-nil [] h = absurd (cc)
  count-nil (t ∷ ts) h = ground arith

  empty-eq : {A : Type 0} (xs : List A) → not (is_empty xs) ≡ false → xs ≡ []
  empty-eq [] h = refl
  empty-eq (x ∷ xs) h = absurd (cc)

  -- A plan without errors has between one and the allowed number of tasks, distinct ids, an order in
  -- which each task comes after its dependencies, one producer at most for each artifact, tasks with
  -- a verifier whose artifacts and dependencies are there and whose paths the rules admit, and a
  -- constraint for any two tasks that write to the same place.
  pub plan_errors-IsSound :
      (tasks : List PlanTask) (conflicts : List ConflictConstraint)
      → plan_errors host repo_map rules external tasks conflicts ≡ []
      → IsSound tasks conflicts
  unfolding plan_errors
  plan_errors-IsSound tasks conflicts h =
      let (a, h₁) = append-nil-parts (when _ PlanError.duplicate_ids) _ h in
      let (b, h₂) = append-nil-parts (when _ PlanError.task_count) _ h₁ in
      let (c, h₃) =
        append-nil-parts (when _ (PlanError.dependency_cycle (cycle_nodes tasks))) _ h₂ in
      let (d, h₄) = append-nil-parts (repeated [] (produced tasks)) _ h₃ in
      let (e, f) =
        append-nil-parts (all_task_errors host repo_map rules external tasks tasks) _ h₄ in
      let acyclic =
        empty-eq (cycle_nodes tasks)
          (when-nil _ (PlanError.dependency_cycle (cycle_nodes tasks)) c) in
      let (order, topological, ordered) = cycle_nodes-IsTopological tasks acyclic in
      let twice = when-nil _ PlanError.duplicate_ids a in
      let counted = count-nil tasks (when-nil _ PlanError.task_count b) in
      record {
        unique = ground arith;
        some_task = counted.0;
        few = counted.1;
        order = order;
        topological = topological;
        ordered = ordered;
        one_producer = (repeated-nil [] (produced tasks) d).0;
        sound_tasks = all_task_errors-nil tasks tasks e;
        represented = all_unrepresented-nil conflicts tasks f;
      }
