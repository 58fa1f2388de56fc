-- ===== src/Planning/Execution/Apart.antt =====
-- From the plan to its run: src/firstgreen/planning/compiler.py gives tasks that write to the same place a
-- resource in common, src/firstgreen/planning/workflow.py hands the resources to the manifest, and the
-- scheduler of src/firstgreen/service.py never runs two tasks that share one.
use firstgreen.Prelude.{
  ℕ, String, Bool, true, ◌||◌, ◌≡◌, ◌⊎◌, refl, subst, sym, ◌∙◌, ap, List, [], ◌∷◌, map, inl, inr,
  any, length, mem, is_empty,
}
use firstgreen.Prelude.Result.{ok, value_error, ◌>>=◌, >>=-eq-ok, raise_if-eq-ok}
use firstgreen.Config.Models.{TaskConfig, ResourceConfig, Manifest, check_concurrency}
use firstgreen.Config.Dag.{valid_dag}
use firstgreen.Service.Admission.{resource_keys}
use firstgreen.Service.Admission.Exclusive.{Exclusive}
use firstgreen.Service.Loop.{World, LoopState, initial_state}
use firstgreen.Service.Loop.Safety.{Reached, Reached-IsSafe}
use firstgreen.Planning.Models.{PlanTask, ConflictConstraint, RepositoryMap, PlannerProposal}
use firstgreen.Planning.Texts.{Host}
use firstgreen.Planning.Candidate.{CandidatePlan}
use firstgreen.Planning.Compile.{DecompositionConfig, compile_plan}
use firstgreen.Planning.Compile.Sound.{compiled-Joined}
use firstgreen.Planning.Verifiers.{Command}
use firstgreen.Planning.Paths.{write_overlap, is_some_overlap}
use firstgreen.Planning.Conflicts.Joined.{Joined, apart, sharing}
use firstgreen.Planning.Analysis.{analyze_parallelism}
use firstgreen.Planning.Execution.{
  Policy, task_config, manifest_of, plan_to_manifest, lacks_command, checked, exclusive, slots_for,
}
use firstgreen.Planning.Execution.Ahead.{Ahead, true-ne-false, ahead-clash, Pairwise-at}

checked-eq : (m : Manifest) {k : Manifest} → checked m ≡ ok k → m ≡ k
unfolding checked
checked-eq m e =
    let (_, _, e₁) =
      >>=-eq-ok (check_concurrency m.scheduler.concurrency)
        (λ done. valid_dag m.tasks >>= λ order. ok m) e in
    let (order, _, e₂) = >>=-eq-ok (valid_dag m.tasks) (λ order. ok m) e₁ in cc

module _ (prompt : PlanTask → List String → String) (replay_safe : Bool) where
  keys-config :
      (tasks : List PlanTask) (t : PlanTask)
      → resource_keys (task_config prompt replay_safe tasks t) ≡ t.resources
  unfolding resource_keys task_config
  keys-config tasks t = same t.resources
    where
      same : (keys : List String) → map (λ (r : ResourceConfig). r.key) (map exclusive keys) ≡ keys
      same [] = refl
      same (k ∷ ks) = ap (λ l. k ∷ l) (same ks)

  tasks-manifest :
      (policy : Policy) (stale : Bool) (tasks : List PlanTask) (delivery : List Command)
      {m : Manifest}
      → plan_to_manifest prompt replay_safe policy stale tasks delivery ≡ ok m
      → m.tasks ≡ map (task_config prompt replay_safe tasks) tasks
  unfolding plan_to_manifest checked manifest_of
  tasks-manifest policy stale tasks delivery {m} e =
      let (a, _, e₁) = >>=-eq-ok (analyze_parallelism 5 tasks) _ e in
      let (_, e₂) = raise_if-eq-ok stale value_error _ e₁ in
      let (_, e₃) =
        raise_if-eq-ok (any lacks_command tasks || any is_empty delivery) value_error _ e₂ in
      ap (λ (k : Manifest). k.tasks)
        (sym (
          checked-eq
            (manifest_of prompt replay_safe policy
              (slots_for policy a.recommended_root_slots (length tasks)) tasks delivery)
            e₃))

  -- The tasks of a plan's manifest that run together never write to the same place.
  pub record RunsApart (tasks : List PlanTask) (m : Manifest) (s : LoopState) : Type 0 where
    pub of_plan : m.tasks ≡ map (task_config prompt replay_safe tasks) tasks
    pub never_together :
        (l r : PlanTask)
        → Ahead l r tasks
        → is_some_overlap (write_overlap l r) ≡ true
        → Ahead
            (task_config prompt replay_safe tasks l)
            (task_config prompt replay_safe tasks r)
            s.running
          ⊎ Ahead
              (task_config prompt replay_safe tasks r)
              (task_config prompt replay_safe tasks l)
              s.running
        → ⊥

  joined-apart :
      (cs : List ConflictConstraint) (tasks : List PlanTask) (l r : PlanTask)
      (running : List TaskConfig)
      → Joined cs l r
      → is_some_overlap (write_overlap l r) ≡ true
      → Exclusive [] running
      → Ahead
          (task_config prompt replay_safe tasks l)
          (task_config prompt replay_safe tasks r)
          running
        ⊎ Ahead
            (task_config prompt replay_safe tasks r)
            (task_config prompt replay_safe tasks l)
            running
      → ⊥
  joined-apart cs tasks l r running (apart n) o x both = true-ne-false (sym o ∙ n)
  joined-apart cs tasks l r running (sharing key j k rep) o x both =
      let left = subst (λ ks. mem key ks ≡ true) (sym (keys-config tasks l)) j in
      let right = subst (λ ks. mem key ks ≡ true) (sym (keys-config tasks r)) k in
      elim both [
        | inl i ↦
            ahead-clash key (task_config prompt replay_safe tasks l)
              (task_config prompt replay_safe tasks r) [] i x left right
        | inr i ↦
            ahead-clash key (task_config prompt replay_safe tasks r)
              (task_config prompt replay_safe tasks l) [] i x right left
      ]

-- Whenever a turn of a run of a compiled plan begins, no two of the running tasks write to the same
-- place, whatever finishes when and whatever the host reports. The manifest's tasks are those of
-- the plan.
pub planned_apart :
    (host : Host) (syntax_check issue : String) (repo_map : RepositoryMap)
    (proposal : PlannerProposal) (config : DecompositionConfig) (allow deny : List String)
    (prompt : PlanTask → List String → String) (replay_safe : Bool) (policy : Policy) (stale : Bool)
    (w : World) (now : ℕ) {p : CandidatePlan} {m : Manifest} {s₀ s : LoopState} {n : ℕ}
    → compile_plan host syntax_check issue repo_map proposal config allow deny ≡ ok p
    → plan_to_manifest prompt replay_safe policy stale p.tasks p.delivery_verifier ≡ ok m
    → initial_state m now ≡ ok s₀
    → Reached m w s₀ n s
    → RunsApart prompt replay_safe p.tasks m s
planned_apart host syntax_check issue repo_map proposal config allow deny prompt replay_safe policy
      stale w now {p} {m} {s₀} {s} {n} c e i reached =
    let safe = Reached-IsSafe m w now i reached in
    let joined = compiled-Joined host syntax_check issue repo_map proposal config allow deny c in
    record {
      of_plan = tasks-manifest prompt replay_safe policy stale p.tasks p.delivery_verifier e;
      never_together = λ l r order o both.
          joined-apart prompt replay_safe p.conflicts p.tasks l r s.running
            (Pairwise-at (Joined p.conflicts) l r order joined) o safe.exclusive both;
    }
