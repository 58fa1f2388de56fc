-- ===== src/Planning/Compile/Sound.antt =====
-- What src/firstgreen/planning/compiler.py guarantees of a plan that it compiles.
use firstgreen.Prelude.{
  some, subst₂, String, Bool, true, false, not, ◌&&◌, ◌≡◌, ◌≢◌, ◌⊎◌, refl, subst, sym, ◌∙◌, ap,
  List, [], ◌∷◌, ◌++◌, map, arith, inl, inr, ltb, length, distinct,
}
use firstgreen.Prelude.Result.{Result, ok, value_error, >>=-eq-ok, raise_if-eq-ok}
use firstgreen.Planning.Models.{
  RepositoryMap, PlanTask, single_task, DecompositionDecision, PlannerProposal, ConflictConstraint,
  ParallelismAnalysis,
}
use firstgreen.Planning.Texts.{Host}
use firstgreen.Planning.Parallelism.{plan_ids}
use firstgreen.Planning.Analysis.{analyze_parallelism}
use firstgreen.Planning.Analysis.Sound.{analyze-IsAnalysed}
use firstgreen.Planning.Cycles.{cycle_nodes}
use firstgreen.Planning.Conflicts.Joined.{Joined, Pairwise}
use firstgreen.Planning.Conflicts.Represented.{mark_conflicts-Joined}
use firstgreen.Planning.Candidate.{
  Repair, rejected, fell_back, PlanValidation, is_valid, CandidatePlan, risk_of, candidate,
}
use firstgreen.Planning.Merge.{merge_loop}
use firstgreen.Planning.Compile.{
  planned_tasks, join_tasks, repair_cycle, DecompositionConfig, request_task, single_task_plan,
  Repaired, repaired, compile_plan, choose, decision_for, rules_for, validation_for,
}
use firstgreen.Planning.Execution.Acyclic.{analyze-acyclic}

-- A candidate is built from its tasks, which the analysis accepts.
pub record IsCandidate (tasks : List PlanTask) (conflicts : List ConflictConstraint)
    (validation : PlanValidation) (p : CandidatePlan) : Type 0 where
  pub same_tasks : p.tasks ≡ tasks
  pub same_conflicts : p.conflicts ≡ conflicts
  pub same_validation : p.validation ≡ validation
  pub analysis : ParallelismAnalysis
  pub same_analysis : p.analysis ≡ some analysis
  pub analysed : analyze_parallelism 5 tasks ≡ ok analysis
  pub risk : p.risk_level ≡ risk_of tasks
  pub unapproved : p.approved ≡ false

pub candidate-IsCandidate :
    (m : RepositoryMap) (proposal : PlannerProposal) (d : DecompositionDecision)
    (tasks : List PlanTask) (conflicts : List ConflictConstraint) (v : PlanValidation)
    {p : CandidatePlan}
    → candidate m proposal d tasks conflicts v ≡ ok p
    → IsCandidate tasks conflicts v p
unfolding candidate
candidate-IsCandidate m proposal d tasks conflicts v {p} e =
    let (a, now, later) = >>=-eq-ok (analyze_parallelism 5 tasks) _ e in
    let (_, built) = raise_if-eq-ok (ltb 5 (length tasks)) value_error _ later in
    record {
      same_tasks = ground arith;
      same_conflicts = ground arith;
      same_validation = ground arith;
      analysis = a;
      same_analysis = ground arith;
      analysed = now;
      risk = ground arith;
      unapproved = ground arith;
    }

accepted :
    (tasks : List PlanTask) {a : ParallelismAnalysis}
    → analyze_parallelism 5 tasks ≡ ok a
    → (cycle_nodes tasks ≡ []) × (distinct (plan_ids tasks) ≡ true)
accepted tasks e = (analyze-acyclic 5 tasks e, (analyze-IsAnalysed 5 tasks e).unique)

choose-cases :
    (b : Bool) (other : Result CandidatePlan) (plan : CandidatePlan) {p : CandidatePlan}
    → choose b other plan ≡ ok p
    → (plan ≡ p) ⊎ ((b ≡ true) × (other ≡ ok p))
choose-cases true other plan e = inr (refl, e)
choose-cases false other plan e = inl (cc)

module _ (host : Host) (syntax_check : String) (issue : String) (m : RepositoryMap)
    (proposal : PlannerProposal) (config : DecompositionConfig) (allow deny : List String) where
  abbrev pub before : Repaired
  before = repaired host syntax_check issue m proposal config

  abbrev pub validation : PlanValidation
  validation =
      validation_for host syntax_check issue m (rules_for config allow deny)
        proposal.external_artifacts before

  -- The plan is the candidate, or the fallback for a candidate that is not valid.
  pub data IsCompiled (p : CandidatePlan) : Type 0 where
    as_proposed : IsCandidate before.tasks before.conflicts validation p → IsCompiled p
    as_one :
        {v : PlanValidation}
        → is_valid validation ≡ false
        → IsCandidate (request_task host syntax_check issue m proposal ∷ []) [] v p
        → IsCompiled p

  single-IsCandidate :
      (repairs : List Repair) {p : CandidatePlan}
      → single_task_plan host syntax_check issue m proposal repairs ≡ ok p
      → (v : PlanValidation) × IsCandidate
          (request_task host syntax_check issue m proposal ∷ [])
          []
          v
          p
  unfolding single_task_plan
  single-IsCandidate repairs e =
      let d : DecompositionDecision = record {
        recommended_parallelism = 1;
        decision = single_task;
      } in
      (_, candidate-IsCandidate m proposal d _ [] _ e)

  pub compile-IsCompiled :
      {p : CandidatePlan}
      → compile_plan host syntax_check issue m proposal config allow deny ≡ ok p
      → IsCompiled p
  unfolding compile_plan
  compile-IsCompiled {p} e =
      let r = before in
      let repairs = r.repairs ++ (map rejected validation.errors ++ fell_back ∷ []) in
      let other = single_task_plan host syntax_check issue m proposal repairs in
      let falls_back = not (is_valid validation) && config.allow_single_task_fallback in
      let (q, made, chosen) =
        >>=-eq-ok
          (candidate m proposal (decision_for r.tasks proposal.decision) r.tasks r.conflicts
            validation)
          (choose falls_back other) e in
      elim (choose-cases falls_back other q chosen) [
        | inl same ↦ as_proposed (
            subst (IsCandidate r.tasks r.conflicts validation) same (
              candidate-IsCandidate m proposal (decision_for r.tasks proposal.decision) r.tasks
                r.conflicts validation made))
        | inr (falls, single) ↦
            let (v, c) = single-IsCandidate repairs single in as_one {v = v} (ground arith) c
      ]

  repaired-Joined : Pairwise (Joined before.conflicts) before.tasks
  unfolding repaired
  repaired-Joined =
      let planned = planned_tasks host syntax_check issue m proposal config in
      let start = join_tasks host syntax_check issue m planned in
      let acyclic = (repair_cycle host syntax_check issue m start).0 in
      let merged = (merge_loop host (length acyclic) config.maximum_write_overlap acyclic).0 in
      (mark_conflicts-Joined (length merged) merged (omega arith)).1

  -- In a compiled plan, any two tasks that write to the same place have a resource in common and are
  -- represented by a constraint.
  pub compiled-Joined :
      {p : CandidatePlan}
      → compile_plan host syntax_check issue m proposal config allow deny ≡ ok p
      → Pairwise (Joined p.conflicts) p.tasks
  compiled-Joined {p} e = elim (compile-IsCompiled e) [
    | as_one v c ↦ moved c (tt, tt)
    | as_proposed c ↦ moved c repaired-Joined
  ]
    where
      moved :
          {ts : List PlanTask} {cs : List ConflictConstraint} {v : PlanValidation}
          → IsCandidate ts cs v p
          → Pairwise (Joined cs) ts
          → Pairwise (Joined p.conflicts) p.tasks
      moved c h =
          subst₂ (λ cs ts. Pairwise (Joined cs) ts) (sym c.same_conflicts) (sym c.same_tasks) h

  pub compiled-analysed :
      {p : CandidatePlan}
      → compile_plan host syntax_check issue m proposal config allow deny ≡ ok p
      → (a : ParallelismAnalysis) × (analyze_parallelism 5 p.tasks ≡ ok a)
  compiled-analysed {p} e = elim (compile-IsCompiled e) [
    | as_one v c ↦ (c.analysis, ap (analyze_parallelism 5) c.same_tasks ∙ c.analysed)
    | as_proposed c ↦ (c.analysis, ap (analyze_parallelism 5) c.same_tasks ∙ c.analysed)
  ]

  -- No compiled plan is marked as approved.
  pub compiled-unapproved :
      {p : CandidatePlan}
      → compile_plan host syntax_check issue m proposal config allow deny ≡ ok p
      → p.approved ≡ false
  compiled-unapproved {p} e = elim (compile-IsCompiled e) [
    | as_one v c ↦ c.unapproved
    | as_proposed c ↦ c.unapproved
  ]

  -- A compiled plan has distinct ids and no cycle of dependencies.
  pub compiled-acyclic :
      {p : CandidatePlan}
      → compile_plan host syntax_check issue m proposal config allow deny ≡ ok p
      → (cycle_nodes p.tasks ≡ []) × (distinct (plan_ids p.tasks) ≡ true)
  compiled-acyclic {p} e = elim (compile-IsCompiled e) [
    | as_one v c ↦ rw c.same_tasks (accepted _ c.analysed)
    | as_proposed c ↦ rw c.same_tasks (accepted _ c.analysed)
  ]

  -- A proposal that still has a cycle or a repeated id after the repairs is refused with an error,
  -- whether or not the configuration allows the fallback to a single task.
  pub cyclic_refused :
      (cycle_nodes before.tasks ≢ []) ⊎ (distinct (plan_ids before.tasks) ≡ false)
      → {p : CandidatePlan}
      → compile_plan host syntax_check issue m proposal config allow deny ≢ ok p
  unfolding compile_plan
  cyclic_refused bad {p} e =
      let r = before in
      let (q, made, _) =
        >>=-eq-ok
          (candidate m proposal (decision_for r.tasks proposal.decision) r.tasks r.conflicts
            validation)
          _ e in
      let c =
        candidate-IsCandidate m proposal (decision_for r.tasks proposal.decision) r.tasks
          r.conflicts validation made in
      let (acyclic, unique) = accepted r.tasks c.analysed in
      elim bad [ inl cycle ↦ cycle acyclic | inr twice ↦ clash (sym twice ∙ unique) ]
    where
      clash : false ≡ true → ⊥
      clash h = cc
