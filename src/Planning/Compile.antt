-- ===== src/Planning/Compile.antt =====
-- src/firstgreen/planning/compiler.py, `compile_plan`: from a proposal to a candidate plan.
pub mod Sound
pub mod Approval
use firstgreen.Prelude.{
  ℕ, zero, suc, String, Bool, true, false, not, ◌&&◌, Option, none, some, List, [], ◌∷◌, ◌++◌, map,
  ◌==◌, if◌then◌else◌, any, keep, length, mem, is_empty,
}
use firstgreen.Prelude.Result.{Result, ok, ◌>>=◌}
use firstgreen.Planning.Models.{
  RepositoryFile, RepositoryMap, ProposedTask, unit, PlanTask, single_task, DecompositionDecision,
  PlannerProposal, ConflictConstraint,
}
use firstgreen.Planning.Texts.{Host, contains, head_segment}
use firstgreen.Planning.Parallelism.{estimate_task_duration, plan_ids}
use firstgreen.Planning.Paths.{normal}
use firstgreen.Planning.Verifiers.{Command, inherited_verifier, task_verifier}
use firstgreen.Planning.Cycles.{cycle_nodes}
use firstgreen.Planning.Merge.{
  artificial_cycle, overlap_exceeds, sorted_set, merge_tasks, merge_loop,
}
use firstgreen.Planning.Checks.{PlanRules, plan_errors, plan_warnings}
use firstgreen.Planning.Conflicts.{mark_conflicts}
use firstgreen.Planning.Candidate.{
  Repair, merged_ids, rejected, fell_back, PlanValidation, is_valid, CandidatePlan, candidate,
}

pub record DecompositionConfig : Type 0 where
  pub max_tasks : ℕ
  pub minimum_expected_task_seconds : ℕ
  pub maximum_write_overlap : ℕ
  pub allow_single_task_fallback : Bool

-- `{artifact: task.id for task in tasks for artifact in task.produces}.get(artifact)`: the last
-- producer.
unfoldable pub producer : List ProposedTask → String → Option String
producer [] artifact = none
producer (t ∷ ts) artifact = elim (producer ts artifact) [
  | some id ↦ some id
  | none ↦ if mem artifact t.produces then some t.id else none
]

abbrev pub producers_of : List ProposedTask → List String → List String
producers_of tasks [] = []
producers_of tasks (r ∷ rs) = elim (producer tasks r) [
  | none ↦ producers_of tasks rs
  | some id ↦ id ∷ producers_of tasks rs
]

unfoldable pub depended_on : List ProposedTask → List ProposedTask → List String
unfolding producer
depended_on tasks [] = []
depended_on tasks (t ∷ ts) = producers_of tasks t.requires ++ depended_on tasks ts

unfoldable pub plan_task : ProposedTask → List String → List Command → PlanTask
plan_task t dependencies verifier = record {
  id = t.id;
  objective = t.objective;
  produces = t.produces;
  requires = t.requires;
  likely_paths = t.likely_paths;
  verification_hints = t.verification_hints;
  risk_tags = t.risk_tags;
  read_only = t.read_only;
  dependencies = sorted_set dependencies;
  verifier = verifier;
  resources = [];
  estimated_duration = 1000;
  estimate_source = unit;
}

-- `[:max_tasks]`
abbrev pub first_tasks : ℕ → List ProposedTask → List ProposedTask
first_tasks zero ts = []
first_tasks (suc n) [] = []
first_tasks (suc n) (t ∷ ts) = t ∷ first_tasks n ts

abbrev instruction_files : List String
instruction_files = "AGENTS.md" ∷ "CLAUDE.md" ∷ "CODEX.md" ∷ []

-- `repository_scope`
unfoldable pub repository_scope : RepositoryMap → List String
unfolding normal head_segment
repository_scope m = sorted_set (
    map head_segment (
      keep (λ p. not (p == "") && not (mem p instruction_files))
        (map (λ (f : RepositoryFile). normal f.path) m.files)))

abbrev proposed_tags : List ProposedTask → List String
proposed_tags [] = []
proposed_tags (t ∷ ts) = t.risk_tags ++ proposed_tags ts

abbrev cycle_repair : Bool → List String → List Repair
cycle_repair true ids = merged_ids (sorted_set ids) artificial_cycle ∷ []
cycle_repair false ids = []

abbrev overlap_repairs : List (List String) → List Repair
overlap_repairs pairs =
    map (λ (pair : List String). merged_ids (sorted_set pair) overlap_exceeds) pairs

-- The tasks and conflicts that the plan is checked with, and the repairs so far.
pub record Repaired : Type 0 where
  pub tasks : List PlanTask
  pub conflicts : List ConflictConstraint
  pub repairs : List Repair

abbrev pub decision_for : List PlanTask → DecompositionDecision → DecompositionDecision
decision_for (t ∷ []) d = record { recommended_parallelism = 1; decision = single_task }
decision_for other_tasks d = d

-- The candidate itself, or the fallback.
abbrev pub choose : Bool → Result CandidatePlan → CandidatePlan → Result CandidatePlan
choose falls_back other plan = if falls_back then other else ok plan

abbrev pub rules_for : DecompositionConfig → List String → List String → PlanRules
rules_for config allow_paths deny_paths = record {
  max_tasks = config.max_tasks;
  allow_paths = allow_paths;
  deny_paths = deny_paths;
}

module _ (host : Host) (syntax_check : String) (issue : String) (repo_map : RepositoryMap) where
  unfoldable pub request_task : PlannerProposal → PlanTask
  unfolding repository_scope inherited_verifier
  request_task proposal = record {
    id = "request";
    objective = host.strip issue;
    produces = "request-result" ∷ [];
    requires = [];
    likely_paths = repository_scope repo_map;
    verification_hints = "run repository verifier" ∷ [];
    risk_tags = sorted_set (proposed_tags proposal.tasks);
    read_only = false;
    dependencies = [];
    verifier = inherited_verifier repo_map;
    resources = [];
    estimated_duration = 1000;
    estimate_source = unit;
  }

  -- `_single_task_plan`: its own validation knows no external artifacts and no path rules.
  unfoldable pub single_task_plan : PlannerProposal → List Repair → Result CandidatePlan
  unfolding request_task plan_errors plan_warnings candidate
  single_task_plan proposal repairs =
      let tasks = request_task proposal ∷ [] in
      let rules : PlanRules = record { max_tasks = 1; allow_paths = []; deny_paths = [] } in
      candidate repo_map proposal (record { recommended_parallelism = 1; decision = single_task })
        tasks []
        (record {
          errors = plan_errors host repo_map rules [] tasks [];
          warnings = plan_warnings host repo_map rules [] tasks;
          repairs = repairs;
        })

  -- The tasks as they stand before the repairs.
  unfoldable pub planned_tasks : PlannerProposal → DecompositionConfig → List PlanTask
  unfolding producer depended_on plan_task task_verifier estimate_task_duration
  planned_tasks proposal config =
      map
        (λ (t : ProposedTask). estimate_task_duration config.minimum_expected_task_seconds (
          plan_task t (producers_of proposal.tasks t.requires) (
            task_verifier host syntax_check repo_map t
              (not (mem t.id (depended_on proposal.tasks proposal.tasks))))))
        (first_tasks config.max_tasks proposal.tasks)

  abbrev is_join : PlanTask → Bool
  is_join t = any (contains (host.lower t.id)) ("integration" ∷ "verification" ∷ [])

  -- A task whose id names an integration or a verification depends on all the others.
  unfoldable pub join_tasks : List PlanTask → List PlanTask
  unfolding contains
  join_tasks tasks =
      map
        (λ (t : PlanTask).
          if is_join t
          then record t {
            dependencies =
                sorted_set (t.dependencies ++ keep (λ id. not (id == t.id)) (plan_ids tasks));
          }
          else t)
        tasks

  -- The merge of the tasks on a cycle.
  unfoldable pub repair_cycle : List PlanTask → List PlanTask × List Repair
  unfolding cycle_nodes merge_tasks
  repair_cycle tasks =
      let cycle = cycle_nodes tasks in
      let (merged, done) = merge_tasks host tasks cycle in
      if is_empty cycle then (tasks, []) else (merged, cycle_repair done cycle)

  unfoldable pub repaired : PlannerProposal → DecompositionConfig → Repaired
  unfolding planned_tasks join_tasks repair_cycle merge_loop mark_conflicts
  repaired proposal config =
      let (acyclic, cycles) = repair_cycle (join_tasks (planned_tasks proposal config)) in
      let (merged, pairs) = merge_loop host (length acyclic) config.maximum_write_overlap acyclic in
      let (marked, found) = mark_conflicts (length merged) merged in
      record { tasks = marked; conflicts = found; repairs = cycles ++ overlap_repairs pairs }

  -- `validate_plan(...).model_copy(update={"repairs": repairs})`
  unfoldable pub validation_for : PlanRules → List String → Repaired → PlanValidation
  unfolding plan_errors plan_warnings
  validation_for rules external r = record {
    errors = plan_errors host repo_map rules external r.tasks r.conflicts;
    warnings = plan_warnings host repo_map rules external r.tasks;
    repairs = r.repairs;
  }

  unfoldable pub compile_plan :
      PlannerProposal → DecompositionConfig → List String → List String → Result CandidatePlan
  unfolding repaired validation_for candidate single_task_plan
  compile_plan proposal config allow_paths deny_paths =
      let r = repaired proposal config in
      let rules = rules_for config allow_paths deny_paths in
      let v = validation_for rules proposal.external_artifacts r in
      let repairs = r.repairs ++ (map rejected v.errors ++ fell_back ∷ []) in
      candidate repo_map proposal (decision_for r.tasks proposal.decision) r.tasks r.conflicts v
      >>= choose (not (is_valid v) && config.allow_single_task_fallback)
          (single_task_plan proposal repairs)
