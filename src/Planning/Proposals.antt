-- ===== src/Planning/Proposals.antt =====
-- src/firstgreen/planning/workflow.py, `plan_issue`: where the proposal of a plan comes from. The scan,
-- the cache of proposals and the planner are arguments.
use firstgreen.Prelude.{
  ℕ, zero, suc, String, Bool, true, false, not, ◌&&◌, ◌||◌, Option, none, some, List, [], ◌∷◌,
  if◌then◌else◌,
}
use firstgreen.Prelude.Result.{
  Result, ok, err, value_error, key_error, runtime_error, transition_error, workspace_safety_error,
  integrity_error,
}
use firstgreen.Planning.Texts.{Host}
use firstgreen.Planning.Decomposition.{Words, decide_decomposition}
use firstgreen.Planning.Models.{
  RepositoryMap, Decision, single_task, decompose, DecompositionDecision, PlannerProposal,
}
use firstgreen.Planning.Compile.{DecompositionConfig}

pub record PlanningConfig : Type 0 where
  pub decomposition : DecompositionConfig
  pub llm_enabled : Bool
  pub llm_is_fake : Bool
  pub llm_cache : Bool
  pub planner_budget : Option ℕ
  pub require_manual_approval : List String

-- What the engine asks for: the repository's map, the words of texts, the cached proposal, and the
-- planner.
pub record Outside : Type 0 where
  pub scan : Result RepositoryMap
  pub words : Words
  pub cached : RepositoryMap → Option PlannerProposal
  pub propose : RepositoryMap → DecompositionDecision → Result PlannerProposal

abbrev pub safe_decision : DecompositionDecision
safe_decision = record { recommended_parallelism = 1; decision = single_task }

-- The proposal of one task that stands in for a planner's.
abbrev pub bypass : String → List String → DecompositionDecision → PlannerProposal
bypass issue paths decision = record {
  decision = decision;
  tasks =
      record {
        id = "request";
        objective = issue;
        produces = [];
        requires = [];
        likely_paths = paths;
        verification_hints = "run repository verifier" ∷ [];
        risk_tags = [];
        read_only = false;
      }
      ∷ [];
  external_artifacts = [];
}

abbrev is_single : Decision → Bool
is_single single_task = true
is_single decompose = false

abbrev is_zero : Option ℕ → Bool
is_zero (some zero) = true
is_zero (some (suc n)) = false
is_zero none = false

-- A proposal, and whether the planner failed.
abbrev pub Proposed : Type 0
Proposed = PlannerProposal × Bool

-- `except (ValueError, RuntimeError)`
abbrev pub or_fallback : PlannerProposal → Result PlannerProposal → Result Proposed
or_fallback fallback (ok p) = ok (p, false)
or_fallback fallback (err value_error) = ok (fallback, true)
or_fallback fallback (err runtime_error) = ok (fallback, true)
or_fallback fallback (err key_error) = err key_error
or_fallback fallback (err transition_error) = err transition_error
or_fallback fallback (err workspace_safety_error) = err workspace_safety_error
or_fallback fallback (err integrity_error) = err integrity_error

abbrev pub cached_if : Bool → Option PlannerProposal → Option PlannerProposal
cached_if true p = p
cached_if false p = none

-- The decision and its paths; under the mode `none` nothing is decided.
unfoldable pub decided :
    Host → Outside → String → Bool → RepositoryMap → DecompositionDecision × List String
unfolding decide_decomposition
decided host outside issue mode_none m =
    if mode_none then (safe_decision, []) else decide_decomposition host outside.words issue m

-- From the cache to the fallback.
unfoldable pub proposal_for :
    Host → PlanningConfig → Outside → String → Bool → RepositoryMap → Result Proposed
unfolding decided
proposal_for host config outside issue mode_none m =
    let (decision, paths) = decided host outside issue mode_none m in
    let asked = or_fallback (bypass issue paths safe_decision) (outside.propose m decision) in
    elim (cached_if config.llm_cache (outside.cached m)) [
      | some p ↦ ok (p, false)
      | none ↦
          if not config.llm_enabled || (is_single decision.decision && config.llm_is_fake)
          then ok (bypass issue paths decision, false)
          else if is_zero config.planner_budget
          then ok (bypass issue paths safe_decision, false)
          else asked
    ]
