-- ===== src/Planning/Candidate.antt =====
-- src/firstgreen/planning/compiler.py, `_candidate` and `can_auto_approve`: what a plan is checked and
-- approved by.
use firstgreen.Prelude.{
  Option, some, String, Bool, true, false, not, ◌&&◌, List, [], ◌∷◌, if◌then◌else◌, ltb, any,
  length, mem, is_empty,
}
use firstgreen.Prelude.Result.{Result, ok, value_error, raise_if, ◌>>=◌, ◌>>◌}
use firstgreen.Planning.Models.{
  RepositoryMap, PlanTask, DecompositionDecision, PlannerProposal, ConflictConstraint,
  ParallelismAnalysis, RiskLevel, low, medium, high,
}
use firstgreen.Planning.Analysis.{analyze_parallelism}
use firstgreen.Planning.Verifiers.{Command, inherited_verifier}
use firstgreen.Planning.Merge.{Reason, gather}
use firstgreen.Planning.Checks.{PlanError}

-- The entries of `repairs`.
pub data Repair : Type 0 where
  merged_ids : List String → Reason → Repair
  rejected : PlanError → Repair
  fell_back : Repair

pub record PlanValidation : Type 0 where
  pub errors : List PlanError
  pub warnings : List (String × String)
  pub repairs : List Repair

-- `valid=not errors`
abbrev pub is_valid : PlanValidation → Bool
is_valid v = is_empty v.errors

pub record CandidatePlan : Type 0 where
  pub repo : String
  pub commit_sha : String
  pub decision : DecompositionDecision
  pub tasks : List PlanTask
  pub analysis : Option ParallelismAnalysis
  pub delivery_verifier : List Command
  pub conflicts : List ConflictConstraint
  pub external_artifacts : List String
  pub risk_level : RiskLevel
  pub validation : PlanValidation
  pub approved : Bool
  pub user_edited : Bool

abbrev pub high_risks : List String
high_risks =
    "database-migration" ∷ "deployment" ∷ "destructive-schema-change" ∷ "external-side-effect"
    ∷ "security-policy" ∷ []

unfoldable pub risk_of : List PlanTask → RiskLevel
risk_of tasks =
    let tags = gather (λ (t : PlanTask). t.risk_tags) tasks in
    if any (λ tag. mem tag high_risks) tags then high else if is_empty tags then low else medium

-- `_candidate`; the second guard is the field's `max_length=5`.
unfoldable pub candidate :
    RepositoryMap
    → PlannerProposal
    → DecompositionDecision
    → List PlanTask
    → List ConflictConstraint
    → PlanValidation
    → Result CandidatePlan
unfolding analyze_parallelism inherited_verifier risk_of
candidate repo_map proposal decision tasks conflicts validation = do
  analysis ← analyze_parallelism 5 tasks
  raise_if (ltb 5 (length tasks)) value_error
  ok (record {
    repo = repo_map.repo;
    commit_sha = repo_map.commit_sha;
    decision = record decision { recommended_parallelism = analysis.recommended_root_slots };
    tasks = tasks;
    analysis = some analysis;
    delivery_verifier = inherited_verifier repo_map;
    conflicts = conflicts;
    external_artifacts = proposal.external_artifacts;
    risk_level = risk_of tasks;
    validation = validation;
    approved = false;
    user_edited = false;
  })

-- `can_auto_approve`
unfoldable pub can_auto_approve : CandidatePlan → List String → Bool → Bool
can_auto_approve plan manual allow =
    let tags = gather (λ (t : PlanTask). t.risk_tags) plan.tasks in
    allow
    && (is_valid plan.validation
        && (is_empty plan.validation.repairs
            && (elim plan.risk_level [ low ↦ true | medium ↦ false | high ↦ false ]
                && not (any (λ tag. mem tag manual) tags))))
