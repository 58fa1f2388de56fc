-- ===== src/Planning/Workflow/Examples.antt =====
-- Tests of the planning engine on a small repository, and instances of its theorems.
use firstgreen.Prelude.{String, Bool, true, false, ◌≡◌, ◌≢◌, refl, none, List, [], ◌∷◌, map, sort}
use firstgreen.Prelude.Result.{Result, ok, err, value_error, Returns}
use firstgreen.Service.Samples.{sample_world, sample-IsWaiting}
use firstgreen.Service.Loop.{run_started}
use firstgreen.Service.Loop.Outcome.{HonestAnswer}
use firstgreen.Planning.StateMachine.{IssueState, plan_validation}
use firstgreen.Planning.Models.{PlanTask, PlannerProposal}
use firstgreen.Planning.Execution.{other_policy, plan_to_manifest}
use firstgreen.Planning.Store.{RequestRow, CandidateRow, Store, Engine, ◌>>>◌}
use firstgreen.Planning.Proposals.{PlanningConfig, Outside}
use firstgreen.Planning.Workflow.{
  PlanningOutcome, plan_issue, approve, approved_plan, replace_candidate,
}
use firstgreen.Planning.Workflow.Kept.{IsKept}
use firstgreen.Planning.Candidate.{CandidatePlan, is_valid}
use firstgreen.Planning.Workflow.Stable.{Session, opened, planned, approved, replaced}
use firstgreen.Planning.Workflow.Approved.{empty_store, Session-IsKept}
use firstgreen.Planning.Workflow.Once.{approve_once}
use firstgreen.Planning.Workflow.Planned.{
  IsPlannedRequest, Compiles, plan_issue-IsPlannedRequest, issue_run,
}
use firstgreen.Planning.Samples.{plain_host, shop, api_proposal, config, api_plan, tangled_proposal}

abbrev planning_config : PlanningConfig
planning_config = record {
  decomposition = config;
  llm_enabled = true;
  llm_is_fake = false;
  llm_cache = false;
  planner_budget = none;
  require_manual_approval = [];
}

abbrev outside_with : Result PlannerProposal → Outside
outside_with proposal = record {
  scan = ok shop;
  words = record { tokens = λ s. s ∷ []; pieces = λ s. s ∷ [] };
  cached = λ m. none;
  propose = λ m d. proposal;
}

abbrev nothing_stored : Store
nothing_stored = record { requests = []; maps = []; candidates = []; validations = []; events = [] }

abbrev plan_with : Result PlannerProposal → Engine PlanningOutcome
plan_with proposal =
    plan_issue plain_host "check" planning_config [] [] (outside_with proposal) "r1" "p1"
      "api and mail" "shop" false

abbrev planned_store : Store
planned_store = (plan_with (ok api_proposal) nothing_stored).1

abbrev outcome : PlanningOutcome
outcome = record { request_id = "r1"; plan_id = "p1"; plan = api_plan }

api_planned : plan_with (ok api_proposal) nothing_stored ≡ (ok outcome, planned_store)
unfolding plan_issue ◌>>>◌ sort
api_planned = refl

abbrev approved_store : Store
approved_store = (approve planning_config outcome true planned_store).1

api_approved :
    approve planning_config outcome true planned_store
    ≡ (ok (approved_plan outcome), approved_store)
unfolding plan_issue approve ◌>>>◌ sort
api_approved = refl

abbrev states : Store → List (String × IssueState)
states s = map (λ (r : RequestRow). (r.id, r.state)) s.requests

-- A plan that the compiler refuses leaves the request where it is validated.
refused_stays :
    states ((plan_with (ok tangled_proposal) nothing_stored).1) ≡ ("r1", plan_validation) ∷ []
unfolding plan_issue ◌>>>◌ sort
refused_stays = refl

refused_raises : (plan_with (ok tangled_proposal) nothing_stored).0 ≡ err value_error
unfolding plan_issue ◌>>>◌ sort
refused_raises = refl

planned_session : Session empty_store planned_store
planned_session =
    planned plain_host "check" planning_config [] [] (outside_with (ok api_proposal)) "r1" "p1"
      "api and mail" "shop" false opened

Session-IsKept_example : IsKept approved_store
Session-IsKept_example = Session-IsKept (approved planning_config outcome true planned_session)

-- A second request with the same id is refused, and then the stored plan is edited.
abbrev edited_store : Store
edited_store =
    (replace_candidate plain_host "check" planning_config [] [] (ok shop) outcome api_plan
      ((plan_with (ok api_proposal) approved_store).1)).1

abbrev later_session : Session approved_store edited_store
later_session = replaced plain_host "check" planning_config [] [] (ok shop) outcome api_plan (
    planned plain_host "check" planning_config [] [] (outside_with (ok api_proposal)) "r1" "p1"
      "api and mail" "shop" false opened)

approve_once_example :
    approve planning_config outcome false edited_store ≢ (ok (approved_plan outcome), edited_store)
approve_once_example =
    approve_once planning_config planning_config outcome outcome true false planned_session
      api_approved later_session refl

-- The row of a plan that was approved and then replaced by one without tasks: `approved=1`, though
-- the plan is invalid and bears no mark.
abbrev emptied : CandidatePlan
emptied = record api_plan { tasks = [] }

abbrev columns : Store → List (Bool × Bool × Bool)
columns s =
    map (λ (c : CandidateRow). (c.approved, c.plan.approved, is_valid c.plan.validation))
      s.candidates

edit_keeps_column :
    columns (
      (replace_candidate plain_host "check" planning_config [] []
        (ok shop)
        outcome
        emptied
        approved_store).1)
    ≡ (true, false, false) ∷ []
unfolding plan_issue approve replace_candidate ◌>>>◌ sort
edit_keeps_column = refl

plan_issue-IsPlannedRequest_example :
    IsPlannedRequest
      (Compiles plain_host "check" planning_config [] []
        (outside_with (ok api_proposal))
        "api and mail")
      "r1"
      "p1"
      outcome
      planned_store
plan_issue-IsPlannedRequest_example =
    plan_issue-IsPlannedRequest plain_host "check" planning_config [] []
      (outside_with (ok api_proposal)) "r1" "p1" "api and mail" "shop" false nothing_stored
      api_planned

abbrev prompt : PlanTask → List String → String
prompt t paths = t.objective

issue_run_example :
    Returns
      (λ m. Returns (HonestAnswer m true) (run_started m sample_world 0 true))
      (plan_to_manifest prompt false other_policy false api_plan.tasks api_plan.delivery_verifier)
issue_run_example =
    issue_run plain_host "check" planning_config [] [] (outside_with (ok api_proposal)) "r1" "p1"
      "api and mail" "shop" false true nothing_stored prompt false other_policy sample_world 0 true
      sample-IsWaiting api_planned api_approved refl
