-- ===== src/Planning/Workflow.antt =====
-- src/firstgreen/planning/workflow.py, `PlanningEngine`: from a request to a stored candidate, its
-- replacement by an edited one, and its approval.
pub mod Stable
pub mod Kept
pub mod Approved
pub mod Closed
pub mod Once
pub mod Planned
pub mod Examples
use firstgreen.Prelude.{
  ℕ, zero, suc, String, Bool, true, false, not, ◌&&◌, ◌||◌, Option, none, some, List, [], ◌∷◌, ◌++◌,
  ◌==◌, if◌then◌else◌,
}
use firstgreen.Prelude.Result.{
  Result, ok, err, Error, value_error, runtime_error, transition_error, workspace_safety_error,
  integrity_error, raise_if, ◌>>=◌, ◌>>◌,
}
use firstgreen.Db.Sql.{update_where}
use firstgreen.Planning.StateMachine.{
  received, repo_scanning, planning, plan_validation, awaiting_plan_approval, plan_approved,
}
use firstgreen.Planning.Models.{
  RepositoryMap, ProposedTask, Decision, single_task, decompose, DecompositionDecision,
  PlannerProposal, ParallelismAnalysis,
}
use firstgreen.Planning.Texts.{Host}
use firstgreen.Planning.Analysis.{analyze_parallelism}
use firstgreen.Planning.Checks.{plan_errors, plan_warnings}
use firstgreen.Planning.Candidate.{PlanValidation, is_valid, CandidatePlan, can_auto_approve}
use firstgreen.Planning.Compile.{DecompositionConfig, rules_for, compile_plan}
use firstgreen.Planning.Store.{
  CandidateRow, Store, planner_failed, Engine, ◌>>>◌, call, transaction, is_request, transition,
  insert_request, insert_candidate, insert_validation, RequestRow,
}
use firstgreen.Planning.Proposals.{PlanningConfig, Outside, proposal_for}

pub record PlanningOutcome : Type 0 where
  pub request_id : String
  pub plan_id : String
  pub plan : CandidatePlan

abbrev pub note_failure : String → Bool → Store → Result Store
note_failure id true s = ok (record s { events = s.events ++ planner_failed id ∷ [] })
note_failure id false s = ok s

abbrev pub request_row : String → String → String → RequestRow
request_row request_id issue repo = record {
  id = request_id;
  issue = issue;
  repo_path = repo;
  commit_sha = "";
  state = received;
}

abbrev pub candidate_row : String → String → CandidatePlan → CandidateRow
candidate_row request_id plan_id plan = record {
  id = plan_id;
  request_id = request_id;
  plan = plan;
  approved = false;
  user_edited = false;
}

abbrev pub enter_map : RepositoryMap → RequestRow → RequestRow
enter_map m r = record r { repo_path = m.repo; commit_sha = m.commit_sha }

abbrev pub store_map : String → RepositoryMap → Store → Result Store
store_map id m s = ok (record s {
  requests = update_where (is_request id) (enter_map m) s.requests;
  maps = s.maps ++ (id, m) ∷ [];
})

abbrev pub store_candidate : String → String → CandidatePlan → Store → Result Store
store_candidate request_id plan_id plan s =
    insert_candidate (candidate_row request_id plan_id plan) s >>= λ t.
    insert_validation (record { candidate_id = plan_id; valid = is_valid plan.validation }) t

abbrev pub is_candidate : String → CandidateRow → Bool
is_candidate id c = c.id == id

abbrev pub approve_row : CandidatePlan → CandidateRow → CandidateRow
approve_row plan c = record c { approved = true; plan = plan }

-- The two checks of `approve`.
abbrev pub eligible : PlanningConfig → PlanningOutcome → Bool → Result (Unit {0})
eligible config outcome policy_auto_approval =
    raise_if
      (policy_auto_approval
        && not (can_auto_approve outcome.plan config.require_manual_approval true))
      value_error
    >> raise_if (not (is_valid outcome.plan.validation)) value_error

abbrev pub approved_plan : PlanningOutcome → CandidatePlan
approved_plan outcome = record outcome.plan { approved = true }

abbrev pub store_approved : PlanningOutcome → Store → Result Store
store_approved outcome s = ok (record s {
  candidates =
      update_where (is_candidate outcome.plan_id) (approve_row (approved_plan outcome))
        s.candidates;
})

-- `approve`
unfoldable pub approve : PlanningConfig → PlanningOutcome → Bool → Engine CandidatePlan
unfolding transition can_auto_approve update_where
approve config outcome policy_auto_approval =
    call (eligible config outcome policy_auto_approval) >>> λ passed.
    transaction (store_approved outcome) >>> λ stored.
    transition outcome.request_id awaiting_plan_approval plan_approved >>> λ entered.
    call (ok (approved_plan outcome))

abbrev pub edit_row : CandidatePlan → CandidateRow → CandidateRow
edit_row plan c = record c { user_edited = true; plan = plan }

abbrev pub store_edited : PlanningOutcome → CandidatePlan → Store → Result Store
store_edited outcome plan s =
    insert_validation (record { candidate_id = outcome.plan_id; valid = is_valid plan.validation })
      (record s {
        candidates = update_where (is_candidate outcome.plan_id) (edit_row plan) s.candidates;
      })

-- `analyze_parallelism(candidate.tasks) if validation.valid else None`
abbrev pub analysis_if : Bool → CandidatePlan → Result (Option ParallelismAnalysis)
analysis_if true c = analyze_parallelism 5 c.tasks >>= λ a. ok (some a)
analysis_if false c = ok none

abbrev slots_of : Option ParallelismAnalysis → DecompositionDecision → DecompositionDecision
slots_of none d = d
slots_of (some a) d = record d { recommended_parallelism = a.recommended_root_slots }

abbrev edited_plan : CandidatePlan → PlanValidation → Option ParallelismAnalysis → CandidatePlan
edited_plan c validation analysis = record c {
  approved = false;
  user_edited = true;
  validation = validation;
  analysis = analysis;
  decision = slots_of analysis c.decision;
}

module _ (host : Host) (syntax_check : String) (config : PlanningConfig)
    (allow_paths deny_paths : List String) where
  -- `plan_issue`, with the ids that it makes.
  unfoldable pub plan_issue :
      Outside → String → String → String → String → Bool → Engine PlanningOutcome
  unfolding transition proposal_for compile_plan update_where
  plan_issue outside request_id plan_id issue repo mode_none =
      transaction (insert_request (request_row request_id issue repo)) >>> λ inserted.
      transition request_id received repo_scanning >>> λ scanning. call outside.scan >>> λ m.
      transaction (store_map request_id m) >>> λ stored.
      transition request_id repo_scanning planning >>> λ planned.
      call (proposal_for host config outside issue mode_none m) >>> λ p.
      transaction (note_failure request_id (p.1)) >>> λ noted.
      transition request_id planning plan_validation >>> λ validating.
      call
        (compile_plan host syntax_check issue m (p.0) config.decomposition allow_paths deny_paths)
      >>> λ plan. transaction (store_candidate request_id plan_id plan) >>> λ kept.
          transition request_id plan_validation awaiting_plan_approval >>> λ waiting.
          call (ok (record { request_id = request_id; plan_id = plan_id; plan = plan }))

  abbrev pub revalidated : RepositoryMap → CandidatePlan → PlanValidation
  revalidated m c =
      let rules = rules_for config.decomposition allow_paths deny_paths in
      record {
        errors = plan_errors host m rules c.external_artifacts c.tasks c.conflicts;
        warnings = plan_warnings host m rules c.external_artifacts c.tasks;
        repairs = c.validation.repairs;
      }

  -- The checks of `replace_candidate`, and the plan that it stores.
  unfoldable pub revised :
      Result RepositoryMap → PlanningOutcome → CandidatePlan → Result CandidatePlan
  unfolding plan_errors plan_warnings analyze_parallelism
  revised scan outcome candidate = do
    raise_if (not (candidate.repo == outcome.plan.repo)) value_error
    raise_if (not (candidate.commit_sha == outcome.plan.commit_sha)) value_error
    m ← scan
    raise_if (not (m.commit_sha == candidate.commit_sha)) value_error
    let validation = revalidated m candidate
    analysis ← analysis_if (is_valid validation) candidate
    ok (edited_plan candidate validation analysis)

  -- `replace_candidate`
  unfoldable pub replace_candidate :
      Result RepositoryMap → PlanningOutcome → CandidatePlan → Engine PlanningOutcome
  unfolding revised update_where
  replace_candidate scan outcome candidate = call (revised scan outcome candidate) >>> λ plan.
      transaction (store_edited outcome plan) >>> λ stored.
      call (ok (record outcome { plan = plan }))
