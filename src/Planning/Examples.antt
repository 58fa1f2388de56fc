-- ===== src/Planning/Examples.antt =====
-- Tests of the compiler and of the run of a plan, and instances of their theorems.
use firstgreen.Prelude.{
  sort, subst, String, true, false, ◌≡◌, ◌≢◌, refl, List, [], ◌∷◌, inl, arith, All, is_empty,
  length, ◌≤◌,
}
use firstgreen.Prelude.Result.{Result, ok, err, value_error}
use firstgreen.Config.Models.{Manifest}
use firstgreen.Service.Samples.{sample_world}
use firstgreen.Service.Loop.{LoopState, initial_state, Turn, goes_on, broke, turn}
use firstgreen.Service.Loop.Safety.{Reached, start, next}
use firstgreen.Planning.Models.{PlanTask}
use firstgreen.Planning.Cycles.{cycle_nodes}
use firstgreen.Planning.Conflicts.Joined.{Joined, Pairwise}
use firstgreen.Planning.Checks.{plan_errors}
use firstgreen.Planning.Checks.Rules.{IsSound, plan_errors-IsSound}
use firstgreen.Planning.Candidate.{is_valid, can_auto_approve}
use firstgreen.Planning.Merge.{merge_loop}
use firstgreen.Planning.Merge.Progress.{IsSeparate, merge_loop-IsSeparate}
use firstgreen.Planning.Compile.{compile_plan, repaired, rules_for}
use firstgreen.Planning.Compile.Sound.{before, compiled-Joined, cyclic_refused}
use firstgreen.Planning.Compile.Approval.{approved-IsHarmless}
use firstgreen.Planning.Execution.{other_policy, manifest_of, plan_to_manifest}
use firstgreen.Planning.Execution.Apart.{RunsApart, planned_apart}
use firstgreen.Planning.Samples.{
  plain_host, shop, api_proposal, config, api_plan, tangled_proposal, sandwich_proposal,
}

compiled : compile_plan plain_host "check" "issue" shop api_proposal config [] [] ≡ ok api_plan
unfolding compile_plan sort
compiled = refl

-- After the tasks on the cycle that the search reports are merged, a cycle is left, and the plan is
-- refused although the fallback is allowed.
tangled_refused :
    compile_plan plain_host "check" "issue" shop tangled_proposal config [] [] ≡ err value_error
unfolding compile_plan sort
tangled_refused = refl

-- The merge of the tasks that write to one file makes a cycle with the task between.
sandwich_refused :
    compile_plan plain_host "check" "issue" shop sandwich_proposal config [] [] ≡ err value_error
unfolding compile_plan sort
sandwich_refused = refl

tangled_cycle :
    is_empty
      (cycle_nodes (before plain_host "check" "issue" shop tangled_proposal config [] []).tasks)
    ≡ false
unfolding cycle_nodes repaired sort
tangled_cycle = refl

still_tangled :
    cycle_nodes (before plain_host "check" "issue" shop tangled_proposal config [] []).tasks ≢ []
still_tangled e = clash (subst (λ l. is_empty l ≡ false) e tangled_cycle)
  where
    clash : true ≡ false → ⊥
    clash h = cc

cyclic_refused_example :
    compile_plan plain_host "check" "issue" shop tangled_proposal config [] [] ≢ ok api_plan
cyclic_refused_example =
    cyclic_refused plain_host "check" "issue" shop tangled_proposal config [] [] (inl still_tangled)
      {p = api_plan}

compiled-Joined_example : Pairwise (Joined api_plan.conflicts) api_plan.tasks
compiled-Joined_example =
    compiled-Joined plain_host "check" "issue" shop api_proposal config [] [] compiled

no_errors :
    plan_errors plain_host shop (rules_for config [] []) [] api_plan.tasks api_plan.conflicts ≡ []
unfolding plan_errors
no_errors = refl

plan_errors-IsSound_example :
    IsSound plain_host shop (rules_for config [] []) [] api_plan.tasks api_plan.conflicts
plan_errors-IsSound_example =
    plan_errors-IsSound plain_host shop (rules_for config [] []) [] api_plan.tasks
      api_plan.conflicts no_errors

approvable : can_auto_approve api_plan [] true ≡ true
unfolding can_auto_approve
approvable = refl

approved-IsHarmless_example :
    (is_valid api_plan.validation ≡ true)
    × (is_empty api_plan.validation.repairs ≡ true)
    × All (λ (t : PlanTask). t.risk_tags ≡ []) api_plan.tasks
approved-IsHarmless_example =
    approved-IsHarmless plain_host "check" "issue" shop api_proposal config [] [] [] true compiled
      approvable

merge_loop-IsSeparate_example :
    IsSeparate plain_host 350 (merge_loop plain_host 3 350 api_plan.tasks).0
    × (length (merge_loop plain_host 3 350 api_plan.tasks).0 ≤ 3)
merge_loop-IsSeparate_example = merge_loop-IsSeparate plain_host 350 3 api_plan.tasks (omega arith)

abbrev prompt : PlanTask → List String → String
prompt t paths = t.objective

abbrev planned_manifest : Manifest
planned_manifest = manifest_of prompt false other_policy 2 api_plan.tasks api_plan.delivery_verifier

manifest_made :
    plan_to_manifest prompt false other_policy false api_plan.tasks api_plan.delivery_verifier
    ≡ ok planned_manifest
unfolding plan_to_manifest sort
manifest_made = refl

abbrev started : LoopState
started = record {
  pending = planned_manifest.tasks;
  running = [];
  verified_keys = [];
  failed = 0;
  concurrency = record {
    current_root = 2;
    min_root = 1;
    max_root = 2;
    last_change_at = 0;
    pressure_windows = 0;
    healthy_windows = 0;
  };
  ready_work_count = 0;
  log = [];
}

starts : initial_state planned_manifest 0 ≡ ok started
unfolding initial_state manifest_of
starts = refl

abbrev went_to : Result Turn → LoopState
went_to (ok (goes_on g)) = g
went_to (ok (broke b)) = b
went_to (err e) = started

abbrev after_one : LoopState
after_one = went_to (turn planned_manifest sample_world 0 started)

turned : turn planned_manifest sample_world 0 started ≡ ok (goes_on after_one)
unfolding turn manifest_of
turned = refl

-- Of the tasks that write to src/api.py, the first has run and the second has not.
expiry_verified : after_one.verified_keys ≡ "expiry" ∷ []
unfolding turn manifest_of
expiry_verified = refl

after_one-Reached : Reached planned_manifest sample_world started 1 after_one
unfolding manifest_of
after_one-Reached = next 0 started after_one start refl turned

planned_apart_example : RunsApart prompt false api_plan.tasks planned_manifest after_one
planned_apart_example =
    planned_apart plain_host "check" "issue" shop api_proposal config [] [] prompt false
      other_policy false sample_world 0 compiled manifest_made starts after_one-Reached
