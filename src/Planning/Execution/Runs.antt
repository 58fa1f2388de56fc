-- ===== src/Planning/Execution/Runs.antt =====
-- From a compiled plan to the end of its run: src/firstgreen/planning/workflow.py and the scheduler of
-- src/firstgreen/service.py.
use firstgreen.Prelude.{ℕ, String, Bool, false, ◌||◌, ◌≡◌, refl, List, [], ◌∷◌, any, is_empty}
use firstgreen.Prelude.Result.{Result, ok, err, Returns, Returns-get}
use firstgreen.Config.Models.{TaskConfig, Manifest}
use firstgreen.Config.Dag.{ids, valid_dag}
use firstgreen.Service.Loop.{World, run_started}
use firstgreen.Service.Loop.Accounting.{IsWaiting}
use firstgreen.Service.Loop.Outcome.{HonestAnswer, run_honest}
use firstgreen.Planning.Models.{PlanTask, RepositoryMap, PlannerProposal}
use firstgreen.Planning.Texts.{Host}
use firstgreen.Planning.Parallelism.{plan_ids}
use firstgreen.Planning.Candidate.{CandidatePlan}
use firstgreen.Planning.Compile.{DecompositionConfig, compile_plan}
use firstgreen.Planning.Compile.Sound.{compiled-analysed}
use firstgreen.Planning.Analysis.Sound.{analyze-IsAnalysed}
use firstgreen.Planning.Execution.{Policy, plan_to_manifest, lacks_command}
use firstgreen.Planning.Execution.Valid.{IsPlanned, manifest_passes}

Returns-imp :
    (P Q : Manifest → Type 0) (r : Result Manifest)
    → ((m : Manifest) → P m → Q m)
    → Returns P r
    → Returns Q r
Returns-imp P Q (ok m) f h = f m h
Returns-imp P Q (err e) f h = absurd h

some-ids :
    (ts : List PlanTask) (cs : List TaskConfig)
    → is_empty ts ≡ false
    → ids cs ≡ plan_ids ts
    → is_empty cs ≡ false
some-ids [] cs h e = absurd (cc)
some-ids (t ∷ ts) [] h e = absurd (cc)
some-ids (t ∷ ts) (c ∷ cs) h e = refl

-- The manifest of a compiled plan whose tasks all have commands can be made, and a run of it comes
-- to an end with an honest answer, if each wait returns some of the tasks that run.
pub planned_run :
    (host : Host) (syntax_check issue : String) (repo_map : RepositoryMap)
    (proposal : PlannerProposal) (config : DecompositionConfig) (allow deny : List String)
    (prompt : PlanTask → List String → String) (replay_safe : Bool) (policy : Policy) (w : World)
    (now : ℕ) (delivered : Bool) {p : CandidatePlan}
    → IsWaiting w
    → compile_plan host syntax_check issue repo_map proposal config allow deny ≡ ok p
    → (any lacks_command p.tasks || any is_empty p.delivery_verifier) ≡ false
    → Returns
        (λ m. Returns (HonestAnswer m delivered) (run_started m w now delivered))
        (plan_to_manifest prompt replay_safe policy false p.tasks p.delivery_verifier)
planned_run host syntax_check issue repo_map proposal config allow deny prompt replay_safe policy w
      now delivered {p} wait c commands =
    let (a, accepted) =
      compiled-analysed host syntax_check issue repo_map proposal config allow deny c in
    Returns-imp (IsPlanned p.tasks)
      (λ m. Returns (HonestAnswer m delivered) (run_started m w now delivered))
      (plan_to_manifest prompt replay_safe policy false p.tasks p.delivery_verifier)
      (λ m i.
        let (order, valid, _) = Returns-get (λ _. Unit) (valid_dag m.tasks) i.acyclic in
        run_honest m w now delivered wait valid
          (some-ids p.tasks m.tasks (analyze-IsAnalysed 5 p.tasks accepted).some_task i.same_ids)
          i.concurrency)
      (manifest_passes prompt replay_safe policy p.tasks p.delivery_verifier accepted commands)
