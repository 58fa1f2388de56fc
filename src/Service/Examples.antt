-- ===== src/Service/Examples.antt =====
-- Tests and witnesses for the service: a run of three tasks in which the wait returns the first task
-- that runs, verified.
use firstgreen.Prelude.{◌+◌, ◌≤◌, true, ◌≡◌, refl, [], ◌∷◌, arith, length, sort}
use firstgreen.Prelude.Result.{Result, ok, err, Returns}
use firstgreen.Config.Models.{TaskConfig, check_concurrency}
use firstgreen.Config.Dag.{ids, valid_dag}
use firstgreen.Config.Samples.{sample_manifest, sample_tasks, model_task, view_task, docs_task}
use firstgreen.Scheduler.Queue.{RankedTask}
use firstgreen.Service.Samples.{sample_world, sample-IsWaiting}
use firstgreen.Service.Admission.{admit, active_resources}
use firstgreen.Service.Admission.Exclusive.{Exclusive, chosen, admit-Exclusive}
use firstgreen.Service.Admission.Capacity.{admit_within_limit, OneSelected, admit_at_limit}
use firstgreen.Service.Loop.{LoopState, initial_state, Turn, goes_on, broke, turn}
use firstgreen.Service.Loop.Outcome.{HonestAnswer}
use firstgreen.Domain.Models.{RunStatus}
use firstgreen.Db.Tables.{RunRow}
use firstgreen.Db.Samples.{sample_run, sample_db}
use firstgreen.Service.Attempts.Created.{IsFresh}
use firstgreen.Service.Run.{create_and_run}
use firstgreen.Service.Run.Honest.{whole_run_honest}
use firstgreen.Service.Loop.Safety.{IsSafe, Reached, start, next, Reached-IsSafe}
use firstgreen.Service.Loop.Turns.{WentOn, started_by, turn-View}
use firstgreen.Service.Loop.Limit.{Reached-limit}

sample-accepted : valid_dag sample_tasks ≡ ok ("docs" ∷ "view" ∷ "model" ∷ [])
unfolding valid_dag
sample-accepted = refl

sample-checked : check_concurrency sample_manifest.scheduler.concurrency ≡ ok tt
unfolding check_concurrency
sample-checked = refl

abbrev next_run : RunRow
next_run = record (sample_run RunStatus.running) { id = "r2" }

next-IsFresh : IsFresh next_run (λ k. k) sample_tasks sample_db
next-IsFresh = record {
  injective = λ a b e. e;
  run_free = refl;
  tasks_free = (refl, (refl, (refl, tt)));
  pairs_free = (refl, (refl, (refl, tt)));
}

whole_run_honest_example :
    Returns
      (HonestAnswer sample_manifest true)
      (create_and_run next_run (λ k. k) sample_manifest sample_world 100000000 true sample_db).0
whole_run_honest_example =
    whole_run_honest next_run (λ k. k) sample_manifest sample_world 100000000 true sample_db
      sample-IsWaiting sample-accepted refl sample-checked (refl, (refl, (refl, tt))) next-IsFresh

abbrev first_state : LoopState
first_state = record {
  pending = sample_tasks;
  running = [];
  verified_keys = [];
  failed = 0;
  concurrency = record {
    current_root = 2;
    min_root = 1;
    max_root = 3;
    last_change_at = 70000000;
    pressure_windows = 0;
    healthy_windows = 0;
  };
  ready_work_count = 0;
  log = [];
}

starts : initial_state sample_manifest 100000000 ≡ ok first_state
unfolding initial_state
starts = refl

abbrev went_to : Result Turn → LoopState
went_to (ok (goes_on g)) = g
went_to (ok (broke b)) = b
went_to (err e) = first_state

abbrev second_state : LoopState
second_state = went_to (turn sample_manifest sample_world 0 first_state)

turned : turn sample_manifest sample_world 0 first_state ≡ ok (goes_on second_state)
unfolding turn sort
turned = refl

-- `model` is verified, and `docs` runs on.
model_verified : second_state.verified_keys ≡ "model" ∷ []
unfolding turn sort
model_verified = refl

docs_runs : ids second_state.running ≡ "docs" ∷ []
unfolding turn sort
docs_runs = refl

second-Reached : Reached sample_manifest sample_world first_state 1 second_state
second-Reached = next 0 first_state second_state start refl turned

Reached-IsSafe_example : IsSafe second_state
Reached-IsSafe_example = Reached-IsSafe sample_manifest sample_world 100000000 starts second-Reached

first_went_on : WentOn sample_manifest sample_world 0 first_state second_state
first_went_on = turn-View sample_manifest sample_world 0 first_state turned

Reached-limit_example :
    length (started_by sample_manifest sample_world 0 first_state first_went_on).running ≤ 3
Reached-limit_example =
    Reached-limit sample_manifest sample_world sample-IsWaiting refl 100000000 starts start
      first_went_on

abbrev ranked : TaskConfig → RankedTask
ranked t = record { task = t; bottom_level = 5 }

admit-Exclusive_example : Exclusive (active_resources (model_task ∷ [])) (
    chosen (
      admit 3
        (model_task ∷ [])
        (length (model_task ∷ []))
        (ranked view_task ∷ ranked docs_task ∷ [])))
admit-Exclusive_example =
    admit-Exclusive 3 (model_task ∷ []) (ranked view_task ∷ ranked docs_task ∷ [])

admit_within_limit_example :
    length (model_task ∷ [])
      + length
          (admit 3
            (model_task ∷ [])
            (length (model_task ∷ []))
            (ranked view_task ∷ ranked docs_task ∷ [])).selected
    ≤ 3
admit_within_limit_example =
    admit_within_limit 3 (model_task ∷ []) (ranked view_task ∷ ranked docs_task ∷ []) (omega arith)

admit_at_limit_example :
    OneSelected
      (model_task ∷ [])
      (ranked model_task ∷ ranked docs_task ∷ [])
      (admit 1
        (model_task ∷ [])
        (length (model_task ∷ []))
        (ranked model_task ∷ ranked docs_task ∷ [])).selected
admit_at_limit_example =
    admit_at_limit 1 (model_task ∷ []) (ranked model_task ∷ ranked docs_task ∷ []) (omega arith)
