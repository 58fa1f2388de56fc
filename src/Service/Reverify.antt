-- ===== src/Service/Reverify.antt =====
-- src/firstgreen/service.py, `reverify`: one more verification of the preserved attempt of a run that
-- has failed. The hash of the manifest, the resolved paths and the resolved base are arguments.
pub mod Rules
use firstgreen.Prelude.{
  ℕ, suc, ◌+◌, max, String, Bool, true, false, not, ◌&&◌, ◌||◌, Option, none, some, List, [], ◌∷◌,
  ◌++◌, ◌==◌, nat_eq, leb, if◌then◌else◌, is_some, keep, length,
}
use firstgreen.Prelude.Result.{
  Error, Result, ok, err, value_error, workspace_safety_error, raise_if, ◌>>=◌, ◌>>◌,
}
use firstgreen.Domain.Models.{RunStatus, TaskStatus, AttemptStatus}
use firstgreen.Domain.Transitions.{require_run, require_task, require_attempt}
use firstgreen.Config.Models.{TaskConfig}
use firstgreen.Db.Sql.{update_where}
use firstgreen.Db.Tables.{RunRow, TaskRow, AttemptRow, VerificationRow, Database}
use firstgreen.Db.Repository.{
  Statements, transaction, set_task_status, finish_attempt, claim_winner,
}
use firstgreen.Service.Attempts.{finish_run_row, end_attempt, finish_run}

-- `MAX_VERIFICATION_ROUNDS`
abbrev pub max_verification_rounds : ℕ
max_verification_rounds = 3

abbrev pub find : {A : Type 0} → (A → Bool) → List A → Option A
find p [] = none
find p (x ∷ xs) = let rest = find p xs in if p x then some x else rest

-- A row of the joined query: a run, its task and the task's attempt.
pub record Joined : Type 0 where
  pub run : RunRow
  pub task : TaskRow
  pub attempt : AttemptRow

-- `COALESCE(MAX(verification_round),0)`
unfoldable pub previous_rounds : String → List VerificationRow → ℕ
previous_rounds attempt_id [] = 0
previous_rounds attempt_id (v ∷ vs) =
    let rest = previous_rounds attempt_id vs in
    if v.attempt_id == attempt_id then max v.verification_round rest else rest

abbrev join_attempt : RunRow → AttemptRow → Option TaskRow → Option Joined
join_attempt r a none = none
join_attempt r a (some t) = some (record { run = r; task = t; attempt = a })

abbrev join_run : Database → Option RunRow → Option AttemptRow → Option Joined
join_run db (some r) (some a) =
    join_attempt r a (find (λ (t : TaskRow). t.id == a.task_id && t.run_id == r.id) db.tasks)
join_run db _ _ = none

-- The query by the primary keys of the run and of the attempt.
abbrev pub look_up : String → String → Database → Option Joined
look_up run_id attempt_id db =
    join_run db (find (λ (r : RunRow). r.id == run_id) db.runs)
      (find (λ (a : AttemptRow). a.id == attempt_id) db.attempts)

-- What the caller brings: the manifest on disk, and what its repository resolves to.
pub record Presented : Type 0 where
  pub manifest_hash : String
  pub repo : String
  pub base_sha : String
  pub tasks : List TaskConfig

abbrev pub count_tasks : String → List TaskRow → ℕ
count_tasks run_id ts = length (keep (λ (t : TaskRow). t.run_id == run_id) ts)

abbrev pub first_key : List TaskConfig → Option String
first_key [] = none
first_key (t ∷ ts) = some t.id

abbrev same_key : String → Option String → Bool
same_key key none = false
same_key key (some k) = k == key

-- The checks before the first write, in the code's order.
unfoldable pub check_presented : Presented → Joined → Database → Result (Unit {0})
unfolding previous_rounds
check_presented p j db = do
  raise_if (not (j.run.manifest_hash == p.manifest_hash)) value_error
  raise_if (not (nat_eq (count_tasks j.run.id db.tasks) 1) || not (nat_eq (length p.tasks) 1))
      value_error
  raise_if (leb max_verification_rounds (previous_rounds j.attempt.id db.verifications)) value_error
  raise_if (not (p.repo == j.run.repo_path)) value_error
  raise_if (not (p.base_sha == j.run.base_sha)) value_error
  raise_if (not (same_key j.task.task_key (first_key p.tasks))) value_error
  raise_if (not (j.attempt.base_sha == j.run.base_sha)) value_error
  raise_if (not (is_some j.attempt.workspace_path) || not (is_some j.attempt.branch))
      workspace_safety_error

-- `tuple(current) != ("failed", "failed", "failed", None)`
abbrev pub is_failed_run : RunStatus → Bool
is_failed_run RunStatus.failed = true
is_failed_run _ = false

abbrev pub is_failed_task : TaskStatus → Bool
is_failed_task TaskStatus.failed = true
is_failed_task _ = false

abbrev pub is_failed_attempt : AttemptStatus → Bool
is_failed_attempt AttemptStatus.failed = true
is_failed_attempt _ = false

abbrev pub all_failed : Joined → Bool
all_failed j =
    is_failed_run j.run.status
    && (is_failed_task j.task.status
        && (is_failed_attempt j.attempt.status && not (is_some j.task.winner_attempt_id)))

-- The three updates with which the verification begins.
unfoldable pub reopen : String → String → String → Database → Database
reopen run_id task_id attempt_id db = record db {
  runs =
      update_where (λ (r : RunRow). r.id == run_id)
        (λ (r : RunRow). record r { status = RunStatus.running; finished_at = none }) db.runs;
  tasks =
      update_where (λ (t : TaskRow). t.id == task_id) (set_task_status TaskStatus.verifying)
        db.tasks;
  attempts =
      update_where (λ (a : AttemptRow). a.id == attempt_id)
        (λ (a : AttemptRow). record a { status = AttemptStatus.verifying; finished_at = none })
        db.attempts;
}

unfoldable pub begin_checked : String → String → Option Joined → Statements (Unit {0})
unfolding reopen require_run require_task require_attempt
begin_checked run_id attempt_id none db = err value_error
begin_checked run_id attempt_id (some j) db = do
  raise_if (not (all_failed j)) value_error
  require_run RunStatus.failed RunStatus.running
  require_task TaskStatus.failed TaskStatus.verifying
  require_attempt AttemptStatus.failed AttemptStatus.verifying
  ok (tt, reopen run_id j.task.id attempt_id db)

-- The transaction that reads the rows again and reopens them.
unfoldable pub begin_reverification : String → String → Database → Result (Unit {0}) × Database
unfolding begin_checked
begin_reverification run_id attempt_id =
    transaction (λ db. begin_checked run_id attempt_id (look_up run_id attempt_id db) db)

abbrev pub check_found : Presented → Database → Option Joined → Result String
check_found p db none = err value_error
check_found p db (some j) = check_presented p j db >> ok (j.task.id)

abbrev pub answer_task : String → Result (Unit {0}) × Database → Result String × Database
answer_task task_id (r, db) = (r >> ok task_id, db)

-- `reverify` up to the verification: the id of the task that is verified again.
unfoldable pub open_reverification :
    Presented → String → String → Database → Result String × Database
unfolding begin_reverification check_presented
open_reverification p run_id attempt_id db =
    elim (check_found p db (look_up run_id attempt_id db)) [
      | err e ↦ (err e, db)
      | ok task_id ↦ answer_task task_id (begin_reverification run_id attempt_id db)
    ]

abbrev pub is_verifying_task : TaskStatus → Bool
is_verifying_task TaskStatus.verifying = true
is_verifying_task _ = false

abbrev pub is_verifying_attempt : AttemptStatus → Bool
is_verifying_attempt AttemptStatus.verifying = true
is_verifying_attempt _ = false

abbrev pub is_running_run : RunStatus → Bool
is_running_run RunStatus.running = true
is_running_run _ = false

-- `_finish_reverification_failure`
unfoldable pub fail_reverification :
    String → String → String → String → Database → Result (Unit {0}) × Database
fail_reverification run_id task_id attempt_id now = transaction (λ db. ok (
  tt,
  record db {
    attempts =
        update_where (λ (a : AttemptRow). a.id == attempt_id && is_verifying_attempt a.status)
          (finish_attempt AttemptStatus.failed now) db.attempts;
    tasks =
        update_where
          (λ (t : TaskRow).
            t.id == task_id && (is_verifying_task t.status && not (is_some t.winner_attempt_id)))
          (set_task_status TaskStatus.failed) db.tasks;
    runs =
        update_where (λ (r : RunRow). r.id == run_id && is_running_run r.status)
          (finish_run_row RunStatus.failed now) db.runs;
  },
))

abbrev is_passed : AttemptStatus → Bool
is_passed AttemptStatus.passed = true
is_passed _ = false

-- The last transaction: the run's status, and an attempt that did not win.
unfoldable pub settle_reverification :
    String → String → Bool → String → Database → Result (Unit {0}) × Database
settle_reverification run_id attempt_id claimed now = transaction (λ db. ok (
  tt,
  record db {
    runs =
        update_where (λ (r : RunRow). r.id == run_id)
          (finish_run_row (if claimed then RunStatus.completed else RunStatus.failed) now) db.runs;
    attempts =
        if claimed
        then db.attempts
        else update_where (λ (a : AttemptRow). a.id == attempt_id && is_passed a.status)
            (λ (a : AttemptRow). record a { status = AttemptStatus.superseded }) db.attempts;
  },
))

abbrev pub settle_claim : String → String → String → Result Bool × Database → Result Bool × Database
settle_claim run_id attempt_id now (err e, db) = (err e, db)
settle_claim run_id attempt_id now (ok claimed, db) =
    (ok claimed, (settle_reverification run_id attempt_id claimed now db).1)

-- The end of `reverify` when the verification has passed: whether the attempt has won.
unfoldable pub pass_reverification :
    String → String → String → String → Database → Result Bool × Database
unfolding settle_reverification end_attempt claim_winner
pass_reverification run_id task_id attempt_id now db =
    settle_claim run_id attempt_id now
      (claim_winner task_id attempt_id now (end_attempt attempt_id AttemptStatus.passed now db).1)
