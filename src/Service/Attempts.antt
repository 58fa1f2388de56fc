-- ===== src/Service/Attempts.antt =====
-- src/firstgreen/service.py: the transactions of a run, of a task and of its attempts. New ids, times
-- and rendered JSON are arguments.
pub mod Cancel
pub mod Steps
pub mod Created
pub mod Examples
use firstgreen.Prelude.{
  ℕ, suc, ◌+◌, max, String, Bool, true, false, not, ◌&&◌, ◌||◌, Option, none, some, List, [], ◌∷◌,
  ◌++◌, map, ◌==◌, nat_eq, if◌then◌else◌, is_some, is_empty, any, mem,
}
use firstgreen.Prelude.Result.{Result, ok, err, integrity_error, value_error, ◌>>=◌, ◌>>◌}
use firstgreen.Domain.Models.{RunStatus, TaskStatus, AttemptStatus}
use firstgreen.Domain.Transitions.{require_task}
use firstgreen.Config.Models.{TaskConfig}
use firstgreen.Db.Sql.{update_where}
use firstgreen.Db.Tables.{
  RunRow, TaskRow, DependencyRow, AttemptRow, VerificationRow, CommandStatus, passed, failed,
  timed_out, skipped, Database,
}
use firstgreen.Db.Repository.{
  Statements, transaction, set_task_status, set_attempt_status, finish_attempt,
}

-- `_run_started`: the row of the run, then a row for each task.
abbrev first_status : TaskConfig → TaskStatus
first_status t = if is_empty t.dependencies then TaskStatus.ready else TaskStatus.queued

abbrev pub task_row : String → (String → String) → TaskConfig → TaskRow
task_row run_id task_ids t = record {
  id = task_ids t.id;
  run_id = run_id;
  task_key = t.id;
  prompt = t.prompt;
  replay_safe = t.replay_safe;
  status = first_status t;
  winner_attempt_id = none;
  verified_at = none;
}

unfoldable pub insert_tasks : String → (String → String) → List TaskConfig → Statements (Unit {0})
insert_tasks run_id task_ids [] db = ok (tt, db)
insert_tasks run_id task_ids (t ∷ ts) db =
    if any (λ (r : TaskRow). r.id == task_ids t.id || r.run_id == run_id && r.task_key == t.id)
      db.tasks
    then err integrity_error
    else insert_tasks run_id task_ids ts
        (record db { tasks = db.tasks ++ task_row run_id task_ids t ∷ [] })

unfoldable pub dependency_rows : (String → String) → List TaskConfig → List DependencyRow
dependency_rows task_ids [] = []
dependency_rows task_ids (t ∷ ts) =
    map (λ d. record { task_id = task_ids t.id; dependency_id = task_ids d }) t.dependencies
    ++ dependency_rows task_ids ts

-- The primary key of `task_dependencies`, and its references to `tasks`.
unfoldable pub insert_dependencies : List DependencyRow → Statements (Unit {0})
insert_dependencies [] db = ok (tt, db)
insert_dependencies (d ∷ ds) db =
    if any (λ (r : DependencyRow). r.task_id == d.task_id && r.dependency_id == d.dependency_id)
      db.dependencies
    then err integrity_error
    else if not (any (λ (t : TaskRow). t.id == d.task_id) db.tasks)
    then err integrity_error
    else if not (any (λ (t : TaskRow). t.id == d.dependency_id) db.tasks)
    then err integrity_error
    else insert_dependencies ds (record db { dependencies = db.dependencies ++ d ∷ [] })

create_statements : RunRow → (String → String) → List TaskConfig → Statements (Unit {0})
unfolding insert_tasks dependency_rows insert_dependencies
create_statements run task_ids ts db =
    if any (λ (r : RunRow). r.id == run.id) db.runs
    then err integrity_error
    else (insert_tasks run.id task_ids ts
          (record db { runs = db.runs ++ record run { status = RunStatus.running } ∷ [] })
        >>= λ r. insert_dependencies (dependency_rows task_ids ts) (r.1))

unfoldable pub create_run :
    RunRow → (String → String) → List TaskConfig → Database → Result (Unit {0}) × Database
unfolding create_statements
create_run run task_ids ts = transaction (create_statements run task_ids ts)

-- `UPDATE tasks SET status=? WHERE id=?`
unfoldable pub set_task : String → TaskStatus → Database → Result (Unit {0}) × Database
set_task task_id status = transaction (λ db. ok (
  tt,
  record db {
    tasks = update_where (λ (t : TaskRow). t.id == task_id) (set_task_status status) db.tasks;
  },
))

-- `UPDATE attempts SET status=?,finished_at=? WHERE id=?`: a failed, passed or cancelled attempt.
unfoldable pub end_attempt :
    String → AttemptStatus → String → Database → Result (Unit {0}) × Database
end_attempt attempt_id status now = transaction (λ db. ok (
  tt,
  record db {
    attempts =
        update_where (λ (a : AttemptRow). a.id == attempt_id) (finish_attempt status now)
          db.attempts;
  },
))

-- The keys of `attempts`, and the reference to its task.
abbrev clashes : AttemptRow → AttemptRow → Bool
clashes a r = r.id == a.id || r.task_id == a.task_id && nat_eq r.ordinal a.ordinal

start_statements : AttemptRow → Statements (Unit {0})
start_statements a db =
    if any (clashes a) db.attempts
    then err integrity_error
    else if not (any (λ (t : TaskRow). t.id == a.task_id) db.tasks)
    then err integrity_error
    else ok (
      tt,
      record db {
        attempts =
            update_where (λ (r : AttemptRow). r.id == a.id)
              (set_attempt_status AttemptStatus.running)
              (db.attempts ++ record a { status = AttemptStatus.starting } ∷ []);
      },
    )

-- `_execute_attempt`: the attempt's row is inserted, and set running.
unfoldable pub start_attempt : AttemptRow → Database → Result (Unit {0}) × Database
unfolding start_statements
start_attempt a = transaction (start_statements a)

-- The worker has completed.
unfoldable pub begin_verifying : String → String → Database → Result (Unit {0}) × Database
begin_verifying attempt_id task_id = transaction (λ db. ok (
  tt,
  record db {
    attempts =
        update_where (λ (a : AttemptRow). a.id == attempt_id)
          (set_attempt_status AttemptStatus.verifying) db.attempts;
    tasks =
        update_where (λ (t : TaskRow). t.id == task_id) (set_task_status TaskStatus.verifying)
          db.tasks;
  },
))

status_of : String → List TaskRow → Option TaskStatus
status_of task_id [] = none
status_of task_id (t ∷ ts) = if t.id == task_id then some t.status else status_of task_id ts

-- The repair loop: the task must be allowed to run again. A missing row is an error of Python's.
resume_statements : String → Statements (Unit {0})
unfolding status_of
resume_statements task_id db = elim (status_of task_id db.tasks) [
  | none ↦ err value_error
  | some current ↦
      require_task current TaskStatus.running
      >> ok (
        tt,
        record db {
          tasks =
              update_where (λ (t : TaskRow). t.id == task_id) (set_task_status TaskStatus.running)
                db.tasks;
        },
      )
]

unfoldable pub resume_task : String → Database → Result (Unit {0}) × Database
unfolding resume_statements require_task
resume_task task_id = transaction (resume_statements task_id)

abbrev has_no_winner : TaskRow → Bool
has_no_winner t = not (is_some t.winner_attempt_id)

-- The end of `_run_task_with_resources` without a winner.
unfoldable pub fail_task : String → Database → Result (Unit {0}) × Database
fail_task task_id = transaction (λ db. ok (
  tt,
  record db {
    tasks =
        update_where (λ (t : TaskRow). t.id == task_id && has_no_winner t)
          (set_task_status TaskStatus.failed) db.tasks;
  },
))

-- `UPDATE runs SET status=?,finished_at=? WHERE id=?`
abbrev pub finish_run_row : RunStatus → String → RunRow → RunRow
finish_run_row s now r = record r { status = s; finished_at = some now }

unfoldable pub finish_run : String → RunStatus → String → Database → Result (Unit {0}) × Database
finish_run run_id status now = transaction (λ db. ok (
  tt,
  record db {
    runs = update_where (λ (r : RunRow). r.id == run_id) (finish_run_row status now) db.runs;
  },
))

-- `COALESCE(finished_at,?)`
abbrev cancel_row : String → AttemptRow → AttemptRow
cancel_row now a = record a {
  status = AttemptStatus.cancelled;
  finished_at = elim a.finished_at [ none ↦ some now | some at ↦ some at ];
}

-- `status IN ('starting','running','verifying','agent_completed')`
abbrev pub is_active : AttemptStatus → Bool
is_active AttemptStatus.starting = true
is_active AttemptStatus.running = true
is_active AttemptStatus.verifying = true
is_active AttemptStatus.agent_completed = true
is_active _ = false

-- `status NOT IN ('failed','blocked','cancelled')`
abbrev pub is_unended : TaskStatus → Bool
is_unended TaskStatus.failed = false
is_unended TaskStatus.blocked = false
is_unended TaskStatus.cancelled = false
is_unended _ = true

abbrev is_running_run : RunStatus → Bool
is_running_run RunStatus.running = true
is_running_run _ = false

-- `task_id IN (SELECT id FROM tasks WHERE run_id=?)`
abbrev pub is_of_run : String → List TaskRow → String → Bool
is_of_run run_id tasks task_id = any (λ (t : TaskRow). t.id == task_id && t.run_id == run_id) tasks

-- `run`, on cancellation.
unfoldable pub cancel_run : String → String → Database → Result (Unit {0}) × Database
cancel_run run_id now = transaction (λ db. ok (
  tt,
  record db {
    attempts =
        update_where (λ (a : AttemptRow). is_of_run run_id db.tasks a.task_id && is_active a.status)
          (cancel_row now) db.attempts;
    tasks =
        update_where
          (λ (t : TaskRow). t.run_id == run_id && (has_no_winner t && is_unended t.status))
          (set_task_status TaskStatus.cancelled) db.tasks;
    runs =
        update_where (λ (r : RunRow). r.id == run_id && is_running_run r.status)
          (finish_run_row RunStatus.cancelled now) db.runs;
  },
))
