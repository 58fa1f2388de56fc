-- ===== src/Service/Attempts/Cancel.antt =====
-- src/firstgreen/cli.py, `cancel`: the transaction of a request to cancel a run, or a task of it.
use firstgreen.Prelude.{String, Bool, true, false, ◌&&◌, Option, none, some, ◌==◌}
use firstgreen.Prelude.Result.{Result, ok}
use firstgreen.Domain.Models.{RunStatus, TaskStatus}
use firstgreen.Db.Sql.{update_where}
use firstgreen.Db.Tables.{RunRow, TaskRow, Database}
use firstgreen.Db.Repository.{transaction, set_task_status}

-- `status NOT IN ('verified','failed','blocked','cancelled')`
abbrev pub is_cancellable : TaskStatus → Bool
is_cancellable TaskStatus.verified = false
is_cancellable TaskStatus.failed = false
is_cancellable TaskStatus.blocked = false
is_cancellable TaskStatus.cancelled = false
is_cancellable _ = true

abbrev is_running : RunStatus → Bool
is_running RunStatus.running = true
is_running _ = false

abbrev stop_run : RunRow → RunRow
stop_run r = record r { status = RunStatus.cancelled }

-- With `--task`, only the task; the run is not touched then.
unfoldable pub cancel_request : String → Option String → Database → Result (Unit {0}) × Database
cancel_request run_id none = transaction (λ db. ok (
  tt,
  record db {
    runs = update_where (λ (r : RunRow). r.id == run_id && is_running r.status) stop_run db.runs;
    tasks =
        update_where (λ (t : TaskRow). t.run_id == run_id && is_cancellable t.status)
          (set_task_status TaskStatus.cancelled) db.tasks;
  },
))
cancel_request run_id (some task) = transaction (λ db. ok (
  tt,
  record db {
    tasks =
        update_where
          (λ (t : TaskRow). t.run_id == run_id && (t.task_key == task && is_cancellable t.status))
          (set_task_status TaskStatus.cancelled) db.tasks;
  },
))
