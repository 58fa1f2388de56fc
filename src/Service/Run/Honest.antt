-- ===== src/Service/Run/Honest.antt =====
-- A run of src/firstgreen/service.py from its creation to its outcome.
use firstgreen.Prelude.{
  ℕ, String, Bool, true, false, not, ◌≡◌, List, All, all, distinct, mem, is_empty, arith, suc,
  length, [],
}
use firstgreen.Prelude.Result.{
  Result, ok, err, value_error, raise_if, Returns, ◌>>◌, raise_if-eq-ok,
}
use firstgreen.Config.Models.{TaskConfig, Manifest, check_concurrency}
use firstgreen.Config.Dag.{ids, valid_dag, visit_each, visit}
use firstgreen.Db.Tables.{RunRow, Database}
use firstgreen.Service.Attempts.{create_run}
use firstgreen.Service.Attempts.Created.{IsFresh, create_total}
use firstgreen.Service.Loop.{World, run_started}
use firstgreen.Service.Loop.Accounting.{IsWaiting}
use firstgreen.Service.Loop.Outcome.{HonestAnswer, valid-distinct, run_honest}
use firstgreen.Service.Run.{after_creation, create_and_run}

valid-known :
    (tasks : List TaskConfig) {order : List String}
    → valid_dag tasks ≡ ok order
    → all (λ (t : TaskConfig). all (λ d. mem d (ids tasks)) t.dependencies) tasks ≡ true
unfolding valid_dag
valid-known tasks e =
    let all_ids = visit_each (visit tasks (suc (length tasks)) []) (ids tasks) [] in
    let known = all (λ (t : TaskConfig). all (λ d. mem d (ids tasks)) t.dependencies) tasks in
    let (unique, rest) =
      raise_if-eq-ok (not (distinct (ids tasks))) value_error
        (raise_if (not known) value_error >> all_ids) e in
    let (closed, _) = raise_if-eq-ok (not known) value_error all_ids rest in ground arith

created-Returns :
    (m : Manifest) (w : World) (now : ℕ) (delivered : Bool) (c : Result (Unit {0}) × Database)
    → c.0 ≡ ok tt
    → Returns (HonestAnswer m delivered) (run_started m w now delivered)
    → Returns (HonestAnswer m delivered) (after_creation m w now delivered c).0
created-Returns m w now delivered (ok u, db) e h = h
created-Returns m w now delivered (err x, db) e h = absurd (ground arith)

-- A run of a manifest that passes its checks and names no dependency of a task twice, with fresh ids,
-- creates its rows and comes to an end without an error, if each wait returns some of the tasks that
-- run, and where no task and no delivery raises. Its status is `completed` only if every task is
-- verified, none has failed, and the delivery succeeded where there are several tasks; it is
-- `completed` whenever every task is verified and the delivery succeeds; and no task is missing from
-- the two counts.
pub whole_run_honest :
    (run : RunRow) (new_ids : String → String) (m : Manifest) (w : World) (now : ℕ)
    (delivered : Bool) (db : Database) {order : List String}
    → IsWaiting w
    → valid_dag m.tasks ≡ ok order
    → is_empty m.tasks ≡ false
    → check_concurrency m.scheduler.concurrency ≡ ok tt
    → All (λ (t : TaskConfig). distinct t.dependencies ≡ true) m.tasks
    → IsFresh run new_ids m.tasks db
    → Returns (HonestAnswer m delivered) (create_and_run run new_ids m w now delivered db).0
unfolding create_and_run
whole_run_honest run new_ids m w now delivered db wait v some_task checked own fresh =
    created-Returns m w now delivered (create_run run new_ids m.tasks db)
      (create_total run new_ids m.tasks db (valid-distinct m v) (valid-known m.tasks v) own fresh)
      (run_honest m w now delivered wait v some_task checked)
