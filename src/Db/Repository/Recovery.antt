-- ===== src/Db/Repository/Recovery.antt =====
-- `reconcile_orphans` after a restart, and `unlock_dependencies`.
use firstgreen.Prelude.{
  String, Bool, true, false, ◌≡◌, refl, some, List, [], ◌∷◌, ◌==◌, arith, All, All-true,
}
use firstgreen.Prelude.Result.{ok}
use firstgreen.Domain.Models.{TaskStatus, AttemptStatus}
use firstgreen.Db.Sql.{update_where, rowcount, update_where-none, All-update_where, All-updated}
use firstgreen.Db.Tables.{TaskRow, AttemptRow, LeaseRow, Database}
use firstgreen.Db.Repository.Winners.{Won}
use firstgreen.Db.Repository.{
  reconcile_orphans, is_running_attempt, is_interrupted, is_abandoned, releasable, finish_attempt,
  set_task_status,
}

-- A database that no process is at work on.
pub record IsQuiet (db : Database) : Type 0 where
  pub none_running : All (λ (a : AttemptRow). is_running_attempt a ≡ false) db.attempts
  pub none_interrupted : All (λ (a : AttemptRow). is_interrupted a ≡ false) db.attempts
  pub none_abandoned : All (λ (t : TaskRow). is_abandoned t ≡ false) db.tasks
  pub leases_live : All (λ (l : LeaseRow). releasable db.attempts l ≡ false) db.leases

-- After the reconciliation no attempt is running, starting or verifying, no task without a winner is
-- running or verifying, and no lease of an attempt that has ended without winning is held.
pub reconcile-IsQuiet : (now : String) (db : Database) → IsQuiet (reconcile_orphans now db).1
unfolding reconcile_orphans
reconcile-IsQuiet now db =
    let orphaned =
      update_where is_running_attempt (finish_attempt AttemptStatus.orphaned now) db.attempts in
    let failed = update_where is_interrupted (finish_attempt AttemptStatus.failed now) orphaned in
    record {
      none_running =
          All-updated (λ (a : AttemptRow). is_running_attempt a ≡ false)
            (λ (a : AttemptRow). is_running_attempt a ≡ false) is_interrupted
            (finish_attempt AttemptStatus.failed now) orphaned (λ a p e. refl) (λ a p e. p)
            (All-updated (λ _. Unit) (λ (a : AttemptRow). is_running_attempt a ≡ false)
              is_running_attempt (finish_attempt AttemptStatus.orphaned now) db.attempts
              (λ a _ e. refl) (λ a _ e. e) (All-true db.attempts));
      none_interrupted =
          All-updated (λ _. Unit) (λ (a : AttemptRow). is_interrupted a ≡ false) is_interrupted
            (finish_attempt AttemptStatus.failed now) orphaned (λ a _ e. refl) (λ a _ e. e)
            (All-true orphaned);
      none_abandoned =
          All-updated (λ _. Unit) (λ (t : TaskRow). is_abandoned t ≡ false) is_abandoned
            (set_task_status TaskStatus.failed) db.tasks (λ t _ e. refl) (λ t _ e. e)
            (All-true db.tasks);
      leases_live =
          All-updated (λ _. Unit) (λ (l : LeaseRow). releasable failed l ≡ false)
            (releasable failed) (λ (l : LeaseRow). record l { released_at = some now }) db.leases
            (λ l _ e. refl) (λ l _ e. e) (All-true db.leases);
    }

rowcount-none :
    {A : Type 0} (p : A → Bool) (xs : List A) → All (λ x. p x ≡ false) xs → rowcount p xs ≡ 0
unfolding rowcount
rowcount-none p [] h = refl
rowcount-none p (x ∷ xs) h = rw (h.0) (omega (arith, rowcount-none p xs h.1))

-- A reconciliation of a quiet database finds nothing to do and changes nothing; so a second one
-- after a first does nothing.
pub reconcile_quiet :
    (now : String) (db : Database)
    → IsQuiet db
    → reconcile_orphans now db ≡ (
      ok (record {
        orphaned_attempts = 0;
        interrupted_attempts = 0;
        failed_tasks = 0;
        released_leases = 0;
      }),
      db,
    )
unfolding reconcile_orphans
reconcile_quiet now db q =
    let r = rowcount-none is_running_attempt db.attempts q.none_running in
    let i = rowcount-none is_interrupted db.attempts q.none_interrupted in
    let t = rowcount-none is_abandoned db.tasks q.none_abandoned in
    let l = rowcount-none (releasable db.attempts) db.leases q.leases_live in
    cc (
      r,
      i,
      t,
      l,
      update_where-none is_running_attempt (finish_attempt AttemptStatus.orphaned now) db.attempts
          r,
      update_where-none is_interrupted (finish_attempt AttemptStatus.failed now) db.attempts i,
      update_where-none is_abandoned (set_task_status TaskStatus.failed) db.tasks t,
      update_where-none (releasable db.attempts)
          (λ (l : LeaseRow). record l { released_at = some now }) db.leases l,
    )

-- A restart never takes a winner from a task.
pub reconcile-keeps-Won :
    (t w now : String) (db : Database) → Won t w db → Won t w (reconcile_orphans now db).1
unfolding reconcile_orphans
reconcile-keeps-Won t w now db h =
    All-update_where (λ (r : TaskRow). (r.id == t) ≡ true → r.winner_attempt_id ≡ some w)
      is_abandoned (set_task_status TaskStatus.failed) db.tasks (λ r p _. p) h
