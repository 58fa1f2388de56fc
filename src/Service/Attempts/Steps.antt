-- ===== src/Service/Attempts/Steps.antt =====
-- The writes of src/firstgreen/db/repository.py, src/firstgreen/service.py and the `cancel` of
-- src/firstgreen/cli.py, as one step relation: a winner is never lost or replaced.
use firstgreen.Prelude.{
  ℕ, String, Bool, true, [], ◌∷◌, ◌++◌, any, ◌≡◌, ◌⊎◌, inl, inr, refl, Option, none, some, List,
  ◌==◌, arith, All, Bool-cases,
}
use firstgreen.Prelude.Result.{Result, ok, err}
use firstgreen.Domain.Models.{RunStatus, TaskStatus, AttemptStatus}
use firstgreen.Db.Sql.{update_where, All-update_where}
use firstgreen.Db.Tables.{
  TaskRow, AttemptRow, VerificationRow, EventRow, DecisionRow, SampleRow, Database,
}
use firstgreen.Db.Repository.{
  finish, append_event, claim_winner, unlock_dependencies, add_runtime_sample, record_decision,
  reconcile_orphans, set_task_status,
}
use firstgreen.Db.Repository.Winners.{Won, claim-keeps-Won}
use firstgreen.Db.Repository.Recovery.{reconcile-keeps-Won}
use firstgreen.Service.Attempts.Cancel.{cancel_request}
use firstgreen.Service.Verifications.{
  Rendered, rows_from, clashes, insert_rows, next_round, report, persist_verification,
}
use firstgreen.Verifier.Runner.{VerificationCommand, VerificationResult}
use firstgreen.Service.Attempts.{
  set_task, end_attempt, start_attempt, begin_verifying, resume_task, fail_task, finish_run,
  cancel_run,
}
use firstgreen.Service.Reverify.{
  begin_reverification, fail_reverification, pass_reverification, settle_claim,
  settle_reverification, begin_checked, Joined, all_failed, look_up,
}

-- One transaction on the rows of the runs that there are, whatever its arguments and whether or not
-- it succeeds.
pub data Step (db : Database) : Database → Type 0 where
  claimed : (t a now : String) → Step db (claim_winner t a now db).1
  reconciled : (now : String) → Step db (reconcile_orphans now db).1
  unlocked : (run_id : String) → Step db (unlock_dependencies run_id db).1
  sampled : (s : SampleRow) → Step db (add_runtime_sample s db).1
  decided : (d : DecisionRow) → Step db (record_decision d db).1
  reported : (e : EventRow) → Step db (append_event e db).1
  task_set : (t : String) (s : TaskStatus) → Step db (set_task t s db).1
  attempt_ended :
      (a : String) (s : AttemptStatus) (now : String) → Step db (end_attempt a s now db).1
  attempt_started : (a : AttemptRow) → Step db (start_attempt a db).1
  verifying_begun : (a t : String) → Step db (begin_verifying a t db).1
  resumed : (t : String) → Step db (resume_task t db).1
  failed : (t : String) → Step db (fail_task t db).1
  run_finished : (r : String) (s : RunStatus) (now : String) → Step db (finish_run r s now db).1
  run_cancelled : (r now : String) → Step db (cancel_run r now db).1
  reverification_begun : (r a : String) → Step db (begin_reverification r a db).1
  reverification_failed : (r t a now : String) → Step db (fail_reverification r t a now db).1
  reverification_passed : (r t a now : String) → Step db (pass_reverification r t a now db).1
  verification_persisted :
      (texts : Rendered) (attempt_id : String) (commands : List VerificationCommand)
      (result : VerificationResult) (e : EventRow)
      → Step db (persist_verification texts attempt_id commands result e db).1
  cancel_requested : (r : String) (task : Option String) → Step db (cancel_request r task db).1

-- Any number of steps.
pub data Steps (db : Database) : Database → Type 0 where
  none_yet : Steps db db
  then_step : (db' db'' : Database) → Steps db db' → Step db' db'' → Steps db db''

module _ (t w : String) where
  abbrev Names : TaskRow → Type 0
  Names r = (r.id == t) ≡ true → r.winner_attempt_id ≡ some w

  -- An update of statuses leaves the winners.
  status-Names :
      (p : TaskRow → Bool) (s : TaskStatus) (rows : List TaskRow)
      → All Names rows
      → All Names (update_where p (set_task_status s) rows)
  status-Names p s rows h = All-update_where Names p (set_task_status s) rows (λ r n _. n) h

  tasks-sampled : (s : SampleRow) (db : Database) → (add_runtime_sample s db).1.tasks ≡ db.tasks
  unfolding add_runtime_sample
  tasks-sampled s db = ground arith

  tasks-decided : (d : DecisionRow) (db : Database) → (record_decision d db).1.tasks ≡ db.tasks
  unfolding record_decision
  tasks-decided d db = ground arith

  tasks-started : (a : AttemptRow) (db : Database) → (start_attempt a db).1.tasks ≡ db.tasks
  unfolding start_attempt
  tasks-started a db = ground arith

  resume_cases :
      (u : String) (db : Database)
      → ((resume_task u db).1.tasks
          ≡ update_where (λ (r : TaskRow). r.id == u) (set_task_status TaskStatus.running) db.tasks)
        ⊎ ((resume_task u db).1.tasks ≡ db.tasks)
  unfolding resume_task
  resume_cases u db = ground arith

  begin_checked_cases :
      (r a : String) (j : Option Joined) (db : Database)
      → ((finish db (begin_checked r a j db)).1.tasks ≡ db.tasks)
        ⊎ ((u : String) × ((finish db (begin_checked r a j db)).1.tasks
              ≡ update_where
                  (λ (x : TaskRow). x.id == u)
                  (set_task_status TaskStatus.verifying)
                  db.tasks))
  unfolding begin_checked
  begin_checked_cases r a none db = inl refl
  begin_checked_cases r a (some j) db = elim (Bool-cases (all_failed j)) [
    | inl e ↦ rw e (inr (j.task.id, refl))
    | inr e ↦ rw e (inl refl)
  ]

  begin_cases :
      (r a : String) (db : Database)
      → ((begin_reverification r a db).1.tasks ≡ db.tasks)
        ⊎ ((u : String) × ((begin_reverification r a db).1.tasks
              ≡ update_where
                  (λ (x : TaskRow). x.id == u)
                  (set_task_status TaskStatus.verifying)
                  db.tasks))
  unfolding begin_reverification
  begin_cases r a db = begin_checked_cases r a (look_up r a db) db

  tasks-settle_claim :
      (r a now : String) (answer : Result Bool × Database)
      → (settle_claim r a now answer).1.tasks ≡ answer.1.tasks
  unfolding settle_reverification
  tasks-settle_claim r a now (ok c, db) = refl
  tasks-settle_claim r a now (err e, db) = refl

  tasks-passed :
      (r u a now : String) (db : Database)
      → (pass_reverification r u a now db).1.tasks
        ≡ (claim_winner u a now (end_attempt a AttemptStatus.passed now db).1).1.tasks
  unfolding pass_reverification
  tasks-passed r u a now db =
      tasks-settle_claim r a now
        (claim_winner u a now (end_attempt a AttemptStatus.passed now db).1)

  tasks-insert_rows :
      (vs : List VerificationRow) (db : Database) {x : Unit {0} × Database}
      → insert_rows vs db ≡ ok x
      → x.1.tasks ≡ db.tasks
  unfolding insert_rows
  tasks-insert_rows [] db e = ground arith
  tasks-insert_rows (v ∷ vs) db e = elim (Bool-cases (any (clashes v) db.verifications)) [
    | inl c ↦ absurd (ground arith)
    | inr c ↦ elim (Bool-cases (any (λ (a : AttemptRow). a.id == v.attempt_id) db.attempts)) [
      | inl k ↦
          tasks-insert_rows vs (record db { verifications = db.verifications ++ v ∷ [] })
            (rw (c, k) at e)
      | inr k ↦ absurd (ground arith)
    ]
  ]

  tasks-reported :
      (round : ℕ) (e : EventRow) (db : Database) (r : Result (Unit {0} × Database))
      → ((x : Unit {0} × Database) → r ≡ ok x → x.1.tasks ≡ db.tasks)
      → (report round e (finish db r)).1.tasks ≡ db.tasks
  unfolding append_event
  tasks-reported round e db (ok x) h = h x refl
  tasks-reported round e db (err x) h = refl

  tasks-persisted :
      (texts : Rendered) (attempt_id : String) (commands : List VerificationCommand)
      (result : VerificationResult) (e : EventRow) (db : Database)
      → (persist_verification texts attempt_id commands result e db).1.tasks ≡ db.tasks
  unfolding persist_verification
  tasks-persisted texts attempt_id commands result e db =
      let round = next_round attempt_id db in
      let rows = rows_from texts attempt_id round 0 commands result.commands in
      tasks-reported round e db (insert_rows rows db) (λ x q. tasks-insert_rows rows db q)

  Step-Won : (db : Database) {db' : Database} → Step db db' → Won t w db → Won t w db'
  unfolding unlock_dependencies add_runtime_sample record_decision append_event set_task end_attempt
      start_attempt begin_verifying resume_task fail_task finish_run cancel_run begin_reverification
      fail_reverification cancel_request
  Step-Won db (claimed u a now) h = claim-keeps-Won t w u a now db h
  Step-Won db (reconciled now) h = reconcile-keeps-Won t w now db h
  Step-Won db (unlocked r) h = status-Names _ TaskStatus.ready db.tasks h
  Step-Won db (sampled s) h = rw (tasks-sampled s db) h
  Step-Won db (decided d) h = rw (tasks-decided d db) h
  Step-Won db (reported e) h = h
  Step-Won db (task_set u s) h = status-Names _ s db.tasks h
  Step-Won db (attempt_ended a s now) h = h
  Step-Won db (attempt_started a) h = rw (tasks-started a db) h
  Step-Won db (verifying_begun a u) h = status-Names _ TaskStatus.verifying db.tasks h
  Step-Won db (resumed u) h = elim (resume_cases u db) [
    | inl e ↦ rw e (status-Names _ TaskStatus.running db.tasks h)
    | inr e ↦ rw e h
  ]
  Step-Won db (failed u) h = status-Names _ TaskStatus.failed db.tasks h
  Step-Won db (run_finished r s now) h = h
  Step-Won db (run_cancelled r now) h = status-Names _ TaskStatus.cancelled db.tasks h
  Step-Won db (reverification_begun r a) h = elim (begin_cases r a db) [
    | inl e ↦ rw e h
    | inr (u, e) ↦ rw e (status-Names _ TaskStatus.verifying db.tasks h)
  ]
  Step-Won db (reverification_failed r u a now) h = status-Names _ TaskStatus.failed db.tasks h
  Step-Won db (reverification_passed r u a now) h =
      rw (tasks-passed r u a now db) (claim-keeps-Won t w u a now _ h)
  Step-Won db (verification_persisted texts a commands result e) h =
      rw (tasks-persisted texts a commands result e db) h
  Step-Won db (cancel_requested r none) h = status-Names _ TaskStatus.cancelled db.tasks h
  Step-Won db (cancel_requested r (some task)) h = status-Names _ TaskStatus.cancelled db.tasks h

  -- Once an attempt has won a task, it stays its winner through all later transactions of the
  -- repository, the service and the `cancel` command, but those that insert the rows of a new run, in
  -- whatever order, with whatever arguments, and whether or not each of them succeeds.
  pub winner_forever : (db : Database) {db' : Database} → Steps db db' → Won t w db → Won t w db'
  winner_forever db none_yet h = h
  winner_forever db (then_step mid db' before step) h =
      Step-Won mid step (winner_forever db before h)
