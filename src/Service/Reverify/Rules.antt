-- ===== src/Service/Reverify/Rules.antt =====
-- When `reverify` may verify again, and what its failure and its success leave.
use firstgreen.Prelude.{
  ◌<◌, String, Bool, true, false, not, ◌&&◌, ◌≡◌, refl, Option, none, some, List, [], ◌∷◌, arith,
  eq_iff, ◌==◌, Bool-cases, inl, inr, length, is_some, All, ap, sym,
}
use firstgreen.Prelude.Result.{Error, Result, ok, err, value_error, ◌>>◌, raise_if-eq-ok}
use firstgreen.Domain.Models.{AttemptStatus, TaskStatus}
use firstgreen.Db.Sql.{update_where}
use firstgreen.Db.Tables.{TaskRow, Database}
use firstgreen.Db.Repository.{set_task_status, finish, claim_winner}
use firstgreen.Db.Repository.Winners.{Won, HasKeys, claim_true-Won}
use firstgreen.Service.Attempts.{end_attempt}
use firstgreen.Service.Reverify.{
  Joined, Presented, look_up, check_presented, previous_rounds, max_verification_rounds,
  count_tasks, all_failed, begin_reverification, begin_checked, fail_reverification,
  is_verifying_task, open_reverification, pass_reverification, settle_claim, settle_reverification,
  reopen, check_found, answer_task,
}

-- What a reverification that is let through has shown.
pub record IsAllowed (p : Presented) (run_id attempt_id : String) (db : Database) (task_id : String)
    : Type 0 where
  pub row : Joined
  pub found : look_up run_id attempt_id db ≡ some row
  pub task : row.task.id ≡ task_id
  pub failed : all_failed row ≡ true
  pub same_manifest : row.run.manifest_hash ≡ p.manifest_hash
  pub same_repo : p.repo ≡ row.run.repo_path
  pub same_base : (p.base_sha ≡ row.run.base_sha) × (row.attempt.base_sha ≡ row.run.base_sha)
  pub single : (count_tasks row.run.id db.tasks ≡ 1) × (length p.tasks ≡ 1)
  pub rounds : previous_rounds row.attempt.id db.verifications < max_verification_rounds

-- The checks, read back from their success.
record IsPresented (p : Presented) (j : Joined) (db : Database) : Type 0 where
  same_manifest : j.run.manifest_hash ≡ p.manifest_hash
  same_repo : p.repo ≡ j.run.repo_path
  same_base : (p.base_sha ≡ j.run.base_sha) × (j.attempt.base_sha ≡ j.run.base_sha)
  single : (count_tasks j.run.id db.tasks ≡ 1) × (length p.tasks ≡ 1)
  rounds : previous_rounds j.attempt.id db.verifications < max_verification_rounds

check-IsPresented :
    (p : Presented) (j : Joined) (db : Database)
    → check_presented p j db ≡ ok tt
    → IsPresented p j db
unfolding check_presented
check-IsPresented p j db e =
    let a = eq_iff j.run.manifest_hash p.manifest_hash in
    let b = eq_iff p.repo j.run.repo_path in
    let c = eq_iff p.base_sha j.run.base_sha in
    let d = eq_iff j.attempt.base_sha j.run.base_sha in
    record {
      same_manifest = ground (arith, a);
      same_repo = ground (arith, b);
      same_base = (ground (arith, c), ground (arith, d));
      single = ground arith;
      rounds = ground arith;
    }

not-false : (b : Bool) → not b ≡ false → b ≡ true
not-false true e = refl
not-false false e = cc

begin_checked_failed :
    (r a : String) (j : Joined) (db : Database) {x : Unit {0} × Database}
    → begin_checked r a (some j) db ≡ ok x
    → all_failed j ≡ true
unfolding begin_checked
begin_checked_failed r a j db e =
    let (passed, _) = raise_if-eq-ok (not (all_failed j)) value_error _ e in
    not-false (all_failed j) passed

answer-found :
    (db : Database) (id : String) (m : Result (Unit {0} × Database)) {t : String} {db' : Database}
    → answer_task id (finish db m) ≡ (ok t, db')
    → ((x : Unit {0} × Database) × (m ≡ ok x)) × (id ≡ t)
answer-found db id (ok x) e = ((x, refl), cc)
answer-found db id (err x) e = absurd (ground arith)

-- `reverify` up to the verification, for the row that its query has found.
module _ (p : Presented) (r a : String) (db : Database) where
  abbrev opened : Option Joined → Result String × Database
  opened j = elim (check_found p db j) [
    | err e ↦ (err e, db)
    | ok task_id ↦ answer_task task_id (finish db (begin_checked r a j db))
  ]

  abbrev after_check : Joined → Result (Unit {0}) → Result String × Database
  after_check row c = elim (c >> ok (row.task.id)) [
    | err e ↦ (err e, db)
    | ok task_id ↦ answer_task task_id (finish db (begin_checked r a (some row) db))
  ]

  check-found :
      (row : Joined) (c : Result (Unit {0})) {t : String} {db' : Database}
      → after_check row c ≡ (ok t, db')
      → (c ≡ ok tt) × (all_failed row ≡ true) × (row.task.id ≡ t)
  check-found row (ok x) e =
      let ((y, begun), same) = answer-found db row.task.id (begin_checked r a (some row) db) e in
      (refl, begin_checked_failed r a row db begun, same)
  check-found row (err x) e = absurd (ground arith)

  opened-found :
      (j : Option Joined) {t : String} {db' : Database}
      → opened j ≡ (ok t, db')
      → (row : Joined) × (j ≡ some row)
        × IsPresented p row db
        × (all_failed row ≡ true)
        × (row.task.id ≡ t)
  opened-found none e = absurd (ground arith)
  opened-found (some row) e =
      let (checked, failed, same) = check-found row (check_presented p row db) e in
      (row, refl, check-IsPresented p row db checked, failed, same)

  answer_refused :
      (id : String) (m : Result (Unit {0} × Database)) {x : Error} {db' : Database}
      → answer_task id (finish db m) ≡ (err x, db')
      → db' ≡ db
  answer_refused id (ok y) e = absurd (ground arith)
  answer_refused id (err y) e = ground arith

  check_refused :
      (row : Joined) (c : Result (Unit {0})) {x : Error} {db' : Database}
      → after_check row c ≡ (err x, db')
      → db' ≡ db
  check_refused row (ok y) e = answer_refused row.task.id (begin_checked r a (some row) db) e
  check_refused row (err y) e = ground arith

  refused : (j : Option Joined) {x : Error} {db' : Database} → opened j ≡ (err x, db') → db' ≡ db
  refused none e = ground arith
  refused (some row) e = check_refused row (check_presented p row db) e

  -- A reverification begins only for a run, task and attempt that have all failed without a winner,
  -- in a run of a single task, with the manifest and the repository of the run, and with a base that
  -- is both the run's and the attempt's, and while the attempt has had fewer rounds of verification
  -- than the limit.
  pub open-IsAllowed :
      {t : String} {db' : Database}
      → open_reverification p r a db ≡ (ok t, db')
      → IsAllowed p r a db t
  unfolding open_reverification begin_reverification
  open-IsAllowed e =
      let (row, found, shown, failed, same) = opened-found (look_up r a db) e in
      record {
        row = row;
        found = found;
        task = same;
        failed = failed;
        same_manifest = shown.same_manifest;
        same_repo = shown.same_repo;
        same_base = shown.same_base;
        single = shown.single;
        rounds = shown.rounds;
      }

  -- A reverification that is refused writes nothing.
  pub open_refused :
      {x : Error} {db' : Database} → open_reverification p r a db ≡ (err x, db') → db' ≡ db
  unfolding open_reverification begin_reverification
  open_refused e = refused (look_up r a db) e

-- The rows of a task that has failed without a winner.
abbrev pub AreFailed : String → List TaskRow → Type 0
AreFailed task_id rows =
    All
      (λ (t : TaskRow).
        (t.id == task_id) ≡ true
        → (t.status ≡ TaskStatus.failed) × (is_some t.winner_attempt_id ≡ false))
      rows

restored :
    (task_id : String) (rows : List TaskRow)
    → AreFailed task_id rows
    → update_where
        (λ (t : TaskRow).
          t.id == task_id && (is_verifying_task t.status && not (is_some t.winner_attempt_id)))
        (set_task_status TaskStatus.failed)
        (update_where
          (λ (t : TaskRow). t.id == task_id)
          (set_task_status TaskStatus.verifying)
          rows)
      ≡ rows
unfolding update_where
restored task_id [] h = refl
restored task_id (t ∷ rows) h = elim (Bool-cases (t.id == task_id)) [
  | inl e ↦
      simp (e, (h.0 e).1, restored task_id rows h.1)
        (ap (λ (s : TaskStatus). set_task_status s t ∷ rows) (sym (h.0 e).0))
  | inr e ↦ rw (e, e, restored task_id rows h.1) refl
]

-- A reverification that fails leaves the tasks as it found them: the task is failed again.
pub fail_restores :
    (run_id task_id attempt_id now : String) (db : Database)
    → AreFailed task_id db.tasks
    → (fail_reverification run_id task_id attempt_id now
        (reopen run_id task_id attempt_id db)).1.tasks
      ≡ db.tasks
unfolding fail_reverification reopen
fail_restores run_id task_id attempt_id now db h = restored task_id db.tasks h

settled_true :
    (run_id attempt_id now : String) (answer : Result Bool × Database) {db' : Database}
    → settle_claim run_id attempt_id now answer ≡ (ok true, db')
    → (answer ≡ (ok true, answer.1)) × (db'.tasks ≡ answer.1.tasks)
unfolding settle_reverification
settled_true run_id attempt_id now (ok c, db) e = ground arith
settled_true run_id attempt_id now (err x, db) e = absurd (ground arith)

-- A reverification reports a win only when its attempt has become the winner of the task.
pub pass_wins :
    (run_id task_id attempt_id now : String) (db : Database) {db' : Database}
    → HasKeys db
    → pass_reverification run_id task_id attempt_id now db ≡ (ok true, db')
    → Won task_id attempt_id db'
unfolding pass_reverification end_attempt
pass_wins run_id task_id attempt_id now db keys e =
    let passed = (end_attempt attempt_id AttemptStatus.passed now db).1 in
    let (claimed, same) =
      settled_true run_id attempt_id now (claim_winner task_id attempt_id now passed) e in
    rw same (claim_true-Won task_id attempt_id now passed _ claimed keys)
