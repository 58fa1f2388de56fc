-- ===== src/Db/Repository.antt =====
-- src/firstgreen/db/repository.py, `SQLiteRepository`: its transactions and queries. JSON columns
-- are texts that the caller has rendered.
pub mod Winners
pub mod Claims
pub mod Recovery
pub mod Events
use firstgreen.Prelude.{
  ℕ, suc, ◌+◌, String, Bool, true, false, not, ◌&&◌, ◌||◌, Option, none, some, List, [], ◌∷◌, ◌++◌,
  map, ◌==◌, nat_eq, if◌then◌else◌, is_some, is_empty, any, all, keep, max, mem,
}
use firstgreen.Prelude.Result.{Error, Result, ok, err, integrity_error, ◌>>=◌}
use firstgreen.Domain.Models.{TaskStatus, AttemptStatus}
use firstgreen.Db.Sql.{update_where, rowcount}
use firstgreen.Db.Tables.{
  TaskRow, DependencyRow, AttemptRow, EventRow, DecisionRow, LeaseRow, SampleRow, WinnerRow,
  Database,
}

-- The statements between BEGIN IMMEDIATE and the commit: a value and the new database, or an error.
abbrev pub Statements : Type 0 → Type 0
Statements A = Database → Result (A × Database)

-- `transaction`: an error rolls every statement back.
abbrev pub finish : {A : Type 0} → Database → Result (A × Database) → Result A × Database
finish db (ok (a, db')) = (ok a, db')
finish db (err e) = (err e, db)

abbrev pub transaction : {A : Type 0} → Statements A → Database → Result A × Database
transaction body db = finish db (body db)

-- `INSERT OR IGNORE INTO events`: an event whose id is known is dropped.
next_sequence : List EventRow → ℕ
next_sequence [] = 1
next_sequence (e ∷ es) = max (suc e.sequence) (next_sequence es)

unfoldable pub insert_event : EventRow → List EventRow → List EventRow
unfolding next_sequence
insert_event e es =
    if any (λ (r : EventRow). r.id == e.id) es
    then es
    else es ++ record e { sequence = next_sequence es } ∷ []

unfoldable pub append_event : EventRow → Database → Result (Unit {0}) × Database
unfolding insert_event
append_event e = transaction (λ db. ok (tt, record db { events = insert_event e db.events }))

-- `status NOT IN ('cancelled','blocked')`
abbrev pub is_open : TaskStatus → Bool
is_open TaskStatus.cancelled = false
is_open TaskStatus.blocked = false
is_open _ = true

abbrev pub claimable : String → TaskRow → Bool
claimable task_id r = r.id == task_id && (not (is_some r.winner_attempt_id) && is_open r.status)

abbrev pub set_winner : String → String → TaskRow → TaskRow
set_winner attempt_id now r = record r {
  status = TaskStatus.verified;
  winner_attempt_id = some attempt_id;
  verified_at = some now;
}

-- The keys of `task_winners` and their references.
insert_winner : String → String → Statements (Unit {0})
insert_winner task_id attempt_id db =
    if any (λ (w : WinnerRow). w.task_id == task_id || w.attempt_id == attempt_id) db.winners
    then err integrity_error
    else if not (any (λ (t : TaskRow). t.id == task_id) db.tasks)
    then err integrity_error
    else if not (any (λ (a : AttemptRow). a.id == attempt_id) db.attempts)
    then err integrity_error
    else ok (
      tt,
      record db { winners = record { task_id = task_id; attempt_id = attempt_id } ∷ db.winners },
    )

-- `status IN ('passed','verifying','agent_completed')`
abbrev pub is_undecided : AttemptStatus → Bool
is_undecided AttemptStatus.passed = true
is_undecided AttemptStatus.verifying = true
is_undecided AttemptStatus.agent_completed = true
is_undecided _ = false

abbrev pub losing : String → String → AttemptRow → Bool
losing task_id attempt_id a =
    a.task_id == task_id && (not (a.id == attempt_id) && is_undecided a.status)

abbrev pub set_attempt_status : AttemptStatus → AttemptRow → AttemptRow
set_attempt_status s a = record a { status = s }

abbrev pub finish_attempt : AttemptStatus → String → AttemptRow → AttemptRow
finish_attempt s now a = record a { status = s; finished_at = some now }

-- The two updates of `attempts`: the winner, then the attempts that it supersedes.
settle : String → String → String → List AttemptRow → List AttemptRow
settle task_id attempt_id now attempts =
    update_where (losing task_id attempt_id) (finish_attempt AttemptStatus.superseded now) (
      update_where (λ (a : AttemptRow). a.id == attempt_id)
        (set_attempt_status AttemptStatus.winner) attempts)

claim_statements : String → String → String → Statements Bool
unfolding insert_winner settle
claim_statements task_id attempt_id now db =
    let written = record db {
      tasks = update_where (claimable task_id) (set_winner attempt_id now) db.tasks;
    } in
    if not (nat_eq (rowcount (claimable task_id) db.tasks) 1)
    then ok (false, written)
    else (insert_winner task_id attempt_id written >>= λ r.
        ok (true, record (r.1) { attempts = settle task_id attempt_id now (r.1).attempts }))

unfoldable pub claim_winner : String → String → String → Database → Result Bool × Database
unfolding claim_statements
claim_winner task_id attempt_id now = transaction (claim_statements task_id attempt_id now)

-- A parent that is not verified, among the rows that `task_dependencies` joins to the task.
abbrev unverified : TaskStatus → Bool
unverified TaskStatus.verified = false
unverified _ = true

abbrev is_queued : TaskStatus → Bool
is_queued TaskStatus.queued = true
is_queued _ = false

abbrev pub waits : Database → String → Bool
waits db task_id =
    any
      (λ (d : DependencyRow).
        d.task_id == task_id
        && any (λ (p : TaskRow). p.id == d.dependency_id && unverified p.status) db.tasks)
      db.dependencies

abbrev pub unlockable : Database → String → TaskRow → Bool
unlockable db run_id t = t.run_id == run_id && (is_queued t.status && not (waits db t.id))

abbrev pub set_task_status : TaskStatus → TaskRow → TaskRow
set_task_status s t = record t { status = s }

unlock_statements : String → Statements (List String)
unlock_statements run_id db =
    let unlocked = map (λ (t : TaskRow). t.id) (keep (unlockable db run_id) db.tasks) in
    ok (
      unlocked,
      record db {
        tasks =
            update_where (λ (t : TaskRow). mem t.id unlocked) (set_task_status TaskStatus.ready)
              db.tasks;
      },
    )

unfoldable pub unlock_dependencies : String → Database → Result (List String) × Database
unfolding unlock_statements
unlock_dependencies run_id = transaction (unlock_statements run_id)

unfoldable pub add_runtime_sample : SampleRow → Database → Result (Unit {0}) × Database
add_runtime_sample s = transaction (λ db. ok (tt, record db { samples = db.samples ++ s ∷ [] }))

unfoldable pub runtime_samples : Bool → Database → List SampleRow
runtime_samples include_cancelled db =
    keep
      (λ (s : SampleRow). not s.censored && (include_cancelled || not (s.outcome == "cancelled")))
      db.samples

record_statements : DecisionRow → Statements (Unit {0})
record_statements d db =
    if any (λ (r : DecisionRow). r.id == d.id) db.decisions
    then err integrity_error
    else ok (tt, record db { decisions = db.decisions ++ d ∷ [] })

unfoldable pub record_decision : DecisionRow → Database → Result (Unit {0}) × Database
unfolding record_statements
record_decision d = transaction (record_statements d)

abbrev pub is_running_attempt : AttemptRow → Bool
is_running_attempt a = elim a.status [ AttemptStatus.running ↦ true | _ ↦ false ]

-- `status IN ('starting','verifying')`
abbrev pub is_interrupted : AttemptRow → Bool
is_interrupted a = elim a.status [
  | AttemptStatus.starting ↦ true
  | AttemptStatus.verifying ↦ true
  | _ ↦ false
]

-- `status IN ('running','verifying') AND winner_attempt_id IS NULL`
abbrev pub is_abandoned : TaskRow → Bool
is_abandoned t =
    elim t.status [ TaskStatus.running ↦ true | TaskStatus.verifying ↦ true | _ ↦ false ]
    && not (is_some t.winner_attempt_id)

-- `status IN ('orphaned','failed','cancelled','superseded')`
abbrev pub is_dead : AttemptRow → Bool
is_dead a = elim a.status [
  | AttemptStatus.orphaned ↦ true
  | AttemptStatus.failed ↦ true
  | AttemptStatus.cancelled ↦ true
  | AttemptStatus.superseded ↦ true
  | _ ↦ false
]

abbrev pub releasable : List AttemptRow → LeaseRow → Bool
releasable attempts l =
    not (is_some l.released_at)
    && any (λ (a : AttemptRow). a.id == l.owner_id && is_dead a) attempts

pub record Reconciled : Type 0 where
  pub orphaned_attempts : ℕ
  pub interrupted_attempts : ℕ
  pub failed_tasks : ℕ
  pub released_leases : ℕ

reconcile_statements : String → Statements Reconciled
reconcile_statements now db =
    let orphaned =
      update_where is_running_attempt (finish_attempt AttemptStatus.orphaned now) db.attempts in
    let failed = update_where is_interrupted (finish_attempt AttemptStatus.failed now) orphaned in
    ok (
      record {
        orphaned_attempts = rowcount is_running_attempt db.attempts;
        interrupted_attempts = rowcount is_interrupted orphaned;
        failed_tasks = rowcount is_abandoned db.tasks;
        released_leases = rowcount (releasable failed) db.leases;
      },
      record db {
        attempts = failed;
        tasks = update_where is_abandoned (set_task_status TaskStatus.failed) db.tasks;
        leases =
            update_where (releasable failed) (λ (l : LeaseRow). record l { released_at = some now })
              db.leases;
      },
    )

unfoldable pub reconcile_orphans : String → Database → Result Reconciled × Database
unfolding reconcile_statements
reconcile_orphans now = transaction (reconcile_statements now)

-- `str(None)` is the text "None".
abbrev shown : Option String → String
shown none = "None"
shown (some s) = s

identity_in : String → String → String → String → List AttemptRow → Bool
identity_in attempt_id path branch base_sha [] = false
identity_in attempt_id path branch base_sha (a ∷ rest) =
    if a.id == attempt_id
    then shown a.workspace_path == path && (shown a.branch == branch && a.base_sha == base_sha)
    else identity_in attempt_id path branch base_sha rest

unfoldable pub workspace_identity_matches : String → String → String → String → Database → Bool
unfolding identity_in
workspace_identity_matches attempt_id path branch base_sha db =
    identity_in attempt_id path branch base_sha db.attempts
