-- ===== src/Db/Repository/Winners.antt =====
-- `claim_winner` chooses at most one winner for a task, and keeps the tables consistent.
use firstgreen.Prelude.{
  String, true, false, ◌≡◌, ◌≢◌, ◌⊎◌, refl, subst, some, List, [], ◌∷◌, map, ◌==◌, arith, eq_iff,
  Bool-cases, inl, inr, All, All-true, mem, distinct,
}
use firstgreen.Prelude.Result.{ok}
use firstgreen.Domain.Models.{AttemptStatus}
use firstgreen.Db.Sql.{
  update_where, rowcount, update_where-none, All-update_where, All-updated, map-update_where,
}
use firstgreen.Db.Tables.{TaskRow, AttemptRow, Database}
use firstgreen.Db.Repository.{
  claimable, set_winner, claim_winner, settle, is_undecided, losing, finish_attempt,
  set_attempt_status,
}

-- Every row of the task names the attempt as its winner.
abbrev pub Won : String → String → Database → Type 0
Won task_id attempt_id db =
    All (λ (r : TaskRow). (r.id == task_id) ≡ true → r.winner_attempt_id ≡ some attempt_id) db.tasks

-- The primary key of `tasks`.
abbrev pub HasKeys : Database → Type 0
HasKeys db = distinct (map (λ (r : TaskRow). r.id) db.tasks) ≡ true

rowcount-claimable :
    (t a : String) (rows : List TaskRow)
    → All (λ (r : TaskRow). (r.id == t) ≡ true → r.winner_attempt_id ≡ some a) rows
    → rowcount (claimable t) rows ≡ 0
unfolding rowcount
rowcount-claimable t a [] h = refl
rowcount-claimable t a (r ∷ rows) h = elim (Bool-cases (r.id == t)) [
  | inl e ↦ rw (e, h.0 e) (omega (arith, rowcount-claimable t a rows h.1))
  | inr e ↦ rw e (omega (arith, rowcount-claimable t a rows h.1))
]

-- Once a task is won, every further claim for it returns false and changes nothing.
pub claim-Won :
    (t a b now : String) (db : Database) → Won t a db → claim_winner t b now db ≡ (ok false, db)
unfolding claim_winner
claim-Won t a b now db w =
    let zero_rows = rowcount-claimable t a db.tasks w in
    rw (zero_rows, update_where-none (claimable t) (set_winner b now) db.tasks zero_rows)

absent_unclaimable :
    (t : String) (rows : List TaskRow)
    → mem t (map (λ (r : TaskRow). r.id) rows) ≡ false
    → rowcount (claimable t) rows ≡ 0
unfolding rowcount
absent_unclaimable t [] h = refl
absent_unclaimable t (r ∷ rows) h =
    ground (arith, absent_unclaimable t rows, eq_iff r.id t, eq_iff t r.id)

absent_rows :
    (t : String) (P : TaskRow → Type 0) (rows : List TaskRow)
    → mem t (map (λ (r : TaskRow). r.id) rows) ≡ false
    → All (λ (r : TaskRow). (r.id == t) ≡ true → P r) rows
absent_rows t P [] h = tt
absent_rows t P (r ∷ rows) h = (
  (λ e. absurd (ground (arith, eq_iff r.id t, eq_iff t r.id))),
  absent_rows t P rows (ground arith),
)

key_absent :
    (t : String) (r : TaskRow) (rows : List TaskRow)
    → distinct (map (λ (x : TaskRow). x.id) (r ∷ rows)) ≡ true
    → (r.id == t) ≡ true
    → mem t (map (λ (x : TaskRow). x.id) rows) ≡ false
key_absent t r rows d same =
    subst (λ z. mem z (map (λ (x : TaskRow). x.id) rows) ≡ false) ((eq_iff r.id t).0 same)
      (ground arith)

-- With distinct ids, if the update finds a row then every row of the task is one that it finds.
all_claimable :
    (t : String) (rows : List TaskRow)
    → distinct (map (λ (r : TaskRow). r.id) rows) ≡ true
    → rowcount (claimable t) rows ≢ 0
    → All (λ (r : TaskRow). (r.id == t) ≡ true → claimable t r ≡ true) rows
unfolding rowcount
all_claimable t [] d n = tt
all_claimable t (r ∷ rows) d n = elim (Bool-cases (claimable t r)) [
  | inl e ↦ (
    (λ _. e),
    absent_rows t (λ (x : TaskRow). claimable t x ≡ true) rows
        (key_absent t r rows d (ground arith)),
  )
  | inr e ↦ (
    (λ same. absurd (n (ground (arith, absent_unclaimable t rows (key_absent t r rows d same))))),
    all_claimable t rows (ground arith) (λ z. n (ground arith)),
  )
]

module _ (t a now : String) (db db' : Database)
    (claimed : claim_winner t a now db ≡ (ok true, db')) where
  -- The tables after a claim that succeeded.
  record Claimed : Type 0 where
    found : rowcount (claimable t) db.tasks ≢ 0
    tasks : db'.tasks ≡ update_where (claimable t) (set_winner a now) db.tasks
    winners : db'.winners ≡ record { task_id = t; attempt_id = a } ∷ db.winners
    attempts : db'.attempts ≡ settle t a now db.attempts

  claim_parts : Claimed
  unfolding claim_winner
  claim_parts = record {
    found = ground arith;
    tasks = ground arith;
    winners = ground arith;
    attempts = ground arith;
  }

  -- A claim that succeeds makes the attempt the winner in every row of its task.
  pub claim_true-Won : HasKeys db → Won t a db'
  claim_true-Won keys =
      let parts = claim_parts in
      rw parts.tasks (
        All-updated (λ (r : TaskRow). (r.id == t) ≡ true → claimable t r ≡ true)
          (λ (r : TaskRow). (r.id == t) ≡ true → r.winner_attempt_id ≡ some a) (claimable t)
          (set_winner a now) db.tasks (λ r p c e. refl) (λ r p c e. absurd (ground (arith, p e)))
          (all_claimable t db.tasks keys parts.found))

  -- After it the attempt has the status `winner`, and no other attempt of its task is still passed,
  -- verifying or completed.
  pub claim_true-settled :
      All
        (λ (r : AttemptRow).
          ((r.id == a) ≡ true → r.status ≡ AttemptStatus.winner)
          × ((r.id == a) ≡ false → (r.task_id == t) ≡ true → is_undecided r.status ≡ false))
        db'.attempts
  unfolding settle
  claim_true-settled = rw (claim_parts.attempts) (
      All-updated (λ (r : AttemptRow). (r.id == a) ≡ true → r.status ≡ AttemptStatus.winner)
        (λ (r : AttemptRow).
          ((r.id == a) ≡ true → r.status ≡ AttemptStatus.winner)
          × ((r.id == a) ≡ false → (r.task_id == t) ≡ true → is_undecided r.status ≡ false))
        (losing t a) (finish_attempt AttemptStatus.superseded now)
        (update_where (λ (r : AttemptRow). r.id == a) (set_attempt_status AttemptStatus.winner)
          db.attempts)
        (λ r p l. ((λ e. absurd (ground arith)), (λ _ _. refl)))
        (λ r p l. (p, (λ e q. ground arith)))
        (All-updated (λ _. Unit)
          (λ (r : AttemptRow). (r.id == a) ≡ true → r.status ≡ AttemptStatus.winner)
          (λ (r : AttemptRow). r.id == a) (set_attempt_status AttemptStatus.winner) db.attempts
          (λ r _ e _. refl) (λ r _ n e. absurd (ground arith)) (All-true db.attempts)))

pub map-id-claim :
    (t a now : String) (db : Database)
    → map (λ (r : TaskRow). r.id) (claim_winner t a now db).1.tasks
      ≡ map (λ (r : TaskRow). r.id) db.tasks
unfolding claim_winner
map-id-claim t a now db = ground (
  arith,
  map-update_where (λ (r : TaskRow). r.id) (claimable t) (set_winner a now) db.tasks (λ r. refl),
)

tasks-claim_cases :
    (t a now : String) (db : Database)
    → ((claim_winner t a now db).1.tasks ≡ update_where (claimable t) (set_winner a now) db.tasks)
      ⊎ ((claim_winner t a now db).1.tasks ≡ db.tasks)
unfolding claim_winner
tasks-claim_cases t a now db = ground arith

-- The winner of a task stays what it is, whatever is claimed for this or another task.
pub claim-keeps-Won :
    (t w u a now : String) (db : Database) → Won t w db → Won t w (claim_winner u a now db).1
claim-keeps-Won t w u a now db h = elim (tasks-claim_cases u a now db) [
  | inl e ↦ rw e (
      All-update_where (λ (r : TaskRow). (r.id == t) ≡ true → r.winner_attempt_id ≡ some w)
        (claimable u) (set_winner a now) db.tasks (λ r p c e. absurd (ground (arith, p e))) h)
  | inr e ↦ rw e h
]
