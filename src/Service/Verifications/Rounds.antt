-- ===== src/Service/Verifications/Rounds.antt =====
-- The rows of a verification round never clash with those of an earlier one, and show how far the
-- commands came.
use firstgreen.Prelude.{
  ◌≤◌, ◌+◌, ℕ, suc, ◌<◌, String, true, false, ◌≡◌, refl, ap, List, [], ◌∷◌, ◌++◌, arith, eq_iff,
  ◌==◌, any, length, All, All-append,
}
use firstgreen.Prelude.Result.{Result, ok, err, Returns}
use firstgreen.Db.Repository.{finish}
use firstgreen.Db.Tables.{AttemptRow, EventRow, VerificationRow, Database}
use firstgreen.Verifier.Runner.{VerificationCommand, CommandResult, VerificationResult}
use firstgreen.Service.Reverify.{previous_rounds}
use firstgreen.Service.Verifications.{
  Rendered, rows_from, next_round, clashes, insert_rows, skipped_row, run_row, report,
  persist_verification,
}

later_rounds :
    (attempt_id : String) (bound : ℕ) (vs : List VerificationRow)
    → previous_rounds attempt_id vs < bound
    → All
        (λ (v : VerificationRow).
          (v.attempt_id == attempt_id) ≡ true → v.verification_round < bound)
        vs
unfolding previous_rounds
later_rounds attempt_id bound [] h = tt
later_rounds attempt_id bound (v ∷ vs) h =
    ((λ e. ground (arith, e)), later_rounds attempt_id bound vs (ground arith))

-- Every earlier row of the attempt belongs to an earlier round.
pub next_round-later :
    (attempt_id : String) (db : Database)
    → All
        (λ (v : VerificationRow).
          (v.attempt_id == attempt_id) ≡ true → v.verification_round < next_round attempt_id db)
        db.verifications
next_round-later attempt_id db =
    later_rounds attempt_id (next_round attempt_id db) db.verifications (omega arith)

-- The ids of the first rows differ.
abbrev pub AreApart : ℕ → Rendered → Type 0
AreApart n texts = (i j : ℕ) → i < n → j < n → (texts.id i == texts.id j) ≡ true → i ≡ j

module _ (texts : Rendered) (attempt_id : String) (round n : ℕ) (apart : AreApart n texts) where
  -- No row has an id, or a place in this round, that the rows from the index on will take.
  abbrev LeavesRoom : ℕ → VerificationRow → Type 0
  LeavesRoom index v =
      ((i : ℕ) → i < n → (v.id == texts.id i) ≡ true → i < index)
      × ((v.attempt_id == attempt_id) ≡ true
          → v.verification_round ≡ round
          → v.command_index < index)

  LeavesRoom-suc :
      (index : ℕ) (vs : List VerificationRow)
      → All (LeavesRoom index) vs
      → All (LeavesRoom (suc index)) vs
  LeavesRoom-suc index [] h = tt
  LeavesRoom-suc index (v ∷ vs) h = (
    ((λ i l e. omega (arith, h.0.0 i l e)), (λ e r. omega (arith, h.0.1 e r))),
    LeavesRoom-suc index vs h.1,
  )

  no_clash :
      (index : ℕ) (v : VerificationRow) (vs : List VerificationRow)
      → index < n
      → v.id ≡ texts.id index
      → v.attempt_id ≡ attempt_id
      → v.verification_round ≡ round
      → v.command_index ≡ index
      → All (LeavesRoom index) vs
      → any (clashes v) vs ≡ false
  no_clash index v [] l a b c d h = refl
  no_clash index v (u ∷ vs) l a b c d h = ground (
    arith,
    h.0.0 index l,
    h.0.1,
    eq_iff u.attempt_id attempt_id,
    eq_iff u.attempt_id v.attempt_id,
    eq_iff u.id v.id,
    eq_iff u.id (texts.id index),
    no_clash index v vs l a b c d h.1,
  )

  added :
      (index : ℕ) (v : VerificationRow) (vs : List VerificationRow)
      → index < n
      → v.id ≡ texts.id index
      → v.command_index ≡ index
      → All (LeavesRoom index) vs
      → All (LeavesRoom (suc index)) (vs ++ v ∷ [])
  added index v vs l a d h =
      All-append (LeavesRoom (suc index)) vs (v ∷ []) (LeavesRoom-suc index vs h)
        (((λ i m e. omega (arith, apart index i l m (rw a at e))), (λ e r. omega (arith, d))), tt)

  insert_rows_total :
      (index : ℕ) (cs : List VerificationCommand) (rs : List CommandResult) (db : Database)
      → index + length cs ≤ n
      → any (λ (a : AttemptRow). a.id == attempt_id) db.attempts ≡ true
      → All (LeavesRoom index) db.verifications
      → Returns (λ _. Unit) (insert_rows (rows_from texts attempt_id round index cs rs) db)
  unfolding insert_rows rows_from
  insert_rows_total index [] rs db l known h = tt
  insert_rows_total index (c ∷ cs) [] db l known h =
      let v = skipped_row texts attempt_id round index c in
      rw (no_clash index v db.verifications (omega (arith, l)) refl refl refl refl h, known)
        (insert_rows_total (suc index) cs []
          (record db { verifications = db.verifications ++ v ∷ [] }) (omega (arith, l)) known
          (added index v db.verifications (omega (arith, l)) refl refl h))
  insert_rows_total index (c ∷ cs) (r ∷ rs) db l known h =
      let v = run_row texts attempt_id round index c r in
      rw (no_clash index v db.verifications (omega (arith, l)) refl refl refl refl h, known)
        (insert_rows_total (suc index) cs rs
          (record db { verifications = db.verifications ++ v ∷ [] }) (omega (arith, l)) known
          (added index v db.verifications (omega (arith, l)) refl refl h))

fresh_rows :
    (texts : Rendered) (attempt_id : String) (round n : ℕ) (vs : List VerificationRow)
    → All (λ (v : VerificationRow). (i : ℕ) → (v.id == texts.id i) ≡ false) vs
    → All
        (λ (v : VerificationRow).
          (v.attempt_id == attempt_id) ≡ true → v.verification_round < round)
        vs
    → All
        (λ (v : VerificationRow).
          ((i : ℕ) → i < n → (v.id == texts.id i) ≡ true → i < 0)
          × ((v.attempt_id == attempt_id) ≡ true
              → v.verification_round ≡ round
              → v.command_index < 0))
        vs
fresh_rows texts attempt_id round n [] f l = tt
fresh_rows texts attempt_id round n (v ∷ vs) f l = (
  ((λ i m e. absurd (ground (arith, f.0 i))), (λ e r. absurd (omega (arith, l.0 e, r)))),
  fresh_rows texts attempt_id round n vs f.1 l.1,
)

reported :
    (round : ℕ) (e : EventRow) (db : Database) (m : Result (Unit {0} × Database))
    → Returns (λ _. Unit) m
    → (report round e (finish db m)).0 ≡ ok round
reported round e db (ok x) r = refl
reported round e db (err x) r = absurd r

-- A verification of an attempt that is stored is always stored in turn, as a round of its own: with
-- ids that are new and differ from one another, its rows break no key, and the round is the one after
-- all earlier rounds of the attempt.
pub persist_total :
    (texts : Rendered) (attempt_id : String) (commands : List VerificationCommand)
    (result : VerificationResult) (e : EventRow) (db : Database)
    → any (λ (a : AttemptRow). a.id == attempt_id) db.attempts ≡ true
    → AreApart (length commands) texts
    → All (λ (v : VerificationRow). (i : ℕ) → (v.id == texts.id i) ≡ false) db.verifications
    → (persist_verification texts attempt_id commands result e db).0 ≡ ok (next_round attempt_id db)
unfolding persist_verification
persist_total texts attempt_id commands result e db known apart fresh =
    let round = next_round attempt_id db in
    reported round e db
      (insert_rows (rows_from texts attempt_id round 0 commands result.commands) db)
      (insert_rows_total texts attempt_id round (length commands) apart 0 commands result.commands
        db (omega arith) known
        (fresh_rows texts attempt_id round (length commands) db.verifications fresh
          (next_round-later attempt_id db)))

-- Each planned command has a row; the rows are numbered in order from the given index.
pub rows-numbered :
    (texts : Rendered) (attempt_id : String) (round index : ℕ) (cs : List VerificationCommand)
    (rs : List CommandResult)
    → length (rows_from texts attempt_id round index cs rs) ≡ length cs
unfolding rows_from
rows-numbered texts attempt_id round index [] rs = refl
rows-numbered texts attempt_id round index (c ∷ cs) [] =
    ap suc (rows-numbered texts attempt_id round (suc index) cs [])
rows-numbered texts attempt_id round index (c ∷ cs) (r ∷ rs) =
    ap suc (rows-numbered texts attempt_id round (suc index) cs rs)
