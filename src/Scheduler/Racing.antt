-- ===== src/Scheduler/Racing.antt =====
-- src/firstgreen/scheduler/racing.py, `first_verified_wins`. The event loop is an argument: how each
-- attempt ends, whether the primary ends within the hedge delay, and which of the running attempts a
-- wait returns, in which order. `claim` is the callback, with the state that it changes.
pub mod Winner
use firstgreen.Prelude.{
  ℕ, suc, ◌+◌, zero, String, Bool, true, false, not, ◌&&◌, ◌||◌, Option, none, some, List, [], ◌∷◌,
  ◌++◌, map, ◌==◌, if◌then◌else◌, sort, text_leb, length,
}
use firstgreen.Prelude.Result.{Error, Result, ok, err}

pub record AttemptOutcome : Type 0 where
  pub attempt_id : String
  pub verified : Bool
  pub ordinal : ℕ
  pub verification_feedback : Option String

pub record RaceResult : Type 0 where
  pub winner_attempt_id : Option String
  pub launched_backup : Bool
  pub cancelled_attempt_ids : List String
  pub outcomes : List AttemptOutcome

-- An `asyncio.Task`: its name, and the outcome or the exception with which it ends.
pub record Job : Type 0 where
  pub name : String
  pub ends : Result AttemptOutcome

-- Which of the running tasks `asyncio.wait(…, FIRST_COMPLETED)` reports as done.
pub data Choice : Type 0 where
  first second both both_swapped : Choice

-- The tasks that are done and those that are pending; there are two tasks at most.
unfoldable pub wait : Choice → List Job → List Job × List Job
wait first (a ∷ b ∷ []) = (a ∷ [], b ∷ [])
wait second (a ∷ b ∷ []) = (b ∷ [], a ∷ [])
wait both (a ∷ b ∷ []) = (a ∷ b ∷ [], [])
wait both_swapped (a ∷ b ∷ []) = (b ∷ a ∷ [], [])
wait c jobs = (jobs, [])

abbrev pub is_delayed : String → Bool
is_delayed policy = policy == "delayed-hedge" || policy == "auto"

abbrev names : List Job → List String
names jobs = map (λ (j : Job). j.name) jobs

-- The race is over, with or without a winner.
abbrev pub lost : Bool → List AttemptOutcome → RaceResult
lost launched outcomes = record {
  winner_attempt_id = none;
  launched_backup = launched;
  cancelled_attempt_ids = [];
  outcomes = outcomes;
}

abbrev pub won_by : AttemptOutcome → Bool → List Job → List AttemptOutcome → RaceResult
won_by o launched pending outcomes = record {
  winner_attempt_id = some o.attempt_id;
  launched_backup = launched;
  cancelled_attempt_ids = sort text_leb (names pending);
  outcomes = outcomes;
}

-- After one round: the race is won, or it goes on with the outcomes so far.
pub data Round (S : Type 0) : Type 0 where
  won : AttemptOutcome → List AttemptOutcome → S → Round S
  on : List AttemptOutcome → S → Round S
  raised : Error → S → Round S

module _ {S : Type 0} (claim : String → S → Bool × S) where
  -- The body of `for finished in done`, with the rest of the loop.
  pub finished :
      Result AttemptOutcome
      → (List AttemptOutcome → S → Round S)
      → List AttemptOutcome
      → S
      → Round S
  finished (err e) next outcomes s = raised e s
  finished (ok o) next outcomes s =
      let (claimed, s') = claim o.attempt_id s in
      if not o.verified
      then next (outcomes ++ o ∷ []) s
      else if not claimed
      then next (outcomes ++ o ∷ []) s'
      else won o (outcomes ++ o ∷ []) s'

  pub round : List Job → List AttemptOutcome → S → Round S
  round [] outcomes s = on outcomes s
  round (job ∷ jobs) outcomes s = finished job.ends (round jobs) outcomes s

  pub after :
      Bool
      → List Job
      → (List AttemptOutcome → S → Result RaceResult × S)
      → Round S
      → Result RaceResult × S
  after launched pending rest (on outcomes s) = rest outcomes s
  after launched pending rest (raised e s) = (err e, s)
  after launched pending rest (won o outcomes s) = (ok (won_by o launched pending outcomes), s)

  -- The `while tasks` loop; a wait takes at least one task away, so as many rounds as there are
  -- tasks are enough.
  pub race : ℕ → (ℕ → Choice) → Bool → List Job → List AttemptOutcome → S → Result RaceResult × S
  race zero choose launched jobs outcomes s = (ok (lost launched outcomes), s)
  race (suc n) choose launched [] outcomes s = (ok (lost launched outcomes), s)
  race (suc n) choose launched (job ∷ jobs) outcomes s =
      let (done, pending) = wait (choose n) (job ∷ jobs) in
      after launched pending (race n choose launched pending) (round done outcomes s)

  -- The branch of the delayed hedge whose primary has ended before the delay.
  pub early : (ℕ → Choice) → Job → Result AttemptOutcome → S → Result RaceResult × S
  early choose backup (err e) s = (err e, s)
  early choose backup (ok o) s =
      let (claimed, s') = claim o.attempt_id s in
      let fallback = race 1 choose true (backup ∷ []) (o ∷ []) in
      if not o.verified
      then fallback s
      else if claimed
      then (ok (won_by o false [] (o ∷ [])), s')
      else fallback s'

  unfoldable pub first_verified_wins :
      Job → Job → String → Bool → Bool → (ℕ → Choice) → S → Result RaceResult × S
  unfolding early race wait round finished after
  first_verified_wins primary backup policy replay_safe primary_in_time choose s =
      if policy == "always-race" && replay_safe
      then race 2 choose true (primary ∷ backup ∷ []) [] s
      else if is_delayed policy && replay_safe
      then (if primary_in_time
          then early choose backup primary.ends s
          else race 2 choose true (primary ∷ backup ∷ []) [] s)
      else race 1 choose false (primary ∷ []) [] s
