-- ===== src/Scheduler/Racing/Winner.antt =====
-- What a race may return.
use firstgreen.Prelude.{
  ℕ, zero, suc, String, Bool, true, false, ◌≡◌, ◌⊎◌, refl, inl, inr, none, some, List, [], ◌∷◌,
  ◌++◌, arith, ◌==◌, ◌||◌, ◌&&◌, Bool-cases, subst,
}
use firstgreen.Prelude.Result.{Result, ok, err}
use firstgreen.Scheduler.Racing.{
  AttemptOutcome, RaceResult, Job, Choice, Round, won, on, raised, wait, finished, round, after,
  race, early, first_verified_wins, is_delayed,
}

some_inj : {v w : String} → some v ≡ some w → v ≡ w
some_inj e = cc

module _ {S : Type 0} (claim : String → S → Bool × S) where
  -- The outcome was verified, and its claim was accepted in some state.
  abbrev pub Accepted : String → AttemptOutcome → Type 0
  Accepted w o = (o.attempt_id ≡ w) × (o.verified ≡ true) × ((s : S) × ((claim w s).0 ≡ true))

  -- Some outcome in the list satisfies the predicate.
  abbrev pub Any : (AttemptOutcome → Type 0) → List AttemptOutcome → Type 0
  Any P [] = ⊥
  Any P (o ∷ os) = P o ⊎ Any P os

  Any-last :
      (P : AttemptOutcome → Type 0) (o : AttemptOutcome) (os : List AttemptOutcome)
      → P o
      → Any P (os ++ o ∷ [])
  Any-last P o [] h = inl h
  Any-last P o (x ∷ os) h = inr (Any-last P o os h)

  -- A winner is one of the outcomes; without a winner nothing was cancelled.
  abbrev pub IsFair : RaceResult → Type 0
  IsFair r =
      ((w : String) → r.winner_attempt_id ≡ some w → Any (Accepted w) r.outcomes)
      × (r.winner_attempt_id ≡ none → r.cancelled_attempt_ids ≡ [])

  abbrev WhenOk : (RaceResult → Type 0) → Result RaceResult × S → Type 0
  WhenOk P (ok r, s) = P r
  WhenOk P (err e, s) = Unit

  WhenOk-get :
      (P : RaceResult → Type 0) (x : Result RaceResult × S) {r : RaceResult}
      → WhenOk P x
      → x.0 ≡ ok r
      → P r
  WhenOk-get P (ok q, t) {r} f h = let same : q ≡ r = cc in subst P same f
  WhenOk-get P (err e, t) f h = absurd (cc)

  abbrev FairRound : Round S → Type 0
  FairRound (won o outcomes s) = Any (Accepted o.attempt_id) outcomes
  FairRound _ = Unit

  finished-FairRound :
      (e : Result AttemptOutcome) (next : List AttemptOutcome → S → Round S)
      (outcomes : List AttemptOutcome) (s : S)
      → ((os : List AttemptOutcome) (t : S) → FairRound (next os t))
      → FairRound (finished claim e next outcomes s)
  unfolding finished
  finished-FairRound (err e) next outcomes s h = tt
  finished-FairRound (ok o) next outcomes s h = elim (Bool-cases o.verified) [
    | inr bad ↦ simp bad (h (outcomes ++ o ∷ []) s)
    | inl good ↦ elim (Bool-cases (claim o.attempt_id s).0) [
      | inr refused ↦ simp (good, refused) (h (outcomes ++ o ∷ []) (claim o.attempt_id s).1)
      | inl taken ↦
          simp (good, taken) (Any-last (Accepted o.attempt_id) o outcomes (refl, good, (s, taken)))
    ]
  ]

  round-FairRound :
      (jobs : List Job) (outcomes : List AttemptOutcome) (s : S)
      → FairRound (round claim jobs outcomes s)
  unfolding round
  round-FairRound [] outcomes s = tt
  round-FairRound (job ∷ jobs) outcomes s =
      finished-FairRound job.ends (round claim jobs) outcomes s (round-FairRound jobs)

  after-IsFair :
      (launched : Bool) (pending : List Job)
      (rest : List AttemptOutcome → S → Result RaceResult × S) (r : Round S)
      → FairRound r
      → ((os : List AttemptOutcome) (t : S) → WhenOk IsFair (rest os t))
      → WhenOk IsFair (after claim launched pending rest r)
  unfolding after
  after-IsFair launched pending rest (on outcomes s) f h = h outcomes s
  after-IsFair launched pending rest (raised e s) f h = tt
  after-IsFair launched pending rest (won o outcomes s) f h =
      ((λ w e. subst (λ z. Any (Accepted z) outcomes) (some_inj e) f), (λ e. cc))

  race-IsFair :
      (n : ℕ) (choose : ℕ → Choice) (launched : Bool) (jobs : List Job)
      (outcomes : List AttemptOutcome) (s : S)
      → WhenOk IsFair (race claim n choose launched jobs outcomes s)
  unfolding race
  race-IsFair zero choose launched jobs outcomes s = ((λ w e. cc), (λ e. refl))
  race-IsFair (suc n) choose launched [] outcomes s = ((λ w e. cc), (λ e. refl))
  race-IsFair (suc n) choose launched (job ∷ jobs) outcomes s =
      let (done, pending) = wait (choose n) (job ∷ jobs) in
      after-IsFair launched pending (race claim n choose launched pending)
        (round claim done outcomes s) (round-FairRound done outcomes s)
        (race-IsFair n choose launched pending)

  early-IsFair :
      (choose : ℕ → Choice) (backup : Job) (e : Result AttemptOutcome) (s : S)
      → WhenOk IsFair (early claim choose backup e s)
  unfolding early
  early-IsFair choose backup (err e) s = tt
  early-IsFair choose backup (ok o) s = elim (Bool-cases o.verified) [
    | inr bad ↦ simp bad (race-IsFair 1 choose true (backup ∷ []) (o ∷ []) s)
    | inl good ↦ elim (Bool-cases (claim o.attempt_id s).0) [
      | inr refused ↦
          simp (good, refused)
            (race-IsFair 1 choose true (backup ∷ []) (o ∷ []) (claim o.attempt_id s).1)
      | inl taken ↦
          simp (good, taken)
            (
              (λ w e.
                  inl
                    (some_inj e, refl, (s, subst (λ z. (claim z s).0 ≡ true) (some_inj e) taken))),
              (λ e. cc),
            )
    ]
  ]

module _ {S : Type 0} (claim : String → S → Bool × S) (primary backup : Job) (policy : String)
    (replay_safe in_time : Bool) (choose : ℕ → Choice) (s : S) where
  -- Two attempts run only for a task that may be replayed, under a policy that asks for it.
  pub backup_needs_replay_safe :
      {r : RaceResult}
      → (first_verified_wins claim primary backup policy replay_safe in_time choose s).0 ≡ ok r
      → r.launched_backup ≡ true
      → (replay_safe ≡ true) × (((policy == "always-race") || is_delayed policy) ≡ true)
  unfolding first_verified_wins
  backup_needs_replay_safe h l = ground arith

  first_verified_wins-IsFair :
      WhenOk claim
        (IsFair claim)
        (first_verified_wins claim primary backup policy replay_safe in_time choose s)
  unfolding first_verified_wins
  first_verified_wins-IsFair = elim (Bool-cases ((policy == "always-race") && replay_safe)) [
    | inl always ↦ rw always (race-IsFair claim 2 choose true (primary ∷ backup ∷ []) [] s)
    | inr other ↦ elim (Bool-cases (is_delayed policy && replay_safe)) [
      | inr single ↦ rw (other, single) (race-IsFair claim 1 choose false (primary ∷ []) [] s)
      | inl delayed ↦ elim (Bool-cases in_time) [
        | inl soon ↦ rw (other, delayed, soon) (early-IsFair claim choose backup primary.ends s)
        | inr late ↦
            rw (other, delayed, late) (race-IsFair claim 2 choose true (primary ∷ backup ∷ []) [] s)
      ]
    ]
  ]

  -- The winner of a race is the attempt of one of the outcomes, which was verified and whose claim
  -- was accepted.
  pub winner-Accepted :
      (r : RaceResult) (w : String)
      → (first_verified_wins claim primary backup policy replay_safe in_time choose s).0 ≡ ok r
      → r.winner_attempt_id ≡ some w
      → Any claim (Accepted claim w) r.outcomes
  winner-Accepted r w h e =
      let fair =
        WhenOk-get claim (IsFair claim)
          (first_verified_wins claim primary backup policy replay_safe in_time choose s)
          first_verified_wins-IsFair h in
      fair.0 w e
