-- ===== src/Service/Policy/Limits.antt =====
-- The attempts of a task stay within its limit.
use firstgreen.Prelude.{
  ℕ, zero, suc, ◌+◌, ◌≤◌, String, Bool, true, false, ◌≡◌, ◌⊎◌, refl, Option, none, some, List, ◌∷◌,
  arith, inl, inr, ltb, leb, [], not, ◌||◌, mem, Bool-cases, if◌then◌else◌,
}
use firstgreen.Config.Models.{TaskConfig, Manifest}
use firstgreen.Scheduler.Racing.{AttemptOutcome, RaceResult}
use firstgreen.Service.Policy.{
  may_back_up, is_hedge, effective_policy, Decision, launch_repair, repair_skipped,
  repair_limit_reached, Repaired, note, give_up, Repairs, with_feedback, repair_loop, run_repairs,
  repair_source,
}

no_backup : may_back_up "single" ≡ true → ⊥
no_backup e = cc

effective_cases :
    (policy : String) (m : Manifest) (task : TaskConfig)
    → ((effective_policy policy m task).0 ≡ "single")
      ⊎ (((effective_policy policy m task).0 ≡ policy)
          × (may_back_up policy ≡ true → (task.replay_safe ≡ true) × (2 ≤ task.limits.max_attempts))
          × (is_hedge policy ≡ true
              → (m.scheduler.hedge.enabled ≡ true) × (1 ≤ m.scheduler.hedge.max_replicas)))
unfolding effective_policy
effective_cases policy m task = ground arith

-- A policy that may start a second attempt is in effect only for a task that is safe to replay and
-- whose limit allows two attempts; and one that waits before it does so, only where hedging is
-- enabled with a replica.
pub backup_is_allowed :
    (policy : String) (m : Manifest) (task : TaskConfig)
    → may_back_up (effective_policy policy m task).0 ≡ true
    → ((task.replay_safe ≡ true) × (2 ≤ task.limits.max_attempts))
      × (is_hedge (effective_policy policy m task).0 ≡ true
          → (m.scheduler.hedge.enabled ≡ true) × (1 ≤ m.scheduler.hedge.max_replicas))
backup_is_allowed policy m task h = elim (effective_cases policy m task) [
  | inl single ↦ absurd (no_backup (rw single at h))
  | inr (same, safe, hedged) ↦ (safe (rw same at h), (λ e. hedged (rw same at e)))
]

-- The repairs that were started, each of which executes an attempt.
abbrev pub launches : List Decision → ℕ
launches [] = 0
launches (launch_repair attempt source ordinal ∷ ds) = suc (launches ds)
launches (repair_skipped attempt ordinal ∷ ds) = launches ds
launches (repair_limit_reached attempt ordinal ∷ ds) = launches ds

-- The attempts of a task: those of its race, and its repairs.
abbrev pub executed : RaceResult → Repaired → ℕ
executed race r = (if race.launched_backup then 2 else 1) + launches r.decisions

launches-give_up :
    (max_attempts : ℕ) (source : Option AttemptOutcome) (used : ℕ)
    → (launches (give_up max_attempts source used).decisions ≡ 0)
      × ((give_up max_attempts source used).attempts_used ≡ used)
unfolding give_up
launches-give_up max_attempts none used = (refl, refl)
launches-give_up max_attempts (some o) used = elim (Bool-cases (leb max_attempts used)) [
  | inl e ↦ (rw e refl, refl)
  | inr e ↦ (rw e refl, refl)
]

-- The loop counts what it starts, and stops at the limit.
abbrev IsCounted : ℕ → ℕ → Repaired → Type 0
IsCounted max_attempts used r =
    (used + launches r.decisions ≡ r.attempts_used) × (r.attempts_used ≤ max_attempts)

given_up :
    (max_attempts : ℕ) (source : Option AttemptOutcome) (used : ℕ)
    → used ≤ max_attempts
    → IsCounted max_attempts used (give_up max_attempts source used)
given_up max_attempts source used h =
    let (none_started, same) = launches-give_up max_attempts source used in
    (omega (arith, none_started, same), omega (arith, same, h))

either :
    (max_attempts used : ℕ) (b : Bool) (r q : Repaired)
    → IsCounted max_attempts used r
    → IsCounted max_attempts used q
    → IsCounted max_attempts used (if b then r else q)
either max_attempts used true r q h k = h
either max_attempts used false r q h k = k

launched :
    (max_attempts used : ℕ) (attempt source : String) (r : Repaired)
    → IsCounted max_attempts (suc used) r
    → IsCounted max_attempts used (note (launch_repair attempt source (suc used)) r)
launched max_attempts used attempt source r h = (omega (arith, h.0), h.1)

repair_loop-IsCounted :
    (fuel max_attempts : ℕ) (env : Repairs) (known : List String) (source : Option AttemptOutcome)
    (used : ℕ)
    → used ≤ max_attempts
    → IsCounted max_attempts used (repair_loop fuel max_attempts env known source used)
unfolding repair_loop
repair_loop-IsCounted fuel max_attempts env known none used h = given_up max_attempts none used h
repair_loop-IsCounted zero max_attempts env known (some o) used h =
    given_up max_attempts (some o) used h
repair_loop-IsCounted (suc fuel) max_attempts env known (some o) used h =
    let repaired = env.executes (suc used) in
    elim (Bool-cases (not (ltb used max_attempts) || not (mem o.attempt_id known))) [
      | inl stop ↦ rw stop (given_up max_attempts (some o) used h)
      | inr go ↦ elim (Bool-cases (env.prepares (suc used))) [
        | inr unprepared ↦ rw (go, unprepared) (given_up max_attempts (some o) used h)
        | inl prepared ↦
            let won : Repaired = record {
              won = env.claims repaired.attempt_id;
              attempts_used = suc used;
              decisions = [];
            } in
            let rest =
              repair_loop fuel max_attempts env (repaired.attempt_id ∷ known)
                (with_feedback repaired) (suc used) in
            rw (go, prepared)
              (launched max_attempts used repaired.attempt_id o.attempt_id
                (if repaired.verified then won else rest)
                (either max_attempts (suc used) repaired.verified won rest
                  (omega arith, ground arith)
                  (repair_loop-IsCounted fuel max_attempts env (repaired.attempt_id ∷ known)
                    (with_feedback repaired) (suc used) (ground arith))))
      ]
    ]

-- A task executes no more attempts than its limit: the attempts of its race and the repairs that are
-- started are as many as the code counts, and at most `max_attempts`, if the race has started a
-- second attempt only where the limit allows it.
pub attempts_within_limit :
    (task : TaskConfig) (env : Repairs) (known : List String) (race : RaceResult)
    → 1 ≤ task.limits.max_attempts
    → (race.launched_backup ≡ true → 2 ≤ task.limits.max_attempts)
    → (executed race (run_repairs task env known race)
        ≡ (run_repairs task env known race).attempts_used)
      × (executed race (run_repairs task env known race) ≤ task.limits.max_attempts)
unfolding run_repairs
attempts_within_limit task env known race h k =
    let counted =
      repair_loop-IsCounted task.limits.max_attempts task.limits.max_attempts env known
        (repair_source race.outcomes) in
    ground (arith, counted 1, counted 2)

-- Whatever fuel covers the attempts that are left gives the same repairs: the loop is never cut
-- short.
pub repair_fuel :
    (fuel other max_attempts : ℕ) (env : Repairs) (known : List String)
    (source : Option AttemptOutcome) (used : ℕ)
    → max_attempts ≤ used + fuel
    → max_attempts ≤ used + other
    → repair_loop other max_attempts env known source used
      ≡ repair_loop fuel max_attempts env known source used
unfolding repair_loop
repair_fuel fuel other max_attempts env known none used h k = refl
repair_fuel zero zero max_attempts env known (some o) used h k = refl
repair_fuel zero (suc other) max_attempts env known (some o) used h k =
    let over : ltb used max_attempts ≡ false = ground arith in rw over refl
repair_fuel (suc fuel) zero max_attempts env known (some o) used h k =
    let over : ltb used max_attempts ≡ false = ground arith in rw over refl
repair_fuel (suc fuel) (suc other) max_attempts env known (some o) used h k =
    let repaired = env.executes (suc used) in
    let ih =
      repair_fuel fuel other max_attempts env (repaired.attempt_id ∷ known) (with_feedback repaired)
        (suc used) (omega (arith, h)) (omega (arith, k)) in
    rw ih refl
