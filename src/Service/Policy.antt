-- ===== src/Service/Policy.antt =====
-- src/firstgreen/service.py, `_run_task_with_resources`: the policy that a task's attempts are run
-- under, and the repair of attempts whose verification has failed. An exception other than
-- WorkspaceSafetyError leaves the task and is not modelled.
pub mod Limits
use firstgreen.Prelude.{
  ℕ, zero, suc, ◌+◌, String, Bool, true, false, not, ◌&&◌, ◌||◌, Option, none, some, List, [], ◌∷◌,
  ◌++◌, ◌==◌, nat_eq, ltb, leb, if◌then◌else◌, is_some, mem,
}
use firstgreen.Config.Models.{TaskConfig, TaskLimits, Manifest, HedgeConfig, BudgetConfig}
use firstgreen.Scheduler.Racing.{AttemptOutcome, RaceResult}

abbrev pub is_hedge : String → Bool
is_hedge policy = policy == "delayed-hedge" || policy == "auto"

abbrev pub may_back_up : String → Bool
may_back_up policy = is_hedge policy || policy == "always-race"

abbrev is_zero : Option ℕ → Bool
is_zero none = false
is_zero (some n) = nat_eq n 0

-- The policy in effect, and the reason.
unfoldable pub effective_policy : String → Manifest → TaskConfig → String × String
effective_policy policy m task =
    if is_hedge policy && not m.scheduler.hedge.enabled
    then ("single", "hedging_disabled")
    else if is_hedge policy && ltb m.scheduler.hedge.max_replicas 1
    then ("single", "max_replicas_reached")
    else if is_hedge policy && is_zero m.scheduler.budgets.max_hedge_estimated_usd
    then ("single", "hedge_budget_exhausted")
    else if may_back_up policy && ltb task.limits.max_attempts 2
    then ("single", "attempt_limit_reached")
    else if may_back_up policy && not task.replay_safe
    then ("single", "task_not_replay_safe")
    else (policy, "requested_policy")

-- `max(…, key=ordinal)` of the outcomes with feedback: the first of those with the highest ordinal.
abbrev pub better : AttemptOutcome → Option AttemptOutcome → Option AttemptOutcome
better o none = some o
better o (some b) = if ltb o.ordinal b.ordinal then some b else some o

unfoldable pub repair_source : List AttemptOutcome → Option AttemptOutcome
repair_source [] = none
repair_source (o ∷ os) =
    let rest = repair_source os in if is_some o.verification_feedback then better o rest else rest

-- How the loop leaves a task: an attempt was verified and claimed, or it has no winner.
pub data Decision : Type 0 where
  repair_skipped : String → ℕ → Decision
  launch_repair : String → String → ℕ → Decision
  repair_limit_reached : String → ℕ → Decision

pub record Repaired : Type 0 where
  pub won : Bool
  pub attempts_used : ℕ
  pub decisions : List Decision

-- Outside the loop: whether a workspace can be prepared, and how the repair with an ordinal ends.
pub record Repairs : Type 0 where
  pub prepares : ℕ → Bool
  pub executes : ℕ → AttemptOutcome
  pub claims : String → Bool

abbrev pub note : Decision → Repaired → Repaired
note d r = record r { decisions = d ∷ r.decisions }

abbrev with_feedback : AttemptOutcome → Option AttemptOutcome
with_feedback o = if is_some o.verification_feedback then some o else none

-- After the loop: the decision on the limit.
unfoldable pub give_up : ℕ → Option AttemptOutcome → ℕ → Repaired
give_up max_attempts none used = record { won = false; attempts_used = used; decisions = [] }
give_up max_attempts (some o) used = record {
  won = false;
  attempts_used = used;
  decisions = if leb max_attempts used then repair_limit_reached o.attempt_id used ∷ [] else [];
}

-- The `while` loop, with the attempts whose workspaces are known; an iteration uses one attempt, so
-- as many as the limit are enough.
unfoldable pub repair_loop : ℕ → ℕ → Repairs → List String → Option AttemptOutcome → ℕ → Repaired
unfolding give_up
repair_loop fuel max_attempts env known none used = give_up max_attempts none used
repair_loop zero max_attempts env known (some o) used = give_up max_attempts (some o) used
repair_loop (suc fuel) max_attempts env known (some o) used =
    let repaired = env.executes (suc used) in
    let rest =
      repair_loop fuel max_attempts env (repaired.attempt_id ∷ known) (with_feedback repaired)
        (suc used) in
    if not (ltb used max_attempts) || not (mem o.attempt_id known)
    then give_up max_attempts (some o) used
    else if not (env.prepares (suc used))
    then note (repair_skipped o.attempt_id used) (give_up max_attempts (some o) used)
    else note (launch_repair repaired.attempt_id o.attempt_id (suc used)) (
        if repaired.verified
        then record {
          won = env.claims repaired.attempt_id;
          attempts_used = suc used;
          decisions = [];
        }
        else rest)

abbrev after_race : RaceResult → ℕ
after_race r = if r.launched_backup then 2 else 1

-- From the end of the race on; `known` are the attempts whose workspaces the database has.
unfoldable pub run_repairs : TaskConfig → Repairs → List String → RaceResult → Repaired
unfolding repair_loop repair_source
run_repairs task env known race = elim race.winner_attempt_id [
  | some w ↦ record { won = true; attempts_used = after_race race; decisions = [] }
  | none ↦
      repair_loop task.limits.max_attempts task.limits.max_attempts env known
        (repair_source race.outcomes) (after_race race)
]
