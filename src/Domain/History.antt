-- ===== src/Domain/History.antt =====
-- Histories of statuses that `require_transition` lets pass, latest status first.
use firstgreen.Prelude.{Bool, true, ◌≡◌, ◌≢◌, List, [], ◌∷◌, ◌==◌, arith, any}
use firstgreen.Prelude.Result.{Result, ok}
use firstgreen.Domain.Models.{TaskStatus, AttemptStatus, attempt_value}
use firstgreen.Domain.Transitions.{require_attempt, require_task}

-- From `s`, the statuses of `l` were entered one after the other, and `t` is the present one.
pub data History {S : Type 0} (allowed : S → S → Result (Unit {0})) (s : S)
    : List S → S → Type 0 where
  start : History allowed s [] s
  enter :
      {l : List S} {t u : S}
      → History allowed s l t
      → allowed t u ≡ ok tt
      → History allowed s (u ∷ l) u

abbrev pub AttemptHistory : List AttemptStatus → AttemptStatus → Type 0
AttemptHistory = History require_attempt AttemptStatus.created

abbrev pub visited : AttemptStatus → List AttemptStatus → Bool
visited s l = any (λ t. attempt_value t == attempt_value s) l

-- What the present status says about the past.
abbrev Past : AttemptStatus → List AttemptStatus → Type 0
Past AttemptStatus.winner l =
    (visited AttemptStatus.verifying l ≡ true) × (visited AttemptStatus.passed l ≡ true)
Past AttemptStatus.superseded l =
    (visited AttemptStatus.verifying l ≡ true) × (visited AttemptStatus.passed l ≡ true)
Past AttemptStatus.passed l =
    (visited AttemptStatus.verifying l ≡ true) × (visited AttemptStatus.passed l ≡ true)
Past AttemptStatus.verifying l = visited AttemptStatus.verifying l ≡ true
Past _ l = Unit

Past-enter :
    (t u : AttemptStatus) (l : List AttemptStatus)
    → require_attempt t u ≡ ok tt
    → Past t l
    → Past u (u ∷ l)
unfolding require_attempt
Past-enter AttemptStatus.created AttemptStatus.created l h p = tt
Past-enter AttemptStatus.created u l h p = ground arith
Past-enter AttemptStatus.starting AttemptStatus.created l h p = tt
Past-enter AttemptStatus.starting u l h p = ground arith
Past-enter AttemptStatus.running AttemptStatus.created l h p = tt
Past-enter AttemptStatus.running u l h p = ground arith
Past-enter AttemptStatus.agent_completed AttemptStatus.created l h p = tt
Past-enter AttemptStatus.agent_completed u l h p = ground arith
Past-enter AttemptStatus.verifying AttemptStatus.created l h p = tt
Past-enter AttemptStatus.verifying u l h p = ground arith
Past-enter AttemptStatus.passed AttemptStatus.created l h p = tt
Past-enter AttemptStatus.passed u l h p = ground arith
Past-enter AttemptStatus.orphaned AttemptStatus.created l h p = tt
Past-enter AttemptStatus.orphaned u l h p = ground arith
Past-enter AttemptStatus.failed AttemptStatus.created l h p = tt
Past-enter AttemptStatus.failed u l h p = ground arith
Past-enter t u l h p = ground arith

History-Past : {l : List AttemptStatus} {t : AttemptStatus} → AttemptHistory l t → Past t l
History-Past start = tt
History-Past (enter {l} {t} {u} h step) = Past-enter t u l step (History-Past h)

-- An attempt that became the winner of its task, in steps that the table allows, was being
-- verified at some time and had passed its verification.
pub winner_was_verified :
    {l : List AttemptStatus}
    → AttemptHistory l AttemptStatus.winner
    → (visited AttemptStatus.verifying l ≡ true) × (visited AttemptStatus.passed l ≡ true)
winner_was_verified h = History-Past h

-- A task that is verified, cancelled or blocked can go to no other status.
pub task_final :
    (s t : TaskStatus)
    → require_task s t ≡ ok tt
    → (s ≢ TaskStatus.verified) × (s ≢ TaskStatus.cancelled) × (s ≢ TaskStatus.blocked)
unfolding require_task
task_final TaskStatus.queued t h = (λ e. cc, λ e. cc, λ e. cc)
task_final s t h = ground arith
