-- ===== src/Domain/Transitions.antt =====
-- src/firstgreen/domain/state_machine.py: the transition tables and `require_transition`.
use firstgreen.Prelude.{String, Bool, not, List, [], ◌∷◌, ◌==◌, any}
use firstgreen.Prelude.Result.{Result, raise_if, transition_error}
use firstgreen.Domain.Models.{
  RunStatus, TaskStatus, AttemptStatus, run_value, task_value, attempt_value,
}

-- `table.get(current, set())`: a status that is no key has no successor.
abbrev pub run_transitions : RunStatus → List RunStatus
run_transitions RunStatus.created = RunStatus.running ∷ RunStatus.cancelled ∷ []
run_transitions RunStatus.running =
    RunStatus.completed ∷ RunStatus.cancelled ∷ RunStatus.failed ∷ []
run_transitions RunStatus.failed = RunStatus.running ∷ []
run_transitions _ = []

abbrev pub task_transitions : TaskStatus → List TaskStatus
task_transitions TaskStatus.queued =
    TaskStatus.ready ∷ TaskStatus.blocked ∷ TaskStatus.cancelled ∷ []
task_transitions TaskStatus.ready =
    TaskStatus.running ∷ TaskStatus.cancelled ∷ TaskStatus.blocked ∷ []
task_transitions TaskStatus.running =
    TaskStatus.verifying ∷ TaskStatus.failed ∷ TaskStatus.cancelled ∷ []
task_transitions TaskStatus.verifying =
    TaskStatus.running ∷ TaskStatus.verified ∷ TaskStatus.failed ∷ TaskStatus.cancelled ∷ []
task_transitions TaskStatus.failed = TaskStatus.verifying ∷ []
task_transitions _ = []

abbrev pub attempt_transitions : AttemptStatus → List AttemptStatus
attempt_transitions AttemptStatus.created = AttemptStatus.starting ∷ AttemptStatus.cancelled ∷ []
attempt_transitions AttemptStatus.starting =
    AttemptStatus.running ∷ AttemptStatus.failed ∷ AttemptStatus.cancelled ∷ []
attempt_transitions AttemptStatus.running =
    AttemptStatus.agent_completed ∷ AttemptStatus.failed ∷ AttemptStatus.cancelled
    ∷ AttemptStatus.orphaned ∷ []
attempt_transitions AttemptStatus.agent_completed =
    AttemptStatus.verifying ∷ AttemptStatus.failed ∷ []
attempt_transitions AttemptStatus.verifying =
    AttemptStatus.passed ∷ AttemptStatus.failed ∷ AttemptStatus.cancelled ∷ []
attempt_transitions AttemptStatus.passed = AttemptStatus.winner ∷ AttemptStatus.superseded ∷ []
attempt_transitions AttemptStatus.orphaned = AttemptStatus.failed ∷ AttemptStatus.cancelled ∷ []
attempt_transitions AttemptStatus.failed = AttemptStatus.verifying ∷ []
attempt_transitions _ = []

module _ {S : Type 0} (value : S → String) where
  -- `new in table.get(current, set())`
  abbrev pub allows : (S → List S) → S → S → Bool
  allows table current new = any (λ s. value s == value new) (table current)

  unfoldable pub require_transition : S → S → (S → List S) → Result (Unit {0})
  require_transition current new table = raise_if (not (allows table current new)) transition_error

unfoldable pub require_run : RunStatus → RunStatus → Result (Unit {0})
unfolding require_transition
require_run current new = require_transition run_value current new run_transitions

unfoldable pub require_task : TaskStatus → TaskStatus → Result (Unit {0})
unfolding require_transition
require_task current new = require_transition task_value current new task_transitions

unfoldable pub require_attempt : AttemptStatus → AttemptStatus → Result (Unit {0})
unfolding require_transition
require_attempt current new = require_transition attempt_value current new attempt_transitions
