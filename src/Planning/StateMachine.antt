-- ===== src/Planning/StateMachine.antt =====
-- src/firstgreen/planning/state_machine.py and the `IssueState` of planning/models.py.
use firstgreen.Prelude.{String, Bool, true, ◌≡◌, List, [], ◌∷◌, ◌==◌, arith, any}
use firstgreen.Prelude.Result.{Result, ok}
use firstgreen.Domain.Transitions.{require_transition}
use firstgreen.Domain.History.{History, start, enter}

pub data IssueState : Type 0 where
  received repo_scanning planning plan_validation : IssueState
  awaiting_plan_approval plan_approved execution_ready executing : IssueState
  completed failed cancelled : IssueState

abbrev pub issue_value : IssueState → String
issue_value received = "received"
issue_value repo_scanning = "repo_scanning"
issue_value planning = "planning"
issue_value plan_validation = "plan_validation"
issue_value awaiting_plan_approval = "awaiting_plan_approval"
issue_value plan_approved = "plan_approved"
issue_value execution_ready = "execution_ready"
issue_value executing = "executing"
issue_value completed = "completed"
issue_value failed = "failed"
issue_value cancelled = "cancelled"

abbrev pub planning_transitions : IssueState → List IssueState
planning_transitions received = repo_scanning ∷ cancelled ∷ []
planning_transitions repo_scanning = planning ∷ failed ∷ cancelled ∷ []
planning_transitions planning = plan_validation ∷ failed ∷ cancelled ∷ []
planning_transitions plan_validation = awaiting_plan_approval ∷ plan_approved ∷ failed ∷ []
planning_transitions awaiting_plan_approval = plan_approved ∷ cancelled ∷ failed ∷ []
planning_transitions plan_approved = execution_ready ∷ cancelled ∷ []
planning_transitions execution_ready = executing ∷ cancelled ∷ []
planning_transitions executing = completed ∷ failed ∷ cancelled ∷ []
planning_transitions _ = []

unfoldable pub require_planning_transition : IssueState → IssueState → Result (Unit {0})
unfolding require_transition
require_planning_transition current new =
    require_transition issue_value current new planning_transitions

abbrev pub IssueHistory : List IssueState → IssueState → Type 0
IssueHistory = History require_planning_transition received

abbrev pub visited : IssueState → List IssueState → Bool
visited s l = any (λ t. issue_value t == issue_value s) l

-- The gates that lie behind a request in a given state.
abbrev Past : IssueState → List IssueState → Type 0
Past plan_validation l = visited plan_validation l ≡ true
Past awaiting_plan_approval l = visited plan_validation l ≡ true
Past plan_approved l = (visited plan_validation l ≡ true) × (visited plan_approved l ≡ true)
Past execution_ready l = (visited plan_validation l ≡ true) × (visited plan_approved l ≡ true)
Past executing l = (visited plan_validation l ≡ true) × (visited plan_approved l ≡ true)
Past completed l = (visited plan_validation l ≡ true) × (visited plan_approved l ≡ true)
Past _ l = Unit

Past-enter :
    (t u : IssueState) (l : List IssueState)
    → require_planning_transition t u ≡ ok tt
    → Past t l
    → Past u (u ∷ l)
unfolding require_planning_transition
Past-enter received received l h p = tt
Past-enter received u l h p = ground arith
Past-enter repo_scanning received l h p = tt
Past-enter repo_scanning u l h p = ground arith
Past-enter planning received l h p = tt
Past-enter planning u l h p = ground arith
Past-enter plan_validation received l h p = tt
Past-enter plan_validation u l h p = ground arith
Past-enter awaiting_plan_approval received l h p = tt
Past-enter awaiting_plan_approval u l h p = ground arith
Past-enter plan_approved received l h p = tt
Past-enter plan_approved u l h p = ground arith
Past-enter execution_ready received l h p = tt
Past-enter execution_ready u l h p = ground arith
Past-enter executing received l h p = tt
Past-enter executing u l h p = ground arith
Past-enter t u l h p = ground arith

History-Past : {l : List IssueState} {t : IssueState} → IssueHistory l t → Past t l
History-Past start = tt
History-Past (enter {l} {t} {u} h step) = Past-enter t u l step (History-Past h)

-- A request whose states follow the table is being executed only after its plan has been
-- validated and approved.
pub executing_was_approved :
    {l : List IssueState}
    → IssueHistory l executing
    → (visited plan_validation l ≡ true) × (visited plan_approved l ≡ true)
executing_was_approved h = History-Past h
