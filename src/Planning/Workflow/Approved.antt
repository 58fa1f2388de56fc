-- ===== src/Planning/Workflow/Approved.antt =====
-- src/firstgreen/planning/workflow.py: what holds of the stored plans whatever is planned, edited and
-- approved, and whichever of these calls raise.
use firstgreen.Prelude.{refl, []}
use firstgreen.Planning.Store.{Store}
use firstgreen.Planning.Workflow.Stable.{Session, Session-keeps}
use firstgreen.Planning.Workflow.Kept.{IsKept, IsKept-IsStable}

abbrev pub empty_store : Store
empty_store = record { requests = []; maps = []; candidates = []; validations = []; events = [] }

-- Whatever is planned, edited and approved in which order from empty tables, and whichever of the
-- calls raise: a stored plan that bears the mark of approval is valid and stands in a row with
-- `approved=1`; a row with `approved=1` holds a plan with that mark or has been edited; each logged
-- change of a request's state is one that the table allows; and no request is stored twice.
pub Session-IsKept : {s : Store} → Session empty_store s → IsKept s
Session-IsKept session =
    Session-keeps IsKept IsKept-IsStable session (record { checked = tt; legal = tt; keys = refl })
