-- ===== src/Planning/Store.antt =====
-- The tables of src/firstgreen/db/repository.py (`SCHEMA`) that planning writes, and the transition of
-- src/firstgreen/planning/workflow.py. JSON columns hold the values that they render; hashes, times and
-- the counters of a plan are left out.
use firstgreen.Prelude.{String, Bool, not, ◌&&◌, List, [], ◌∷◌, ◌++◌, ◌==◌, nat_eq, any}
use firstgreen.Prelude.Result.{Result, ok, err, runtime_error, integrity_error, raise_if, ◌>>◌}
use firstgreen.Db.Sql.{update_where, rowcount}
use firstgreen.Planning.Models.{RepositoryMap}
use firstgreen.Planning.Candidate.{CandidatePlan}
use firstgreen.Planning.StateMachine.{IssueState, issue_value, require_planning_transition}

pub record RequestRow : Type 0 where
  pub id : String
  pub issue : String
  pub repo_path : String
  pub commit_sha : String
  pub state : IssueState

pub record CandidateRow : Type 0 where
  pub id : String
  pub request_id : String
  pub plan : CandidatePlan
  pub approved : Bool
  pub user_edited : Bool

pub record ValidationRow : Type 0 where
  pub candidate_id : String
  pub valid : Bool

pub data PlanningEvent : Type 0 where
  state_changed : String → IssueState → IssueState → PlanningEvent
  planner_failed : String → PlanningEvent

pub record Store : Type 0 where
  pub requests : List RequestRow
  pub maps : List (String × RepositoryMap)
  pub candidates : List CandidateRow
  pub validations : List ValidationRow
  pub events : List PlanningEvent

-- A method of the engine: what its transactions have written stays when a later step raises.
abbrev pub Engine : Type 0 → Type 0
Engine A = Store → Result A × Store

abbrev pub go_on : {A B : Type 0} → Result A × Store → (A → Engine B) → Result B × Store
go_on (ok a, s) next = next a s
go_on (err e, s) next = (err e, s)

-- What follows a call.
infixl 4 ◌>>>◌
unfoldable pub ◌>>>◌ : {A B : Type 0} → Engine A → (A → Engine B) → Engine B
(first >>> next) s = go_on (first s) next

-- A call that writes nothing.
abbrev pub call : {A : Type 0} → Result A → Engine A
call r s = (r, s)

-- A transaction: an error rolls its statements back.
abbrev pub close : Store → Result Store → Result (Unit {0}) × Store
close s (ok t) = (ok tt, t)
close s (err e) = (err e, s)

abbrev pub transaction : (Store → Result Store) → Engine (Unit {0})
transaction body s = close s (body s)

abbrev pub is_request : String → RequestRow → Bool
is_request id r = r.id == id

-- `WHERE id=? AND state=?`
abbrev pub at_state : String → IssueState → RequestRow → Bool
at_state id state r = r.id == id && issue_value r.state == issue_value state

abbrev pub enter_state : IssueState → RequestRow → RequestRow
enter_state state r = record r { state = state }

abbrev pub moved : String → IssueState → IssueState → Store → Store
moved id current new s = record s {
  requests = update_where (at_state id current) (enter_state new) s.requests;
  events = s.events ++ state_changed id current new ∷ [];
}

-- `_transition`: the table, then the compare-and-set, then the event.
abbrev pub change : String → IssueState → IssueState → Store → Result Store
change id current new s =
    require_planning_transition current new
    >> (raise_if (not (nat_eq (rowcount (at_state id current) s.requests) 1)) runtime_error
        >> ok (moved id current new s))

unfoldable pub transition : String → IssueState → IssueState → Engine (Unit {0})
unfolding require_planning_transition update_where rowcount
transition id current new = transaction (change id current new)

abbrev pub insert_request : RequestRow → Store → Result Store
insert_request row s =
    raise_if (any (is_request row.id) s.requests) integrity_error
    >> ok (record s { requests = s.requests ++ row ∷ [] })

-- The keys of `candidate_plans` and `plan_validation_results`, and their references.
abbrev pub insert_candidate : CandidateRow → Store → Result Store
insert_candidate row s =
    raise_if (any (λ (c : CandidateRow). c.id == row.id) s.candidates) integrity_error
    >> (raise_if (not (any (is_request row.request_id) s.requests)) integrity_error
        >> ok (record s { candidates = s.candidates ++ row ∷ [] }))

abbrev pub insert_validation : ValidationRow → Store → Result Store
insert_validation row s =
    raise_if (not (any (λ (c : CandidateRow). c.id == row.candidate_id) s.candidates))
      integrity_error
    >> ok (record s { validations = s.validations ++ row ∷ [] })
