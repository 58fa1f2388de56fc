-- ===== src/Planning/Workflow/Kept.antt =====
-- src/firstgreen/planning/workflow.py: what the transactions of the engine keep true of the stored
-- plans and of the log.
use mathlib.Core.List.{map-append}
use firstgreen.Prelude.{
  String, Bool, true, false, not, ◌≡◌, refl, sym, ◌∙◌, subst, List, [], ◌∷◌, ◌++◌, arith, All,
  All-append, nat_eq, ◌==◌, any, map, mem, distinct, distinct_snoc, eq_iff, ap, ◌⊎◌, inl, inr,
}
use firstgreen.Prelude.Result.{
  ok, runtime_error, integrity_error, raise_if, ◌>>◌, >>=-eq-ok, raise_if-eq-ok,
}
use firstgreen.Db.Sql.{update_where, rowcount, All-update_where, map-update_where}
use firstgreen.Planning.StateMachine.{IssueState, require_planning_transition}
use firstgreen.Planning.Models.{RepositoryMap}
use firstgreen.Planning.Candidate.{is_valid, CandidatePlan}
use firstgreen.Planning.Store.{
  RequestRow, CandidateRow, PlanningEvent, state_changed, planner_failed, Store, transaction,
  is_request, at_state, enter_state, moved, change, transition, insert_request, insert_candidate,
  insert_validation, ValidationRow,
}
use firstgreen.Planning.Workflow.Stable.{Keeps, transaction-Keeps, IsStable}
use firstgreen.Planning.Workflow.{
  PlanningOutcome, candidate_row, is_candidate, approve_row, edit_row, note_failure, enter_map,
  store_map, store_candidate, store_approved, approved_plan, store_edited,
}

-- A plan that is marked as approved is valid and stands in an approved row; and an approved row holds
-- a plan that is so marked, unless it has been edited.
pub record IsChecked (c : CandidateRow) : Type 0 where
  pub marked : c.plan.approved ≡ true → (is_valid c.plan.validation ≡ true) × (c.approved ≡ true)
  pub column : c.approved ≡ true → (c.plan.approved ≡ true) ⊎ (c.user_edited ≡ true)

-- A change of state that the table allows.
abbrev pub IsLegal : PlanningEvent → Type 0
IsLegal (state_changed id current new) = require_planning_transition current new ≡ ok tt
IsLegal (planner_failed id) = Unit

-- The primary keys of `issue_requests`.
abbrev pub request_ids : List RequestRow → List String
request_ids rows = map (λ (r : RequestRow). r.id) rows

abbrev pub HasKeys : List RequestRow → Type 0
HasKeys rows = distinct (request_ids rows) ≡ true

-- An update that leaves the keys.
pub ids-updated :
    (p : RequestRow → Bool) (f : RequestRow → RequestRow) (rows : List RequestRow)
    → ((r : RequestRow) → (f r).id ≡ r.id)
    → request_ids (update_where p f rows) ≡ request_ids rows
ids-updated p f rows h = map-update_where (λ (r : RequestRow). r.id) p f rows h

pub record IsKept (s : Store) : Type 0 where
  pub checked : All IsChecked s.candidates
  pub legal : All IsLegal s.events
  pub keys : HasKeys s.requests

-- A transaction that writes neither candidates nor events.
same-IsKept :
    (s t : Store)
    → IsKept s
    → s.candidates ≡ t.candidates
    → s.events ≡ t.events
    → request_ids t.requests ≡ request_ids s.requests
    → IsKept t
same-IsKept s t i c e k = record {
  checked = subst (All IsChecked) c i.checked;
  legal = subst (All IsLegal) e i.legal;
  keys = rw k i.keys;
}

transition-Keeps :
    (id : String) (current new : IssueState) → Keeps IsKept (transition id current new)
unfolding transition
transition-Keeps id current new = transaction-Keeps IsKept (change id current new) (λ s t i e.
    let last = ok (moved id current new s) in
    let lost = not (nat_eq (rowcount (at_state id current) s.requests) 1) in
    let (_, legal, e₁) =
      >>=-eq-ok (require_planning_transition current new)
        (λ done. raise_if lost runtime_error >> last) e in
    let (_, e₂) = raise_if-eq-ok lost runtime_error last e₁ in
    let same : moved id current new s ≡ t = cc in
    subst IsKept same (record {
      checked = i.checked;
      legal = All-append IsLegal s.events (state_changed id current new ∷ []) i.legal (legal, tt);
      keys = rw (ids-updated (at_state id current) (enter_state new) s.requests (λ r. refl)) i.keys;
    }))

-- Another row with the key of one that is there is refused.
pub any-request :
    (id : String) (rows : List RequestRow) → any (is_request id) rows ≡ mem id (request_ids rows)
any-request id [] = refl
any-request id (r ∷ rows) = ground (arith, any-request id rows, eq_iff r.id id, eq_iff id r.id)

insert_request-Keeps : (row : RequestRow) → Keeps IsKept (transaction (insert_request row))
insert_request-Keeps row = transaction-Keeps IsKept (insert_request row) (λ s t i e.
    let written : Store = record s { requests = s.requests ++ row ∷ [] } in
    let (fresh, e₁) =
      raise_if-eq-ok (any (is_request row.id) s.requests) integrity_error (ok written) e in
    let same : written ≡ t = cc in
    let absent : mem row.id (request_ids s.requests) ≡ false =
      sym (any-request row.id s.requests) ∙ fresh in
    subst IsKept same (record {
      checked = i.checked;
      legal = i.legal;
      keys =
          rw (map-append (λ (r : RequestRow). r.id) s.requests (row ∷ []))
            (distinct_snoc row.id (request_ids s.requests) i.keys absent);
    }))

store_map-Keeps : (id : String) (m : RepositoryMap) → Keeps IsKept (transaction (store_map id m))
store_map-Keeps id m = transaction-Keeps IsKept (store_map id m) (λ s t i e.
    let requests = update_where (is_request id) (enter_map m) s.requests in
    let same : requests ≡ t.requests = ground arith in
    same-IsKept s t i (ground arith) (ground arith) (
      subst (λ rows. request_ids rows ≡ request_ids s.requests) same
        (ids-updated (is_request id) (enter_map m) s.requests (λ r. refl))))

note_failure-Keeps : (id : String) (b : Bool) → Keeps IsKept (transaction (note_failure id b))
note_failure-Keeps id true = transaction-Keeps IsKept (note_failure id true) (λ s t i e. record {
  checked = subst (All IsChecked) (ground arith) i.checked;
  legal =
      subst (All IsLegal) (ground arith)
        (All-append IsLegal s.events (planner_failed id ∷ []) i.legal (tt, tt));
  keys = subst HasKeys {x = s.requests} {y = t.requests} (ground arith) i.keys;
})
note_failure-Keeps id false =
    transaction-Keeps IsKept (note_failure id false)
      (λ s t i e. same-IsKept s t i (ground arith) (ground arith) (ap request_ids (ground arith)))

unapproved-IsChecked :
    (c : CandidateRow)
    → c.plan.approved ≡ false
    → (c.approved ≡ true → c.user_edited ≡ true)
    → IsChecked c
unapproved-IsChecked c e f = record {
  marked = λ a. absurd (clash (sym e ∙ a));
  column = λ a. inr (f a);
}
  where
    clash : false ≡ true → ⊥
    clash h = cc

pub insert_validation-same :
    (row : ValidationRow) (s t : Store)
    → insert_validation row s ≡ ok t
    → (s.candidates ≡ t.candidates) × (s.events ≡ t.events) × (s.requests ≡ t.requests)
insert_validation-same row s t e =
    let (_, e₁) =
      raise_if-eq-ok (not (any (λ (c : CandidateRow). c.id == row.candidate_id) s.candidates))
        integrity_error (ok (record s { validations = s.validations ++ row ∷ [] })) e in
    (ground arith, ground arith, ground arith)

pub insert_candidate-same :
    (row : CandidateRow) (s t : Store)
    → insert_candidate row s ≡ ok t
    → (s.candidates ++ row ∷ [] ≡ t.candidates) × (s.events ≡ t.events) × (s.requests ≡ t.requests)
insert_candidate-same row s t e =
    let written = ok (record s { candidates = s.candidates ++ row ∷ [] }) in
    let orphan = not (any (is_request row.request_id) s.requests) in
    let (_, e₁) =
      raise_if-eq-ok (any (λ (c : CandidateRow). c.id == row.id) s.candidates) integrity_error
        (raise_if orphan integrity_error >> written) e in
    let (_, e₂) = raise_if-eq-ok orphan integrity_error written e₁ in
    (ground arith, ground arith, ground arith)

store_candidate-Keeps :
    (request_id plan_id : String) (plan : CandidatePlan)
    → plan.approved ≡ false
    → Keeps IsKept (transaction (store_candidate request_id plan_id plan))
store_candidate-Keeps request_id plan_id plan fresh =
    transaction-Keeps IsKept (store_candidate request_id plan_id plan) (λ s t i e.
      let row = candidate_row request_id plan_id plan in
      let noted : ValidationRow = record {
        candidate_id = plan_id;
        valid = is_valid plan.validation;
      } in
      let (u, inserted, later) = >>=-eq-ok (insert_candidate row s) (insert_validation noted) e in
      let (added, kept, requests) = insert_candidate-same row s u inserted in
      let (c, v, w) = insert_validation-same noted u t later in
      record {
        checked = subst (All IsChecked) (added ∙ c) (
            All-append IsChecked s.candidates (row ∷ []) i.checked
              (unapproved-IsChecked row fresh (λ a. cc), tt));
        legal = subst (All IsLegal) (kept ∙ v) i.legal;
        keys = subst HasKeys (requests ∙ w) i.keys;
      })

store_approved-Keeps :
    (outcome : PlanningOutcome)
    → is_valid outcome.plan.validation ≡ true
    → Keeps IsKept (transaction (store_approved outcome))
store_approved-Keeps outcome valid = transaction-Keeps IsKept (store_approved outcome) (λ s t i e.
    let approving = approve_row plan in
    let chosen = is_candidate outcome.plan_id in
    let written : update_where chosen approving s.candidates ≡ t.candidates = ground arith in
    record {
      checked = subst (All IsChecked) written (
          All-update_where IsChecked chosen approving s.candidates
            (λ c k m. record { marked = λ a. (valid, refl); column = λ a. inl refl }) i.checked);
      legal = subst (All IsLegal) (ground arith) i.legal;
      keys = subst HasKeys {x = s.requests} {y = t.requests} (ground arith) i.keys;
    })
  where
    plan : CandidatePlan
    plan = approved_plan outcome

store_edited-Keeps :
    (outcome : PlanningOutcome) (plan : CandidatePlan)
    → plan.approved ≡ false
    → Keeps IsKept (transaction (store_edited outcome plan))
store_edited-Keeps outcome plan fresh =
    transaction-Keeps IsKept (store_edited outcome plan) (λ s t i e.
      let editing = edit_row plan in
      let chosen = is_candidate outcome.plan_id in
      let u : Store = record s { candidates = update_where chosen editing s.candidates } in
      let (c, v, w) =
        insert_validation-same
          (record { candidate_id = outcome.plan_id; valid = is_valid plan.validation }) u t e in
      record {
        checked = subst (All IsChecked) c (
            All-update_where IsChecked chosen editing s.candidates
              (λ row k m. unapproved-IsChecked (editing row) fresh (λ a. refl)) i.checked);
        legal = subst (All IsLegal) v i.legal;
        keys = subst HasKeys w i.keys;
      })

pub IsKept-IsStable : IsStable IsKept
IsKept-IsStable = record {
  transitions = λ id current new fresh. transition-Keeps id current new;
  requests = insert_request-Keeps;
  maps = store_map-Keeps;
  failures = note_failure-Keeps;
  candidates = store_candidate-Keeps;
  approvals = store_approved-Keeps;
  edits = store_edited-Keeps;
}
