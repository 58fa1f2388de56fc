-- ===== src/Planning/Workflow/Closed.antt =====
-- src/firstgreen/planning/workflow.py: a request whose plan was approved stays so through all later
-- calls of the engine.
use firstgreen.Prelude.{
  String, Bool, true, false, not, ◌≡◌, refl, sym, ◌∙◌, ap, subst, List, [], ◌∷◌, ◌++◌, arith, All,
  All-append, Bool-cases, inl, inr, any, mem, ◌==◌, eq_iff, nat_eq,
}
use firstgreen.Prelude.Result.{
  ok, runtime_error, integrity_error, raise_if, ◌>>◌, >>=-eq-ok, raise_if-eq-ok,
}
use firstgreen.Db.Sql.{update_where, rowcount, All-update_where}
use firstgreen.Planning.StateMachine.{
  IssueState, issue_value, awaiting_plan_approval, plan_approved, require_planning_transition,
}
use firstgreen.Planning.Candidate.{is_valid}
use firstgreen.Planning.Store.{
  RequestRow, ValidationRow, Store, transaction, is_request, at_state, enter_state, moved, change,
  transition, insert_request, insert_candidate, insert_validation,
}
use firstgreen.Planning.Workflow.{
  candidate_row, note_failure, enter_map, store_map, store_candidate, store_approved, store_edited,
  edit_row, is_candidate,
}
use firstgreen.Planning.Workflow.Stable.{Keeps, transaction-Keeps, IsStable}
use firstgreen.Planning.Workflow.Kept.{
  request_ids, HasKeys, ids-updated, any-request, insert_candidate-same, insert_validation-same,
}

clash : false ≡ true → ⊥
clash h = cc

module _ (id : String) where
  abbrev pub IsDecided : RequestRow → Type 0
  IsDecided r = (r.id == id) ≡ true → r.state ≡ plan_approved

  -- The request is there, and its plan has been approved.
  pub record IsClosed (s : Store) : Type 0 where
    pub decided : All IsDecided s.requests
    pub present : any (is_request id) s.requests ≡ true

  -- A transition from another state does not find an approved row.
  not_found :
      (other : String) (current : IssueState) (r : RequestRow)
      → (issue_value current == "plan_approved") ≡ false
      → at_state other current r ≡ true
      → r.state ≡ plan_approved
      → ⊥
  not_found other current r fresh found e =
      let at : (issue_value r.state == issue_value current) ≡ true = ground arith in
      let named : issue_value current ≡ "plan_approved" =
        sym ((eq_iff (issue_value r.state) (issue_value current)).0 at) ∙ ap issue_value e in
      clash (sym fresh ∙ (eq_iff (issue_value current) "plan_approved").1 named)

  pub any-updated :
      (p : RequestRow → Bool) (f : RequestRow → RequestRow) (rows : List RequestRow)
      → ((r : RequestRow) → (f r).id ≡ r.id)
      → any (is_request id) (update_where p f rows) ≡ any (is_request id) rows
  any-updated p f rows h =
      any-request id (update_where p f rows)
      ∙ ap (mem id) (ids-updated p f rows h)
      ∙ sym (any-request id rows)

  updated-IsClosed :
      (p : RequestRow → Bool) (f : RequestRow → RequestRow) (s t : Store)
      → ((r : RequestRow) → (f r).id ≡ r.id)
      → ((r : RequestRow) → IsDecided r → p r ≡ true → IsDecided (f r))
      → update_where p f s.requests ≡ t.requests
      → IsClosed s
      → IsClosed t
  updated-IsClosed p f s t key keep same c = record {
    decided = subst (All IsDecided) same (All-update_where IsDecided p f s.requests keep c.decided);
    present =
        subst (λ rows. any (is_request id) rows ≡ true) same
          (any-updated p f s.requests key ∙ c.present);
  }

  same-IsClosed : (s t : Store) → s.requests ≡ t.requests → IsClosed s → IsClosed t
  same-IsClosed s t same c = record {
    decided = subst (All IsDecided) same c.decided;
    present = subst (λ rows. any (is_request id) rows ≡ true) same c.present;
  }

  transition-IsClosed :
      (other : String) (current new : IssueState)
      → (issue_value current == "plan_approved") ≡ false
      → Keeps IsClosed (transition other current new)
  unfolding transition
  transition-IsClosed other current new fresh =
      transaction-Keeps IsClosed (change other current new) (λ s t i e.
        let last = ok (moved other current new s) in
        let lost = not (nat_eq (rowcount (at_state other current) s.requests) 1) in
        let (_, legal, e₁) =
          >>=-eq-ok (require_planning_transition current new)
            (λ done. raise_if lost runtime_error >> last) e in
        let (_, e₂) = raise_if-eq-ok lost runtime_error last e₁ in
        let same : moved other current new s ≡ t = cc in
        updated-IsClosed (at_state other current) (enter_state new) s t (λ r. refl)
          (λ r d found named. absurd (not_found other current r fresh found (d named)))
          (ap (λ (x : Store). x.requests) same) i)

  insert_request-IsClosed : (row : RequestRow) → Keeps IsClosed (transaction (insert_request row))
  insert_request-IsClosed row = transaction-Keeps IsClosed (insert_request row) (λ s t i e.
      let written : Store = record s { requests = s.requests ++ row ∷ [] } in
      let (fresh, e₁) =
        raise_if-eq-ok (any (is_request row.id) s.requests) integrity_error (ok written) e in
      let same : written ≡ t = cc in
      subst IsClosed same (record {
        decided = All-append IsDecided s.requests (row ∷ []) i.decided (
          (λ named. absurd (clash (sym (rw ((eq_iff row.id id).0 named) at fresh) ∙ i.present))),
          tt,
        );
        present = any-append id s.requests row i.present;
      }))
    where
      any-append :
          (x : String) (rows : List RequestRow) (r : RequestRow)
          → any (is_request x) rows ≡ true
          → any (is_request x) (rows ++ r ∷ []) ≡ true
      any-append x [] r h = cc
      any-append x (q ∷ rows) r h = ground (arith, any-append x rows r)

  pub IsClosed-IsStable : IsStable IsClosed
  IsClosed-IsStable = record {
    transitions = transition-IsClosed;
    requests = insert_request-IsClosed;
    maps = λ other m. transaction-Keeps IsClosed (store_map other m) (λ s t i e.
        updated-IsClosed (is_request other) (enter_map m) s t (λ r. refl) (λ r d found. d)
          (ground arith) i);
    failures = failed-IsClosed;
    candidates = λ request_id plan_id plan fresh.
        transaction-Keeps IsClosed (store_candidate request_id plan_id plan) (λ s t i e.
          let row = candidate_row request_id plan_id plan in
          let noted : ValidationRow = record {
            candidate_id = plan_id;
            valid = is_valid plan.validation;
          } in
          let (u, inserted, later) =
            >>=-eq-ok (insert_candidate row s) (insert_validation noted) e in
          let (_, _, a) = insert_candidate-same row s u inserted in
          let (_, _, b) = insert_validation-same noted u t later in same-IsClosed s t (a ∙ b) i);
    approvals = λ outcome valid.
        transaction-Keeps IsClosed (store_approved outcome)
          (λ s t i e. same-IsClosed s t (ground arith) i);
    edits = λ outcome plan fresh. transaction-Keeps IsClosed (store_edited outcome plan) (λ s t i e.
        let u : Store = record s {
          candidates = update_where (is_candidate outcome.plan_id) (edit_row plan) s.candidates;
        } in
        let (_, _, a) =
          insert_validation-same
            (record { candidate_id = outcome.plan_id; valid = is_valid plan.validation }) u t e in
        same-IsClosed s t a i);
  }
    where
      failed-IsClosed :
          (other : String) (b : Bool) → Keeps IsClosed (transaction (note_failure other b))
      failed-IsClosed other true =
          transaction-Keeps IsClosed (note_failure other true)
            (λ s t i e. same-IsClosed s t (ground arith) i)
      failed-IsClosed other false =
          transaction-Keeps IsClosed (note_failure other false)
            (λ s t i e. same-IsClosed s t (ground arith) i)

  -- A closed request has no row that waits for approval.
  pub none_waiting :
      (rows : List RequestRow)
      → All IsDecided rows
      → rowcount (at_state id awaiting_plan_approval) rows ≡ 0
  unfolding rowcount
  none_waiting [] d = refl
  none_waiting (r ∷ rows) d = elim (Bool-cases (at_state id awaiting_plan_approval r)) [
    | inl e ↦ absurd (not_found id awaiting_plan_approval r refl e (d.0 (ground arith)))
    | inr e ↦ rw e (omega (arith, none_waiting rows d.1))
  ]

  -- The row that is approved is the only one with its key.
  absent-decided :
      (rows : List RequestRow)
      → mem id (request_ids rows) ≡ false
      → All IsDecided
          (update_where (at_state id awaiting_plan_approval) (enter_state plan_approved) rows)
        × (rowcount (at_state id awaiting_plan_approval) rows ≡ 0)
  unfolding update_where rowcount
  absent-decided [] n = (tt, refl)
  absent-decided (r ∷ rows) n =
      let other : (r.id == id) ≡ false = ground (arith, eq_iff r.id id, eq_iff id r.id) in
      let (d, none) = absent-decided rows (ground arith) in
      (rw other ((λ named. absurd (clash (sym other ∙ named))), d), rw other (omega (arith, none)))

  pub approved-decided :
      (rows : List RequestRow)
      → HasKeys rows
      → rowcount (at_state id awaiting_plan_approval) rows ≡ 1
      → All IsDecided
          (update_where (at_state id awaiting_plan_approval) (enter_state plan_approved) rows)
        × (any (is_request id) rows ≡ true)
  unfolding update_where rowcount
  approved-decided [] k one = absurd (omega (arith, one))
  approved-decided (r ∷ rows) k one = elim (Bool-cases (r.id == id)) [
    | inl e ↦
        let same : r.id ≡ id = (eq_iff r.id id).0 e in
        let absent : mem r.id (request_ids rows) ≡ false = ground arith in
        let (d, none) =
          absent-decided rows (subst (λ x. mem x (request_ids rows) ≡ false) same absent) in
        (first r rows same e d none one, rw e refl)
    | inr e ↦
        let (d, there) = approved-decided rows (ground arith) (omega (arith, (rw e at one))) in
        (rw e ((λ named. absurd (clash (sym e ∙ named))), d), rw e there)
  ]
    where
      first :
          (r : RequestRow) (rows : List RequestRow)
          → r.id ≡ id
          → (r.id == id) ≡ true
          → All IsDecided
              (update_where (at_state id awaiting_plan_approval) (enter_state plan_approved) rows)
          → rowcount (at_state id awaiting_plan_approval) rows ≡ 0
          → rowcount (at_state id awaiting_plan_approval) (r ∷ rows) ≡ 1
          → All IsDecided (
              update_where
                (at_state id awaiting_plan_approval)
                (enter_state plan_approved)
                (r ∷ rows))
      first r rows same e d none one = elim (Bool-cases (at_state id awaiting_plan_approval r)) [
        | inl found ↦ rw found ((λ named. refl), d)
        | inr lost ↦ absurd (omega (arith, rw (lost, none) at one))
      ]
