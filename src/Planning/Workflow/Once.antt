-- ===== src/Planning/Workflow/Once.antt =====
-- src/firstgreen/planning/workflow.py: what a call of the engine that returns has done, and `approve`
-- twice.
use firstgreen.Prelude.{
  zero, suc, String, Bool, true, not, ◌≡◌, ◌≢◌, refl, sym, ◌∙◌, subst, ap, List, [], arith, nat_eq,
  All, any,
}
use firstgreen.Prelude.Result.{
  Result, ok, err, runtime_error, raise_if, ◌>>◌, >>=-eq-ok, raise_if-eq-ok,
}
use firstgreen.Db.Sql.{update_where, rowcount}
use firstgreen.Planning.StateMachine.{
  IssueState, awaiting_plan_approval, plan_approved, require_planning_transition,
}
use firstgreen.Planning.Candidate.{CandidatePlan}
use firstgreen.Planning.Store.{
  RequestRow, Store, Engine, go_on, ◌>>>◌, call, close, transaction, is_request, at_state,
  enter_state, moved, change, transition,
}
use firstgreen.Planning.Proposals.{PlanningConfig}
use firstgreen.Planning.Workflow.Stable.{Session, Session-keeps}
use firstgreen.Planning.Workflow.Approved.{empty_store, Session-IsKept}
use firstgreen.Planning.Workflow.Closed.{
  IsDecided, IsClosed, any-updated, IsClosed-IsStable, none_waiting, approved-decided,
}
use firstgreen.Planning.Workflow.{PlanningOutcome, approve, eligible, store_approved, approved_plan}

pub >>>-eq-ok :
    {A B : Type 0} (m : Engine A) (f : A → Engine B) (s : Store) {b : B} {t : Store}
    → (m >>> f) s ≡ (ok b, t)
    → (a : A) × (u : Store) × (m s ≡ (ok a, u)) × (f a u ≡ (ok b, t))
unfolding ◌>>>◌
>>>-eq-ok {A} {B} m f s {b} {t} e = go (m s) refl e
  where
    go :
        (r : Result A × Store)
        → m s ≡ r
        → go_on r f ≡ (ok b, t)
        → (a : A) × (u : Store) × (m s ≡ (ok a, u)) × (f a u ≡ (ok b, t))
    go (ok a, u) q h = (a, u, q, h)
    go (err x, u) q h = absurd (clash (ap (λ p. p.0) h))
      where
        clash : err x ≡ ok b → ⊥
        clash h = cc

-- What holds if a call returns.
abbrev pub Ends : {B : Type 0} → (B → Store → Type 0) → Result B × Store → Type 0
Ends P (ok b, t) = P b t
Ends P (err x, t) = Unit

pub then-Ends :
    {A B : Type 0} (P : B → Store → Type 0) (m : Engine A) (f : A → Engine B) (s : Store)
    → ((a : A) (u : Store) → m s ≡ (ok a, u) → Ends P (f a u))
    → Ends P ((m >>> f) s)
unfolding ◌>>>◌
then-Ends {A} {B} P m f s h = go (m s) (λ a u e. h a u e)
  where
    go :
        (r : Result A × Store)
        → ((a : A) (u : Store) → r ≡ (ok a, u) → Ends P (f a u))
        → Ends P (go_on r f)
    go (ok a, u) k = k a u refl
    go (err x, u) k = tt

-- A transaction that returned.
pub transaction-eq-ok :
    (body : Store → Result Store) (s : Store) {d : Unit {0}} {t : Store}
    → transaction body s ≡ (ok d, t)
    → body s ≡ ok t
transaction-eq-ok body s {d} {t} e = go (body s) refl e
  where
    go : (r : Result Store) → body s ≡ r → close s r ≡ (ok d, t) → body s ≡ ok t
    go (ok u) q h = q ∙ ap ok (ap (λ p. p.1) h)
    go (err x) q h = absurd (clash (ap (λ p. p.0) h))
      where
        clash : err x ≡ ok d → ⊥
        clash h = cc

-- What a transition that returned has found and done.
pub transition-eq-ok :
    (id : String) (current new : IssueState) (s : Store) {d : Unit {0}} {t : Store}
    → transition id current new s ≡ (ok d, t)
    → (rowcount (at_state id current) s.requests ≡ 1) × (moved id current new s ≡ t)
unfolding transition
transition-eq-ok id current new s {d} {t} e =
    let last = ok (moved id current new s) in
    let lost = not (nat_eq (rowcount (at_state id current) s.requests) 1) in
    let (_, _, e₁) =
      >>=-eq-ok (require_planning_transition current new)
        (λ done. raise_if lost runtime_error >> last)
        (transaction-eq-ok (change id current new) s e) in
    let (found, e₂) = raise_if-eq-ok lost runtime_error last e₁ in (ground arith, cc)

requests_of : Result Store → List RequestRow
requests_of (ok s) = s.requests
requests_of (err e) = []

module _ (config : PlanningConfig) where
  -- The parts of an approval that returned.
  pub record IsEntered (outcome : PlanningOutcome) (p : CandidatePlan) (s t : Store) : Type 0 where
    pub between : Store
    pub same_requests : between.requests ≡ s.requests
    pub was_waiting : rowcount (at_state outcome.request_id awaiting_plan_approval) s.requests ≡ 1
    pub returned : approved_plan outcome ≡ p
    pub entered : moved outcome.request_id awaiting_plan_approval plan_approved between ≡ t

  pub approve-IsEntered :
      (outcome : PlanningOutcome) (automatic : Bool) (s : Store) {p : CandidatePlan} {t : Store}
      → approve config outcome automatic s ≡ (ok p, t)
      → IsEntered outcome p s t
  unfolding approve requests_of
  approve-IsEntered outcome automatic s {p} {t} e =
      let (_, u, e₁, e₂) = >>>-eq-ok (call (eligible config outcome automatic)) _ s e in
      let (_, v, e₃, e₄) = >>>-eq-ok (transaction (store_approved outcome)) _ u e₂ in
      let (_, w, e₅, e₆) =
        >>>-eq-ok (transition outcome.request_id awaiting_plan_approval plan_approved) _ v e₄ in
      let (one_row, done) =
        transition-eq-ok outcome.request_id awaiting_plan_approval plan_approved v e₅ in
      let written = transaction-eq-ok (store_approved outcome) u e₃ in
      let same : v.requests ≡ s.requests =
        sym (ap (λ (r : Result (Unit {0}) × Store). (r.1).requests) e₁ ∙ ap requests_of written) in
      record {
        between = v;
        same_requests = same;
        was_waiting =
            subst (λ rows. rowcount (at_state outcome.request_id awaiting_plan_approval) rows ≡ 1)
              same one_row;
        returned = cc;
        entered = done ∙ ap (λ r. r.1) e₆;
      }

-- After an approval that returned, every later approval of the same request raises, whichever plan
-- and configuration it is given, whatever was planned, edited or approved in between, and whether
-- those calls returned or raised.
pub approve_once :
    (config other : PlanningConfig) (outcome later : PlanningOutcome) (automatic again : Bool)
    {s t u v : Store} {p q : CandidatePlan}
    → Session empty_store s
    → approve config outcome automatic s ≡ (ok p, t)
    → Session t u
    → later.request_id ≡ outcome.request_id
    → approve other later again u ≢ (ok q, v)
approve_once config other outcome later automatic again {s} {t} {u} before e between same e₂ =
    let id = outcome.request_id in
    let first = approve-IsEntered config outcome automatic s e in
    let second = approve-IsEntered other later again u e₂ in
    let (decided, there) =
      approved-decided id s.requests (Session-IsKept before).keys first.was_waiting in
    let closing = at_state id awaiting_plan_approval in
    let after : update_where closing (enter_state plan_approved) s.requests ≡ t.requests =
      ap (update_where closing (enter_state plan_approved)) (sym first.same_requests)
      ∙ ap (λ (x : Store). x.requests) first.entered in
    let closed : IsClosed id t = record {
      decided = subst (All (IsDecided id)) after decided;
      present =
          subst (λ rows. any (is_request id) rows ≡ true) after
            (any-updated id closing (enter_state plan_approved) s.requests (λ r. refl) ∙ there);
    } in
    let still = Session-keeps (IsClosed id) (IsClosed-IsStable id) between closed in
    let found =
      subst (λ x. rowcount (at_state x awaiting_plan_approval) u.requests ≡ 1) same
        second.was_waiting in
    zero-ne-one (sym (none_waiting id u.requests still.decided) ∙ found)
  where
    zero-ne-one : zero ≡ suc zero → ⊥
    zero-ne-one h = cc
