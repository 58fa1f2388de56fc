-- ===== src/Planning/Workflow/Planned.antt =====
-- src/firstgreen/planning/workflow.py, `plan_issue`: what it has done when it returns, and what follows
-- for the run of the plan that is approved.
use firstgreen.Prelude.{
  ℕ, ◌+◌, String, Bool, true, false, not, ◌||◌, ◌≡◌, refl, sym, subst, ap, List, [], ◌∷◌, ◌++◌,
  arith, ◌==◌, any, eq_refl, is_empty, Bool-cases, inl, inr,
}
use mathlib.Core.List.{Memᴰ}
use mathlib.Core.List.Memᴰ.{head, tail}
use firstgreen.Prelude.Result.{
  ok, integrity_error, raise_if, ◌>>◌, >>=-eq-ok, raise_if-eq-ok, Returns,
}
use firstgreen.Db.Sql.{update_where, rowcount}
use firstgreen.Service.Loop.{World, run_started}
use firstgreen.Service.Loop.Accounting.{IsWaiting}
use firstgreen.Service.Loop.Outcome.{HonestAnswer}
use firstgreen.Planning.StateMachine.{
  IssueState, received, repo_scanning, planning, plan_validation, awaiting_plan_approval,
  issue_value,
}
use firstgreen.Planning.Models.{RepositoryMap, PlannerProposal, PlanTask}
use firstgreen.Planning.Texts.{Host}
use firstgreen.Planning.Candidate.{is_valid, CandidatePlan}
use firstgreen.Planning.Compile.{compile_plan}
use firstgreen.Planning.Execution.{Policy, plan_to_manifest, lacks_command}
use firstgreen.Planning.Execution.Runs.{planned_run}
use firstgreen.Planning.Store.{
  RequestRow, CandidateRow, Store, call, transaction, at_state, enter_state, moved, transition,
  is_request, insert_request, insert_candidate, insert_validation, ValidationRow,
}
use firstgreen.Planning.Proposals.{PlanningConfig, Outside, proposal_for}
use firstgreen.Planning.Workflow.{
  PlanningOutcome, request_row, candidate_row, note_failure, store_map, store_candidate, plan_issue,
  approve,
}
use firstgreen.Planning.Workflow.Once.{
  Ends, then-Ends, transaction-eq-ok, transition-eq-ok, approve-IsEntered,
}

moved-waits :
    (id : String) (current new : IssueState) (rows : List RequestRow)
    → rowcount (at_state id current) rows ≡ 1
    → any (at_state id new) (update_where (at_state id current) (enter_state new) rows) ≡ true
unfolding rowcount update_where
moved-waits id current new [] h = absurd (cc)
moved-waits id current new (r ∷ rows) h = elim (Bool-cases (at_state id current r)) [
  | inl here ↦ rw here (ground (arith, here, eq_refl (issue_value new)))
  | inr other ↦
      let counted : 0 + rowcount (at_state id current) rows ≡ 1 = rw other at h in
      let below = moved-waits id current new rows (omega (arith, counted)) in
      rw other (ground (arith, below))
]

snoc-mem : (row : CandidateRow) (rows : List CandidateRow) → Memᴰ row (rows ++ row ∷ [])
snoc-mem row [] = head refl
snoc-mem row (r ∷ rows) = tail (snoc-mem row rows)

store_candidate-mem :
    (request_id plan_id : String) (plan : CandidatePlan) (s t : Store)
    → store_candidate request_id plan_id plan s ≡ ok t
    → Memᴰ (candidate_row request_id plan_id plan) t.candidates
store_candidate-mem request_id plan_id plan s t e =
    let row = candidate_row request_id plan_id plan in
    let noted : ValidationRow = record {
      candidate_id = plan_id;
      valid = is_valid plan.validation;
    } in
    let (u, inserted, later) = >>=-eq-ok (insert_candidate row s) (insert_validation noted) e in
    let written = ok (record s { candidates = s.candidates ++ row ∷ [] }) in
    let orphan = not (any (is_request request_id) s.requests) in
    let (_, e₁) =
      raise_if-eq-ok (any (λ (c : CandidateRow). c.id == plan_id) s.candidates) integrity_error
        (raise_if orphan integrity_error >> written) inserted in
    let (_, e₂) = raise_if-eq-ok orphan integrity_error written e₁ in
    let (_, e₃) =
      raise_if-eq-ok (not (any (λ (c : CandidateRow). c.id == plan_id) u.candidates))
        integrity_error (ok (record u { validations = u.validations ++ noted ∷ [] })) later in
    let same : s.candidates ++ row ∷ [] ≡ t.candidates = ground arith in
    subst (Memᴰ row) same (snoc-mem row s.candidates)

-- What the caller holds of a planned request.
pub record IsPlannedRequest (compiles : CandidatePlan → Type 0) (request_id plan_id : String)
    (o : PlanningOutcome) (t : Store) : Type 0 where
  pub same_request : o.request_id ≡ request_id
  pub same_plan : o.plan_id ≡ plan_id
  pub compiled : compiles o.plan
  pub kept : Memᴰ (candidate_row request_id plan_id o.plan) t.candidates
  pub waiting : any (at_state request_id awaiting_plan_approval) t.requests ≡ true

module _ (host : Host) (syntax_check : String) (config : PlanningConfig)
    (allow deny : List String) where
  -- The plan is compiled from a scan and a proposal for the issue.
  abbrev pub Compiles : Outside → String → CandidatePlan → Type 0
  Compiles outside issue plan =
      (m : RepositoryMap) × (p : PlannerProposal) × (outside.scan ≡ ok m)
      × (compile_plan host syntax_check issue m p config.decomposition allow deny ≡ ok plan)

  finish_planned :
      (outside : Outside) (request_id plan_id issue : String) (m : RepositoryMap)
      (p : PlannerProposal) (plan : CandidatePlan) (s u v : Store)
      → outside.scan ≡ ok m
      → compile_plan host syntax_check issue m p config.decomposition allow deny ≡ ok plan
      → store_candidate request_id plan_id plan s ≡ ok u
      → (rowcount (at_state request_id plan_validation) u.requests ≡ 1)
        × (moved request_id plan_validation awaiting_plan_approval u ≡ v)
      → IsPlannedRequest
          (Compiles outside issue)
          request_id
          plan_id
          (record { request_id = request_id; plan_id = plan_id; plan = plan })
          v
  finish_planned outside request_id plan_id issue m p plan s u v scanned made stored moves =
      record {
        same_request = refl;
        same_plan = refl;
        compiled = (m, p, scanned, made);
        kept =
            subst (λ (x : Store). Memᴰ (candidate_row request_id plan_id plan) x.candidates)
              (moves.1) (store_candidate-mem request_id plan_id plan s u stored);
        waiting =
            subst
              (λ (x : Store). any (at_state request_id awaiting_plan_approval) x.requests ≡ true)
              (moves.1)
              (moved-waits request_id plan_validation awaiting_plan_approval u.requests (moves.0));
      }

  -- When the planning of a request returns, the request waits for its approval, and the plan that
  -- was compiled for its issue from the scanned repository is stored for it, not approved.
  pub plan_issue-IsPlannedRequest :
      (outside : Outside) (request_id plan_id issue repo : String) (mode_none : Bool) (s : Store)
      {o : PlanningOutcome} {t : Store}
      → plan_issue host syntax_check config allow deny outside request_id plan_id issue repo
          mode_none s
        ≡ (ok o, t)
      → IsPlannedRequest (Compiles outside issue) request_id plan_id o t
  unfolding plan_issue
  plan_issue-IsPlannedRequest outside request_id plan_id issue repo mode_none s {o} {t} e =
      subst (Ends Planned) e (
        then-Ends Planned (transaction (insert_request (request_row request_id issue repo))) _ s
          (λ d₁ s₁ _.
            then-Ends Planned (transition request_id received repo_scanning) _ s₁ (λ d₂ s₂ _.
              then-Ends Planned (call outside.scan) _ s₂ (λ m s₃ scanned.
                then-Ends Planned (transaction (store_map request_id m)) _ s₃ (λ d₃ s₄ _.
                  then-Ends Planned (transition request_id repo_scanning planning) _ s₄ (λ d₄ s₅ _.
                    then-Ends Planned (call (proposal_for host config outside issue mode_none m)) _
                      s₅
                      (λ p s₆ _.
                        then-Ends Planned (transaction (note_failure request_id (p.1))) _ s₆
                          (λ d₅ s₇ _.
                            then-Ends Planned (transition request_id planning plan_validation) _ s₇
                              (λ d₆ s₈ _.
                                then-Ends Planned
                                  (call (
                                    compile_plan host syntax_check issue m (p.0)
                                      config.decomposition allow deny))
                                  _ s₈
                                  (λ plan s₉ made.
                                    then-Ends Planned
                                      (transaction (store_candidate request_id plan_id plan)) _ s₉
                                      (λ d₇ u stored.
                                        then-Ends Planned
                                          (transition request_id plan_validation
                                            awaiting_plan_approval)
                                          _ u
                                          (λ d₈ v waits.
                                            finish_planned outside request_id plan_id issue m (p.0)
                                              plan s₉ u v (ap (λ r. r.0) scanned)
                                              (ap (λ r. r.0) made)
                                              (transaction-eq-ok
                                                (store_candidate request_id plan_id plan) s₉ stored)
                                              (transition-eq-ok request_id plan_validation
                                                awaiting_plan_approval u waits)))))))))))))
    where
      Planned : PlanningOutcome → Store → Type 0
      Planned = IsPlannedRequest (Compiles outside issue) request_id plan_id

  -- A request that was planned and approved comes to an end: its manifest can be made if all of its
  -- tasks have commands, and a run of it ends with an honest answer, if each wait returns some of
  -- the tasks that run.
  pub issue_run :
      (outside : Outside) (request_id plan_id issue repo : String) (mode_none automatic : Bool)
      (s : Store) (prompt : PlanTask → List String → String) (replay_safe : Bool) (policy : Policy)
      (w : World) (now : ℕ) (delivered : Bool) {o : PlanningOutcome} {p : CandidatePlan}
      {t u : Store}
      → IsWaiting w
      → plan_issue host syntax_check config allow deny outside request_id plan_id issue repo
          mode_none s
        ≡ (ok o, t)
      → approve config o automatic t ≡ (ok p, u)
      → (any lacks_command p.tasks || any is_empty p.delivery_verifier) ≡ false
      → Returns
          (λ m. Returns (HonestAnswer m delivered) (run_started m w now delivered))
          (plan_to_manifest prompt replay_safe policy false p.tasks p.delivery_verifier)
  issue_run outside request_id plan_id issue repo mode_none automatic s prompt replay_safe policy w
        now delivered {o} {p} {t} wait planned agreed commands =
      let v =
        plan_issue-IsPlannedRequest outside request_id plan_id issue repo mode_none s planned in
      let (m, proposal, _, made) = v.compiled in
      let same = (approve-IsEntered config o automatic t agreed).returned in
      subst
        (λ (q : CandidatePlan).
          Returns (λ k. Returns (HonestAnswer k delivered) (run_started k w now delivered))
            (plan_to_manifest prompt replay_safe policy false q.tasks q.delivery_verifier))
        same
        (planned_run host syntax_check issue m proposal config.decomposition allow deny prompt
          replay_safe policy w now delivered wait made
          (subst
            (λ (q : CandidatePlan).
              (any lacks_command q.tasks || any is_empty q.delivery_verifier) ≡ false)
            (sym same) commands))
