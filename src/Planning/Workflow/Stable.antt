-- ===== src/Planning/Workflow/Stable.antt =====
-- src/firstgreen/planning/workflow.py, `PlanningEngine`: what each transaction of the engine keeps
-- true, all of its calls keep true, in whatever order they come and whether they return or raise.
use firstgreen.Prelude.{String, Bool, true, false, not, ◌≡◌, refl, List, arith, ◌==◌}
use firstgreen.Prelude.Result.{Result, ok, err, value_error, >>=-eq-ok, raise_if-eq-ok}
use firstgreen.Planning.StateMachine.{
  IssueState, issue_value, received, repo_scanning, planning, plan_validation,
  awaiting_plan_approval, plan_approved,
}
use firstgreen.Planning.Models.{RepositoryMap}
use firstgreen.Planning.Texts.{Host}
use firstgreen.Planning.Candidate.{is_valid, CandidatePlan}
use firstgreen.Planning.Compile.{compile_plan}
use firstgreen.Planning.Compile.Sound.{compiled-unapproved}
use firstgreen.Planning.Store.{
  RequestRow, Store, Engine, go_on, ◌>>>◌, call, close, transaction, transition, insert_request,
}
use firstgreen.Planning.Proposals.{PlanningConfig, Outside, proposal_for}
use firstgreen.Planning.Workflow.{
  PlanningOutcome, plan_issue, approve, revised, replace_candidate, note_failure, store_map,
  store_candidate, eligible, store_approved, store_edited, request_row, analysis_if, revalidated,
}

revised-unapproved :
    (host : Host) (syntax_check : String) (config : PlanningConfig) (allow deny : List String)
    (scan : Result RepositoryMap) (outcome : PlanningOutcome) (candidate : CandidatePlan)
    {plan : CandidatePlan}
    → revised host syntax_check config allow deny scan outcome candidate ≡ ok plan
    → plan.approved ≡ false
unfolding revised
revised-unapproved host syntax_check config allow deny scan outcome candidate e =
    let (_, e₁) = raise_if-eq-ok (not (candidate.repo == outcome.plan.repo)) value_error _ e in
    let (_, e₂) =
      raise_if-eq-ok (not (candidate.commit_sha == outcome.plan.commit_sha)) value_error _ e₁ in
    let (m, _, e₃) = >>=-eq-ok scan _ e₂ in
    let (_, e₄) = raise_if-eq-ok (not (m.commit_sha == candidate.commit_sha)) value_error _ e₃ in
    let (a, _, e₅) =
      >>=-eq-ok
        (analysis_if (is_valid (revalidated host syntax_check config allow deny m candidate))
          candidate)
        _ e₄ in
    ground arith

module _ (P : Store → Type 0) where
  abbrev pub Keeps : {A : Type 0} → Engine A → Type 0
  Keeps m = (s : Store) → P s → P ((m s).1)

  then-Keeps :
      {A B : Type 0} (m : Engine A) (f : A → Engine B)
      → Keeps m
      → ((a : A) → Keeps (f a))
      → Keeps (m >>> f)
  unfolding ◌>>>◌
  then-Keeps m f h k s i = go (m s) (h s i)
    where
      go : (r : Result _ × Store) → P (r.1) → P ((go_on r f).1)
      go (ok a, t) j = k a t j
      go (err e, t) j = j

  call-Keeps :
      {A B : Type 0} (r : Result A) (f : A → Engine B)
      → ((a : A) → r ≡ ok a → Keeps (f a))
      → Keeps (call r >>> f)
  unfolding ◌>>>◌
  call-Keeps (ok a) f k s i = k a refl s i
  call-Keeps (err e) f k s i = i

  pub transaction-Keeps :
      (body : Store → Result Store)
      → ((s t : Store) → P s → body s ≡ ok t → P t)
      → Keeps (transaction body)
  transaction-Keeps body h s i = go (body s) (λ t e. h s t i e)
    where
      go : (r : Result Store) → ((t : Store) → r ≡ ok t → P t) → P ((close s r).1)
      go (ok t) j = j t refl
      go (err e) j = i

  -- The transactions that the engine makes keep `P`.
  pub record IsStable : Type 0 where
    pub transitions :
        (id : String) (current new : IssueState)
        → (issue_value current == "plan_approved") ≡ false
        → Keeps (transition id current new)
    pub requests : (row : RequestRow) → Keeps (transaction (insert_request row))
    pub maps : (id : String) (m : RepositoryMap) → Keeps (transaction (store_map id m))
    pub failures : (id : String) (b : Bool) → Keeps (transaction (note_failure id b))
    pub candidates :
        (request_id plan_id : String) (plan : CandidatePlan)
        → plan.approved ≡ false
        → Keeps (transaction (store_candidate request_id plan_id plan))
    pub approvals :
        (outcome : PlanningOutcome)
        → is_valid outcome.plan.validation ≡ true
        → Keeps (transaction (store_approved outcome))
    pub edits :
        (outcome : PlanningOutcome) (plan : CandidatePlan)
        → plan.approved ≡ false
        → Keeps (transaction (store_edited outcome plan))

module _ (P : Store → Type 0) (h : IsStable P) where
  approve-Keeps :
      (config : PlanningConfig) (outcome : PlanningOutcome) (automatic : Bool)
      → Keeps P (approve config outcome automatic)
  unfolding approve
  approve-Keeps config outcome automatic =
      call-Keeps P (eligible config outcome automatic) _ (λ passed e.
        then-Keeps P (transaction (store_approved outcome)) _ (h.approvals outcome (ground arith))
          (λ stored.
            then-Keeps P (transition outcome.request_id awaiting_plan_approval plan_approved) _
              (h.transitions outcome.request_id awaiting_plan_approval plan_approved refl)
              (λ entered s i. i)))

  module _ (host : Host) (syntax_check : String) (config : PlanningConfig)
      (allow deny : List String) where
    plan_issue-Keeps :
        (outside : Outside) (request_id plan_id issue repo : String) (mode_none : Bool)
        → Keeps P (
            plan_issue host syntax_check config allow deny outside request_id plan_id issue repo
              mode_none)
    unfolding plan_issue
    plan_issue-Keeps outside request_id plan_id issue repo mode_none =
        then-Keeps P (transaction (insert_request (request_row request_id issue repo))) _
          (h.requests (request_row request_id issue repo))
          (λ inserted.
            then-Keeps P (transition request_id received repo_scanning) _
              (h.transitions request_id received repo_scanning refl)
              (λ scanning. call-Keeps P outside.scan _ (λ m scanned.
                then-Keeps P (transaction (store_map request_id m)) _ (h.maps request_id m)
                  (λ stored.
                    then-Keeps P (transition request_id repo_scanning planning) _
                      (h.transitions request_id repo_scanning planning refl)
                      (λ planned.
                        call-Keeps P (proposal_for host config outside issue mode_none m) _
                          (λ p proposed.
                            then-Keeps P (transaction (note_failure request_id (p.1))) _
                              (h.failures request_id (p.1))
                              (λ noted.
                                then-Keeps P (transition request_id planning plan_validation) _
                                  (h.transitions request_id planning plan_validation refl)
                                  (λ validating.
                                    call-Keeps P
                                      (compile_plan host syntax_check issue m (p.0)
                                        config.decomposition allow deny)
                                      _
                                      (λ plan compiled.
                                        then-Keeps P
                                          (transaction (store_candidate request_id plan_id plan)) _
                                          (h.candidates request_id plan_id plan (
                                            compiled-unapproved host syntax_check issue m (p.0)
                                              config.decomposition allow deny compiled))
                                          (λ kept.
                                            then-Keeps P
                                              (transition request_id plan_validation
                                                awaiting_plan_approval)
                                              _
                                              (h.transitions request_id plan_validation
                                                awaiting_plan_approval refl)
                                              (λ waiting s i. i)))))))))))

    replace_candidate-Keeps :
        (scan : Result RepositoryMap) (outcome : PlanningOutcome) (candidate : CandidatePlan)
        → Keeps P (replace_candidate host syntax_check config allow deny scan outcome candidate)
    unfolding replace_candidate
    replace_candidate-Keeps scan outcome candidate =
        call-Keeps P (revised host syntax_check config allow deny scan outcome candidate) _
          (λ plan e.
            then-Keeps P (transaction (store_edited outcome plan)) _
              (h.edits outcome plan
                (revised-unapproved host syntax_check config allow deny scan outcome candidate e))
              (λ stored s i. i))

-- The stores that calls of the engine lead to, whether they return or raise.
pub data Session (s₀ : Store) : Store → Type 0 where
  opened : Session s₀ s₀
  planned :
      (host : Host) (syntax_check : String) (config : PlanningConfig) (allow deny : List String)
      (outside : Outside) (request_id plan_id issue repo : String) (mode_none : Bool) {s : Store}
      → Session s₀ s
      → Session s₀ (
          (plan_issue host syntax_check config allow deny outside request_id plan_id issue repo
            mode_none s).1)
  approved :
      (config : PlanningConfig) (outcome : PlanningOutcome) (automatic : Bool) {s : Store}
      → Session s₀ s
      → Session s₀ ((approve config outcome automatic s).1)
  replaced :
      (host : Host) (syntax_check : String) (config : PlanningConfig) (allow deny : List String)
      (scan : Result RepositoryMap) (outcome : PlanningOutcome) (candidate : CandidatePlan)
      {s : Store}
      → Session s₀ s
      → Session s₀
          ((replace_candidate host syntax_check config allow deny scan outcome candidate s).1)

-- What the transactions of the engine keep, a session keeps.
pub Session-keeps : (P : Store → Type 0) → IsStable P → {s₀ s : Store} → Session s₀ s → P s₀ → P s
Session-keeps P h opened i = i
Session-keeps P h
      (planned host syntax_check config allow deny outside request_id plan_id issue repo mode_none
        {s = s} before)
      i =
    plan_issue-Keeps P h host syntax_check config allow deny outside request_id plan_id issue repo
      mode_none s (Session-keeps P h before i)
Session-keeps P h (approved config outcome automatic {s = s} before) i =
    approve-Keeps P h config outcome automatic s (Session-keeps P h before i)
Session-keeps P h
      (replaced host syntax_check config allow deny scan outcome candidate {s = s} before) i =
    replace_candidate-Keeps P h host syntax_check config allow deny scan outcome candidate s
      (Session-keeps P h before i)
