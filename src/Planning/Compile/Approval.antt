-- ===== src/Planning/Compile/Approval.antt =====
-- src/firstgreen/planning/compiler.py, `can_auto_approve`: which compiled plans need no person.
use firstgreen.Prelude.{
  All, String, Bool, true, false, ◌≡◌, refl, sym, ◌∙◌, ap, List, [], ◌∷◌, ◌++◌, arith, is_empty,
}
use firstgreen.Prelude.Result.{ok}
use firstgreen.Planning.Models.{
  RepositoryMap, RiskLevel, low, medium, high, PlanTask, PlannerProposal,
}
use firstgreen.Planning.Texts.{Host}
use firstgreen.Planning.Candidate.{is_valid, CandidatePlan, risk_of, can_auto_approve}
use firstgreen.Planning.Merge.{gather}
use firstgreen.Planning.Compile.{DecompositionConfig, compile_plan}
use firstgreen.Planning.Compile.Sound.{as_proposed, as_one, compile-IsCompiled}

gathered-none :
    (ts : List PlanTask)
    → is_empty (gather (λ (t : PlanTask). t.risk_tags) ts) ≡ true
    → All (λ (t : PlanTask). t.risk_tags ≡ []) ts
gathered-none [] h = tt
gathered-none (t ∷ ts) h =
    let (a, b) = append-empty t.risk_tags (gather (λ (u : PlanTask). u.risk_tags) ts) h in
    (a, gathered-none ts b)
  where
    append-empty :
        (xs ys : List String) → is_empty (xs ++ ys) ≡ true → (xs ≡ []) × (is_empty ys ≡ true)
    append-empty [] ys h = (refl, h)
    append-empty (x ∷ xs) ys h = absurd (cc)

low-tags : (ts : List PlanTask) → risk_of ts ≡ low → All (λ (t : PlanTask). t.risk_tags ≡ []) ts
unfolding risk_of
low-tags ts h = gathered-none ts (ground arith)

-- A compiled plan that may be approved without a person is valid and was not repaired, and none of
-- its tasks carries a tag of risk.
pub approved-IsHarmless :
    (host : Host) (syntax_check issue : String) (m : RepositoryMap) (proposal : PlannerProposal)
    (config : DecompositionConfig) (allow deny manual : List String) (policy : Bool)
    {p : CandidatePlan}
    → compile_plan host syntax_check issue m proposal config allow deny ≡ ok p
    → can_auto_approve p manual policy ≡ true
    → (is_valid p.validation ≡ true)
      × (is_empty p.validation.repairs ≡ true)
      × All (λ (t : PlanTask). t.risk_tags ≡ []) p.tasks
unfolding can_auto_approve
approved-IsHarmless host syntax_check issue m proposal config allow deny manual policy {p} e h = (
  ground arith,
  ground arith,
  low-tags p.tasks (compiled_risk ∙ low_risk p.risk_level (ground arith)),
)
  where
    low_risk :
        (r : RiskLevel)
        → elim r as (λ _. Bool) [ low ↦ true | medium ↦ false | high ↦ false ] ≡ true
        → r ≡ low
    low_risk low h = refl
    low_risk medium h = absurd (cc)
    low_risk high h = absurd (cc)

    compiled_risk : risk_of p.tasks ≡ p.risk_level
    compiled_risk =
        elim (compile-IsCompiled host syntax_check issue m proposal config allow deny e) [
          | as_proposed c ↦ ap risk_of c.same_tasks ∙ sym c.risk
          | as_one v c ↦ ap risk_of c.same_tasks ∙ sym c.risk
        ]
