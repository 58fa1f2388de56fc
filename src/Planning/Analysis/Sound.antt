-- ===== src/Planning/Analysis/Sound.antt =====
-- What an analysis of src/firstgreen/planning/parallelism.py says of the plan.
use firstgreen.Prelude.{
  ℕ, ◌+◌, ◌*◌, ◌≤◌, max, String, true, false, not, ◌≡◌, ◌∙◌, ap, sym, List, [], ◌∷◌, arith, length,
  distinct, is_empty, Within,
}
use firstgreen.Prelude.Result.{ok, value_error, raise_if, ◌>>◌, ◌>>=◌, >>=-eq-ok, raise_if-eq-ok}
use firstgreen.Planning.Models.{PlanTask, ParallelismAnalysis}
use firstgreen.Planning.Parallelism.{Ancestors, plan_ids, ancestors, ready_width}
use firstgreen.Planning.Schedule.{Timeline, timeline, critical_path}
use firstgreen.Planning.Schedule.Placed.{timeline-IsPlaced}
use firstgreen.Planning.Schedule.Chains.{IsChain, total}
use firstgreen.Planning.Schedule.Critical.{chains_fit, critical-IsWalked}
use firstgreen.Planning.Analysis.{work_of, span_of, ratio, recommend, assess, analyze_parallelism}

-- The parts of an analysis that succeeded.
pub record IsAnalysed (slots : ℕ) (tasks : List PlanTask) (a : ParallelismAnalysis) : Type 0 where
  pub some_task : is_empty tasks ≡ false
  pub unique : distinct (plan_ids tasks) ≡ true
  pub lineage : Ancestors
  pub lineage_eq : ancestors tasks ≡ ok lineage
  pub times : Timeline
  pub times_eq : timeline tasks ≡ ok times
  pub work : a.estimated_work ≡ work_of tasks
  pub span : a.estimated_span ≡ span_of times
  pub path : a.critical_path ≡ critical_path times
  pub width : a.ready_width ≡ ready_width lineage tasks
  pub exposed : a.exposed_parallelism ≡ max 1000 (ratio (work_of tasks) (span_of times))
  pub recommended :
      a.recommended_root_slots ≡ recommend slots (length tasks) a.ready_width a.exposed_parallelism
  pub at_most : a.recommended_root_slots ≤ 5

assess-IsAnalysed :
    (slots : ℕ) (tasks : List PlanTask) (m : Ancestors) (es : Timeline) {a : ParallelismAnalysis}
    → is_empty tasks ≡ false
    → distinct (plan_ids tasks) ≡ true
    → ancestors tasks ≡ ok m
    → timeline tasks ≡ ok es
    → assess slots tasks m es ≡ ok a
    → IsAnalysed slots tasks a
unfolding assess
assess-IsAnalysed slots tasks m es f u em et e = record {
  some_task = f;
  unique = u;
  lineage = m;
  lineage_eq = em;
  times = es;
  times_eq = et;
  work = ground arith;
  span = ground arith;
  path = ground arith;
  width = ground arith;
  exposed = ground arith;
  recommended = ground arith;
  at_most = ground arith;
}

pub analyze-IsAnalysed :
    (slots : ℕ) (tasks : List PlanTask) {a : ParallelismAnalysis}
    → analyze_parallelism slots tasks ≡ ok a
    → IsAnalysed slots tasks a
unfolding analyze_parallelism
analyze-IsAnalysed slots tasks {a} e =
    let body = ancestors tasks >>= λ m. timeline tasks >>= λ es. assess slots tasks m es in
    let (f, e₁) =
      raise_if-eq-ok (is_empty tasks) value_error
        (raise_if (not (distinct (plan_ids tasks))) value_error >> body) e in
    let (u, e₂) = raise_if-eq-ok (not (distinct (plan_ids tasks))) value_error body e₁ in
    let (m, em, e₃) =
      >>=-eq-ok (ancestors tasks) (λ m. timeline tasks >>= λ es. assess slots tasks m es) e₂ in
    let (es, et, e₄) = >>=-eq-ok (timeline tasks) (λ es. assess slots tasks m es) e₃ in
    assess-IsAnalysed slots tasks m es f (ground arith) em et e₄

pub record IsSpan (tasks : List PlanTask) (a : ParallelismAnalysis) : Type 0 where
  pub chain : IsChain tasks a.critical_path
  pub members : Within a.critical_path (plan_ids tasks)
  pub attained : total tasks a.critical_path ≡ a.estimated_span
  pub longest :
      (x : String) (xs : List String)
      → Within (x ∷ xs) (plan_ids tasks)
      → IsChain tasks (x ∷ xs)
      → total tasks (x ∷ xs) ≤ a.estimated_span

-- The critical path of an analysis is a chain of dependencies through tasks of the plan, and takes
-- the estimated span. No other chain of dependencies in the plan takes longer, however long it is.
pub analyze-IsSpan :
    (slots : ℕ) (tasks : List PlanTask) {a : ParallelismAnalysis}
    → analyze_parallelism slots tasks ≡ ok a
    → IsSpan tasks a
unfolding span_of
analyze-IsSpan slots tasks {a} e =
    let v = analyze-IsAnalysed slots tasks e in
    let (placed, done, only) = timeline-IsPlaced tasks v.unique v.times_eq in
    let (c, t, m) = critical-IsWalked tasks (plan_ids tasks) v.times placed done only in
    record {
      chain = rw v.path c;
      members = rw v.path m;
      attained = ap (total tasks) v.path ∙ t ∙ sym v.span;
      longest = λ x xs w i.
          omega
            (arith, v.span, chains_fit tasks (plan_ids tasks) v.times placed done only x xs w i);
    }

recommend_bounds :
    (slots count width exposed : ℕ)
    → 1 ≤ count
    → 1000 ≤ exposed
    → (1 ≤ recommend slots count width exposed)
      × (recommend slots count width exposed ≤ max 1 width)
      × (recommend slots count width exposed ≤ count)
      × (recommend slots count width exposed ≤ max 1 slots)
      × (recommend slots count width exposed * 1000 ≤ exposed + 999)
unfolding recommend
recommend_bounds slots count width exposed h k = omega arith

length-pos : (tasks : List PlanTask) → is_empty tasks ≡ false → 1 ≤ length tasks
length-pos [] e = absurd (cc)
length-pos (t ∷ ts) e = omega arith

-- The recommended number of root slots is at least one; it is at most the ready width, the number of
-- tasks, the given limit and five, and at most the exposed parallelism rounded up.
pub analyze_slots :
    (slots : ℕ) (tasks : List PlanTask) {a : ParallelismAnalysis}
    → analyze_parallelism slots tasks ≡ ok a
    → (1 ≤ a.recommended_root_slots)
      × (a.recommended_root_slots ≤ max 1 a.ready_width)
      × (a.recommended_root_slots ≤ length tasks)
      × (a.recommended_root_slots ≤ max 1 slots)
      × (a.recommended_root_slots ≤ 5)
      × (a.recommended_root_slots * 1000 ≤ a.exposed_parallelism + 999)
analyze_slots slots tasks {a} e =
    let v = analyze-IsAnalysed slots tasks e in
    let b =
      recommend_bounds slots (length tasks) a.ready_width a.exposed_parallelism
        (length-pos tasks v.some_task) (omega (arith, v.exposed)) in
    omega (arith, v.recommended, v.at_most, b)
