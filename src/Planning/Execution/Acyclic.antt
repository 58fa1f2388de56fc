-- ===== src/Planning/Execution/Acyclic.antt =====
-- Plans that src/firstgreen/planning/parallelism.py accepts have no cycle.
use firstgreen.Prelude.{
  ℕ, suc, ◌<◌, ◌≤◌, String, true, false, ◌≡◌, refl, subst, sym, ◌∙◌, All, distinct, List, [], ◌∷◌,
  arith, ◌==◌, eq_iff, eq_refl, if◌then◌else◌, Bool-cases, Option-cases, inl, inr, All-mem, length,
  mem, mem-keep, is_some,
}
use firstgreen.Prelude.Result.{ok}
use firstgreen.Planning.Models.{PlanTask, ParallelismAnalysis}
use firstgreen.Planning.Parallelism.{by_id, plan_ids, deps_of}
use firstgreen.Planning.Schedule.{Timeline, is_done}
use firstgreen.Planning.Schedule.Placed.{IsPlaced, AllDone, timeline-IsPlaced}
use firstgreen.Planning.Schedule.Chains.{done-split, done-other, placed-Settled}
use firstgreen.Planning.Cycles.{cycle_nodes}
use firstgreen.Planning.Cycles.Complete.{by_id-none, deps-known, ranked-cycle_nodes}
use firstgreen.Planning.Analysis.{analyze_parallelism}
use firstgreen.Planning.Analysis.Sound.{analyze-IsAnalysed}

-- How many entries there were when a key was placed, and one more.
pub place_of : Timeline → String → ℕ
place_of [] key = 0
place_of (e ∷ es) key = if e.task_id == key then suc (length es) else place_of es key

place-le : (es : Timeline) (k : String) → place_of es k ≤ length es
unfolding place_of
place-le [] k = omega arith
place-le (e ∷ es) k = ground (arith, place-le es k)

module _ (tasks : List PlanTask) where
  -- A dependency is placed before its dependent.
  pub place-lt :
      (es : Timeline) (k d : String)
      → IsPlaced tasks es
      → is_done k es ≡ true
      → mem d (deps_of tasks k) ≡ true
      → place_of es d < place_of es k
  unfolding place_of is_done
  place-lt [] k d p h m = absurd (cc)
  place-lt (e ∷ es) k d p h m = elim (Bool-cases (e.task_id == k)) [
    | inl same ↦
        let known =
          subst (λ z. AllDone tasks (deps_of tasks z) es) ((eq_iff (e.task_id) k).0 same) p.1 in
        let old = All-mem (λ j. is_done j es ≡ true) d (deps_of tasks k) m known in
        rw (same, done-other d e es p.0 old) (omega (arith, place-le es d))
    | inr other ↦
        let old = done-split k e es h other in
        let lower = place-lt es k d p.3 old m in
        let s = placed-Settled tasks k es p.3 old in
        let before = All-mem (λ j. is_done j es ≡ true) d (deps_of tasks k) m s.deps_done in
        rw (other, done-other d e es p.0 before) lower
  ]

-- What an accepted plan gives for its dependencies: they are tasks of the plan, placed earlier.
pub record IsOrdered (tasks : List PlanTask) : Type 0 where
  pub place : String → ℕ
  pub known : (x d : String) → mem d (deps_of tasks x) ≡ true → mem d (plan_ids tasks) ≡ true
  pub earlier : (x d : String) → mem d (deps_of tasks x) ≡ true → place d < place x

pub analyze-IsOrdered :
    (slots : ℕ) (tasks : List PlanTask) {a : ParallelismAnalysis}
    → analyze_parallelism slots tasks ≡ ok a
    → IsOrdered tasks
analyze-IsOrdered slots tasks e =
    let v = analyze-IsAnalysed slots tasks e in
    let (placed, done, only) = timeline-IsPlaced tasks v.unique v.times_eq in
    record {
      place = place_of v.times;
      known = λ x d m. elim (Bool-cases (mem d (plan_ids tasks))) [
        | inl i ↦ i
        | inr n ↦
            let at =
              All-mem (λ j. is_done j v.times ≡ true) x (plan_ids tasks) (deps-known tasks x d m)
                done in
            let s = placed-Settled tasks x v.times placed at in
            absurd (
              clash (
                sym (only d n)
                ∙ All-mem (λ j. is_done j v.times ≡ true) d (deps_of tasks x) m s.deps_done))
      ];
      earlier = λ x d m.
          place-lt tasks v.times x d placed
            (All-mem (λ j. is_done j v.times ≡ true) x (plan_ids tasks) (deps-known tasks x d m)
              done)
            m;
    }
  where
    clash : false ≡ true → ⊥
    clash h = cc

-- A plan that the analysis accepts has no cycle that the search of the compiler would report.
pub analyze-acyclic :
    (slots : ℕ) (tasks : List PlanTask) {a : ParallelismAnalysis}
    → analyze_parallelism slots tasks ≡ ok a
    → cycle_nodes tasks ≡ []
analyze-acyclic slots tasks e =
    let o = analyze-IsOrdered slots tasks e in
    ranked-cycle_nodes tasks o.place (λ x d m.
      o.earlier x d (ground (arith, mem-keep (λ j. is_some (by_id tasks j)) d (deps_of tasks x))))

by_id-some :
    (ts : List PlanTask) (x : String) → mem x (plan_ids ts) ≡ true → is_some (by_id ts x) ≡ true
unfolding by_id
by_id-some [] x m = cc
by_id-some (t ∷ ts) x m = elim (Option-cases (by_id ts x)) [
  | inr (u, found) ↦ rw found refl
  | inl none_left ↦ elim (Bool-cases (mem x (plan_ids ts))) [
    | inl later ↦ absurd (clash (subst (λ o. is_some o ≡ true) none_left (by_id-some ts x later)))
    | inr n ↦ rw none_left (ground (arith, n, m, eq_iff t.id x, eq_iff x t.id))
  ]
]
  where
    clash : false ≡ true → ⊥
    clash h = cc

pub deps-first :
    (t : PlanTask) (ts : List PlanTask)
    → mem t.id (plan_ids ts) ≡ false
    → deps_of (t ∷ ts) t.id ≡ t.dependencies
unfolding deps_of by_id
deps-first t ts n = ground (arith, by_id-none ts t.id n, eq_refl t.id)

pub deps-later :
    (t : PlanTask) (ts : List PlanTask) (x : String)
    → mem x (plan_ids ts) ≡ true
    → deps_of (t ∷ ts) x ≡ deps_of ts x
unfolding deps_of by_id
deps-later t ts x m = elim (Option-cases (by_id ts x)) [
  | inr (u, found) ↦ ground (arith, found)
  | inl none_left ↦ absurd (clash (subst (λ o. is_some o ≡ true) none_left (by_id-some ts x m)))
]
  where
    clash : false ≡ true → ⊥
    clash h = cc

pub deps-none : (ts : List PlanTask) (x : String) → mem x (plan_ids ts) ≡ false → deps_of ts x ≡ []
unfolding deps_of
deps-none ts x n = ground (arith, by_id-none ts x n)

-- Under distinct ids, what holds of every key's dependencies holds of every task's.
pub each-task :
    (P : String → List String → Type 0) (tasks : List PlanTask)
    → distinct (plan_ids tasks) ≡ true
    → ((x : String) → mem x (plan_ids tasks) ≡ true → P x (deps_of tasks x))
    → All (λ (t : PlanTask). P t.id t.dependencies) tasks
each-task P [] d f = tt
each-task P (t ∷ ts) d f =
    let n : mem t.id (plan_ids ts) ≡ false = ground arith in
    (
      subst (P t.id) (deps-first t ts n) (f t.id (ground (arith, eq_refl t.id))),
      each-task P ts (ground arith)
          (λ x m. subst (P x) (deps-later t ts x m) (f x (ground (arith, m)))),
    )
