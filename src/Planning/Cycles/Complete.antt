-- ===== src/Planning/Cycles/Complete.antt =====
-- src/firstgreen/planning/compiler.py, `_cycle_nodes`: where dependencies make no cycle, it finds none.
use firstgreen.Prelude.{
  none, some, false, subst, ◌∙◌, eq_iff, ℕ, zero, suc, ◌+◌, ◌<◌, String, true, ◌≡◌, refl, subst,
  List, [], ◌∷◌, arith, Bool-cases, inl, inr, Option-cases, All, length, length-map, mem, distinct,
  distinct_bound, Within, All-mem, All-of_mem, mem-keep, is_some,
}
use firstgreen.Planning.Models.{PlanTask}
use firstgreen.Planning.Parallelism.{by_id, plan_ids, deps_of}
use firstgreen.Planning.Cycles.{Search, edges, visit, visit_each, search, cycle_nodes}

visit_each-cycle :
    (f : String → Search → Search) (nodes : List String) (s : Search)
    → All (λ x. (u : Search) → (f x u).cycle ≡ u.cycle) nodes
    → (visit_each f nodes s).cycle ≡ s.cycle
unfolding visit_each
visit_each-cycle f [] s h = refl
visit_each-cycle f (x ∷ nodes) s h = visit_each-cycle f nodes (f x s) h.1 ∙ h.0 s

-- A key that the dictionary has is an id of the plan.
pub known-mem :
    (tasks : List PlanTask) (d : String)
    → is_some (by_id tasks d) ≡ true
    → mem d (plan_ids tasks) ≡ true
unfolding by_id
known-mem [] d h = cc
known-mem (t ∷ ts) d h = elim (Option-cases (by_id ts d)) [
  | inr (u, found) ↦ ground (arith, known-mem ts d)
  | inl none_left ↦ ground (arith, eq_iff t.id d, eq_iff d t.id)
]

pub by_id-none : (ts : List PlanTask) (x : String) → mem x (plan_ids ts) ≡ false → by_id ts x ≡ none
unfolding by_id
by_id-none [] x n = refl
by_id-none (t ∷ ts) x n =
    rw (by_id-none ts x (ground arith)) (ground (arith, n, eq_iff t.id x, eq_iff x t.id))

pub deps-known :
    (ts : List PlanTask) (x d : String) → mem d (deps_of ts x) ≡ true → mem x (plan_ids ts) ≡ true
unfolding deps_of
deps-known ts x d m = elim (Bool-cases (mem x (plan_ids ts))) [
  | inl i ↦ i
  | inr n ↦ absurd (
      nothing (
        subst (λ o. mem d (elim o [ none ↦ [] | some t ↦ t.dependencies ]) ≡ true)
          (by_id-none ts x n) m))
]
  where
    nothing : mem d [] ≡ true → ⊥
    nothing h = cc

module _ (tasks : List PlanTask) (rank : String → ℕ) where
  -- Dependencies within the plan have a smaller rank.
  abbrev pub IsRanked : Type 0
  IsRanked = (x d : String) → mem d (edges tasks x) ≡ true → rank d < rank x

  abbrev Below : String → List String → Type 0
  Below x visiting = All (λ y. rank x < rank y) visiting

  Below-lower : (d x : String) (ys : List String) → rank d < rank x → Below x ys → Below d ys
  Below-lower d x [] lt h = tt
  Below-lower d x (y ∷ ys) lt h = (omega (arith, lt, h.0), Below-lower d x ys lt h.1)

  not-mem-Below : (x : String) (ys : List String) → Below x ys → mem x ys ≡ true → ⊥
  not-mem-Below x ys h m = let lt = All-mem (λ y. rank x < rank y) x ys m h in omega (arith, lt)

  edge-mem : (x d : String) → mem d (edges tasks x) ≡ true → mem d (plan_ids tasks) ≡ true
  edge-mem x d m =
      known-mem tasks d
        (ground (arith, mem-keep (λ j. is_some (by_id tasks j)) d (deps_of tasks x)))

  visit-cycle :
      (fuel : ℕ) (visiting : List String) (x : String) (s : Search)
      → IsRanked
      → mem x (plan_ids tasks) ≡ true
      → Within visiting (plan_ids tasks)
      → distinct visiting ≡ true
      → Below x visiting
      → length (plan_ids tasks) < fuel + length visiting
      → (visit tasks fuel visiting x s).cycle ≡ s.cycle
  unfolding visit
  visit-cycle zero visiting x s r m w d b f =
      absurd (omega (arith, distinct_bound visiting (plan_ids tasks) d w, f))
  visit-cycle (suc fuel) visiting x s r m w d b f = elim (Bool-cases (mem x visiting)) [
    | inl again ↦ absurd (not-mem-Below x visiting b again)
    | inr new ↦ elim (Bool-cases (mem x s.visited)) [
      | inl old ↦ rw (new, old) refl
      | inr fresh ↦
          rw (new, fresh)
            (visit_each-cycle (visit tasks fuel (x ∷ visiting)) (edges tasks x) s (
              All-of_mem (λ y. (u : Search) → (visit tasks fuel (x ∷ visiting) y u).cycle ≡ u.cycle)
                (edges tasks x)
                (λ y i u.
                  let lt = r x y i in
                  visit-cycle fuel (x ∷ visiting) y u r (edge-mem x y i) (m, w) (ground arith)
                    (lt, Below-lower y x visiting lt b) (omega (arith, f)))))
    ]
  ]

  -- If the dependencies within the plan lower some rank, the search reports no cycle: its fuel is
  -- enough, and it finds none where there is none.
  pub ranked-cycle_nodes : IsRanked → cycle_nodes tasks ≡ []
  unfolding cycle_nodes search
  ranked-cycle_nodes r =
      visit_each-cycle (visit tasks (suc (length tasks)) []) (plan_ids tasks)
        (record { visited = []; cycle = [] })
        (All-of_mem (λ y. (u : Search) → (visit tasks (suc (length tasks)) [] y u).cycle ≡ u.cycle)
          (plan_ids tasks)
          (λ y i u.
            visit-cycle (suc (length tasks)) [] y u r i tt refl tt
              (omega (arith, length-map tasks (λ (t : PlanTask). t.id)))))
