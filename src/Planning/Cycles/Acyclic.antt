-- ===== src/Planning/Cycles/Acyclic.antt =====
-- src/firstgreen/planning/compiler.py, `_cycle_nodes`: where it finds no cycle, there is none.
use firstgreen.Prelude.{
  ℕ, zero, suc, String, true, ◌≡◌, ◌++◌, List, [], ◌∷◌, arith, eq_refl, Bool-cases, inl, inr,
  length, mem, Within, Within-trans, Within-cons, Within-refl, mem_trans,
}
use firstgreen.Planning.Models.{PlanTask}
use firstgreen.Planning.Parallelism.{plan_ids}
use firstgreen.Planning.Cycles.{Search, take_through, edges, visit, visit_each, search, cycle_nodes}

module _ (tasks : List PlanTask) where
  -- Every node stands before (in the list) all tasks of the plan that it depends on.
  abbrev pub IsTopological : List String → Type 0
  IsTopological [] = Unit
  IsTopological (x ∷ xs) = Within (edges tasks x) xs × IsTopological xs

  record Visited (nodes : List String) (before after : Search) : Type 0 where
    clean : before.cycle ≡ []
    topological : IsTopological after.visited
    reached : Within nodes after.visited
    grown : Within before.visited after.visited

  -- A visit after which no cycle is reported.
  abbrev GoodVisit : (String → Search → Search) → Type 0
  GoodVisit f =
      (x : String) (s : Search)
      → (f x s).cycle ≡ []
      → s.cycle ≡ [] × (IsTopological s.visited → Visited (x ∷ []) s (f x s))

  visit_each-Visited :
      (f : String → Search → Search) (nodes : List String) (s : Search)
      → GoodVisit f
      → (visit_each f nodes s).cycle ≡ []
      → s.cycle ≡ [] × (IsTopological s.visited → Visited nodes s (visit_each f nodes s))
  unfolding visit_each
  visit_each-Visited f [] s good e =
      (e, λ t. record { clean = e; topological = t; reached = tt; grown = Within-refl s.visited })
  visit_each-Visited f (x ∷ nodes) s good e =
      let (mid_clean, later) = visit_each-Visited f nodes (f x s) good e in
      let (clean, now) = good x s mid_clean in
      (
        clean,
        λ t.
            let a = now t in
            let b = later a.topological in
            record {
              clean = clean;
              topological = b.topological;
              reached = (
                mem_trans x (f x s).visited (visit_each f nodes (f x s)).visited a.reached.0
                    b.grown,
                b.reached,
              );
              grown =
                  Within-trans s.visited (f x s).visited (visit_each f nodes (f x s)).visited
                    a.grown b.grown;
            },
      )

  not-empty :
      (x : String) (visiting cycle : List String)
      → mem x visiting ≡ true
      → take_through x visiting ++ cycle ≡ []
      → ⊥
  not-empty x [] cycle m e = absurd (cc)
  not-empty x (y ∷ ys) cycle m e = ground arith

  visit-GoodVisit : (fuel : ℕ) (visiting : List String) → GoodVisit (visit tasks fuel visiting)
  unfolding visit
  visit-GoodVisit zero visiting x s e = absurd (cc)
  visit-GoodVisit (suc fuel) visiting x s e = elim (Bool-cases (mem x visiting)) [
    | inl again ↦ absurd (not-empty x visiting s.cycle again (rw again at e))
    | inr new ↦ elim (Bool-cases (mem x s.visited)) [
      | inl old ↦
          rw (new, old)
            (
              rw (new, old) at e,
              λ t. record {
                clean = rw (new, old) at e;
                topological = t;
                reached = (old, tt);
                grown = Within-refl s.visited;
              },
            )
      | inr fresh ↦
          let f = visit tasks fuel (x ∷ visiting) in
          let (clean, deeper) =
            visit_each-Visited f (edges tasks x) s (visit-GoodVisit fuel (x ∷ visiting))
              (rw (new, fresh) at e) in
          let inner = visit_each f (edges tasks x) s in
          rw (new, fresh)
            (
              clean,
              λ t.
                  let a = deeper t in
                  record {
                    clean = clean;
                    topological = (a.reached, a.topological);
                    reached = (ground (arith, eq_refl x), tt);
                    grown = Within-cons x s.visited inner.visited a.grown;
                  },
            )
    ]
  ]

  -- If the search reports no cycle, the ids of the plan stand in some order in which each task comes
  -- after all that it depends on (the last one first).
  pub cycle_nodes-IsTopological :
      cycle_nodes tasks ≡ []
      → (order : List String) × IsTopological order × Within (plan_ids tasks) order
  unfolding cycle_nodes search
  cycle_nodes-IsTopological e =
      let start : Search = record { visited = []; cycle = [] } in
      let f = visit tasks (suc (length tasks)) [] in
      let (clean, done) =
        visit_each-Visited f (plan_ids tasks) start (visit-GoodVisit (suc (length tasks)) []) e in
      let v = done tt in ((visit_each f (plan_ids tasks) start).visited, v.topological, v.reached)
