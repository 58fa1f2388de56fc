-- ===== src/Config/Dag/Acyclic.antt =====
-- `valid_dag` accepts only manifests whose tasks can be put in an order of dependencies.
use firstgreen.Prelude.{
  ℕ, zero, suc, String, true, ◌≡◌, ◌⊎◌, subst, List, [], ◌∷◌, arith, eq_refl, Bool-cases, inl, inr,
  length, mem, distinct, Within, Within-trans, Within-cons, Within-refl, mem_trans, all, not,
}
use firstgreen.Prelude.Result.{Result, ok, ◌>>◌, >>=-eq-ok, raise_if, raise_if-eq-ok, value_error}
use firstgreen.Config.Models.{TaskConfig}
use firstgreen.Config.Dag.{ids, dependencies_of, visit, visit_each, valid_dag}

module _ (tasks : List TaskConfig) where
  abbrev deps : String → List String
  deps = dependencies_of tasks

  -- Every node stands before (in the list) all that it depends on.
  abbrev pub IsTopological : List String → Type 0
  IsTopological [] = Unit
  IsTopological (x ∷ xs) = Within (deps x) xs × IsTopological xs

  record Visited (nodes before after : List String) : Type 0 where
    topological : IsTopological after
    reached : Within nodes after
    grown : Within before after

  abbrev GoodVisit : (String → List String → Result (List String)) → Type 0
  GoodVisit f =
      (x : String) (v : List String) (w : List String)
      → IsTopological v
      → f x v ≡ ok w
      → Visited (x ∷ []) v w

  visit_each-Visited :
      (f : String → List String → Result (List String)) (nodes v w : List String)
      → GoodVisit f
      → IsTopological v
      → visit_each f nodes v ≡ ok w
      → Visited nodes v w
  unfolding visit_each
  visit_each-Visited f [] v w good t e =
      let same : v ≡ w = cc in
      subst (Visited [] v) same (record { topological = t; reached = tt; grown = Within-refl v })
  visit_each-Visited f (x ∷ nodes) v w good t e =
      let (u, now, later) = >>=-eq-ok (f x v) (visit_each f nodes) e in
      let a = good x v u t now in
      let b = visit_each-Visited f nodes u w good a.topological later in
      record {
        topological = b.topological;
        reached = (mem_trans x u w a.reached.0 b.grown, b.reached);
        grown = Within-trans v u w a.grown b.grown;
      }

  Deeper : ℕ → List String → String → List String → List String → Type 0
  Deeper fuel visiting x v w =
      (u : List String) × (visit_each (visit tasks fuel (x ∷ visiting)) (deps x) v ≡ ok u)
      × (w ≡ x ∷ u)

  visit_cases :
      (fuel : ℕ) (visiting : List String) (x : String) (v w : List String)
      → visit tasks (suc fuel) visiting x v ≡ ok w
      → (mem x v ≡ true) × (v ≡ w) ⊎ Deeper fuel visiting x v w
  unfolding visit Deeper
  visit_cases fuel visiting x v w e = elim (Bool-cases (mem x visiting)) [
    | inl again ↦ absurd (ground arith)
    | inr new ↦ elim (Bool-cases (mem x v)) [
      | inl old ↦ inl (old, ground arith)
      | inr fresh ↦
          let step = visit_each (visit tasks fuel (x ∷ visiting)) (deps x) v in
          let (u, eu, ew) = >>=-eq-ok step (λ u. ok (x ∷ u)) (rw (new, fresh) at e) in
          inr (u, eu, cc)
    ]
  ]

  visit-Visited : (fuel : ℕ) (visiting : List String) → GoodVisit (visit tasks fuel visiting)
  unfolding visit Deeper
  visit-Visited zero visiting x v w t e = cc
  visit-Visited (suc fuel) visiting x v w t e = elim (visit_cases fuel visiting x v w e) [
    | inl (old, same) ↦
        subst (Visited (x ∷ []) v) same
          (record { topological = t; reached = (old, tt); grown = Within-refl v })
    | inr (u, eu, ew) ↦
        let a =
          visit_each-Visited (visit tasks fuel (x ∷ visiting)) (deps x) v u
            (visit-Visited fuel (x ∷ visiting)) t eu in
        rw ew (record {
          topological = (a.reached, a.topological);
          reached = (ground (arith, eq_refl x), tt);
          grown = Within-cons x v u a.grown;
        })
  ]

  -- The nodes of an accepted manifest in the order in which the check leaves them, last one first:
  -- every task is among them, and stands before all that it depends on.
  pub valid_dag-IsTopological :
      {order : List String}
      → valid_dag tasks ≡ ok order
      → IsTopological order × Within (ids tasks) order
  unfolding valid_dag
  valid_dag-IsTopological {order} e =
      let all_ids = visit_each (visit tasks (suc (length tasks)) []) (ids tasks) [] in
      let known = all (λ (t : TaskConfig). all (λ d. mem d (ids tasks)) t.dependencies) tasks in
      let (_, rest) =
        raise_if-eq-ok (not (distinct (ids tasks))) value_error
          (raise_if (not known) value_error >> all_ids) e in
      let (_, loop) = raise_if-eq-ok (not known) value_error all_ids rest in
      let done =
        visit_each-Visited (visit tasks (suc (length tasks)) []) (ids tasks) [] order
          (visit-Visited (suc (length tasks)) []) tt loop in
      (done.topological, done.reached)
