-- ===== src/Planning/Parallelism/Reach.antt =====
-- src/firstgreen/planning/parallelism.py, `_ancestors`, against the relation that it computes.
use firstgreen.Prelude.{
  String, true, false, ◌||◌, ◌≡◌, ◌⊎◌, ◌↔◌, sym, ◌∙◌, subst, ap, List, [], ◌∷◌, ◌==◌, arith, eq_iff,
  eq_refl, Bool-cases, inl, inr, All-mem, mem, mem-append,
}
use firstgreen.Prelude.Result.{ok}
use firstgreen.Planning.Models.{PlanTask}
use firstgreen.Planning.Parallelism.{
  Ancestors, is_known, ancestors_at, ancestors, plan_ids, deps_of,
}
use firstgreen.Planning.Parallelism.Lineage.{
  flat, AllKnown, Extends-fresh, flat-Extends, AllKnown-Extends, at-new, IsRecorded,
  visit_all-IsFilled,
}

-- The second task depends on the first, directly or through others.
pub data Above (tasks : List PlanTask) : String → String → Type 0 where
  direct : {d k : String} → mem d (deps_of tasks k) ≡ true → Above tasks d k
  further : {x d k : String} → mem d (deps_of tasks k) ≡ true → Above tasks x d → Above tasks x k

mem-flat :
    (m : Ancestors) (x d : String) (ds : List String)
    → mem d ds ≡ true
    → (x == d || mem x (ancestors_at m d)) ≡ true
    → mem x (flat m ds) ≡ true
mem-flat m x d [] i h = absurd (cc)
mem-flat m x d (c ∷ ds) i h = elim (Bool-cases (d == c)) [
  | inl same ↦
      let h' = subst (λ z. (x == z || mem x (ancestors_at m z)) ≡ true) ((eq_iff d c).0 same) h in
      ground (arith, h', mem-append x (ancestors_at m c) (flat m ds))
  | inr other ↦
      ground
        (arith, mem-flat m x d ds (ground arith) h, mem-append x (ancestors_at m c) (flat m ds))
]

abbrev Source : Ancestors → String → List String → Type 0
Source m x ds = (d : String) × (mem d ds ≡ true) × ((x ≡ d) ⊎ (mem x (ancestors_at m d) ≡ true))

flat-source :
    (m : Ancestors) (x : String) (ds : List String) → mem x (flat m ds) ≡ true → Source m x ds
flat-source m x [] h = absurd (cc)
flat-source m x (c ∷ ds) h = elim (Bool-cases (x == c)) [
  | inl same ↦ (c, ground (arith, eq_refl c), inl ((eq_iff x c).0 same))
  | inr other ↦ elim (Bool-cases (mem x (ancestors_at m c))) [
    | inl through ↦ (c, ground (arith, eq_refl c), inr through)
    | inr not_here ↦
        let (d, i, s) =
          flat-source m x ds (ground (arith, mem-append x (ancestors_at m c) (flat m ds))) in
        (d, ground (arith, i), s)
  ]
]

module _ (tasks : List PlanTask) where
  record IsEntry (m : Ancestors) (k : String) : Type 0 where
    content : ancestors_at m k ≡ flat m (deps_of tasks k)
    known : AllKnown (deps_of tasks k) m

  split :
      (t k : String) (v : List String) (m : Ancestors)
      → is_known k ((t, v) ∷ m) ≡ true
      → (t ≡ k) ⊎ (((t == k) ≡ false) × (is_known k m ≡ true))
  unfolding is_known
  split t k v m h = elim (Bool-cases (t == k)) [
    | inl same ↦ inl ((eq_iff t k).0 same)
    | inr other ↦ inr (other, ground arith)
  ]

  found-IsEntry :
      (m : Ancestors) (k : String) → IsRecorded tasks m → is_known k m ≡ true → IsEntry m k
  unfolding is_known
  found-IsEntry [] k r h = absurd (cc)
  found-IsEntry ((t, v) ∷ m) k r h =
      let grown = Extends-fresh t v m r.0 in
      elim (split t k v m h) [
        | inl same ↦ subst (IsEntry ((t, v) ∷ m)) same (record {
          content =
              at-new t v m ∙ r.1 ∙ sym (flat-Extends m ((t, v) ∷ m) (deps_of tasks t) grown r.2);
          known = AllKnown-Extends m ((t, v) ∷ m) (deps_of tasks t) grown r.2;
        })
        | inr (other, old) ↦
            let e = found-IsEntry m k r.3 old in
            record {
              content =
                  (grown k old).1
                  ∙ e.content
                  ∙ sym (flat-Extends m ((t, v) ∷ m) (deps_of tasks k) grown e.known);
              known = AllKnown-Extends m ((t, v) ∷ m) (deps_of tasks k) grown e.known;
            }
      ]

  complete :
      (m : Ancestors) {x k : String}
      → IsRecorded tasks m
      → is_known k m ≡ true
      → Above tasks x k
      → mem x (ancestors_at m k) ≡ true
  complete m {x} {k} r h (direct i) =
      let e = found-IsEntry m k r h in
      rw e.content (mem-flat m x x (deps_of tasks k) i (ground (arith, eq_refl x)))
  complete m {x} {k} r h (further {d = d} i up) =
      let e = found-IsEntry m k r h in
      let old = All-mem (λ j. is_known j m ≡ true) d (deps_of tasks k) i e.known in
      rw e.content (mem-flat m x d (deps_of tasks k) i (ground (arith, complete m r old up)))

  sound :
      (m : Ancestors) (x k : String)
      → IsRecorded tasks m
      → is_known k m ≡ true
      → mem x (ancestors_at m k) ≡ true
      → Above tasks x k
  unfolding is_known
  sound [] x k r h i = absurd (cc)
  sound ((t, v) ∷ m) x k r h i = elim (split t k v m h) [
    | inr (other, old) ↦
        sound m x k r.3 old (subst (λ l. mem x l ≡ true) (Extends-fresh t v m r.0 k old).1 i)
    | inl same ↦
        let at : ancestors_at ((t, v) ∷ m) k ≡ flat m (deps_of tasks t) =
          ap (ancestors_at ((t, v) ∷ m)) (sym same) ∙ at-new t v m ∙ r.1 in
        let (d, j, s) = flat-source m x (deps_of tasks t) (subst (λ l. mem x l ≡ true) at i) in
        let old = All-mem (λ z. is_known z m ≡ true) d (deps_of tasks t) j r.2 in
        subst (Above tasks x) same (elim s [
          | inl e ↦ subst (λ z. Above tasks z t) (sym e) (direct j)
          | inr through ↦ further j (sound m x d r.3 old through)
        ])
  ]

  -- For a task of the plan, the dictionary lists exactly the tasks that it depends on, directly or
  -- through others.
  pub ancestors_iff :
      {m : Ancestors} (x k : String)
      → ancestors tasks ≡ ok m
      → mem k (plan_ids tasks) ≡ true
      → (mem x (ancestors_at m k) ≡ true) ↔ Above tasks x k
  unfolding ancestors
  ancestors_iff {m} x k e i =
      let f = visit_all-IsFilled tasks (plan_ids tasks) [] m tt e in
      let old = All-mem (λ z. is_known z m ≡ true) k (plan_ids tasks) i f.present in
      (sound m x k f.recorded old, complete m f.recorded old)
