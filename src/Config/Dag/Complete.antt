-- ===== src/Config/Dag/Complete.antt =====
-- `valid_dag` accepts every manifest whose dependencies make no cycle.
use firstgreen.Prelude.{
  ℕ, zero, suc, ◌+◌, ◌<◌, String, true, ◌≡◌, refl, List, [], ◌∷◌, ◌==◌, arith, Bool-cases, inl, inr,
  All, All-true, length, length-map, mem, distinct, distinct_bound, Within, Within-refl, All-mem,
  all,
}
use firstgreen.Prelude.Result.{Result, ok, Returns, Returns-bind}
use firstgreen.Config.Models.{TaskConfig}
use firstgreen.Config.Dag.{ids, dependencies_of, visit, visit_each, valid_dag}

visit_each_total :
    (f : String → List String → Result (List String)) (nodes v : List String)
    → All (λ x. (u : List String) → Returns (λ _. Unit) (f x u)) nodes
    → Returns (λ _. Unit) (visit_each f nodes v)
unfolding visit_each
visit_each_total f [] v h = tt
visit_each_total f (x ∷ nodes) v h =
    Returns-bind (λ _. Unit) (λ _. Unit) (f x v) (visit_each f nodes) (h.0 v)
      (λ u _. visit_each_total f nodes u h.1)

All-both {ℓ} :
    {A : Type ℓ} (P Q R : A → Type 0) (xs : List A)
    → ((x : A) → P x → Q x → R x)
    → All P xs
    → All Q xs
    → All R xs
All-both P Q R [] f h k = tt
All-both P Q R (x ∷ xs) f h k = (f x h.0 k.0, All-both P Q R xs f h.1 k.1)

-- Dependencies that `valid_dag` knows are ids of the manifest.
known-Within :
    (known : List String) (ts : List TaskConfig) (x : String)
    → all (λ (t : TaskConfig). all (λ d. mem d known) t.dependencies) ts ≡ true
    → Within (dependencies_of ts x) known
unfolding dependencies_of
known-Within known [] x h = tt
known-Within known (t ∷ ts) x h = elim (Bool-cases (t.id == x)) [
  | inl e ↦ rw e (all-All known t.dependencies (ground arith))
  | inr e ↦ rw e (known-Within known ts x (ground arith))
]
  where
    all-All : (known ds : List String) → all (λ d. mem d known) ds ≡ true → Within ds known
    all-All known [] h = tt
    all-All known (d ∷ ds) h = (ground arith, all-All known ds (ground arith))

module _ (tasks : List TaskConfig) (rank : String → ℕ) where
  -- Dependencies have a smaller rank, which rules cycles out.
  abbrev pub IsRanked : Type 0
  IsRanked = (x : String) → All (λ d. rank d < rank x) (dependencies_of tasks x)

  module _ (ranked : IsRanked)
      (known : (x : String) → Within (dependencies_of tasks x) (ids tasks)) where
    abbrev Below : String → List String → Type 0
    Below x visiting = All (λ y. rank x < rank y) visiting

    Below-lower : (d x : String) (ys : List String) → rank d < rank x → Below x ys → Below d ys
    Below-lower d x [] lt h = tt
    Below-lower d x (y ∷ ys) lt h = (omega (arith, lt, h.0), Below-lower d x ys lt h.1)

    not-mem-Below : (x : String) (ys : List String) → Below x ys → mem x ys ≡ true → ⊥
    not-mem-Below x ys h m = let lt = All-mem (λ y. rank x < rank y) x ys m h in omega (arith, lt)

    visit_total :
        (fuel : ℕ) (visiting : List String) (x : String) (v : List String)
        → mem x (ids tasks) ≡ true
        → Within visiting (ids tasks)
        → distinct visiting ≡ true
        → Below x visiting
        → length (ids tasks) < fuel + length visiting
        → Returns (λ _. Unit) (visit tasks fuel visiting x v)
    unfolding visit
    visit_total zero visiting x v m w d b f =
        absurd (omega (arith, distinct_bound visiting (ids tasks) d w, f))
    visit_total (suc fuel) visiting x v m w d b f = elim (Bool-cases (mem x visiting)) [
      | inl again ↦ absurd (not-mem-Below x visiting b again)
      | inr new ↦ elim (Bool-cases (mem x v)) [
        | inl old ↦ rw (new, old) tt
        | inr fresh ↦
            rw (new, fresh)
              (Returns-bind (λ _. Unit) (λ _. Unit)
                (visit_each (visit tasks fuel (x ∷ visiting)) (dependencies_of tasks x) v)
                (λ u. ok (x ∷ u))
                (visit_each_total (visit tasks fuel (x ∷ visiting)) (dependencies_of tasks x) v (
                  All-both (λ y. mem y (ids tasks) ≡ true) (λ y. rank y < rank x)
                    (λ y.
                      (u : List String) → Returns (λ _. Unit) (visit tasks fuel (x ∷ visiting) y u))
                    (dependencies_of tasks x)
                    (λ y my lt u.
                      visit_total fuel (x ∷ visiting) y u my (m, w) (ground arith)
                        (lt, Below-lower y x visiting lt b) (omega (arith, f)))
                    (known x) (ranked x)))
                (λ u _. tt))
      ]
    ]

  -- With distinct ids and known dependencies, a manifest whose dependencies lower some rank is
  -- accepted: the check finds no cycle where there is none, and its fuel suffices.
  pub valid_dag_total :
      distinct (ids tasks) ≡ true
      → all (λ (t : TaskConfig). all (λ d. mem d (ids tasks)) t.dependencies) tasks ≡ true
      → IsRanked
      → Returns (λ _. Unit) (valid_dag tasks)
  unfolding valid_dag
  valid_dag_total d k ranked =
      rw (d, k)
        (visit_each_total (visit tasks (suc (length tasks)) []) (ids tasks) [] (
          All-both (λ x. mem x (ids tasks) ≡ true) (λ _. Unit)
            (λ x. (u : List String) → Returns (λ _. Unit) (visit tasks (suc (length tasks)) [] x u))
            (ids tasks)
            (λ x m _ u.
              visit_total ranked (λ y. known-Within (ids tasks) tasks y k) (suc (length tasks)) [] x
                u m tt refl tt (omega (arith, length-map tasks (λ (t : TaskConfig). t.id))))
            (Within-refl (ids tasks)) (All-true (ids tasks))))
