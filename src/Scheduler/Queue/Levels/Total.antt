-- ===== src/Scheduler/Queue/Levels/Total.antt =====
-- `bottom_levels` returns for every manifest whose dependencies make no cycle.
use firstgreen.Prelude.{
  ℕ, zero, suc, ◌+◌, ◌<◌, String, true, ◌≡◌, refl, List, [], ◌∷◌, ◌==◌, arith, Bool-cases, All-imp,
  ap, max, inl, inr, All, All-mem, All-append, all, mem, eq_iff, distinct, distinct_bound, Within,
  Within-refl, length, length-map, sort, text_leb, All-sort,
}
use firstgreen.Prelude.Result.{Result, ok, Returns, Returns-bind, ◌>>=◌}
use firstgreen.Config.Models.{TaskConfig}
use firstgreen.Config.Dag.{ids}
use firstgreen.Scheduler.Queue.{
  Memo, has, mentions, successors, duration_of, best_rank, rank, rank_each, bottom_levels,
}

module _ (order : String → ℕ) where
  -- Every task comes later in the order than the tasks that it depends on.
  abbrev pub IsLater : TaskConfig → Type 0
  IsLater t = All (λ d. order d < order t.id) t.dependencies

  mentions-later :
      (known : List String) (key : String) (ds : List String) (t : String)
      → All (λ d. order d < order t) ds
      → mem t known ≡ true
      → All (λ s. (order key < order s) × (mem s known ≡ true)) (mentions key ds t)
  unfolding mentions
  mentions-later known key [] t h k = tt
  mentions-later known key (d ∷ ds) t h k = elim (Bool-cases (d == key)) [
    | inl e ↦ rw e (
      (omega (arith, ap order ((eq_iff d key).0 e), h.0), k),
      mentions-later known key ds t h.1 k,
    )
    | inr e ↦ rw e (mentions-later known key ds t h.1 k)
  ]

  successors-later :
      (known : List String) (ts : List TaskConfig) (key : String)
      → All IsLater ts
      → Within (ids ts) known
      → All (λ s. (order key < order s) × (mem s known ≡ true)) (successors ts key)
  unfolding successors
  successors-later known [] key h k = tt
  successors-later known (t ∷ ts) key h k =
      All-append (λ s. (order key < order s) × (mem s known ≡ true))
        (mentions key t.dependencies t.id) (successors ts key)
        (mentions-later known key t.dependencies t.id h.0 k.0)
        (successors-later known ts key h.1 k.1)

best_rank_total :
    (f : String → Memo → Result (ℕ × Memo)) (nodes : List String) (m : Memo)
    → All (λ x. (m : Memo) → Returns (λ _. Unit) (f x m)) nodes
    → Returns (λ _. Unit) (best_rank f nodes m)
unfolding best_rank
best_rank_total f [] m h = tt
best_rank_total f (x ∷ nodes) m h =
    Returns-bind (λ _. Unit) (λ _. Unit) (f x m)
      (λ (p : ℕ × Memo). best_rank f nodes p.1 >>= λ q. ok (max p.0 q.0, q.1)) (h.0 m)
      λ p _.
        Returns-bind (λ _. Unit) (λ _. Unit) (best_rank f nodes p.1)
          (λ (q : ℕ × Memo). ok (max p.0 q.0, q.1)) (best_rank_total f nodes p.1 h.1) (λ q _. tt)

module _ (tasks : List TaskConfig) (order : String → ℕ) (later : All (IsLater order) tasks) where
  abbrev Above : String → List String → Type 0
  Above x visiting = All (λ y. order y < order x) visiting

  Above-higher : (x s : String) (ys : List String) → order x < order s → Above x ys → Above s ys
  Above-higher x s [] lt h = tt
  Above-higher x s (y ∷ ys) lt h = (omega (arith, lt, h.0), Above-higher x s ys lt h.1)

  not-mem-Above : (x : String) (ys : List String) → Above x ys → mem x ys ≡ true → ⊥
  not-mem-Above x ys h m = let lt = All-mem (λ y. order y < order x) x ys m h in omega (arith, lt)

  rank_total :
      (fuel : ℕ) (visiting : List String) (x : String) (m : Memo)
      → mem x (ids tasks) ≡ true
      → Within visiting (ids tasks)
      → distinct visiting ≡ true
      → Above x visiting
      → length (ids tasks) < fuel + length visiting
      → Returns (λ _. Unit) (rank tasks fuel visiting x m)
  unfolding rank
  rank_total zero visiting x m k w d b f =
      absurd (omega (arith, distinct_bound visiting (ids tasks) d w, f))
  rank_total (suc fuel) visiting x m k w d b f = elim (Bool-cases (has x m)) [
    | inl old ↦ rw old tt
    | inr new ↦ elim (Bool-cases (mem x visiting)) [
      | inl again ↦ absurd (not-mem-Above x visiting b again)
      | inr fresh ↦
          rw (new, fresh)
            (Returns-bind (λ _. Unit) (λ _. Unit)
              (best_rank (rank tasks fuel (x ∷ visiting)) (successors tasks x) m)
              (λ (t : ℕ × Memo).
                ok (duration_of tasks x + t.0, (x, duration_of tasks x + t.0) ∷ t.1))
              (best_rank_total (rank tasks fuel (x ∷ visiting)) (successors tasks x) m (
                All-imp (λ s. (order x < order s) × (mem s (ids tasks) ≡ true))
                  (λ s. (n : Memo) → Returns (λ _. Unit) (rank tasks fuel (x ∷ visiting) s n))
                  (successors tasks x)
                  (λ s h n.
                    rank_total fuel (x ∷ visiting) s n h.1 (k, w) (ground arith)
                      (h.0, Above-higher x s visiting h.0 b) (omega (arith, f)))
                  (successors-later order (ids tasks) tasks x later (Within-refl (ids tasks)))))
              (λ t _. tt))
    ]
  ]

  rank_each_total :
      (nodes : List String) (m : Memo)
      → Within nodes (ids tasks)
      → Returns (λ _. Unit) (rank_each tasks nodes m)
  unfolding rank_each
  rank_each_total [] m w = tt
  rank_each_total (x ∷ nodes) m w =
      Returns-bind (λ _. Unit) (λ _. Unit) (rank tasks (suc (length tasks)) [] x m)
        (λ (r : ℕ × Memo). rank_each tasks nodes r.1)
        (rank_total (suc (length tasks)) [] x m w.0 tt refl tt
          (omega (arith, length-map tasks (λ (t : TaskConfig). t.id))))
        (λ r _. rank_each_total nodes r.1 w.1)

  -- With known dependencies and tasks that come later in some order than what they depend on, the
  -- levels are computed: no cycle is reported, and the fuel suffices.
  pub bottom_levels_total :
      all (λ (t : TaskConfig). all (λ d. mem d (ids tasks)) t.dependencies) tasks ≡ true
      → Returns (λ _. Unit) (bottom_levels tasks)
  unfolding bottom_levels
  bottom_levels_total known = rw known (
      rank_each_total (sort text_leb (ids tasks)) []
        (All-sort text_leb (λ x. mem x (ids tasks) ≡ true) (ids tasks) (Within-refl (ids tasks))))
