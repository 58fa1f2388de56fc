-- ===== src/Planning/Cycles/Ranks.antt =====
-- src/firstgreen/planning/compiler.py, `_cycle_nodes`, against ranks that the dependencies lower.
use firstgreen.Prelude.{
  Within, ℕ, suc, ◌<◌, ◌≤◌, String, true, ◌≡◌, ◌↔◌, subst, List, [], ◌∷◌, ◌==◌, if◌then◌else◌,
  arith, eq_iff, Bool-cases, inl, inr, All-mem, length, mem, mem-keep, is_some,
}
use firstgreen.Planning.Models.{PlanTask}
use firstgreen.Planning.Parallelism.{by_id, plan_ids, deps_of}
use firstgreen.Planning.Cycles.{edges, cycle_nodes}
use firstgreen.Planning.Cycles.Acyclic.{IsTopological, cycle_nodes-IsTopological}
use firstgreen.Planning.Cycles.Complete.{IsRanked, ranked-cycle_nodes, deps-known}

-- How many entries follow the last place of a key, and one more.
rank_in : List String → String → ℕ
rank_in [] k = 0
rank_in (y ∷ ys) k =
    let later = rank_in ys k in if mem k ys then later else if k == y then suc (length ys) else 0

rank-le : (ys : List String) (k : String) → rank_in ys k ≤ length ys
unfolding rank_in
rank-le [] k = omega arith
rank-le (y ∷ ys) k = ground (arith, rank-le ys k)

first_edge :
    (tasks : List PlanTask) (y : String) (ys : List String) (x d : String)
    → Within (edges tasks y) ys
    → (x == y) ≡ true
    → mem d (edges tasks x) ≡ true
    → mem d ys ≡ true
first_edge tasks y ys x d w same e =
    All-mem (λ j. mem j ys ≡ true) d (edges tasks y)
      (subst (λ z. mem d (edges tasks z) ≡ true) ((eq_iff x y).0 same) e) w

edge-in :
    (tasks : List PlanTask) (order : List String) (x d : String)
    → IsTopological tasks order
    → mem x order ≡ true
    → mem d (edges tasks x) ≡ true
    → mem d order ≡ true
edge-in tasks [] x d t m e = absurd (cc)
edge-in tasks (y ∷ ys) x d t m e = elim (Bool-cases (mem x ys)) [
  | inl later ↦ ground (arith, edge-in tasks ys x d t.1 later e)
  | inr last ↦ ground (arith, first_edge tasks y ys x d t.0 (ground arith) e)
]

rank-lt :
    (tasks : List PlanTask) (order : List String) (x d : String)
    → IsTopological tasks order
    → mem x order ≡ true
    → mem d (edges tasks x) ≡ true
    → rank_in order d < rank_in order x
unfolding rank_in
rank-lt tasks [] x d t m e = absurd (cc)
rank-lt tasks (y ∷ ys) x d t m e = elim (Bool-cases (mem x ys)) [
  | inl later ↦ rw (later, edge-in tasks ys x d t.1 later e) (rank-lt tasks ys x d t.1 later e)
  | inr last ↦
      let same : (x == y) ≡ true = ground arith in
      rw (last, same, first_edge tasks y ys x d t.0 same e) (omega (arith, rank-le ys d))
]

-- The search reports no cycle exactly when the tasks have ranks that their dependencies within the
-- plan lower.
pub cycle_nodes_iff :
    (tasks : List PlanTask) → (cycle_nodes tasks ≡ []) ↔ ((rank : String → ℕ) × IsRanked tasks rank)
cycle_nodes_iff tasks = (
  λ e.
      let (order, t, all_in) = cycle_nodes-IsTopological tasks e in
      (
        rank_in order,
        λ x d m.
            rank-lt tasks order x d t
              (All-mem (λ k. mem k order ≡ true) x (plan_ids tasks)
                (deps-known tasks x d
                  (ground (arith, mem-keep (λ j. is_some (by_id tasks j)) d (deps_of tasks x))))
                all_in)
              m,
      ),
  λ r. ranked-cycle_nodes tasks r.0 r.1,
)
