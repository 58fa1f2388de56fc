-- ===== src/Scheduler/Queue/Levels/Valid.antt =====
-- The manifests that `Manifest.valid_dag` accepts have bottom levels.
use firstgreen.Prelude.{
  ℕ, suc, ◌<◌, ◌≤◌, String, true, false, not, ◌≡◌, List, [], ◌∷◌, ◌==◌, arith, Bool-cases, subst,
  sym, inl, inr, All, all, mem, eq_iff, distinct, Within, Within-cons, eq_refl, length,
  if◌then◌else◌, All-imp, All-mem, sort, text_leb, mem-sort, Within-refl, ◌∙◌,
}
use firstgreen.Prelude.Result.{
  ok, value_error, raise_if, Returns, Returns-get, ◌>>◌, raise_if-eq-ok,
}
use firstgreen.Config.Models.{TaskConfig}
use firstgreen.Config.Dag.{ids, dependencies_of, visit, visit_each, valid_dag}
use firstgreen.Config.Dag.Acyclic.{IsTopological, valid_dag-IsTopological}
use firstgreen.Scheduler.Queue.{Memo, has, bottom_levels}
use firstgreen.Scheduler.Queue.Levels.{bottom_levels-Levels}
use firstgreen.Scheduler.Queue.Levels.Total.{IsLater, bottom_levels_total}

-- How many nodes follow the last occurrence of a node in an order, itself counted.
abbrev height : List String → String → ℕ
height [] x = 0
height (y ∷ ys) x = if mem x ys then height ys x else if x == y then suc (length ys) else 0

height-le : (ys : List String) (x : String) → height ys x ≤ length ys
height-le [] x = omega arith
height-le (y ∷ ys) x = ground (arith, height-le ys x)

module _ (tasks : List TaskConfig) where
  below :
      (ys : List String) (y : String) (n : ℕ) (ds : List String)
      → Within ds ys
      → length ys < n
      → All (λ d. height (y ∷ ys) d < n) ds
  below ys y n [] w h = tt
  below ys y n (d ∷ ds) w h = (ground (arith, height-le ys d, w.0), below ys y n ds w.1 h)

  lift :
      (ys : List String) (y : String) (n : ℕ) (ds : List String)
      → Within ds ys
      → All (λ d. height ys d < n) ds
      → All (λ d. height (y ∷ ys) d < n) ds
  lift ys y n [] w h = tt
  lift ys y n (d ∷ ds) w h = (ground (arith, w.0, h.0), lift ys y n ds w.1 h.1)

  deps_below :
      (order : List String) (x : String)
      → IsTopological tasks order
      → mem x order ≡ true
      → Within (dependencies_of tasks x) order
        × All (λ d. height order d < height order x) (dependencies_of tasks x)
  deps_below [] x t m = cc
  deps_below (y ∷ ys) x t m = elim (Bool-cases (mem x ys)) [
    | inl e ↦
        let (within, lower) = deps_below ys x t.1 e in
        rw e (
          Within-cons y (dependencies_of tasks x) ys within,
          lift ys y (height ys x) (dependencies_of tasks x) within lower,
        )
    | inr e ↦
        let same : x ≡ y = (eq_iff x y).0 (ground arith) in
        let within = subst (λ z. Within (dependencies_of tasks z) ys) (sym same) t.0 in
        rw (e, (eq_iff x y).1 same)
          (
            Within-cons y (dependencies_of tasks x) ys within,
            below ys y (suc (length ys)) (dependencies_of tasks x) within (omega arith),
          )
  ]

  later :
      (order : List String) (ts : List TaskConfig)
      → IsTopological tasks order
      → Within (ids ts) order
      → All (λ (t : TaskConfig). dependencies_of tasks t.id ≡ t.dependencies) ts
      → All (IsLater (height order)) ts
  later order [] top w own = tt
  later order (t ∷ ts) top w own = (
    subst (All (λ d. height order d < height order t.id)) own.0 (deps_below order t.id top w.0).1,
    later order ts top w.1 own.1,
  )

skip_head :
    (t : TaskConfig) (ts us : List TaskConfig)
    → mem t.id (ids us) ≡ false
    → All (λ (u : TaskConfig). dependencies_of ts u.id ≡ u.dependencies) us
    → All (λ (u : TaskConfig). dependencies_of (t ∷ ts) u.id ≡ u.dependencies) us
unfolding dependencies_of
skip_head t ts [] n own = tt
skip_head t ts (u ∷ us) n own =
    let other : (t.id == u.id) ≡ false = ground arith in
    (rw other own.0, skip_head t ts us (ground arith) own.1)

own_dependencies :
    (ts : List TaskConfig)
    → distinct (ids ts) ≡ true
    → All (λ (t : TaskConfig). dependencies_of ts t.id ≡ t.dependencies) ts
unfolding dependencies_of
own_dependencies [] d = tt
own_dependencies (t ∷ ts) d = (
  ground (arith, eq_refl t.id),
  skip_head t ts ts (ground arith) (own_dependencies ts (ground arith)),
)

-- The memo has an entry for each task.
abbrev pub HasAll : List TaskConfig → Memo → Type 0
HasAll tasks memo = All (λ id. has id memo ≡ true) (ids tasks)

levels-HasAll :
    (tasks : List TaskConfig) {memo : Memo} → bottom_levels tasks ≡ ok memo → HasAll tasks memo
levels-HasAll tasks {memo} e =
    let (_, each) = bottom_levels-Levels tasks e in
    All-imp (λ id. mem id (ids tasks) ≡ true) (λ id. has id memo ≡ true) (ids tasks)
      (λ id known.
        All-mem (λ s. has s memo ≡ true) id (sort text_leb (ids tasks))
          (mem-sort text_leb id (ids tasks) ∙ known) each)
      (Within-refl (ids tasks))

levels_total :
    (tasks : List TaskConfig) {order : List String}
    → valid_dag tasks ≡ ok order
    → Returns (λ _. Unit) (bottom_levels tasks)
unfolding valid_dag
levels_total tasks {order} e =
    let all_ids = visit_each (visit tasks (suc (length tasks)) []) (ids tasks) [] in
    let known = all (λ (t : TaskConfig). all (λ d. mem d (ids tasks)) t.dependencies) tasks in
    let (unique, rest) =
      raise_if-eq-ok (not (distinct (ids tasks))) value_error
        (raise_if (not known) value_error >> all_ids) e in
    let (closed, _) = raise_if-eq-ok (not known) value_error all_ids rest in
    let (topological, reached) = valid_dag-IsTopological tasks e in
    bottom_levels_total tasks (height order)
      (later tasks order tasks topological reached (own_dependencies tasks (ground arith)))
      (ground arith)

-- For a manifest that `valid_dag` accepts the bottom levels are computed without an error, no cycle
-- is reported, and every task has a level.
pub valid_dag-levels :
    (tasks : List TaskConfig) {order : List String}
    → valid_dag tasks ≡ ok order
    → Returns (HasAll tasks) (bottom_levels tasks)
valid_dag-levels tasks e =
    let (memo, made, _) = Returns-get (λ _. Unit) (bottom_levels tasks) (levels_total tasks e) in
    rw made (levels-HasAll tasks made)
