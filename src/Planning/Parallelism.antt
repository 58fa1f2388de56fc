-- ===== src/Planning/Parallelism.antt =====
-- src/firstgreen/planning/parallelism.py: work, span and width of a plan. Seconds and ratios are counted
-- in thousandths, which the code rounds to. The text of the reason and the hash of the estimates are
-- renderings of the other results and are left out.
pub mod Width
pub mod Lineage
pub mod Reach
use firstgreen.Prelude.{
  ℕ, zero, suc, ◌+◌, ◌-◌, ◌*◌, min, max, String, Bool, false, not, ◌&&◌, ◌||◌, Option, none, some,
  List, [], ◌∷◌, ◌++◌, map, ◌==◌, if◌then◌else◌, length, any, mem, distinct, is_some,
}
use firstgreen.Prelude.Result.{Result, ok, err, value_error, raise_if, ◌>>=◌, ◌>>◌}
use firstgreen.Planning.Models.{PlanTask, deterministic_heuristic_v1}

-- `factor`, in hundredths: the shares are multiples of 0.05, so that the products are exact.
abbrev pub factor_of : PlanTask → ℕ
factor_of t =
    (if t.read_only then 75 else 100)
    + min 60 (10 * (length t.likely_paths - 1))
    + min 30 (5 * (length t.verifier - 1))
    + min 30 (10 * length t.risk_tags)

unfoldable pub estimate_task_duration : ℕ → PlanTask → PlanTask
estimate_task_duration minimum_seconds t = record t {
  estimated_duration = max 1000 (max 1 minimum_seconds * factor_of t * 10);
  estimate_source = deterministic_heuristic_v1;
}

-- `{task.id: task for task in tasks}[key]`: of several tasks with an id, the last one.
unfoldable pub by_id : List PlanTask → String → Option PlanTask
by_id [] key = none
by_id (t ∷ ts) key = elim (by_id ts key) [
  | some u ↦ some u
  | none ↦ if t.id == key then some t else none
]

abbrev pub plan_ids : List PlanTask → List String
plan_ids tasks = map (λ (t : PlanTask). t.id) tasks

unfoldable pub deps_of : List PlanTask → String → List String
unfolding by_id
deps_of tasks key = elim (by_id tasks key) [ none ↦ [] | some t ↦ t.dependencies ]

unfoldable pub duration_of : List PlanTask → String → ℕ
unfolding by_id
duration_of tasks key = elim (by_id tasks key) [ none ↦ 0 | some t ↦ t.estimated_duration ]

-- The dictionary that `visit` fills: the ids of the ancestors of each visited task.
abbrev pub Ancestors : Type 0
Ancestors = List (String × List String)

unfoldable pub is_known : String → Ancestors → Bool
is_known key [] = false
is_known key ((k, v) ∷ m) = k == key || is_known key m

unfoldable pub ancestors_at : Ancestors → String → List String
ancestors_at [] key = []
ancestors_at ((k, v) ∷ m) key = if k == key then v else ancestors_at m key

-- The loop over the dependencies of a task: `result` collects them and their own ancestors.
pub collect :
    (String → Bool)
    → (String → Ancestors → Result Ancestors)
    → List String
    → Ancestors
    → Result (List String × Ancestors)
unfolding ancestors_at
collect known f [] memo = ok ([], memo)
collect known f (d ∷ ds) memo = do
  raise_if (not (known d)) value_error
  filled ← f d memo
  rest ← collect known f ds filled
  ok (d ∷ (ancestors_at filled d ++ rest.0), rest.1)

module _ (tasks : List PlanTask) where
  abbrev pub has_id : String → Bool
  has_id key = is_some (by_id tasks key)

  -- `visit`; without fuel it refuses, as for a cycle.
  pub visit : ℕ → List String → String → Ancestors → Result Ancestors
  visit zero visiting key memo = err value_error
  visit (suc fuel) visiting key memo =
      let found = collect has_id (visit fuel (key ∷ visiting)) (deps_of tasks key) memo in
      if is_known key memo
      then ok memo
      else if mem key visiting
      then err value_error
      else (found >>= λ r. ok ((key, r.0) ∷ r.1))

  pub visit_all : List String → Ancestors → Result Ancestors
  visit_all [] memo = ok memo
  visit_all (key ∷ keys) memo = visit (suc (length tasks)) [] key memo >>= λ m. visit_all keys m

  unfoldable pub ancestors : Result Ancestors
  unfolding visit visit_all collect is_known deps_of
  ancestors = visit_all (plan_ids tasks) []

-- `itertools.combinations(tasks, size)`
unfoldable pub combinations {ℓ} : {A : Type ℓ} → ℕ → List A → List (List A)
combinations zero xs = [] ∷ []
combinations (suc size) [] = []
combinations (suc size) (x ∷ xs) =
    let taken = combinations size xs in
    let skipped = combinations (suc size) xs in map (λ g. x ∷ g) taken ++ skipped

abbrev pub resources_of : List PlanTask → List String
resources_of [] = []
resources_of (t ∷ ts) = t.resources ++ resources_of ts

-- No task of the group is an ancestor of another one, and no resource is used twice.
abbrev pub is_compatible : Ancestors → List PlanTask → Bool
is_compatible m group =
    not (any (λ t. any (λ a. mem a (plan_ids group)) (ancestors_at m t.id)) group)
    && distinct (resources_of group)

-- `range(size, size + count)`
abbrev pub range : ℕ → ℕ → List ℕ
range size zero = []
range size (suc count) = size ∷ range (suc size) count

unfoldable pub widest : Ancestors → List PlanTask → List ℕ → ℕ → ℕ
unfolding combinations ancestors_at
widest m tasks [] best = best
widest m tasks (size ∷ sizes) best =
    widest m tasks sizes (if any (is_compatible m) (combinations size tasks) then size else best)

unfoldable pub ready_width : Ancestors → List PlanTask → ℕ
unfolding widest
ready_width m tasks = widest m tasks (range 2 (length tasks - 1)) 1
