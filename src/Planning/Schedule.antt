-- ===== src/Planning/Schedule.antt =====
-- src/firstgreen/planning/parallelism.py, `analyze_parallelism`: the earliest finish of each task, the
-- dependency that it waits for, and the critical path.
pub mod Placed
pub mod Chains
pub mod Critical
use firstgreen.Prelude.{
  ℕ, zero, suc, ◌+◌, String, Bool, false, not, ◌&&◌, ◌||◌, Option, none, some, List, [], ◌∷◌, map,
  ◌==◌, if◌then◌else◌, ltb, nat_eq, length, all, keep, mem, is_empty, sort, text_leb,
}
use firstgreen.Prelude.Result.{Result, ok, err, value_error}
use firstgreen.Planning.Models.{PlanTask}
use firstgreen.Planning.Parallelism.{plan_ids, deps_of, duration_of}

-- An entry of `finish` and of `predecessor`, which are filled together.
pub record Entry : Type 0 where
  pub task_id : String
  pub finish : ℕ
  pub predecessor : Option String

-- The newest entry first.
abbrev pub Timeline : Type 0
Timeline = List Entry

-- `key in finish`, `finish[key]` and `predecessor[key]`.
unfoldable pub is_done : String → Timeline → Bool
is_done key [] = false
is_done key (e ∷ es) = e.task_id == key || is_done key es

unfoldable pub finish_of : Timeline → String → ℕ
finish_of [] key = 0
finish_of (e ∷ es) key = if e.task_id == key then e.finish else finish_of es key

unfoldable pub parent_of : Timeline → String → Option String
parent_of [] key = none
parent_of (e ∷ es) key = if e.task_id == key then e.predecessor else parent_of es key

-- `(finish[a], a) <= (finish[b], b)`
abbrev pub key_leb : Timeline → String → String → Bool
key_leb es a b =
    ltb (finish_of es a) (finish_of es b)
    || (nat_eq (finish_of es a) (finish_of es b) && text_leb a b)

-- `max(keys, key=lambda item: (finish[item], item), default=None)`
unfoldable pub latest : Timeline → List String → Option String
unfolding finish_of
latest es [] = none
latest es (k ∷ ks) = elim (latest es ks) [
  | none ↦ some k
  | some b ↦ some (if key_leb es b k then k else b)
]

-- `finish[parent] if parent is not None else 0.0`
abbrev pub start_after : Timeline → Option String → ℕ
start_after es none = 0
start_after es (some p) = finish_of es p

module _ (tasks : List PlanTask) where
  abbrev pub entry : String → Timeline → Entry
  entry key es = record {
    task_id = key;
    finish = start_after es (latest es (deps_of tasks key)) + duration_of tasks key;
    predecessor = latest es (deps_of tasks key);
  }

  -- The loop over the tasks that are ready in a round.
  unfoldable pub place_each : List String → Timeline → Timeline
  unfolding latest deps_of duration_of
  place_each [] es = es
  place_each (k ∷ ks) es = place_each ks (entry k es ∷ es)

  abbrev pub ready_keys : List String → Timeline → List String
  ready_keys remaining es =
      sort text_leb (keep (λ k. all (λ d. is_done d es) (deps_of tasks k)) remaining)

  -- `while remaining`; a round that finds nothing ready refuses the plan, and any other one takes
  -- tasks away, so that the number of tasks is fuel enough.
  unfoldable pub rounds : ℕ → List String → Timeline → Result Timeline
  unfolding place_each is_done deps_of
  rounds zero remaining es = if is_empty remaining then ok es else err value_error
  rounds (suc fuel) remaining es =
      let ready = ready_keys remaining es in
      let later = rounds fuel (keep (λ k. not (mem k ready)) remaining) (place_each ready es) in
      if is_empty remaining then ok es else if is_empty ready then err value_error else later

  unfoldable pub timeline : Result Timeline
  unfolding rounds
  timeline = rounds (length tasks) (plan_ids tasks) []

abbrev pub keys : Timeline → List String
keys es = map (λ (e : Entry). e.task_id) es

-- The `while cursor is not None` loop. Each id is put in front of those that it was found from, which
-- is the order after the list is reversed.
unfoldable pub path_back : ℕ → Timeline → Option String → List String → List String
unfolding parent_of
path_back fuel es none path = path
path_back zero es (some k) path = path
path_back (suc fuel) es (some k) path = path_back fuel es (parent_of es k) (k ∷ path)

unfoldable pub critical_path : Timeline → List String
unfolding latest path_back
critical_path es = path_back (length es) es (latest es (keys es)) []
