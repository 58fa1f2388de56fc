-- ===== src/Planning/Merge.antt =====
-- src/firstgreen/planning/compiler.py, `_merge_tasks` and the loop that merges tasks which write to the
-- same places.
pub mod Progress
use firstgreen.Prelude.{
  ℕ, zero, suc, ◌+◌, String, Bool, true, false, not, ◌&&◌, Option, none, some, List, [], ◌∷◌, ◌++◌,
  map, if◌then◌else◌, ltb, all, keep, length, mem, dedup, is_empty, sort, text_leb,
}
use firstgreen.Planning.Models.{PlanTask, merged}
use firstgreen.Planning.Texts.{Host, append, join}
use firstgreen.Planning.Paths.{write_overlap, exceeds}
use firstgreen.Planning.Verifiers.{first_ones}

-- `sorted(set(texts))`
abbrev pub sorted_set : List String → List String
sorted_set texts = sort text_leb (dedup texts)

-- `[item for task in tasks for item in field(task)]`
abbrev pub gather {ℓ} : {A : Type ℓ} → (PlanTask → List A) → List PlanTask → List A
gather field [] = []
gather field (t ∷ ts) = field t ++ gather field ts

abbrev pub total_duration : List PlanTask → ℕ
total_duration [] = 0
total_duration (t ∷ ts) = t.estimated_duration + total_duration ts

abbrev pub is_selected : List String → PlanTask → Bool
is_selected merge_ids t = mem t.id merge_ids

-- The `merged` task of some tasks, under an id.
unfoldable pub merged_task : String → List String → List PlanTask → PlanTask
unfolding first_ones join
merged_task id merge_ids selected =
    let artifacts = gather (λ (t : PlanTask). t.produces) selected in
    record {
      id = id;
      objective = join "; " (map (λ (t : PlanTask). t.objective) selected);
      produces = sorted_set artifacts;
      requires =
          sorted_set
            (keep (λ i. not (mem i artifacts)) (gather (λ (t : PlanTask). t.requires) selected));
      likely_paths = sorted_set (gather (λ (t : PlanTask). t.likely_paths) selected);
      verification_hints = sorted_set (gather (λ (t : PlanTask). t.verification_hints) selected);
      risk_tags = sorted_set (gather (λ (t : PlanTask). t.risk_tags) selected);
      read_only = all (λ (t : PlanTask). t.read_only) selected;
      dependencies =
          sorted_set (
            keep (λ d. not (mem d merge_ids)) (gather (λ (t : PlanTask). t.dependencies) selected));
      verifier = first_ones [] (gather (λ (t : PlanTask). t.verifier) selected);
      resources = sorted_set (gather (λ (t : PlanTask). t.resources) selected);
      estimated_duration = total_duration selected;
      estimate_source = merged;
    }

-- A task that is left, with its dependencies on merged tasks moved to the new one.
abbrev pub redirect : String → List String → PlanTask → PlanTask
redirect id merge_ids t = record t {
  dependencies = sorted_set (map (λ d. if mem d merge_ids then id else d) t.dependencies);
}

abbrev pub by_task_id : PlanTask → PlanTask → Bool
by_task_id a b = text_leb a.id b.id

pub data Reason : Type 0 where
  artificial_cycle overlap_exceeds : Reason

module _ (host : Host) where
  -- `"merged-" + sha256("|".join(sorted(merge_ids))).hexdigest()[:8]`; `digest` gives the eight digits.
  unfoldable pub merged_id : List String → String
  unfolding append join
  merged_id merge_ids = append "merged-" (host.digest (join "|" (sorted_set merge_ids)))

  -- The tasks after the merge; the repair's text is empty when fewer than two tasks are selected.
  unfoldable pub merge_tasks : List PlanTask → List String → List PlanTask × Bool
  unfolding merged_task merged_id
  merge_tasks tasks merge_ids =
      let selected = keep (is_selected merge_ids) tasks in
      let id = merged_id merge_ids in
      let left_over =
        map (redirect id merge_ids) (keep (λ t. not (is_selected merge_ids t)) tasks) in
      if ltb (length selected) 2
      then (tasks, false)
      else (sort by_task_id (left_over ++ merged_task id merge_ids selected ∷ []), true)

  -- `independent`: both tasks produce artifacts of their own.
  abbrev pub is_independent : PlanTask → PlanTask → Bool
  is_independent left right = not (is_empty left.produces) && not (is_empty right.produces)

  abbrev pub must_merge : ℕ → PlanTask → PlanTask → Bool
  must_merge limit left right =
      exceeds limit (write_overlap left right) && not (is_independent left right)

  abbrev pub partner : ℕ → PlanTask → List PlanTask → Option (List String)
  partner limit left [] = none
  partner limit left (right ∷ rest) =
      let later = partner limit left rest in
      if must_merge limit left right then some (left.id ∷ right.id ∷ []) else later

  -- The first pair of the two loops that has to be merged.
  unfoldable pub first_pair : ℕ → List PlanTask → Option (List String)
  unfolding write_overlap
  first_pair limit [] = none
  first_pair limit (left ∷ rest) =
      let later = first_pair limit rest in
      elim (partner limit left rest) [ some pair ↦ some pair | none ↦ later ]

  -- `while changed`, with the pairs that were merged. Each round merges at least two tasks into
  -- one, so that the number of tasks is fuel enough.
  unfoldable pub merge_loop : ℕ → ℕ → List PlanTask → List PlanTask × List (List String)
  unfolding merge_tasks first_pair
  merge_loop zero limit tasks = (tasks, [])
  merge_loop (suc fuel) limit tasks = elim (first_pair limit tasks) [
    | none ↦ (tasks, [])
    | some pair ↦
        let (result, pairs) = merge_loop fuel limit (merge_tasks tasks pair).0 in
        (result, pair ∷ pairs)
  ]
