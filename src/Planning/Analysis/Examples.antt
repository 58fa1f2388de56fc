-- ===== src/Planning/Analysis/Examples.antt =====
-- Tests of the analysis on a small plan, and instances of its theorems.
use firstgreen.Prelude.{
  ℕ, ◌+◌, ◌*◌, ◌≤◌, max, String, true, ◌≡◌, ◌↔◌, ◌⊎◌, refl, List, [], ◌∷◌, length, mem, sort,
}
use firstgreen.Prelude.Result.{ok, err, value_error}
use firstgreen.Planning.Models.{PlanTask, ParallelismAnalysis}
use firstgreen.Planning.Parallelism.{Ancestors, ancestors, ancestors_at, is_compatible, ready_width}
use firstgreen.Planning.Parallelism.Width.{Picked, ready_width-IsWidest}
use firstgreen.Planning.Parallelism.Reach.{Above, ancestors_iff}
use firstgreen.Planning.Cycles.{cycle_nodes}
use firstgreen.Planning.Cycles.Complete.{IsRanked}
use firstgreen.Planning.Cycles.Ranks.{cycle_nodes_iff}
use firstgreen.Planning.Analysis.{analyze_parallelism}
use firstgreen.Planning.Analysis.Sound.{IsSpan, analyze-IsSpan, analyze_slots}
use firstgreen.Planning.Samples.{planned, fan}

abbrev fan_analysis : ParallelismAnalysis
fan_analysis = record {
  estimated_work = 4000;
  estimated_span = 2000;
  critical_path = "a" ∷ "c" ∷ [];
  ready_width = 3;
  exposed_parallelism = 2000;
  recommended_root_slots = 2;
}

fan_analysed : analyze_parallelism 5 fan ≡ ok fan_analysis
unfolding analyze_parallelism sort
fan_analysed = refl

-- A dependency that is no task of the plan is refused, and so is a cycle.
unknown_refused : analyze_parallelism 5 (planned "a" ("z" ∷ []) [] ∷ []) ≡ err value_error
unfolding analyze_parallelism sort
unknown_refused = refl

cycle_refused :
    analyze_parallelism 5 (planned "a" ("b" ∷ []) [] ∷ planned "b" ("a" ∷ []) [] ∷ [])
    ≡ err value_error
unfolding analyze_parallelism sort
cycle_refused = refl

analyze-IsSpan_example : IsSpan fan fan_analysis
analyze-IsSpan_example = analyze-IsSpan 5 fan fan_analysed

analyze_slots_example :
    (1 ≤ fan_analysis.recommended_root_slots)
    × (fan_analysis.recommended_root_slots ≤ max 1 fan_analysis.ready_width)
    × (fan_analysis.recommended_root_slots ≤ length fan)
    × (fan_analysis.recommended_root_slots ≤ max 1 5)
    × (fan_analysis.recommended_root_slots ≤ 5)
    × (fan_analysis.recommended_root_slots * 1000 ≤ fan_analysis.exposed_parallelism + 999)
analyze_slots_example = analyze_slots 5 fan fan_analysed

abbrev chain : List PlanTask
chain = planned "a" [] [] ∷ planned "b" ("a" ∷ []) [] ∷ planned "c" ("b" ∷ []) [] ∷ []

abbrev chain_ancestors : Ancestors
chain_ancestors = ("c", "b" ∷ "a" ∷ []) ∷ ("b", "a" ∷ []) ∷ ("a", []) ∷ []

chain_visited : ancestors chain ≡ ok chain_ancestors
unfolding ancestors
chain_visited = refl

ancestors_iff_example : (mem "a" (ancestors_at chain_ancestors "c") ≡ true) ↔ Above chain "a" "c"
ancestors_iff_example = ancestors_iff chain "a" "c" chain_visited refl

abbrev fan_ancestors : Ancestors
fan_ancestors = ("d", []) ∷ ("c", "a" ∷ []) ∷ ("b", "a" ∷ []) ∷ ("a", []) ∷ []

ready_width-IsWidest_example :
    ((g : List PlanTask)
      → Picked g fan
      → is_compatible fan_ancestors g ≡ true
      → length g ≤ ready_width fan_ancestors fan)
    × ((ready_width fan_ancestors fan ≡ 1)
        ⊎ ((g : List PlanTask) × Picked g fan
            × (is_compatible fan_ancestors g ≡ true)
            × (length g ≡ ready_width fan_ancestors fan)))
ready_width-IsWidest_example = ready_width-IsWidest fan_ancestors fan

cycle_nodes_iff_example : (cycle_nodes fan ≡ []) ↔ ((rank : String → ℕ) × IsRanked fan rank)
cycle_nodes_iff_example = cycle_nodes_iff fan
