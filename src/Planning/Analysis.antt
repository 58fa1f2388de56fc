-- ===== src/Planning/Analysis.antt =====
-- src/firstgreen/planning/parallelism.py, `analyze_parallelism`: from the tasks of a plan to the number
-- of root slots that it recommends.
pub mod Sound
pub mod Examples
use firstgreen.Prelude.{
  ℕ, suc, ◌+◌, ◌*◌, ◌/◌, ◌%◌, min, max, not, List, [], ◌∷◌, if◌then◌else◌, ltb, length, distinct,
  is_empty,
}
use firstgreen.Prelude.Result.{Result, ok, value_error, raise_if, ◌>>=◌, ◌>>◌}
use firstgreen.Planning.Models.{PlanTask, ParallelismAnalysis}
use firstgreen.Planning.Parallelism.{Ancestors, plan_ids, ancestors, ready_width}
use firstgreen.Planning.Schedule.{Timeline, keys, latest, start_after, timeline, critical_path}

-- `sum(task.estimated_duration_seconds for task in tasks)`
unfoldable pub work_of : List PlanTask → ℕ
work_of [] = 0
work_of (t ∷ ts) = t.estimated_duration + work_of ts

-- `round(n / d, 3)` in thousandths, half to even.
unfoldable pub ratio : ℕ → ℕ → ℕ
ratio n d =
    let q = n * 1000 / d in
    let r = n * 1000 % d in if ltb (2 * r) d then q else if ltb d (2 * r) then suc q else q + q % 2

-- `finish[sink]`
unfoldable pub span_of : Timeline → ℕ
unfolding latest
span_of es = start_after es (latest es (keys es))

-- `max(1, min(width, bounded_max, math.ceil(exposed)))`
unfoldable pub recommend : ℕ → ℕ → ℕ → ℕ → ℕ
recommend slots count width exposed =
    max 1 (min (min width (max 1 (min slots count))) ((exposed + 999) / 1000))

-- From the ancestors and the finishes to the record; the guard is its field's `le=5`.
unfoldable pub assess : ℕ → List PlanTask → Ancestors → Timeline → Result ParallelismAnalysis
unfolding critical_path span_of work_of ratio ready_width recommend
assess max_root_slots tasks m es = do
  let work = work_of tasks
  let span = span_of es
  let width = ready_width m tasks
  let exposed = max 1000 (ratio work span)
  let slots = recommend max_root_slots (length tasks) width exposed
  raise_if (ltb 5 slots) value_error
  ok (record {
    estimated_work = work;
    estimated_span = span;
    critical_path = critical_path es;
    ready_width = width;
    exposed_parallelism = exposed;
    recommended_root_slots = slots;
  })

unfoldable pub analyze_parallelism : ℕ → List PlanTask → Result ParallelismAnalysis
unfolding ancestors timeline assess
analyze_parallelism max_root_slots tasks = do
  raise_if (is_empty tasks) value_error
  raise_if (not (distinct (plan_ids tasks))) value_error
  m ← ancestors tasks
  es ← timeline tasks
  assess max_root_slots tasks m es
