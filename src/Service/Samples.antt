-- ===== src/Service/Samples.antt =====
-- A quiet host whose wait returns the first task that runs, verified.
use firstgreen.Prelude.{ℕ, ◌+◌, ◌*◌, ◌≤◌, String, Bool, true, List, [], ◌∷◌, arith}
use firstgreen.Config.Models.{TaskConfig}
use firstgreen.Config.Dag.{ids}
use firstgreen.Scheduler.Concurrency.{PressureSnapshot}
use firstgreen.Service.Loop.{World}
use firstgreen.Service.Loop.Accounting.{IsWaiting, done_ids}
use firstgreen.Service.Loop.Counts.{count}

abbrev pub quiet_host : PressureSnapshot
quiet_host = record {
  backlog = 0;
  completed_samples = 0;
  rate_limit_errors = 0;
  spawn_errors = 0;
  verifier_queue_wait = 0;
  memory_percent = 40000;
  normalized_load = 500;
  cancellation_backlog = 0;
}

abbrev pub finishes : ℕ → List TaskConfig → List (String × Bool)
finishes n [] = []
finishes n (t ∷ ts) = (t.id, true) ∷ []

abbrev pub sample_world : World
sample_world = record {
  sample = λ n. quiet_host;
  clock = λ n. 100000000 + n * 40000000;
  wait = finishes;
}

waits_for_first :
    (n : ℕ) (ts : List TaskConfig) (x : String)
    → count x (done_ids (finishes n ts)) ≤ count x (ids ts)
waits_for_first n [] x = omega arith
waits_for_first n (t ∷ ts) x = omega arith

pub sample-IsWaiting : IsWaiting sample_world
sample-IsWaiting = record { some_done = λ n t ts. omega arith; of_running = waits_for_first }
