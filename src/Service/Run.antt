-- ===== src/Service/Run.antt =====
-- src/firstgreen/service.py, `_run_started`: the creation of the run's rows, and then its loop.
pub mod Honest
use firstgreen.Prelude.{ℕ, String, Bool, Option}
use firstgreen.Prelude.Result.{Result, ok, err}
use firstgreen.Config.Models.{Manifest}
use firstgreen.Db.Tables.{RunRow, Database}
use firstgreen.Service.Attempts.{create_run}
use firstgreen.Service.Loop.{World, RunOutcome, run_started}

abbrev pub after_creation :
    Manifest
    → World
    → ℕ
    → Bool
    → Result (Unit {0}) × Database
    → Result (Option RunOutcome) × Database
after_creation m w now delivered (ok created, db) = (run_started m w now delivered, db)
after_creation m w now delivered (err e, db) = (err e, db)

-- The outcome, and the tables as the loop finds them; `new_ids` are the ids made for the tasks.
unfoldable pub create_and_run :
    RunRow
    → (String → String)
    → Manifest
    → World
    → ℕ
    → Bool
    → Database
    → Result (Option RunOutcome) × Database
unfolding create_run run_started
create_and_run run new_ids m w now delivered db =
    after_creation m w now delivered (create_run run new_ids m.tasks db)
