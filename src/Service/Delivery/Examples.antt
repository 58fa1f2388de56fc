-- ===== src/Service/Delivery/Examples.antt =====
-- Tests of the delivery on a run of three tasks, and an instance of its theorem.
use firstgreen.Prelude.{String, true, ◌≡◌, refl, none, some, [], ◌∷◌, sort}
use firstgreen.Prelude.Result.{ok, err, workspace_safety_error}
use firstgreen.Domain.Models.{RunStatus, TaskStatus, AttemptStatus}
use firstgreen.Db.Tables.{TaskRow, AttemptRow, Database}
use firstgreen.Db.Samples.{sample_row, sample_attempt, database}
use firstgreen.Config.Samples.{sample_manifest, pytest}
use firstgreen.Service.Composition.{
  DependencySnapshot, delivery_commands, delivery_task, delivery_snapshots,
}
use firstgreen.Service.Delivery.{
  Deliveries, done, Workshop, delivered, finalize_delivery, verified, delivery_assembling,
  delivery_finished,
}
use firstgreen.Service.Delivery.Settled.{Settled}

abbrev won : String → String → TaskRow
won key attempt = record (sample_row TaskStatus.verified) {
  id = key;
  task_key = key;
  winner_attempt_id = some attempt;
}

abbrev winner : String → AttemptRow
winner a = sample_attempt a 1 AttemptStatus.passed

abbrev won_db : Database
won_db = record (database RunStatus.running TaskStatus.verified []) {
  tasks = won "model" "a" ∷ won "view" "b" ∷ won "docs" "c" ∷ [];
  attempts = winner "a" ∷ winner "b" ∷ winner "c" ∷ [];
}

abbrev snapshot : String → DependencySnapshot
snapshot key = record { task_key = key; workspace = some "/work"; base_sha = "sha" }

-- `model` is no sink: `view` depends on it.
sinks_only :
    delivery_snapshots "r" sample_manifest won_db ≡ ok (snapshot "docs" ∷ snapshot "view" ∷ [])
unfolding delivery_snapshots sort
sinks_only = refl

-- A sink without a winner.
one_missing :
    delivery_snapshots "r" sample_manifest (record won_db { attempts = winner "b" ∷ [] })
    ≡ err workspace_safety_error
unfolding delivery_snapshots sort
one_missing = refl

commands_once : delivery_commands sample_manifest ≡ pytest ∷ []
unfolding delivery_task
commands_once = refl

abbrev shop : Workshop
shop = record {
  create = done (record { path = "/delivery"; base_sha = "sha" });
  prepare = λ w s. done tt;
  verify = λ w t. done (record { passed = true; diff_hash = some "d" });
}

abbrev no_deliveries : Deliveries
no_deliveries = record { rows = []; events = [] }

delivers : finalize_delivery shop "d1" "r" sample_manifest "sha" won_db no_deliveries ≡ (
  delivered (some "/delivery") true,
  record {
    rows =
        record {
          id = "d1";
          run_id = "r";
          status = verified;
          base_sha = "sha";
          workspace_path = some "/delivery";
          diff_hash = some "d";
          error_kind = none;
        }
        ∷ [];
    events = delivery_assembling "d1" ∷ delivery_finished "d1" true ∷ [];
  },
)
unfolding finalize_delivery sort
delivers = refl
