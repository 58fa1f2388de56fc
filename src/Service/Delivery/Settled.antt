-- ===== src/Service/Delivery/Settled.antt =====
-- src/firstgreen/service.py, `_finalize_delivery`: the row of a delivery and what the loop is told.
use firstgreen.Prelude.{String, true, false, ◌≡◌, List, All, any, length}
use firstgreen.Prelude.Result.{Result, ok}
use firstgreen.Config.Models.{TaskConfig, Manifest}
use firstgreen.Db.Tables.{Database}
use firstgreen.Service.Composition.{DependencySnapshot, sinks, delivery_task}
use firstgreen.Service.Delivery.Sinks.{IsSinkWinner}
use firstgreen.Service.Delivery.{
  DeliveryStatus, cancelled, DeliveryRow, Deliveries, raises, cancelling, done, Workspace,
  Verification, Workshop, is_row, status_for, is_caught, Final, delivered, escaped,
}

-- The row of the delivery is there, with the status.
abbrev pub HasStatus : String → DeliveryStatus → Deliveries → Type 0
HasStatus id s d =
    (any (is_row id) d.rows ≡ true)
    × All (λ (r : DeliveryRow). is_row id r ≡ true → r.status ≡ s) d.rows

-- What a success rests on: one snapshot for each sink, each of a winner of a sink's task of the run
-- and on the base of the workspace, laid on the workspace; and a verification of it that passed.
pub record IsComposed (shop : Workshop) (run_id : String) (m : Manifest) (db : Database)
    : Type 0 where
  pub workspace : Workspace
  pub snapshots : List DependencySnapshot
  pub task : TaskConfig
  pub verification : Verification
  pub created : shop.create ≡ done workspace
  pub counted : length snapshots ≡ length (sinks m)
  pub winners : All (IsSinkWinner run_id m db) snapshots
  pub one_base : All (λ (s : DependencySnapshot). s.base_sha ≡ workspace.base_sha) snapshots
  pub prepared : shop.prepare workspace snapshots ≡ done tt
  pub planned : delivery_task m ≡ ok task
  pub checked : shop.verify workspace task ≡ done verification
  pub passed : verification.passed ≡ true

-- The row is settled as the loop is told, and a success is composed; a cancellation is in the row.
abbrev pub Settled : Workshop → String → Manifest → Database → String → Final × Deliveries → Type 0
Settled shop run_id m db id (delivered path b, d) =
    HasStatus id (status_for b) d × (b ≡ true → IsComposed shop run_id m db)
Settled shop run_id m db id (escaped cancelling, d) = HasStatus id cancelled d
Settled shop run_id m db id (escaped (raises e), d) = is_caught e ≡ false

module _ (shop : Workshop) (run_id : String) (m : Manifest) (db : Database) (id : String) where
  abbrev There : Deliveries → Type 0
  There d = any (is_row id) d.rows ≡ true

  abbrev IsSettled : Final × Deliveries → Type 0
  IsSettled = Settled shop run_id m db id
