-- ===== src/Service/Delivery.antt =====
-- src/firstgreen/service.py, `_finalize_delivery`: the delivery of a run with several tasks. Worktrees,
-- the overlay of the winners, and the verification with the rows that it stores are arguments.
pub mod Sinks
pub mod Settled
pub mod Examples
use firstgreen.Prelude.{
  ℕ, String, Bool, true, false, not, ◌&&◌, ◌||◌, Option, none, some, List, [], ◌∷◌, ◌++◌, map, ◌==◌,
  if◌then◌else◌, nat_eq, any, keep, length, mem, dedup, is_empty, sort, text_leb,
}
use firstgreen.Prelude.Int.{pos}
use firstgreen.Prelude.Result.{
  Result, ok, err, Error, value_error, key_error, runtime_error, transition_error,
  workspace_safety_error, integrity_error, raise_if, ◌>>=◌, ◌>>◌,
}
use firstgreen.Config.Models.{CommandConfig, TaskConfig, Manifest}
use firstgreen.Config.Dag.{ids}
use firstgreen.Db.Tables.{TaskRow, DependencyRow, AttemptRow, Database}
use firstgreen.Db.Sql.{update_where}
use firstgreen.Service.Composition.{DependencySnapshot, delivery_task, delivery_snapshots}

pub data DeliveryStatus : Type 0 where
  assembling verifying verified failed cancelled : DeliveryStatus

pub record DeliveryRow : Type 0 where
  pub id : String
  pub run_id : String
  pub status : DeliveryStatus
  pub base_sha : String
  pub workspace_path : Option String
  pub diff_hash : Option String
  pub error_kind : Option Error

pub data DeliveryEvent : Type 0 where
  delivery_assembling : String → DeliveryEvent
  delivery_finished : String → Bool → DeliveryEvent
  delivery_failed : Error → DeliveryEvent

pub record Deliveries : Type 0 where
  pub rows : List DeliveryRow
  pub events : List DeliveryEvent

-- What ends a call that does not return: an exception, or the cancellation of the task.
pub data Stop : Type 0 where
  raises : Error → Stop
  cancelling : Stop

pub data Await (A : Type 0) : Type 0 where
  stopped : Stop → Await A
  done : A → Await A

pub record Workspace : Type 0 where
  pub path : String
  pub base_sha : String

pub record Verification : Type 0 where
  pub passed : Bool
  pub diff_hash : Option String

-- The worktree, the overlay of the winners on it, and the verification with the rows it stores.
pub record Workshop : Type 0 where
  pub create : Await Workspace
  pub prepare : Workspace → List DependencySnapshot → Await (Unit {0})
  pub verify : Workspace → TaskConfig → Await Verification

abbrev pub is_row : String → DeliveryRow → Bool
is_row id r = r.id == id

abbrev pub set_row : String → (DeliveryRow → DeliveryRow) → Deliveries → Deliveries
set_row id f d = record d { rows = update_where (is_row id) f d.rows }

abbrev pub log : DeliveryEvent → Deliveries → Deliveries
log e d = record d { events = d.events ++ e ∷ [] }

abbrev pub with_workspace : String → DeliveryRow → DeliveryRow
with_workspace path r = record r { workspace_path = some path }

abbrev pub with_status : DeliveryStatus → DeliveryRow → DeliveryRow
with_status s r = record r { status = s }

abbrev pub status_for : Bool → DeliveryStatus
status_for passed = if passed then verified else failed

abbrev pub with_verdict : Verification → DeliveryRow → DeliveryRow
with_verdict v r = record r { status = status_for v.passed; diff_hash = v.diff_hash }

abbrev pub with_error : Error → DeliveryRow → DeliveryRow
with_error e r = record r { status = failed; error_kind = some e }

-- `except (OSError, ValueError, FirstGreenError)`
abbrev pub is_caught : Error → Bool
is_caught value_error = true
is_caught key_error = false
is_caught transition_error = true
is_caught workspace_safety_error = true
is_caught runtime_error = false
is_caught integrity_error = false

-- How `_finalize_delivery` ends.
pub data Final : Type 0 where
  delivered : Option String → Bool → Final
  escaped : Stop → Final

-- The `except` clauses, after the workspace that was made.
abbrev pub on_stop : String → Option String → Stop → Deliveries → Final × Deliveries
on_stop id path cancelling d = (escaped cancelling, set_row id (with_status cancelled) d)
on_stop id path (raises e) d =
    if is_caught e
    then (delivered path false, log (delivery_failed e) (set_row id (with_error e) d))
    else (escaped (raises e), d)

abbrev pub on_verified : String → Workspace → Await Verification → Deliveries → Final × Deliveries
on_verified id w (stopped x) d = on_stop id (some w.path) x d
on_verified id w (done v) d = (
  delivered (some w.path) v.passed,
  log (delivery_finished id v.passed) (set_row id (with_verdict v) d),
)

abbrev pub on_task :
    Workshop → String → Workspace → Result TaskConfig → Deliveries → Final × Deliveries
on_task shop id w (err e) d = on_stop id (some w.path) (raises e) d
on_task shop id w (ok task) d =
    on_verified id w (shop.verify w task) (set_row id (with_status verifying) d)

abbrev pub on_prepared :
    Workshop → Manifest → String → Workspace → Await (Unit {0}) → Deliveries → Final × Deliveries
on_prepared shop m id w (stopped x) d = on_stop id (some w.path) x d
on_prepared shop m id w (done u) d = on_task shop id w (delivery_task m) d

-- The check that the sinks share the base of the workspace.
abbrev pub same_base :
    Workspace → Result (List DependencySnapshot) → Result (List DependencySnapshot)
same_base w found = found >>= λ snapshots.
    raise_if (any (λ (s : DependencySnapshot). not (s.base_sha == w.base_sha)) snapshots)
      workspace_safety_error
    >> ok snapshots

abbrev pub on_snapshots :
    Workshop
    → Manifest
    → String
    → Workspace
    → Result (List DependencySnapshot)
    → Deliveries
    → Final × Deliveries
on_snapshots shop m id w (err e) d = on_stop id (some w.path) (raises e) d
on_snapshots shop m id w (ok snapshots) d = on_prepared shop m id w (shop.prepare w snapshots) d

abbrev pub on_workspace :
    Workshop
    → Manifest
    → String
    → Result (List DependencySnapshot)
    → Await Workspace
    → Deliveries
    → Final × Deliveries
on_workspace shop m id found (stopped x) d = on_stop id none x d
on_workspace shop m id found (done w) d =
    on_snapshots shop m id w (same_base w found) (set_row id (with_workspace w.path) d)

-- `run_id` is unique among the deliveries, and `id` is fresh.
abbrev pub is_taken : String → String → DeliveryRow → Bool
is_taken id run_id r = r.id == id || r.run_id == run_id

abbrev pub new_row : String → String → String → DeliveryRow
new_row id run_id base_sha = record {
  id = id;
  run_id = run_id;
  status = assembling;
  base_sha = base_sha;
  workspace_path = none;
  diff_hash = none;
  error_kind = none;
}

abbrev pub opened : String → String → String → Deliveries → Deliveries
opened id run_id base_sha d =
    log (delivery_assembling id) (record d { rows = d.rows ++ new_row id run_id base_sha ∷ [] })

unfoldable pub finalize_delivery :
    Workshop → String → String → Manifest → String → Database → Deliveries → Final × Deliveries
unfolding delivery_task delivery_snapshots update_where
finalize_delivery shop id run_id m base_sha db d =
    let ended =
      on_workspace shop m id (delivery_snapshots run_id m db) shop.create
        (opened id run_id base_sha d) in
    if any (is_taken id run_id) d.rows then (escaped (raises integrity_error), d) else ended
