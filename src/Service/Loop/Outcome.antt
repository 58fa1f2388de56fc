-- ===== src/Service/Loop/Outcome.antt =====
-- What a run of src/firstgreen/service.py reports in the end.
use firstgreen.Prelude.{
  ℕ, suc, ◌+◌, ◌*◌, ◌≤◌, String, Bool, true, false, not, ◌≡◌, ◌⊎◌, List, [], arith, Option, none,
  some, length, all, mem, distinct, is_empty, [], ◌∷◌, All, Within, Within-refl, subst, sym,
}
use firstgreen.Prelude.Result.{
  ok, value_error, raise_if, Returns, Returns-bind, Returns-get, ◌>>◌, raise_if-eq-ok,
}
use firstgreen.Domain.Models.{RunStatus}
use firstgreen.Config.Models.{TaskConfig, Manifest, check_concurrency}
use firstgreen.Config.Dag.{ids, valid_dag, visit_each, visit}
use firstgreen.Scheduler.Queue.Levels.Valid.{valid_dag-levels}
use firstgreen.Service.Loop.{
  World, LoopState, Loop, ended, out_of_fuel, loop, initial_state, RunOutcome, conclude,
  run_started,
}
use firstgreen.Service.Loop.Rule.{IsInitial, initial_state-IsInitial}
use firstgreen.Service.Loop.Counts.{count-distinct}
use firstgreen.Service.Loop.Accounting.{IsAccounted, IsWaiting}
use firstgreen.Service.Loop.Total.{IsRunnable, AreKnown, EndedAt, loop-total}

-- What the reader of an outcome relies on.
pub record IsHonest (m : Manifest) (delivered : Bool) (o : RunOutcome) : Type 0 where
  pub completed :
      o.status ≡ RunStatus.completed
      → (o.verified ≡ length m.tasks) × (o.failed ≡ 0) × ((delivered ≡ true) ⊎ (length m.tasks ≤ 1))
  pub all_verified : o.verified ≡ length m.tasks → delivered ≡ true → o.status ≡ RunStatus.completed
  pub counted : length m.tasks ≤ o.verified + o.failed

abbrev pub HonestAnswer : Manifest → Bool → Option RunOutcome → Type 0
HonestAnswer m delivered none = ⊥
HonestAnswer m delivered (some o) = IsHonest m delivered o

conclude-IsHonest :
    (m : Manifest) (delivered : Bool) (f : LoopState)
    → length f.verified_keys + f.failed ≡ length m.tasks
    → IsHonest m delivered (conclude m delivered f)
unfolding conclude
conclude-IsHonest m delivered f h = record {
  completed = λ e. ground (arith, h);
  all_verified = λ e d. ground (arith, h);
  counted = ground (arith, h);
}

pub initial-IsAccounted :
    (m : Manifest) (s : LoopState)
    → distinct (ids m.tasks) ≡ true
    → IsInitial m s
    → IsAccounted (length m.tasks) s
initial-IsAccounted m s d i = record {
  once = λ x.
      rw (i.pending, i.running, i.verified_keys) (omega (arith, count-distinct x (ids m.tasks) d));
  sum = rw (i.pending, i.running, i.verified_keys, i.failed) (omega arith);
}

valid-IsRunnable :
    (m : Manifest) {order : List String}
    → valid_dag m.tasks ≡ ok order
    → is_empty m.tasks ≡ false
    → check_concurrency m.scheduler.concurrency ≡ ok tt
    → IsRunnable m
unfolding check_concurrency
valid-IsRunnable m v e c = record {
  levels = valid_dag-levels m.tasks v;
  some_task = e;
  roots = ground arith;
  budget = ground arith;
}

initial_total :
    (m : Manifest) (now : ℕ)
    → check_concurrency m.scheduler.concurrency ≡ ok tt
    → Returns (λ _. Unit) (initial_state m now)
unfolding check_concurrency initial_state
initial_total m now c = ground arith

pub valid-distinct :
    (m : Manifest) {order : List String}
    → valid_dag m.tasks ≡ ok order
    → distinct (ids m.tasks) ≡ true
unfolding valid_dag
valid-distinct m v =
    let known = all (λ (t : TaskConfig). all (λ d. mem d (ids m.tasks)) t.dependencies) m.tasks in
    ground (
      arith,
      raise_if-eq-ok (not (distinct (ids m.tasks))) value_error
          (raise_if (not known) value_error
            >> visit_each (visit m.tasks (suc (length m.tasks)) []) (ids m.tasks) [])
          v,
    )

tasks-Within :
    (known : List String) (ts : List TaskConfig)
    → Within (ids ts) known
    → All (λ (t : TaskConfig). mem t.id known ≡ true) ts
tasks-Within known [] w = tt
tasks-Within known (t ∷ ts) w = (w.0, tasks-Within known ts w.1)

initial-AreKnown : (m : Manifest) {s : LoopState} → IsInitial m s → AreKnown m.tasks s.pending
initial-AreKnown m i =
    subst (AreKnown m.tasks) (sym i.pending)
      (tasks-Within (ids m.tasks) m.tasks (Within-refl (ids m.tasks)))

after_loop :
    (m : Manifest) (delivered : Bool) (l : Loop)
    → EndedAt (length m.tasks) l
    → Returns
        (HonestAnswer m delivered)
        (elim l [ ended f ↦ ok (some (conclude m delivered f)) | out_of_fuel f ↦ ok none ])
after_loop m delivered (ended f) h = conclude-IsHonest m delivered f h
after_loop m delivered (out_of_fuel f) h = absurd h

-- Once the rows of a run are created, its loop comes to an end without an error, for a manifest that
-- passes its checks, if each wait returns some of the tasks that run, and where no task and no delivery
-- raises. The status is `completed` only if every task is verified, none has failed, and the delivery
-- succeeded where there are several tasks; it is `completed` whenever every task is verified and the
-- delivery succeeds; and no task is missing from the two counts.
pub run_honest :
    (m : Manifest) (w : World) (now : ℕ) (delivered : Bool) {order : List String}
    → IsWaiting w
    → valid_dag m.tasks ≡ ok order
    → is_empty m.tasks ≡ false
    → check_concurrency m.scheduler.concurrency ≡ ok tt
    → Returns (HonestAnswer m delivered) (run_started m w now delivered)
unfolding run_started
run_honest m w now delivered wait v e c =
    let (s, made, _) = Returns-get (λ _. Unit) (initial_state m now) (initial_total m now c) in
    let i = initial_state-IsInitial m now made in
    let accounted = initial-IsAccounted m s (valid-distinct m v) i in
    rw made (
      Returns-bind (EndedAt (length m.tasks)) (HonestAnswer m delivered)
        (loop (2 * length m.tasks) m w 0 s) _
        (loop-total (length m.tasks) m (valid-IsRunnable m v e c) w wait (2 * length m.tasks) 0 s
          accounted i.bounded (initial-AreKnown m i) (omega (arith, accounted.sum)))
        (after_loop m delivered))
