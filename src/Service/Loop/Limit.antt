-- ===== src/Service/Loop/Limit.antt =====
-- The number of running tasks stays within `max_root` in src/firstgreen/service.py's loop.
use firstgreen.Prelude.{
  ℕ, ◌≤◌, ◌<◌, true, ◌≡◌, ap, subst, ◌∙◌, arith, Bool-cases, inl, inr, is_empty, length, distinct,
}
use firstgreen.Prelude.Result.{ok}
use firstgreen.Config.Models.{Manifest}
use firstgreen.Config.Dag.{ids}
use firstgreen.Scheduler.Concurrency.Bounds.{IsBounded}
use firstgreen.Service.Admission.Capacity.{admit_bound}
use firstgreen.Service.Loop.{World, LoopState, initial_state, wait_for_running}
use firstgreen.Service.Loop.Turns.{WentOn, started_by, turn-View}
use firstgreen.Service.Loop.Rule.{initial_state-IsInitial, went_on-IsBounded}
use firstgreen.Service.Loop.Accounting.{IsAccounted, IsWaiting, went_on-IsAccounted}
use firstgreen.Service.Loop.Progress.{wait-running, length-started, started-IsAccounted}
use firstgreen.Service.Loop.Outcome.{initial-IsAccounted}
use firstgreen.Service.Loop.Safety.{Reached, start, next}

-- A turn begins with room for a task.
record HasRoom (total : ℕ) (s : LoopState) : Type 0 where
  accounted : IsAccounted total s
  bounded : IsBounded s.concurrency
  room : length s.running < s.concurrency.max_root

module _ (total : ℕ) (m : Manifest) (w : World) (wait : IsWaiting w) where
  -- Between the start of tasks and the wait, no more than `max_root` tasks run.
  started-room :
      (n : ℕ) (s : LoopState) {g : LoopState} (v : WentOn m w n s g)
      → HasRoom total s
      → length (started_by m w n s v).running ≤ s.concurrency.max_root
  started-room n s v h =
      let limit = v.before.concurrency.current_root in
      omega (
        arith,
        length-started m w n s v,
        admit_bound limit v.before.running v.ranked,
        (v.ready.bounded h.bounded).upper,
        v.ready.same_max h.bounded,
        ap length v.ready.running,
        h.room,
      )

  went_on-HasRoom :
      (n : ℕ) (s : LoopState) {g : LoopState} → WentOn m w n s g → HasRoom total s → HasRoom total g
  went_on-HasRoom n s {g} v h =
      let (bounded, same) = went_on-IsBounded m w n s v h.bounded in
      let st = started_by m w n s v in
      let most = started-room n s v h in
      let accounted = started-IsAccounted total m w wait n s v h.accounted in
      let fewer : length (wait_for_running w n st).running < s.concurrency.max_root =
        elim (Bool-cases (is_empty st.running)) [
          | inl e ↦ rw e (ground (arith, h.bounded.positive, h.bounded.lower, h.bounded.upper))
          | inr e ↦ omega (arith, most, wait-running total m w wait n st accounted (ground arith))
        ] in
      record {
        accounted = went_on-IsAccounted total m w wait n s v h.accounted;
        bounded = bounded;
        room = omega (arith, fewer, ap (λ (s : LoopState). length s.running) v.result, same);
      }

module _ (m : Manifest) (w : World) (wait : IsWaiting w)
    (unique : distinct (ids m.tasks) ≡ true) where
  Reached-HasRoom :
      (now : ℕ) {s₀ : LoopState} {n : ℕ} {s : LoopState}
      → initial_state m now ≡ ok s₀
      → Reached m w s₀ n s
      → HasRoom (length m.tasks) s
  Reached-HasRoom now {s₀} e start =
      let i = initial_state-IsInitial m now e in
      record {
        accounted = initial-IsAccounted m s₀ unique i;
        bounded = i.bounded;
        room =
            omega
              (arith, ap length i.running, i.bounded.positive, i.bounded.lower, i.bounded.upper);
      }
  Reached-HasRoom now e (next n s g r o t) =
      went_on-HasRoom (length m.tasks) m w wait n s (turn-View m w n s t) (Reached-HasRoom now e r)

  Reached-same_max :
      (now : ℕ) {s₀ : LoopState} {n : ℕ} {s : LoopState}
      → initial_state m now ≡ ok s₀
      → Reached m w s₀ n s
      → s.concurrency.max_root ≡ m.scheduler.concurrency.max_root
  Reached-same_max now e start = (initial_state-IsInitial m now e).same_max
  Reached-same_max now e (next n s g r o t) =
      let (_, same) =
        went_on-IsBounded m w n s (turn-View m w n s t) (Reached-HasRoom now e r).bounded in
      same ∙ Reached-same_max now e r

  -- In every turn of a run of a manifest with distinct ids, if each wait reports running tasks only,
  -- no task twice and at least one, then after the start of the turn's tasks no more tasks run than
  -- the manifest's `max_root`.
  pub Reached-limit :
      (now : ℕ) {s₀ : LoopState} {n : ℕ} {s g : LoopState}
      → initial_state m now ≡ ok s₀
      → Reached m w s₀ n s
      → (v : WentOn m w n s g)
      → length (started_by m w n s v).running ≤ m.scheduler.concurrency.max_root
  Reached-limit now {n = n} {s = s} e r v =
      subst (λ k. length (started_by m w n s v).running ≤ k) (Reached-same_max now e r)
        (started-room (length m.tasks) m w wait n s v (Reached-HasRoom now e r))
