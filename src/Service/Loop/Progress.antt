-- ===== src/Service/Loop/Progress.antt =====
-- Every turn of src/firstgreen/service.py's loop makes progress.
use firstgreen.Prelude.{
  ℕ, ◌+◌, ◌*◌, ◌-◌, ◌≤◌, ◌<◌, String, Bool, true, false, ◌≡◌, refl, ◌∙◌, ap, List, [], ◌∷◌, map,
  arith, eq_refl, ◌&&◌, Bool-cases, inl, inr, is_empty, length, length-append, length-map,
}
use firstgreen.Config.Models.{TaskConfig, Manifest}
use firstgreen.Config.Dag.{ids}
use firstgreen.Scheduler.Queue.{RankedTask}
use firstgreen.Service.Admission.{admit, select, conflicts, resource_keys}
use firstgreen.Service.Loop.{World, LoopState, finish_one, finish_each, wait_for_running}
use firstgreen.Service.Loop.Turns.{WentOn, started_by}
use firstgreen.Service.Loop.Rule.{running-start_each, verified-start_each}
use firstgreen.Service.Loop.Counts.{count, length-pop, count-pop}
use firstgreen.Service.Loop.Accounting.{
  IsAccounted, IsWaiting, done_ids, finish_one-IsAccounted, running-finish_one,
  start_each-IsAccounted, before-IsAccounted, chosen-pending,
}

abbrev pub measure : LoopState → ℕ
measure s = 2 * length s.pending + length s.running

some_length : {A : Type 0} (xs : List A) → is_empty xs ≡ false → 1 ≤ length xs
some_length [] h = cc
some_length (x ∷ xs) h = omega arith

pending-finish_one :
    (x : String) (result : Bool) (s : LoopState) → (finish_one x result s).pending ≡ s.pending
unfolding finish_one
pending-finish_one x true s = refl
pending-finish_one x false s = refl

-- The tasks that have finished leave the running ones, and nothing becomes pending.
finish_each-lengths :
    (total : ℕ) (done : List (String × Bool)) (s : LoopState)
    → ((x : String) → count x (done_ids done) ≤ count x (ids s.running))
    → IsAccounted total s
    → (length (finish_each done s).running + length done ≡ length s.running)
      × ((finish_each done s).pending ≡ s.pending)
unfolding finish_each
finish_each-lengths total [] s h a = (omega arith, refl)
finish_each-lengths total ((x, result) ∷ done) s h a =
    let next =
      finish_each-lengths total done (finish_one x result s)
        (λ y.
          rw (running-finish_one x result s)
            (ground (arith, h y, a.once y, count-pop x y s.running)))
        (finish_one-IsAccounted total x result s (ground (arith, h x, eq_refl x)) a) in
    (
      ground (
        arith,
        next.0,
        ap length (running-finish_one x result s),
        length-pop x s.running,
        h x,
        eq_refl x,
        a.once x,
      ),
      next.1 ∙ pending-finish_one x result s,
    )

conflicts_none : (keys : List String) → conflicts keys [] ≡ []
conflicts_none [] = refl
conflicts_none (k ∷ keys) = conflicts_none keys

-- With nothing running, a turn that has ready work selects some of it.
select_some :
    (capacity : ℕ) (r : RankedTask) (rest : List RankedTask)
    → 1 ≤ length (select capacity 0 [] (r ∷ rest)).selected
unfolding select
select_some capacity r rest = rw (conflicts_none (resource_keys r.task)) (ground arith)

admit_some :
    (limit : ℕ) (running : List TaskConfig) (ranked : List RankedTask)
    → (is_empty ranked && is_empty running) ≡ false
    → is_empty running ≡ true
    → 1 ≤ length (admit limit running (length running) ranked).selected
unfolding admit
admit_some limit [] [] h e = absurd (ground arith)
admit_some limit [] (r ∷ ranked) h e = select_some (limit - 0) r ranked
admit_some limit (t ∷ ts) ranked h e = absurd (ground arith)

-- How many tasks run after the start of the selected ones.
pub length-started :
    (m : Manifest) (w : World) (n : ℕ) (s : LoopState) {g : LoopState} (v : WentOn m w n s g)
    → length (started_by m w n s v).running
      ≡ length v.before.running
        + length
            (admit v.before.concurrency.current_root v.before.running
              (length v.before.running)
              v.ranked).selected
length-started m w n s v =
    let limit = v.before.concurrency.current_root in
    let selected = (admit limit v.before.running (length v.before.running) v.ranked).selected in
    ap length (running-start_each (length v.ranked) limit v.threads 1 selected v.before)
    ∙ length-append v.before.running (map (λ (r : RankedTask). r.task) selected)
    ∙ ap (λ k. length v.before.running + k) (length-map selected (λ (r : RankedTask). r.task))

module _ (total : ℕ) (m : Manifest) (w : World) (wait : IsWaiting w) where
  some_done : (n : ℕ) (ts : List TaskConfig) → 1 ≤ length ts → 1 ≤ length (w.wait n ts)
  some_done n [] h = absurd (omega arith)
  some_done n (t ∷ ts) h = wait.some_done n t ts

  pub wait-running :
      (n : ℕ) (s : LoopState)
      → IsAccounted total s
      → 1 ≤ length s.running
      → length (wait_for_running w n s).running < length s.running
  wait-running n s a h =
      let going : is_empty s.running ≡ false = ground arith in
      let lengths =
        finish_each-lengths total (w.wait n s.running) s (wait.of_running n s.running) a in
      rw going (omega (arith, lengths.0, some_done n s.running h))

  wait-measure :
      (n : ℕ) (s : LoopState)
      → IsAccounted total s
      → 1 ≤ length s.running
      → measure (wait_for_running w n s) < measure s
  wait-measure n s a h =
      let going : is_empty s.running ≡ false = ground arith in
      let lengths =
        finish_each-lengths total (w.wait n s.running) s (wait.of_running n s.running) a in
      rw going (omega (arith, lengths.0, ap length lengths.1, some_done n s.running h))

  pub started-IsAccounted :
      (n : ℕ) (s : LoopState) {g : LoopState} (v : WentOn m w n s g)
      → IsAccounted total s
      → IsAccounted total (started_by m w n s v)
  started-IsAccounted n s v a =
      start_each-IsAccounted total (length v.ranked) v.before.concurrency.current_root v.threads 1 _
        v.before
        (λ x.
          simp v.ready.pending
            (chosen-pending m w n s v x v.before.concurrency.current_root v.before.running))
        (before-IsAccounted total m w wait v.ready a)

  -- Every turn that does not leave the loop brings it closer to its end.
  pub went_on-measure :
      (n : ℕ) (s : LoopState) {g : LoopState}
      → WentOn m w n s g
      → IsAccounted total s
      → measure g < measure s
  went_on-measure n s v a =
      let limit = v.before.concurrency.current_root in
      let selected = (admit limit v.before.running (length v.before.running) v.ranked).selected in
      let st = started_by m w n s v in
      let started = started-IsAccounted n s v a in
      let (same_verified, same_failed, _) =
        verified-start_each (length v.ranked) limit v.threads 1 selected v.before in
      let grown : length st.running ≡ length v.before.running + length selected =
        length-started m w n s v in
      let some_running : 1 ≤ length st.running = elim (Bool-cases (is_empty v.before.running)) [
        | inl e ↦ omega (
          arith,
          grown,
          admit_some limit v.before.running v.ranked (rw v.ready.running v.some_work) e,
        )
        | inr e ↦ omega (arith, grown, some_length v.before.running e)
      ] in
      rw v.result (
        omega (
          arith,
          wait-measure n st started some_running,
          grown,
          started.sum,
          a.sum,
          ap length same_verified,
          same_failed,
          ap length v.ready.pending,
          ap length v.ready.running,
          ap length v.ready.verified_keys,
          v.ready.failed,
        ))
