-- ===== src/Service/Loop/Accounting.antt =====
-- Every task of a run of src/firstgreen/service.py is accounted for: it is pending, running, verified
-- or failed, and never two of these.
use firstgreen.Prelude.{
  ℕ, suc, ◌+◌, ◌-◌, ◌≤◌, String, Bool, true, false, ◌≡◌, refl, ap, sym, subst, List, [], ◌∷◌, map,
  arith, eq_iff, eq_refl, Bool-cases, inl, inr, is_empty, length, length-append,
}
use mathlib.Core.List.Perm
use firstgreen.Prelude.Result.{ok}
use firstgreen.Config.Models.{TaskConfig, Manifest}
use firstgreen.Config.Dag.{ids}
use firstgreen.Scheduler.Queue.{RankedTask, is_ready}
use firstgreen.Scheduler.Queue.Ready.{ranked_ready_correct}
use firstgreen.Service.Admission.{admit, active_resources}
use firstgreen.Service.Admission.Exclusive.{chosen}
use firstgreen.Service.Loop.{
  World, LoopState, start_each, finish_one, finish_each, block_pending, wait_for_running, pop,
  ended, loop,
}
use firstgreen.Service.Loop.Turns.{IsReady, WentOn, Broke}
use firstgreen.Service.Loop.Rule.{loop_rule}
use firstgreen.Service.Loop.Counts.{
  count, count-mem, mem-count, length-pop, count-pop, count-snoc, count-keep, count-Perm,
  count-select,
}

pub record IsAccounted (total : ℕ) (s : LoopState) : Type 0 where
  pub once :
      (x : String)
      → count x (ids s.pending) + (count x (ids s.running) + count x s.verified_keys) ≤ 1
  pub sum : length s.pending + (length s.running + (length s.verified_keys + s.failed)) ≡ total

abbrev pub done_ids : List (String × Bool) → List String
done_ids done = map (λ (d : String × Bool). d.0) done

-- The documented behaviour of `asyncio.wait(…, return_when=FIRST_COMPLETED)`: it returns when
-- something has finished, and returns tasks that it was given.
pub record IsWaiting (w : World) : Type 0 where
  pub some_done : (n : ℕ) (t : TaskConfig) (ts : List TaskConfig) → 1 ≤ length (w.wait n (t ∷ ts))
  pub of_running :
      (n : ℕ) (ts : List TaskConfig) (x : String)
      → count x (done_ids (w.wait n ts)) ≤ count x (ids ts)

pub start_each-IsAccounted :
    (total ready limit threads position : ℕ) (rs : List RankedTask) (s : LoopState)
    → ((x : String) → count x (ids (map (λ (r : RankedTask). r.task) rs)) ≤ count x (ids s.pending))
    → IsAccounted total s
    → IsAccounted total (start_each ready limit threads position rs s)
unfolding start_each
start_each-IsAccounted total ready limit threads position [] s h a = a
start_each-IsAccounted total ready limit threads position (r ∷ rs) s h a =
    let x = r.task.id in
    start_each-IsAccounted total ready limit threads (suc position) rs _
      (λ y. ground (arith, h y, a.once y, count-pop x y s.pending))
      (record {
        once = λ y.
            ground (arith, h y, a.once y, count-pop x y s.pending, count-snoc y s.running r.task);
        sum = ground (
          arith,
          h x,
          eq_refl x,
          a.once x,
          a.sum,
          length-pop x s.pending,
          length-append s.running (r.task ∷ []),
        );
      })

pub finish_one-IsAccounted :
    (total : ℕ) (x : String) (result : Bool) (s : LoopState)
    → 1 ≤ count x (ids s.running)
    → IsAccounted total s
    → IsAccounted total (finish_one x result s)
unfolding finish_one
finish_one-IsAccounted total x true s h a = record {
  once = λ y.
      ground (
        arith,
        a.once y,
        a.once x,
        count-pop x y s.running,
        eq_iff y x,
        count-mem x s.verified_keys,
      );
  sum = ground (arith, a.once x, a.sum, length-pop x s.running, mem-count x s.verified_keys);
}
finish_one-IsAccounted total x false s h a = record {
  once = λ y. ground (arith, a.once y, count-pop x y s.running);
  sum = ground (arith, a.once x, a.sum, length-pop x s.running);
}

pub running-finish_one :
    (x : String) (result : Bool) (s : LoopState) → (finish_one x result s).running ≡ pop x s.running
unfolding finish_one
running-finish_one x true s = refl
running-finish_one x false s = refl

pub finish_each-IsAccounted :
    (total : ℕ) (done : List (String × Bool)) (s : LoopState)
    → ((x : String) → count x (done_ids done) ≤ count x (ids s.running))
    → IsAccounted total s
    → IsAccounted total (finish_each done s)
unfolding finish_each
finish_each-IsAccounted total [] s h a = a
finish_each-IsAccounted total ((x, result) ∷ done) s h a =
    finish_each-IsAccounted total done (finish_one x result s)
      (λ y.
        rw (running-finish_one x result s) (ground (arith, h y, a.once y, count-pop x y s.running)))
      (finish_one-IsAccounted total x result s (ground (arith, h x, eq_refl x)) a)

-- What a turn selects is pending.
pub chosen-pending :
    (m : Manifest) (w : World) (n : ℕ) (s : LoopState) {g : LoopState} (v : WentOn m w n s g)
    (x : String) (limit : ℕ) (running : List TaskConfig)
    → count x (ids (chosen (admit limit running (length running) v.ranked)))
      ≤ count x (ids s.pending)
unfolding admit
chosen-pending m w n s v x limit running =
    let queue = ranked_ready_correct s.pending s.verified_keys _ _ v.queue in
    omega (
      arith,
      count-select x (limit - length running) 0 (active_resources running) v.ranked,
      count-Perm x (Perm.map (λ (t : TaskConfig). t.id) queue.1),
      count-keep (is_ready s.verified_keys) x s.pending,
    )

module _ (total : ℕ) (m : Manifest) (w : World) (wait : IsWaiting w) where
  wait_for_running-IsAccounted :
      (n : ℕ) (s : LoopState) → IsAccounted total s → IsAccounted total (wait_for_running w n s)
  wait_for_running-IsAccounted n s a = elim (Bool-cases (is_empty s.running)) [
    | inl e ↦ rw e a
    | inr e ↦
        rw e (finish_each-IsAccounted total (w.wait n s.running) s (wait.of_running n s.running) a)
  ]

  pub before-IsAccounted :
      {s b : LoopState} → IsReady s b → IsAccounted total s → IsAccounted total b
  before-IsAccounted r a = record {
    once = λ x. simp (r.pending, r.running, r.verified_keys) (a.once x);
    sum = simp (r.pending, r.running, r.verified_keys, r.failed) a.sum;
  }

  pub went_on-IsAccounted :
      (n : ℕ) (s : LoopState) {g : LoopState}
      → WentOn m w n s g
      → IsAccounted total s
      → IsAccounted total g
  went_on-IsAccounted n s v a = subst (IsAccounted total) (sym v.result) (
      wait_for_running-IsAccounted n _ (
        start_each-IsAccounted total (length v.ranked) v.before.concurrency.current_root v.threads 1
          _ v.before
          (λ x.
            simp v.ready.pending
              (chosen-pending m w n s v x v.before.concurrency.current_root v.before.running))
          (before-IsAccounted v.ready a)))

  pub Broke-sum :
      (n : ℕ) (s : LoopState) {b : LoopState}
      → Broke m w n s b
      → IsAccounted total s
      → length b.verified_keys + b.failed ≡ total
  unfolding block_pending
  Broke-sum n s v a = rw v.result (omega (arith, a.sum, ap length v.idle))

  -- When the loop ends, each task of the run has either been verified or counted as failed, and none
  -- twice.
  pub loop_accounted :
      (fuel n : ℕ) (s : LoopState) {f : LoopState}
      → loop fuel m w n s ≡ ok (ended f)
      → IsAccounted total s
      → length f.verified_keys + f.failed ≡ total
  loop_accounted fuel n s e a =
      loop_rule m w (IsAccounted total) (λ f. length f.verified_keys + f.failed ≡ total)
        (λ n s g a v. went_on-IsAccounted n s v a) (λ s a o. ground (arith, a.sum))
        (λ n s b a v. Broke-sum n s v a) fuel n s e a
