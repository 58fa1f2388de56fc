-- ===== src/Service/Loop/Total.antt =====
-- The loop of src/firstgreen/service.py ends.
use firstgreen.Prelude.{
  ℕ, zero, suc, ◌+◌, ◌≤◌, String, Bool, true, false, not, ◌==◌, mem, all, keep, All, All-mem,
  All-keep, refl, ap, sym, subst, ◌∙◌, ◌≡◌, List, [], ◌∷◌, arith, ◌&&◌, some, Bool-cases, inl, inr,
  is_empty, length,
}
use firstgreen.Prelude.Result.{ok, Returns, Returns-bind, Returns-get}
use firstgreen.Service.Loop.Progress.{measure, went_on-measure}
use firstgreen.Config.Models.{
  ReadyQueuePolicy, TaskConfig, Manifest, ConcurrencyMode, ConcurrencyConfig, static, auto,
}
use firstgreen.Scheduler.Concurrency.{PressureSnapshot, subagent_threads_per_root}
use firstgreen.Scheduler.Concurrency.Bounds.{IsBounded, IsControlled, decide-IsControlled}
use firstgreen.Config.Dag.{ids}
use firstgreen.Scheduler.Queue.{Memo, has, is_ready, RankedTask, ranked_ready_tasks, bottom_levels}
use firstgreen.Scheduler.Queue.Levels.Valid.{HasAll}
use firstgreen.Service.Admission.{admit}
use firstgreen.Service.Loop.{
  World, LoopState, start_each, finish_each, wait_for_running, start_selected, adjust, Turn, broke,
  goes_on, turn, Loop, ended, out_of_fuel, loop, is_over, controller, snapshot_of, note_ready,
}
use firstgreen.Service.Loop.Turns.{WentOn, View, turn-View}
use firstgreen.Service.Loop.Rule.{went_on-IsBounded}
use firstgreen.Service.Loop.Accounting.{IsAccounted, IsWaiting, went_on-IsAccounted, Broke-sum}

-- What the checks of a manifest give: bottom levels, a task, and a budget for the roots.
pub record IsRunnable (m : Manifest) : Type 0 where
  pub levels : Returns (HasAll m.tasks) (bottom_levels m.tasks)
  pub some_task : is_empty m.tasks ≡ false
  pub roots : 1 ≤ m.scheduler.concurrency.max_root
  pub budget : m.scheduler.concurrency.max_root ≤ m.scheduler.concurrency.total_agent_thread_budget

-- Every task that waits is one of the manifest's.
abbrev pub AreKnown : List TaskConfig → List TaskConfig → Type 0
AreKnown tasks = All (λ (t : TaskConfig). mem t.id (ids tasks) ≡ true)

known-levels :
    (tasks ready : List TaskConfig) (memo : Memo)
    → HasAll tasks memo
    → AreKnown tasks ready
    → all (λ (t : TaskConfig). has t.id memo) ready ≡ true
known-levels tasks [] memo h k = refl
known-levels tasks (t ∷ ready) memo h k =
    let one = All-mem (λ id. has id memo ≡ true) t.id (ids tasks) k.0 h in
    ground (arith, known-levels tasks ready memo h k.1)

queue_total :
    (pending : List TaskConfig) (green : List String) (policy : ReadyQueuePolicy)
    (tasks : List TaskConfig)
    → is_empty tasks ≡ false
    → Returns (HasAll tasks) (bottom_levels tasks)
    → AreKnown tasks pending
    → Returns (λ _. Unit) (ranked_ready_tasks pending green policy (some tasks))
unfolding ranked_ready_tasks
queue_total pending green policy [] e r k = cc
queue_total pending green policy (t ∷ ts) e r k =
    Returns-bind (HasAll (t ∷ ts)) (λ _. Unit) (bottom_levels (t ∷ ts)) _ r
      (λ memo h.
        rw
          (known-levels (t ∷ ts) (keep (is_ready green) pending) memo h (
            All-keep (λ (u : TaskConfig). mem u.id (ids (t ∷ ts)) ≡ true) (is_ready green) pending
              k))
          tt)

adjust_total :
    (mode : ConcurrencyMode) (c : ConcurrencyConfig) (host : PressureSnapshot) (now : ℕ)
    (s : LoopState)
    → IsBounded s.concurrency
    → Returns (λ _. Unit) (adjust mode c host now s)
unfolding adjust
adjust_total static c host now s b = tt
adjust_total auto c host now s b =
    Returns-bind (IsControlled s.concurrency) (λ _. Unit) _ _
      (decide-IsControlled (controller c) s.concurrency (snapshot_of s host) now "auto" b)
      (λ d _. tt)

budget_total :
    (m : Manifest) (r : IsRunnable m)
    → Returns
        (λ _. Unit)
        (subagent_threads_per_root m.scheduler.concurrency.total_agent_thread_budget
          m.scheduler.concurrency.max_root m.max_subagent_threads)
unfolding subagent_threads_per_root
budget_total m r = ground (arith, r.roots, r.budget)

start_selected_total :
    (m : Manifest) (r : IsRunnable m) (ranked : List RankedTask) (s : LoopState)
    → Returns (λ _. Unit) (start_selected m.scheduler.concurrency m.max_subagent_threads ranked s)
unfolding start_selected
start_selected_total m r ranked s =
    Returns-bind (λ _. Unit) (λ _. Unit)
      (subagent_threads_per_root m.scheduler.concurrency.total_agent_thread_budget
        m.scheduler.concurrency.max_root m.max_subagent_threads)
      _ (budget_total m r) (λ _ _. tt)

turn_total :
    (m : Manifest) (r : IsRunnable m) (w : World) (n : ℕ) (s : LoopState)
    → IsBounded s.concurrency
    → AreKnown m.tasks s.pending
    → Returns (λ _. Unit) (turn m w n s)
unfolding turn
turn_total m r w n s b k =
    Returns-bind (λ _. Unit) (λ _. Unit)
      (ranked_ready_tasks s.pending s.verified_keys m.scheduler.ready_queue_policy (some m.tasks)) _
      (queue_total s.pending s.verified_keys m.scheduler.ready_queue_policy m.tasks r.some_task
        r.levels k)
      (λ ranked _. elim (Bool-cases (is_empty ranked && is_empty s.running)) [
        | inl e ↦ rw e tt
        | inr e ↦ rw e (
            Returns-bind (λ _. Unit) (λ _. Unit)
              (adjust m.scheduler.concurrency.mode m.scheduler.concurrency (w.sample n) (w.clock n)
                (note_ready ranked s))
              _
              (adjust_total m.scheduler.concurrency.mode m.scheduler.concurrency (w.sample n)
                (w.clock n) (note_ready ranked s) b)
              (λ adjusted _.
                Returns-bind (λ _. Unit) (λ _. Unit)
                  (start_selected m.scheduler.concurrency m.max_subagent_threads ranked adjusted) _
                  (start_selected_total m r ranked adjusted) (λ _ _. tt)))
      ])

pending-start_each :
    (tasks : List TaskConfig) (ready limit threads position : ℕ) (rs : List RankedTask)
    (s : LoopState)
    → AreKnown tasks s.pending
    → AreKnown tasks (start_each ready limit threads position rs s).pending
unfolding start_each
pending-start_each tasks ready limit threads position [] s k = k
pending-start_each tasks ready limit threads position (r ∷ rs) s k =
    pending-start_each tasks ready limit threads (suc position) rs _ (
      All-keep (λ (t : TaskConfig). mem t.id (ids tasks) ≡ true)
        (λ (t : TaskConfig). not (t.id == r.task.id)) s.pending k)

pending-finish_each :
    (done : List (String × Bool)) (s : LoopState) → (finish_each done s).pending ≡ s.pending
unfolding finish_each
pending-finish_each [] s = refl
pending-finish_each ((x, true) ∷ done) s = pending-finish_each done _
pending-finish_each ((x, false) ∷ done) s = pending-finish_each done _

pending-wait : (w : World) (n : ℕ) (s : LoopState) → (wait_for_running w n s).pending ≡ s.pending
pending-wait w n s = elim (Bool-cases (is_empty s.running)) [
  | inl e ↦ rw e refl
  | inr e ↦ rw e (pending-finish_each (w.wait n s.running) s)
]

-- What waits after a turn waited before it.
went_on-AreKnown :
    (m : Manifest) (w : World) (n : ℕ) (s : LoopState) {g : LoopState}
    → WentOn m w n s g
    → AreKnown m.tasks s.pending
    → AreKnown m.tasks g.pending
went_on-AreKnown m w n s v k =
    let rs =
      (admit v.before.concurrency.current_root v.before.running (length v.before.running)
        v.ranked).selected in
    subst (AreKnown m.tasks) (sym (ap (λ (l : LoopState). l.pending) v.result ∙ pending-wait w n _))
      (pending-start_each m.tasks (length v.ranked) v.before.concurrency.current_root v.threads 1 rs
        v.before (subst (AreKnown m.tasks) (sym v.ready.pending) k))

abbrev pub EndedAt : ℕ → Loop → Type 0
EndedAt total (ended f) = length f.verified_keys + f.failed ≡ total
EndedAt total (out_of_fuel f) = ⊥

module _ (total : ℕ) (m : Manifest) (r : IsRunnable m) (w : World) (wait : IsWaiting w) where
  after_turn :
      (fuel n : ℕ) (s : LoopState) (t : Turn)
      → View m w n s t
      → IsAccounted total s
      → ((g : LoopState) → WentOn m w n s g → Returns (EndedAt total) (loop fuel m w (suc n) g))
      → Returns
          (EndedAt total)
          (elim t [ broke b ↦ ok (ended b) | goes_on g ↦ loop fuel m w (suc n) g ])
  after_turn fuel n s (broke b) v a ih = Broke-sum total m w wait n s v a
  after_turn fuel n s (goes_on g) v a ih = ih g v

  -- Two turns for each pending task and one for each running one are enough for the loop to end,
  -- without an error; and then every task is either verified or counted as failed.
  pub loop-total :
      (fuel n : ℕ) (s : LoopState)
      → IsAccounted total s
      → IsBounded s.concurrency
      → AreKnown m.tasks s.pending
      → measure s ≤ fuel
      → Returns (EndedAt total) (loop fuel m w n s)
  unfolding loop
  loop-total zero n s a b k h =
      let over : is_over s ≡ true = ground arith in rw over (ground (arith, a.sum))
  loop-total (suc fuel) n s a b k h = elim (Bool-cases (is_over s)) [
    | inl o ↦ rw o (ground (arith, a.sum))
    | inr c ↦
        let (t, found, _) = Returns-get (λ _. Unit) (turn m w n s) (turn_total m r w n s b k) in
        rw (c, found)
          (after_turn fuel n s t (turn-View m w n s found) a (λ g v.
            loop-total fuel (suc n) g (went_on-IsAccounted total m w wait n s v a)
              (went_on-IsBounded m w n s v b).0 (went_on-AreKnown m w n s v k)
              (omega (arith, h, went_on-measure total m w wait n s v a))))
  ]
