-- ===== src/Service/Loop/Turns.antt =====
-- A turn of src/firstgreen/service.py's loop, taken apart: what it reads, and what it starts.
use firstgreen.Prelude.{
  ℕ, true, false, ◌≡◌, refl, ◌∙◌, ap, subst, inl, inr, ◌&&◌, List, [], ◌∷◌, arith, some, Bool-cases,
  is_empty, length,
}
use firstgreen.Prelude.Result.{ok, >>=-eq-ok, Returns-eq-ok}
use firstgreen.Config.Models.{ConcurrencyMode, ConcurrencyConfig, Manifest, auto, static}
use firstgreen.Scheduler.Concurrency.{PressureSnapshot, decide, subagent_threads_per_root}
use firstgreen.Scheduler.Concurrency.Bounds.{IsBounded, IsControlled, decide-IsControlled}
use firstgreen.Scheduler.Queue.{RankedTask, ranked_ready_tasks}
use firstgreen.Service.Admission.{admit}
use firstgreen.Service.Loop.{
  World, LoopState, adjust, start_each, start_selected, block_pending, wait_for_running, note_ready,
  append_log, hold_entries, Turn, broke, goes_on, turn, controller, snapshot_of, root_concurrency,
}

-- The two states agree on the tasks, and the concurrency is as controlled as before.
pub record IsReady (s b : LoopState) : Type 0 where
  pub pending : b.pending ≡ s.pending
  pub running : b.running ≡ s.running
  pub verified_keys : b.verified_keys ≡ s.verified_keys
  pub failed : b.failed ≡ s.failed
  pub bounded : IsBounded s.concurrency → IsBounded b.concurrency
  pub same_max : IsBounded s.concurrency → b.concurrency.max_root ≡ s.concurrency.max_root

IsReady-refl : (s : LoopState) → IsReady s s
IsReady-refl s = record {
  pending = refl;
  running = refl;
  verified_keys = refl;
  failed = refl;
  bounded = λ h. h;
  same_max = λ h. refl;
}

pub adjust-IsReady :
    (mode : ConcurrencyMode) (c : ConcurrencyConfig) (host : PressureSnapshot) (now : ℕ)
    (s : LoopState) {b : LoopState}
    → adjust mode c host now s ≡ ok b
    → IsReady s b
unfolding adjust
adjust-IsReady static c host now s {b} e =
    let same : s ≡ b = cc in subst (IsReady s) same (IsReady-refl s)
adjust-IsReady auto c host now s {b} e =
    let decided = decide (controller c) s.concurrency (snapshot_of s host) now "auto" in
    let (d, found, rest) =
      >>=-eq-ok decided
        (λ d. ok (append_log (root_concurrency (d.1) ∷ []) (record s { concurrency = d.0 }))) e in
    let same : append_log (root_concurrency (d.1) ∷ []) (record s { concurrency = d.0 }) ≡ b = cc in
    let fine : IsBounded s.concurrency → IsControlled s.concurrency d = λ h.
      Returns-eq-ok (IsControlled s.concurrency) decided
        (decide-IsControlled (controller c) s.concurrency (snapshot_of s host) now "auto" h)
        found in
    subst (IsReady s) same (record {
      pending = refl;
      running = refl;
      verified_keys = refl;
      failed = refl;
      bounded = λ h. (fine h).bounded;
      same_max = λ h. (fine h).same_max;
    })

is_empty-eq : {A : Type 0} (xs : List A) → is_empty xs ≡ true → xs ≡ []
is_empty-eq [] h = refl
is_empty-eq (x ∷ xs) h = cc

IsReady-trans : (s a b : LoopState) → IsReady s a → IsReady a b → IsReady s b
IsReady-trans s a b h k = record {
  pending = k.pending ∙ h.pending;
  running = k.running ∙ h.running;
  verified_keys = k.verified_keys ∙ h.verified_keys;
  failed = k.failed ∙ h.failed;
  bounded = λ v. k.bounded (h.bounded v);
  same_max = λ v. k.same_max (h.bounded v) ∙ h.same_max v;
}

pub IsReady-noted :
    (ranked : List RankedTask) (s b : LoopState) → IsReady (note_ready ranked s) b → IsReady s b
IsReady-noted ranked s b h = record {
  pending = h.pending;
  running = h.running;
  verified_keys = h.verified_keys;
  failed = h.failed;
  bounded = h.bounded;
  same_max = h.same_max;
}

-- What `start_selected` does when the budget's check passes.
record Started (ranked : List RankedTask) (s started : LoopState) : Type 0 where
  before : LoopState
  ready : IsReady s before
  threads : ℕ
  result :
      started
      ≡ start_each
          (length ranked)
          before.concurrency.current_root
          threads
          1
          (admit before.concurrency.current_root before.running
            (length before.running)
            ranked).selected
          before

start_selected-Started :
    (c : ConcurrencyConfig) (k : ℕ) (ranked : List RankedTask) (s : LoopState) {started : LoopState}
    → start_selected c k ranked s ≡ ok started
    → Started ranked s started
unfolding start_selected
start_selected-Started c k ranked s {started} e =
    let (threads, _, end) =
      >>=-eq-ok (subagent_threads_per_root c.total_agent_thread_budget c.max_root k) _ e in
    let holds = (admit s.concurrency.current_root s.running (length s.running) ranked).holds in
    record {
      before = append_log (hold_entries (length ranked) s.concurrency.current_root holds) s;
      ready = record {
        pending = refl;
        running = refl;
        verified_keys = refl;
        failed = refl;
        bounded = λ h. h;
        same_max = λ h. refl;
      };
      threads = threads;
      result = cc;
    }

module _ (m : Manifest) (w : World) (n : ℕ) (s : LoopState) where
  -- A turn that starts what it selected from its queue, and waits.
  pub record WentOn (g : LoopState) : Type 0 where
    pub ranked : List RankedTask
    pub queue :
        ranked_ready_tasks s.pending s.verified_keys m.scheduler.ready_queue_policy (some m.tasks)
        ≡ ok ranked
    pub some_work : (is_empty ranked && is_empty s.running) ≡ false
    pub before : LoopState
    pub ready : IsReady s before
    pub threads : ℕ
    pub result :
        g
        ≡ wait_for_running w n (
            start_each
              (length ranked)
              before.concurrency.current_root
              threads
              1
              (admit before.concurrency.current_root before.running
                (length before.running)
                ranked).selected
              before)

  -- The state between the start of the selected tasks and the wait.
  abbrev pub started_by : {g : LoopState} → WentOn g → LoopState
  started_by v =
      start_each (length v.ranked) v.before.concurrency.current_root v.threads 1
        (admit v.before.concurrency.current_root v.before.running (length v.before.running)
          v.ranked).selected
        v.before

  -- A turn that finds nothing ready and nothing running.
  pub record Broke (b : LoopState) : Type 0 where
    pub queue :
        ranked_ready_tasks s.pending s.verified_keys m.scheduler.ready_queue_policy (some m.tasks)
        ≡ ok []
    pub idle : s.running ≡ []
    pub result : b ≡ block_pending (note_ready [] s)

  abbrev pub View : Turn → Type 0
  View (broke b) = Broke b
  View (goes_on g) = WentOn g

  pub turn-View : {t : Turn} → turn m w n s ≡ ok t → View t
  unfolding turn start_selected adjust
  turn-View {t} e =
      let policy = m.scheduler.ready_queue_policy in
      let c = m.scheduler.concurrency in
      let (ranked, queue, rest) =
        >>=-eq-ok (ranked_ready_tasks s.pending s.verified_keys policy (some m.tasks)) _ e in
      elim (Bool-cases (is_empty ranked && is_empty s.running)) [
        | inl idle ↦
            let none : ranked ≡ [] = is_empty-eq ranked (ground arith) in
            let same : broke (block_pending (note_ready ranked s)) ≡ t = ground arith in
            subst View same (record {
              queue = queue ∙ ap ok none;
              idle = is_empty-eq s.running (ground arith);
              result = ap (λ l. block_pending (note_ready l s)) none;
            })
        | inr work ↦
            let (adjusted, a, tail) =
              >>=-eq-ok (adjust c.mode c (w.sample n) (w.clock n) (note_ready ranked s)) _
                (rw work at rest) in
            let (started, b, last) =
              >>=-eq-ok (start_selected c m.max_subagent_threads ranked adjusted) _ tail in
            let from_queue =
              adjust-IsReady c.mode c (w.sample n) (w.clock n) (note_ready ranked s) a in
            let start = start_selected-Started c m.max_subagent_threads ranked adjusted b in
            let same : goes_on (wait_for_running w n started) ≡ t = cc in
            subst View same (record {
              ranked = ranked;
              queue = queue;
              some_work = work;
              before = start.before;
              ready =
                  IsReady-trans s adjusted start.before (IsReady-noted ranked s adjusted from_queue)
                    start.ready;
              threads = start.threads;
              result = ap (wait_for_running w n) start.result;
            })
      ]
