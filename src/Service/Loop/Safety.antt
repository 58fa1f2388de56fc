-- ===== src/Service/Loop/Safety.antt =====
-- What holds of the tasks that run, in every state that src/firstgreen/service.py's loop reaches.
use mathlib.Core.List.{append-nil}
use firstgreen.Prelude.{
  some, ℕ, suc, ◌-◌, String, Bool, true, false, not, ◌≡◌, refl, ◌∙◌, sym, subst, subst₂, List, [],
  ◌∷◌, ◌++◌, map, arith, ◌==◌, Bool-cases, inl, inr, is_empty, length, mem, mem-append, all, All,
  All-keep, All-append, All-imp, keep, leb,
}
use firstgreen.Prelude.Result.{ok}
use firstgreen.Config.Models.{TaskConfig, Manifest}
use firstgreen.Scheduler.Queue.{RankedTask, is_ready}
use firstgreen.Scheduler.Queue.Ready.{ranked_ready-All}
use firstgreen.Service.Admission.{admit, select, active_resources, resource_keys, conflicts}
use firstgreen.Service.Admission.Exclusive.{Disjoint, Exclusive, admit-Exclusive}
use firstgreen.Service.Loop.{
  initial_state, World, LoopState, turn, goes_on, is_over, finish_one, finish_each,
  wait_for_running,
}
use firstgreen.Service.Loop.Turns.{WentOn, started_by, turn-View}
use firstgreen.Service.Loop.Rule.{
  IsInitial, initial_state-IsInitial, running-start_each, verified-start_each,
}

-- The states in which a turn of the loop begins.
pub data Reached (m : Manifest) (w : World) (s₀ : LoopState) : ℕ → LoopState → Type 0 where
  start : Reached m w s₀ 0 s₀
  next :
      (n : ℕ) (s g : LoopState)
      → Reached m w s₀ n s
      → is_over s ≡ false
      → turn m w n s ≡ ok (goes_on g)
      → Reached m w s₀ (suc n) g

-- Fewer held resources are in fewer tasks' way.
Disjoint-fewer :
    (keys held less : List String)
    → ((k : String) → mem k held ≡ false → mem k less ≡ false)
    → Disjoint keys held
    → Disjoint keys less
Disjoint-fewer [] held less f d = tt
Disjoint-fewer (k ∷ keys) held less f d = (f k d.0, Disjoint-fewer keys held less f d.1)

mem-more :
    (keys held less : List String)
    → ((k : String) → mem k held ≡ false → mem k less ≡ false)
    → (k : String) → mem k (keys ++ held) ≡ false
    → mem k (keys ++ less) ≡ false
mem-more keys held less f k h = ground (arith, mem-append k keys held, mem-append k keys less, f k)

Exclusive-fewer :
    (ts : List TaskConfig) (held less : List String)
    → ((k : String) → mem k held ≡ false → mem k less ≡ false)
    → Exclusive held ts
    → Exclusive less ts
Exclusive-fewer [] held less f e = tt
Exclusive-fewer (t ∷ ts) held less f e = (
  Disjoint-fewer (resource_keys t) held less f e.0,
  Exclusive-fewer ts (resource_keys t ++ held) (resource_keys t ++ less)
      (mem-more (resource_keys t) held less f) e.1,
)

Exclusive-keep :
    (p : TaskConfig → Bool) (ts : List TaskConfig) (held : List String)
    → Exclusive held ts
    → Exclusive held (keep p ts)
Exclusive-keep p [] held e = tt
Exclusive-keep p (t ∷ ts) held e = elim (Bool-cases (p t)) [
  | inl e' ↦ rw e' (e.0, Exclusive-keep p ts (resource_keys t ++ held) e.1)
  | inr e' ↦ rw e' (
      Exclusive-keep p ts held (
        Exclusive-fewer ts (resource_keys t ++ held) held
          (λ k h. ground (arith, mem-append k (resource_keys t) held)) e.1))
]

-- Tasks that are exclusive among themselves, and others that are so beside them.
Exclusive-append :
    (xs ys : List TaskConfig) (held : List String)
    → Exclusive held xs
    → Exclusive (active_resources xs ++ held) ys
    → Exclusive held (xs ++ ys)
unfolding active_resources
Exclusive-append [] ys held e f = f
Exclusive-append (x ∷ xs) ys held e f = (
  e.0,
  Exclusive-append xs ys (resource_keys x ++ held) e.1 (
      Exclusive-fewer ys ((resource_keys x ++ active_resources xs) ++ held)
        (active_resources xs ++ (resource_keys x ++ held))
        (λ k h. ground (
          arith,
          mem-append k (resource_keys x ++ active_resources xs) held,
          mem-append k (resource_keys x) (active_resources xs),
          mem-append k (active_resources xs) (resource_keys x ++ held),
          mem-append k (resource_keys x) held,
        ))
        f),
)

-- Dependencies that are verified stay verified.
all-more :
    (x : String) (green ds : List String)
    → all (λ d. mem d green) ds ≡ true
    → all (λ d. mem d (x ∷ green)) ds ≡ true
all-more x green [] h = refl
all-more x green (d ∷ ds) h = ground (arith, all-more x green ds)

-- What the tasks that run satisfy: their dependencies are verified, and no two of them share a
-- resource.
pub record IsSafe (s : LoopState) : Type 0 where
  pub ready : All (λ (t : TaskConfig). is_ready s.verified_keys t ≡ true) s.running
  pub exclusive : Exclusive [] s.running

select-All :
    (P : RankedTask → Type 0) (capacity count : ℕ) (held : List String) (ranked : List RankedTask)
    → All P ranked
    → All P (select capacity count held ranked).selected
unfolding select
select-All P capacity count held [] h = tt
select-All P capacity count held (r ∷ rest) h =
    elim (Bool-cases (is_empty (conflicts (resource_keys r.task) held))) [
      | inr busy ↦ rw busy (select-All P capacity count held rest h.1)
      | inl free ↦ elim (Bool-cases (leb capacity (suc count))) [
        | inl full ↦ rw (free, full) (h.0, tt)
        | inr room ↦
            rw (free, room)
              (h.0, select-All P capacity (suc count) (resource_keys r.task ++ held) rest h.1)
      ]
    ]

All-tasks :
    (green : List String) (rs : List RankedTask)
    → All (λ (r : RankedTask). is_ready green r.task ≡ true) rs
    → All (λ (t : TaskConfig). is_ready green t ≡ true) (map (λ (r : RankedTask). r.task) rs)
All-tasks green [] h = tt
All-tasks green (r ∷ rs) h = (h.0, All-tasks green rs h.1)

finish_one-IsSafe :
    (x : String) (result : Bool) (s : LoopState) → IsSafe s → IsSafe (finish_one x result s)
unfolding finish_one
finish_one-IsSafe x true s h = record {
  ready = elim (Bool-cases (mem x s.verified_keys)) [
    | inl e ↦ rw e (All-keep _ (λ (t : TaskConfig). not (t.id == x)) s.running h.ready)
    | inr e ↦ rw e (
        All-keep _ (λ (t : TaskConfig). not (t.id == x)) s.running
          (All-imp _ _ s.running (λ t. all-more x s.verified_keys t.dependencies) h.ready))
  ];
  exclusive = Exclusive-keep (λ (t : TaskConfig). not (t.id == x)) s.running [] h.exclusive;
}
finish_one-IsSafe x false s h = record {
  ready = All-keep _ (λ (t : TaskConfig). not (t.id == x)) s.running h.ready;
  exclusive = Exclusive-keep (λ (t : TaskConfig). not (t.id == x)) s.running [] h.exclusive;
}

finish_each-IsSafe :
    (done : List (String × Bool)) (s : LoopState) → IsSafe s → IsSafe (finish_each done s)
unfolding finish_each
finish_each-IsSafe [] s h = h
finish_each-IsSafe ((x, result) ∷ done) s h =
    finish_each-IsSafe done (finish_one x result s) (finish_one-IsSafe x result s h)

wait-IsSafe : (w : World) (n : ℕ) (s : LoopState) → IsSafe s → IsSafe (wait_for_running w n s)
wait-IsSafe w n s h = elim (Bool-cases (is_empty s.running)) [
  | inl e ↦ rw e h
  | inr e ↦ rw e (finish_each-IsSafe (w.wait n s.running) s h)
]

module _ (m : Manifest) (w : World) where
  -- The tasks that a turn starts keep the safety of those that run.
  pub started-IsSafe :
      (n : ℕ) (s : LoopState) {g : LoopState} (v : WentOn m w n s g)
      → IsSafe s
      → IsSafe (started_by m w n s v)
  unfolding admit
  started-IsSafe n s v h =
      let b = v.before in
      let limit = b.concurrency.current_root in
      let rs = (admit limit b.running (length b.running) v.ranked).selected in
      let runs = running-start_each (length v.ranked) limit v.threads 1 rs b in
      let (green, _, _) = verified-start_each (length v.ranked) limit v.threads 1 rs b in
      let queue =
        ranked_ready-All s.pending s.verified_keys m.scheduler.ready_queue_policy (some m.tasks)
          v.queue in
      let chosen_ready = All-tasks s.verified_keys rs (
        select-All (λ (r : RankedTask). is_ready s.verified_keys r.task ≡ true)
          (limit - length b.running) 0 (active_resources b.running) v.ranked queue) in
      let all_ready =
        All-append (λ (t : TaskConfig). is_ready s.verified_keys t ≡ true) b.running
          (map (λ (r : RankedTask). r.task) rs)
          (subst (All (λ (t : TaskConfig). is_ready s.verified_keys t ≡ true)) (sym v.ready.running)
            h.ready)
          chosen_ready in
      let all_exclusive =
        Exclusive-append b.running (map (λ (r : RankedTask). r.task) rs) []
          (subst (Exclusive []) (sym v.ready.running) h.exclusive)
          (subst (λ held. Exclusive held (map (λ (r : RankedTask). r.task) rs))
            (sym (append-nil (active_resources b.running)))
            (admit-Exclusive limit b.running v.ranked)) in
      record {
        ready =
            subst₂
              (λ (known : List String) (ts : List TaskConfig).
                All (λ (t : TaskConfig). is_ready known t ≡ true) ts)
              (sym (green ∙ v.ready.verified_keys)) (sym runs) all_ready;
        exclusive = rw runs all_exclusive;
      }

  pub went_on-IsSafe :
      (n : ℕ) (s : LoopState) {g : LoopState} → WentOn m w n s g → IsSafe s → IsSafe g
  went_on-IsSafe n s v h = subst IsSafe (sym v.result) (wait-IsSafe w n _ (started-IsSafe n s v h))

  initial-IsSafe : (s : LoopState) → IsInitial m s → IsSafe s
  initial-IsSafe s i = record { ready = rw (i.running) tt; exclusive = rw (i.running) tt }

  -- Whenever a turn of a run begins, every running task has all of its dependencies verified, and no
  -- two running tasks share a resource, whatever finishes when and whatever the host reports.
  pub Reached-IsSafe :
      (now : ℕ) {s₀ : LoopState} {n : ℕ} {s : LoopState}
      → initial_state m now ≡ ok s₀
      → Reached m w s₀ n s
      → IsSafe s
  Reached-IsSafe now {s₀} e start = initial-IsSafe s₀ (initial_state-IsInitial m now e)
  Reached-IsSafe now e (next n s g r o t) =
      went_on-IsSafe n s (turn-View m w n s t) (Reached-IsSafe now e r)
