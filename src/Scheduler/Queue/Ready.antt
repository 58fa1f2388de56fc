-- ===== src/Scheduler/Queue/Ready.antt =====
-- The ready queue lists the ready tasks, each as often as it is pending, in the policy's order.
use mathlib.Core.List.{Perm}
use mathlib.Core.List.Perm
use firstgreen.Prelude.{
  ◌<◌, ◌⊎◌, not, leb, all, text_leb, All-imp, All, All-sort, Bool-cases, inl, inr, String, true,
  false, ◌≡◌, refl, subst, List, [], ◌∷◌, map, arith, keep, sort, Option, Ordered, sort-perm,
  sort-Ordered, text_total, text_trans,
}
use firstgreen.Prelude.Int.{leb_ℤ, leb_ℤ_total, leb_ℤ_trans, leb_ℤ_antisym, Greater, not_le-Greater}
use firstgreen.Prelude.Result.{ok, >>=-eq-ok, raise_if-eq-ok, key_error}
use firstgreen.Config.Models.{TaskConfig, ReadyQueuePolicy, stable, critical_path}
use firstgreen.Scheduler.Queue.{
  Memo, has, level_at, entry_of, bottom_levels, RankedTask, stable_le, queue_le, is_ready, all_or,
  ranked_ready_tasks,
}

stable_total : (a b : RankedTask) → stable_le a b ≡ false → stable_le b a ≡ true
stable_total a b h =
    ground (arith, leb_ℤ_total a.task.priority b.task.priority, text_total a.task.id b.task.id)

stable_trans :
    (a b c : RankedTask) → stable_le a b ≡ true → stable_le b c ≡ true → stable_le a c ≡ true
stable_trans a b c h k =
    let p = a.task.priority in
    let q = b.task.priority in
    let r = c.task.priority in
    ground (
      arith,
      leb_ℤ_trans p q r,
      leb_ℤ_trans r p q,
      leb_ℤ_trans q r p,
      leb_ℤ_total p q,
      leb_ℤ_total q r,
      leb_ℤ_total p r,
      text_trans a.task.id b.task.id c.task.id,
    )

queue_total :
    (p : ReadyQueuePolicy) (a b : RankedTask) → queue_le p a b ≡ false → queue_le p b a ≡ true
queue_total stable a b h = stable_total a b h
queue_total critical_path a b h = ground (arith, stable_total a b)

queue_trans :
    (p : ReadyQueuePolicy) (a b c : RankedTask)
    → queue_le p a b ≡ true
    → queue_le p b c ≡ true
    → queue_le p a c ≡ true
queue_trans stable a b c h k = stable_trans a b c h k
queue_trans critical_path a b c h k = ground (arith, stable_trans a b c)

-- The order of the queue, as the policy means it.
abbrev pub IsUrgent : RankedTask → RankedTask → Type 0
IsUrgent a b =
    Greater a.task.priority b.task.priority
    ⊎ ((a.task.priority ≡ b.task.priority) × (text_leb a.task.id b.task.id ≡ true))

abbrev pub Precedes : ReadyQueuePolicy → RankedTask → RankedTask → Type 0
Precedes stable a b = IsUrgent a b
Precedes critical_path a b =
    (b.bottom_level < a.bottom_level) ⊎ ((a.bottom_level ≡ b.bottom_level) × IsUrgent a b)

abbrev pub InOrder : ReadyQueuePolicy → List RankedTask → Type 0
InOrder policy [] = Unit
InOrder policy (r ∷ rs) = All (Precedes policy r) rs × InOrder policy rs

-- The entry bears the level of its task.
abbrev pub HasLevel : Memo → RankedTask → Type 0
HasLevel ranks r = (has r.task.id ranks ≡ true) × (r.bottom_level ≡ level_at ranks r.task.id)

stable-Precedes : (a b : RankedTask) → stable_le a b ≡ true → IsUrgent a b
stable-Precedes a b h = elim (Bool-cases (leb_ℤ a.task.priority b.task.priority)) [
  | inr more ↦ inl (not_le-Greater a.task.priority b.task.priority more)
  | inl le ↦ elim (Bool-cases (leb_ℤ b.task.priority a.task.priority)) [
    | inl ge ↦ inr (leb_ℤ_antisym a.task.priority b.task.priority le ge, (rw (le, ge) at h))
    | inr less ↦ absurd (ground arith)
  ]
]

queue-Precedes : (p : ReadyQueuePolicy) (a b : RankedTask) → queue_le p a b ≡ true → Precedes p a b
queue-Precedes stable a b h = stable-Precedes a b h
queue-Precedes critical_path a b h = elim (Bool-cases (leb a.bottom_level b.bottom_level)) [
  | inr more ↦ inl (ground arith)
  | inl le ↦ elim (Bool-cases (leb b.bottom_level a.bottom_level)) [
    | inl ge ↦ inr (ground arith, stable-Precedes a b (rw (le, ge) at h))
    | inr less ↦ absurd (ground arith)
  ]
]

Ordered-InOrder :
    (p : ReadyQueuePolicy) (rs : List RankedTask) → Ordered (queue_le p) rs → InOrder p rs
Ordered-InOrder p [] h = tt
Ordered-InOrder p (r ∷ rs) h = (
  All-imp (λ b. queue_le p r b ≡ true) (Precedes p r) rs (queue-Precedes p r) h.0,
  Ordered-InOrder p rs h.1,
)

entries_ranked :
    (ranks : Memo) (ts : List TaskConfig)
    → all (λ (t : TaskConfig). has t.id ranks) ts ≡ true
    → All (HasLevel ranks) (map (entry_of ranks) ts)
entries_ranked ranks [] h = tt
entries_ranked ranks (t ∷ ts) h = ((ground arith, refl), entries_ranked ranks ts (ground arith))

map-task-entry_of :
    (ranks : Memo) (ts : List TaskConfig)
    → map (λ (r : RankedTask). r.task) (map (entry_of ranks) ts) ≡ ts
map-task-entry_of ranks [] = refl
map-task-entry_of ranks (t ∷ ts) = rw (map-task-entry_of ranks ts)

-- A queue that was computed: the levels of all the tasks, and the sorted entries of the ready ones.
queue-entries :
    (tasks : List TaskConfig) (green : List String) (policy : ReadyQueuePolicy)
    (all_tasks : Option (List TaskConfig)) {queue : List RankedTask}
    → ranked_ready_tasks tasks green policy all_tasks ≡ ok queue
    → (ranks : Memo) × (bottom_levels (all_or all_tasks tasks) ≡ ok ranks)
      × (all (λ (t : TaskConfig). has t.id ranks) (keep (is_ready green) tasks) ≡ true)
      × (sort (queue_le policy) (map (entry_of ranks) (keep (is_ready green) tasks)) ≡ queue)
unfolding ranked_ready_tasks
queue-entries tasks green policy all_tasks e =
    let ready = keep (is_ready green) tasks in
    let (ranks, made, found) = >>=-eq-ok (bottom_levels (all_or all_tasks tasks)) _ e in
    let known = all (λ (t : TaskConfig). has t.id ranks) ready in
    let (present, sorted) =
      raise_if-eq-ok (not known) key_error
        (ok (sort (queue_le policy) (map (entry_of ranks) ready))) found in
    (ranks, made, ground arith, cc)

-- Under either policy, the queue holds each pending task whose dependencies are all green, as often
-- as it is pending, and no other. Each entry bears the level that `bottom_levels` computes for its
-- task from all the tasks. An entry stands before all that follow it: under `critical_path`, by the
-- greater level, then the greater priority, then the lesser id; under `stable`, by the greater
-- priority, then the lesser id.
pub ranked_ready_correct :
    (tasks : List TaskConfig) (green : List String) (policy : ReadyQueuePolicy)
    (all_tasks : Option (List TaskConfig)) {queue : List RankedTask}
    → ranked_ready_tasks tasks green policy all_tasks ≡ ok queue
    → InOrder policy queue
      × Perm (map (λ (r : RankedTask). r.task) queue) (keep (is_ready green) tasks)
      × ((ranks : Memo) × (bottom_levels (all_or all_tasks tasks) ≡ ok ranks)
          × All (HasLevel ranks) queue)
ranked_ready_correct tasks green policy all_tasks e =
    let (ranks, made, present, same) = queue-entries tasks green policy all_tasks e in
    let ready = keep (is_ready green) tasks in
    let entries = map (entry_of ranks) ready in
    let sorted = sort (queue_le policy) entries in
    (
      subst (InOrder policy) same (
          Ordered-InOrder policy sorted
            (sort-Ordered (queue_le policy) (queue_total policy) (queue_trans policy) entries)),
      subst (λ (l : List RankedTask). Perm (map (λ (r : RankedTask). r.task) l) ready) same
          (subst (Perm (map (λ (r : RankedTask). r.task) sorted)) (map-task-entry_of ranks ready)
            (Perm.map (λ (r : RankedTask). r.task) (sort-perm (queue_le policy) entries))),
      (
        ranks,
        made,
        subst (All (HasLevel ranks)) same (
            All-sort (queue_le policy) (HasLevel ranks) entries
              (entries_ranked ranks ready present)),
      ),
    )

kept-ready :
    (ranks : Memo) (green : List String) (ts : List TaskConfig)
    → All
        (λ (r : RankedTask). is_ready green r.task ≡ true)
        (map (entry_of ranks) (keep (is_ready green) ts))
kept-ready ranks green [] = tt
kept-ready ranks green (t ∷ ts) = elim (Bool-cases (is_ready green t)) [
  | inl e ↦ rw e (e, kept-ready ranks green ts)
  | inr e ↦ rw e (kept-ready ranks green ts)
]

-- Every entry of the queue is ready.
pub ranked_ready-All :
    (tasks : List TaskConfig) (green : List String) (policy : ReadyQueuePolicy)
    (all_tasks : Option (List TaskConfig)) {queue : List RankedTask}
    → ranked_ready_tasks tasks green policy all_tasks ≡ ok queue
    → All (λ (r : RankedTask). is_ready green r.task ≡ true) queue
ranked_ready-All tasks green policy all_tasks e =
    let (ranks, _, _, same) = queue-entries tasks green policy all_tasks e in
    subst (All (λ (r : RankedTask). is_ready green r.task ≡ true)) same (
      All-sort (queue_le policy) (λ (r : RankedTask). is_ready green r.task ≡ true)
        (map (entry_of ranks) (keep (is_ready green) tasks)) (kept-ready ranks green tasks))
