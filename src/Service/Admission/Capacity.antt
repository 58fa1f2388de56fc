-- ===== src/Service/Admission/Capacity.antt =====
-- How many tasks a turn selects.
use firstgreen.Prelude.{
  ℕ, suc, ◌+◌, ◌-◌, ◌≤◌, ◌<◌, max, String, true, ◌≡◌, List, [], ◌∷◌, ◌++◌, arith, leb, is_empty,
  Bool-cases, inl, inr, length, All, mem, false, refl, ap,
}
use firstgreen.Config.Models.{TaskConfig}
use firstgreen.Scheduler.Queue.{RankedTask}
use firstgreen.Service.Admission.{resource_keys, active_resources, conflicts, select, admit}

select-bound :
    (capacity count : ℕ) (held : List String) (ranked : List RankedTask)
    → count < max 1 capacity
    → count + length (select capacity count held ranked).selected ≤ max 1 capacity
unfolding select
select-bound capacity count held [] h = omega arith
select-bound capacity count held (r ∷ rest) h =
    elim (Bool-cases (is_empty (conflicts (resource_keys r.task) held))) [
      | inr busy ↦ rw busy (select-bound capacity count held rest h)
      | inl free ↦ elim (Bool-cases (leb capacity (suc count))) [
        | inl full ↦ rw (free, full) (omega arith)
        | inr room ↦
            let ih =
              select-bound capacity (suc count) (resource_keys r.task ++ held) rest
                (ground arith) in
            rw (free, room) (omega (arith, ih))
      ]
    ]

-- Below the limit a turn starts no more tasks than the limit leaves room for.
pub admit_within_limit :
    (limit : ℕ) (running : List TaskConfig) (ranked : List RankedTask)
    → length running < limit
    → length running + length (admit limit running (length running) ranked).selected ≤ limit
unfolding admit
admit_within_limit limit running ranked h =
    omega (
      arith,
      select-bound (limit - length running) 0 (active_resources running) ranked (omega arith),
    )

-- The task meets no conflict with those that run.
abbrev pub IsFree : List TaskConfig → RankedTask → Type 0
IsFree running r = All (λ key. mem key (active_resources running) ≡ false) (resource_keys r.task)

-- The ready tasks are split at the first one that is free.
pub record FirstFree (running : List TaskConfig) (ranked : List RankedTask) (r : RankedTask)
    : Type 0 where
  pub before : List RankedTask
  pub after : List RankedTask
  pub split : ranked ≡ before ++ r ∷ after
  pub blocked : All (λ (q : RankedTask). IsFree running q → ⊥) before
  pub free : IsFree running r

-- What a turn at the limit selects.
abbrev pub OneSelected : List TaskConfig → List RankedTask → List RankedTask → Type 0
OneSelected running ranked [] = All (λ (q : RankedTask). IsFree running q → ⊥) ranked
OneSelected running ranked (r ∷ []) = FirstFree running ranked r
OneSelected running ranked (r ∷ q ∷ rest) = ⊥

no_conflicts :
    (keys held : List String)
    → is_empty (conflicts keys held) ≡ true
    → All (λ key. mem key held ≡ false) keys
no_conflicts [] held h = tt
no_conflicts (key ∷ keys) held h = (ground arith, no_conflicts keys held (ground arith))

some_conflict :
    (keys held : List String)
    → is_empty (conflicts keys held) ≡ false
    → All (λ key. mem key held ≡ false) keys
    → ⊥
some_conflict [] held h all_free = cc
some_conflict (key ∷ keys) held h all_free = some_conflict keys held (rw all_free.0 at h) all_free.1

one_more :
    (running : List TaskConfig) (q : RankedTask) (ranked selected : List RankedTask)
    → (IsFree running q → ⊥)
    → OneSelected running ranked selected
    → OneSelected running (q ∷ ranked) selected
one_more running q ranked [] b h = (b, h)
one_more running q ranked (r ∷ []) b h = record {
  before = q ∷ h.before;
  after = h.after;
  split = ap (λ rs. q ∷ rs) h.split;
  blocked = (b, h.blocked);
  free = h.free;
}
one_more running q ranked (r ∷ p ∷ rest) b h = h

select_one :
    (running : List TaskConfig) (capacity : ℕ) (ranked : List RankedTask)
    → leb capacity 1 ≡ true
    → OneSelected running ranked (select capacity 0 (active_resources running) ranked).selected
unfolding select
select_one running capacity [] full = tt
select_one running capacity (r ∷ ranked) full =
    elim (Bool-cases (is_empty (conflicts (resource_keys r.task) (active_resources running)))) [
      | inl free ↦
          rw (free, full)
            (record {
              before = [];
              after = ranked;
              split = refl;
              blocked = tt;
              free = no_conflicts (resource_keys r.task) (active_resources running) free;
            })
      | inr busy ↦ rw busy (
          one_more running r ranked (select capacity 0 (active_resources running) ranked).selected
            (some_conflict (resource_keys r.task) (active_resources running) busy)
            (select_one running capacity ranked full))
    ]

-- At or above the limit a turn still starts a task: it selects exactly the first of the ready tasks
-- that needs no resource of a running one, and nothing only if there is no such task. The capacity is
-- compared only after a task has been selected.
pub admit_at_limit :
    (limit : ℕ) (running : List TaskConfig) (ranked : List RankedTask)
    → limit ≤ length running
    → OneSelected running ranked (admit limit running (length running) ranked).selected
unfolding admit
admit_at_limit limit running ranked h =
    select_one running (limit - length running) ranked (ground arith)

-- Whatever the limit, a turn adds no task beyond it but one.
pub admit_bound :
    (limit : ℕ) (running : List TaskConfig) (ranked : List RankedTask)
    → length running + length (admit limit running (length running) ranked).selected
      ≤ max limit (suc (length running))
unfolding admit
admit_bound limit running ranked =
    omega (
      arith,
      select-bound (limit - length running) 0 (active_resources running) ranked (omega arith),
    )
