-- ===== src/Service/Admission/Exclusive.antt =====
-- Selected tasks share no resource with one another or with the tasks that run.
use firstgreen.Prelude.{
  ℕ, suc, String, true, false, ◌≡◌, List, [], ◌∷◌, ◌++◌, arith, All, mem, is_empty, leb, map, ◌-◌,
  Bool-cases, inl, inr, length,
}
use firstgreen.Config.Models.{TaskConfig}
use firstgreen.Scheduler.Queue.{RankedTask}
use firstgreen.Service.Admission.{
  resource_keys, active_resources, conflicts, Selection, select, admit,
}

-- No key of the one list is in the other.
abbrev pub Disjoint : List String → List String → Type 0
Disjoint keys held = All (λ k. mem k held ≡ false) keys

-- Each task's resources are free of those held and of those of the tasks before it.
abbrev pub Exclusive : List String → List TaskConfig → Type 0
Exclusive held [] = Unit
Exclusive held (t ∷ ts) = Disjoint (resource_keys t) held × Exclusive (resource_keys t ++ held) ts

abbrev pub chosen : Selection → List TaskConfig
chosen s = map (λ (r : RankedTask). r.task) s.selected

no_conflict : (keys held : List String) → is_empty (conflicts keys held) ≡ true → Disjoint keys held
no_conflict [] held h = tt
no_conflict (k ∷ keys) held h = elim (Bool-cases (mem k held)) [
  | inl e ↦ absurd (ground arith)
  | inr e ↦ (e, no_conflict keys held (ground arith))
]

pub select-Exclusive :
    (capacity count : ℕ) (held : List String) (ranked : List RankedTask)
    → Exclusive held (chosen (select capacity count held ranked))
unfolding select
select-Exclusive capacity count held [] = tt
select-Exclusive capacity count held (r ∷ rest) =
    elim (Bool-cases (is_empty (conflicts (resource_keys r.task) held))) [
      | inr busy ↦ rw busy (select-Exclusive capacity count held rest)
      | inl free ↦ elim (Bool-cases (leb capacity (suc count))) [
        | inl full ↦ rw (free, full) (no_conflict (resource_keys r.task) held free, tt)
        | inr room ↦
            rw (free, room)
              (
                no_conflict (resource_keys r.task) held free,
                select-Exclusive capacity (suc count) (resource_keys r.task ++ held) rest,
              )
      ]
    ]

-- No selected task uses a resource of a running task or of another selected one.
pub admit-Exclusive :
    (limit : ℕ) (running : List TaskConfig) (ranked : List RankedTask)
    → Exclusive (active_resources running) (chosen (admit limit running (length running) ranked))
unfolding admit
admit-Exclusive limit running ranked =
    select-Exclusive (limit - length running) 0 (active_resources running) ranked
