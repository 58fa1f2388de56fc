-- ===== src/Planning/Conflicts.antt =====
-- src/firstgreen/planning/compiler.py, `compile_plan`: the tasks that write to the same place get the
-- constraint and the resource that keep them apart.
pub mod Joined
pub mod Represented
use firstgreen.Prelude.{
  ℕ, zero, suc, String, not, ◌&&◌, Option, none, some, List, [], ◌∷◌, ◌++◌, ◌==◌, if◌then◌else◌,
  mem,
}
use firstgreen.Planning.Models.{PlanTask, ConflictConstraint}
use firstgreen.Planning.Texts.{append}
use firstgreen.Planning.Paths.{Overlap, write_overlap, is_some_overlap}

abbrev pub add_resource : String → PlanTask → PlanTask
add_resource key t = record t {
  resources = if mem key t.resources then t.resources else t.resources ++ key ∷ [];
}

abbrev pub constraint : String → PlanTask → PlanTask → ConflictConstraint
constraint r left right = record { task_a = left.id; task_b = right.id; resource = r }

-- `if overlap and resource`
abbrev pub conflict_of : Overlap → Option String
conflict_of o = elim o.resource [
  | none ↦ none
  | some r ↦ if is_some_overlap o && not (r == "") then some r else none
]

pub record Marked : Type 0 where
  pub left : PlanTask
  pub rest : List PlanTask
  pub conflicts : List ConflictConstraint

abbrev pub mark_pair : PlanTask → PlanTask → Option String → PlanTask × PlanTask
mark_pair left right none = (left, right)
mark_pair left right (some r) =
    (add_resource (append "write:" r) left, add_resource (append "write:" r) right)

abbrev pub constraints : PlanTask → PlanTask → Option String → List ConflictConstraint
constraints left right none = []
constraints left right (some r) = constraint r left right ∷ []

-- The inner loop: the resources of both tasks grow in place.
unfoldable pub mark_right : PlanTask → List PlanTask → Marked
unfolding write_overlap append
mark_right left [] = record { left = left; rest = []; conflicts = [] }
mark_right left (right ∷ rest) =
    let c = conflict_of (write_overlap left right) in
    let later = mark_right (mark_pair left right c).0 rest in
    record {
      left = later.left;
      rest = (mark_pair left right c).1 ∷ later.rest;
      conflicts = constraints left right c ++ later.conflicts;
    }

-- The outer loop, for a number of tasks.
unfoldable pub mark_conflicts : ℕ → List PlanTask → List PlanTask × List ConflictConstraint
unfolding mark_right
mark_conflicts zero tasks = (tasks, [])
mark_conflicts (suc n) [] = ([], [])
mark_conflicts (suc n) (t ∷ ts) =
    let m = mark_right t ts in
    let (others, conflicts) = mark_conflicts n m.rest in (m.left ∷ others, m.conflicts ++ conflicts)
