-- ===== src/Planning/Conflicts/Represented.antt =====
-- src/firstgreen/planning/compiler.py: what the two loops over the pairs of tasks leave behind.
use firstgreen.Prelude.{
  ℕ, zero, suc, ◌≤◌, false, not, ◌&&◌, ◌≡◌, refl, List, [], ◌∷◌, ◌++◌, arith, All, length, ap,
}
use firstgreen.Planning.Models.{PlanTask, ConflictConstraint}
use firstgreen.Planning.Paths.{write_overlap, is_some_overlap}
use firstgreen.Planning.Checks.{is_represented, unrepresented, all_unrepresented}
use firstgreen.Planning.Conflicts.{mark_right, mark_conflicts}
use firstgreen.Planning.Conflicts.Joined.{
  IsMarked-refl, IsMarked-trans, Joined, apart, sharing, represented-append, AllMarked, All-grow,
  mark_right-IsRow, Pairwise,
}

Pairwise-grow :
    (cs ds : List ConflictConstraint) (ts : List PlanTask)
    → Pairwise (Joined ds) ts
    → Pairwise (Joined (cs ++ ds)) ts
Pairwise-grow cs ds [] h = tt
Pairwise-grow cs ds (t ∷ ts) h = (
  All-grow ds (cs ++ ds) t ts ts (λ a b r. represented-append cs ds a b (ground (arith, r)))
      (all_same ts) h.0,
  Pairwise-grow cs ds ts h.1,
)
  where
    all_same : (us : List PlanTask) → AllMarked us us
    all_same [] = tt
    all_same (u ∷ us) = (IsMarked-refl u, all_same us)

AllMarked-trans : (xs bs cs : List PlanTask) → AllMarked xs bs → AllMarked bs cs → AllMarked xs cs
AllMarked-trans [] [] [] p q = tt
AllMarked-trans [] [] (c ∷ cs) p q = absurd q
AllMarked-trans [] (b ∷ bs) cs p q = absurd p
AllMarked-trans (a ∷ xs) [] cs p q = absurd p
AllMarked-trans (a ∷ xs) (b ∷ bs) [] p q = absurd q
AllMarked-trans (a ∷ xs) (b ∷ bs) (c ∷ cs) p q =
    (IsMarked-trans p.0 q.0, AllMarked-trans xs bs cs p.1 q.1)

AllMarked-length : (ts us : List PlanTask) → AllMarked ts us → length us ≡ length ts
AllMarked-length [] [] m = refl
AllMarked-length [] (u ∷ us) m = absurd m
AllMarked-length (t ∷ ts) [] m = absurd m
AllMarked-length (t ∷ ts) (u ∷ us) m = ap suc (AllMarked-length ts us m.1)

-- With as many rounds as there are tasks, marking only adds resources, and afterwards any two tasks
-- that overlap have a resource in common and are represented by a constraint.
pub mark_conflicts-Joined :
    (n : ℕ) (tasks : List PlanTask)
    → length tasks ≤ n
    → AllMarked tasks (mark_conflicts n tasks).0
      × Pairwise (Joined (mark_conflicts n tasks).1) (mark_conflicts n tasks).0
unfolding mark_conflicts
mark_conflicts-Joined zero [] h = (tt, tt)
mark_conflicts-Joined zero (t ∷ ts) h = absurd (omega arith)
mark_conflicts-Joined (suc n) [] h = (tt, tt)
mark_conflicts-Joined (suc n) (t ∷ ts) h =
    let m = mark_right t ts in
    let row = mark_right-IsRow t ts in
    let (later, joined) =
      mark_conflicts-Joined n m.rest (omega (arith, AllMarked-length ts m.rest row.others)) in
    let others = (mark_conflicts n m.rest).0 in
    let found = (mark_conflicts n m.rest).1 in
    (
      (row.first, AllMarked-trans ts m.rest others row.others later),
      (
        All-grow m.conflicts (m.conflicts ++ found) m.left m.rest others
            (λ a b r. represented-append m.conflicts found a b (ground (arith, r))) later
            row.joined,
        Pairwise-grow m.conflicts found others joined,
      ),
    )

pair-represented :
    (cs : List ConflictConstraint) (t u : PlanTask)
    → Joined cs t u
    → (is_some_overlap (write_overlap t u) && not (is_represented cs t.id u.id)) ≡ false
pair-represented cs t u (apart e) = rw e refl
pair-represented cs t u (sharing key a b r) = ground (arith, r)

row-represented :
    (cs : List ConflictConstraint) (t : PlanTask) (us : List PlanTask)
    → All (Joined cs t) us
    → unrepresented cs t us ≡ []
row-represented cs t [] h = refl
row-represented cs t (u ∷ us) h = rw (pair-represented cs t u h.0) (row-represented cs t us h.1)

-- The check of a plan then finds no conflict that is not represented.
pub joined-represented :
    (cs : List ConflictConstraint) (ts : List PlanTask)
    → Pairwise (Joined cs) ts
    → all_unrepresented cs ts ≡ []
joined-represented cs [] h = refl
joined-represented cs (t ∷ ts) h =
    rw (row-represented cs t ts h.0, joined-represented cs ts h.1) refl
