-- ===== src/Planning/Conflicts/Joined.antt =====
-- src/firstgreen/planning/compiler.py: after the conflicts are marked, tasks that write to the same place
-- have a resource in common, and a constraint represents them.
use firstgreen.Prelude.{
  String, true, false, ◌||◌, ◌≡◌, refl, ◌∙◌, ap, Option, none, some, List, [], ◌∷◌, ◌++◌, ◌==◌,
  arith, eq_refl, Bool-cases, inl, inr, All, mem, mem-append,
}
use firstgreen.Planning.Models.{PlanTask, ConflictConstraint}
use firstgreen.Planning.Texts.{append}
use firstgreen.Planning.Paths.{Overlap, write_overlap, is_some_overlap}
use firstgreen.Planning.Paths.Shared.{overlap-resource}
use firstgreen.Planning.Checks.{is_represented}
use firstgreen.Planning.Conflicts.{
  add_resource, conflict_of, Marked, mark_pair, constraints, mark_right,
}

-- What marking leaves alone, and that it only adds resources.
pub record IsMarked (t t' : PlanTask) : Type 0 where
  pub id : t'.id ≡ t.id
  pub paths : t'.likely_paths ≡ t.likely_paths
  pub read_only : t'.read_only ≡ t.read_only
  pub dependencies : t'.dependencies ≡ t.dependencies
  pub kept : (key : String) → mem key t.resources ≡ true → mem key t'.resources ≡ true

pub IsMarked-refl : (t : PlanTask) → IsMarked t t
IsMarked-refl t = record {
  id = refl;
  paths = refl;
  read_only = refl;
  dependencies = refl;
  kept = λ key h. h;
}

pub IsMarked-trans : {a b c : PlanTask} → IsMarked a b → IsMarked b c → IsMarked a c
IsMarked-trans p q = record {
  id = q.id ∙ p.id;
  paths = q.paths ∙ p.paths;
  read_only = q.read_only ∙ p.read_only;
  dependencies = q.dependencies ∙ p.dependencies;
  kept = λ key h. q.kept key (p.kept key h);
}

add-IsMarked : (key : String) (t : PlanTask) → IsMarked t (add_resource key t)
add-IsMarked key t = record {
  id = refl;
  paths = refl;
  read_only = refl;
  dependencies = refl;
  kept = λ k h. ground (arith, h, mem-append k t.resources (key ∷ []));
}

add-mem : (key : String) (t : PlanTask) → mem key (add_resource key t).resources ≡ true
add-mem key t = ground (arith, eq_refl key, mem-append key t.resources (key ∷ []))

overlap-IsMarked :
    (l l' r r' : PlanTask) → IsMarked l l' → IsMarked r r' → write_overlap l' r' ≡ write_overlap l r
unfolding write_overlap
overlap-IsMarked l l' r r' p q = rw (p.paths, p.read_only, q.paths, q.read_only) refl

conflict_of-none :
    (l r : PlanTask)
    → conflict_of (write_overlap l r) ≡ none
    → is_some_overlap (write_overlap l r) ≡ false
conflict_of-none l r h = elim (Bool-cases (is_some_overlap (write_overlap l r))) [
  | inr n ↦ n
  | inl o ↦
      let (res, e, named) = overlap-resource l r o in
      absurd (some-ne-none (write_overlap l r) res e o named h)
]
  where
    some-ne-none :
        (o : Overlap) (res : String)
        → o.resource ≡ some res
        → is_some_overlap o ≡ true
        → (res == "") ≡ false
        → conflict_of o ≡ none
        → ⊥
    some-ne-none o res e s n h = ground arith

-- The tasks do not overlap, or a resource and a constraint keep them apart.
pub data Joined (cs : List ConflictConstraint) (l r : PlanTask) : Type 0 where
  apart : is_some_overlap (write_overlap l r) ≡ false → Joined cs l r
  sharing :
      (key : String)
      → mem key l.resources ≡ true
      → mem key r.resources ≡ true
      → is_represented cs l.id r.id ≡ true
      → Joined cs l r

pub represented-append :
    (cs ds : List ConflictConstraint) (a b : String)
    → (is_represented cs a b || is_represented ds a b) ≡ true
    → is_represented (cs ++ ds) a b ≡ true
represented-append [] ds a b h = h
represented-append (c ∷ cs) ds a b h = ground (arith, represented-append cs ds a b)

-- More resources and more constraints keep the tasks joined.
Joined-grow :
    (cs ds : List ConflictConstraint) (l l' r r' : PlanTask)
    → ((a b : String) → is_represented cs a b ≡ true → is_represented ds a b ≡ true)
    → IsMarked l l'
    → IsMarked r r'
    → Joined cs l r
    → Joined ds l' r'
Joined-grow cs ds l l' r r' f p q (apart h) =
    apart (ap is_some_overlap (overlap-IsMarked l l' r r' p q) ∙ h)
Joined-grow cs ds l l' r r' f p q (sharing key a b c) =
    sharing key (p.kept key a) (q.kept key b) (rw (p.id, q.id) (f l.id r.id c))

abbrev pub AllMarked : List PlanTask → List PlanTask → Type 0
AllMarked [] [] = Unit
AllMarked [] (u ∷ us) = ⊥
AllMarked (t ∷ ts) [] = ⊥
AllMarked (t ∷ ts) (u ∷ us) = IsMarked t u × AllMarked ts us

pub All-grow :
    (cs ds : List ConflictConstraint) (l : PlanTask) (ts us : List PlanTask)
    → ((a b : String) → is_represented cs a b ≡ true → is_represented ds a b ≡ true)
    → AllMarked ts us
    → All (Joined cs l) ts
    → All (Joined ds l) us
All-grow cs ds l [] [] f m h = tt
All-grow cs ds l [] (u ∷ us) f m h = absurd m
All-grow cs ds l (t ∷ ts) [] f m h = absurd m
All-grow cs ds l (t ∷ ts) (u ∷ us) f m h =
    (Joined-grow cs ds l l t u f (IsMarked-refl l) m.0 h.0, All-grow cs ds l ts us f m.1 h.1)

AllMarked-refl : (ts : List PlanTask) → AllMarked ts ts
AllMarked-refl [] = tt
AllMarked-refl (t ∷ ts) = (IsMarked-refl t, AllMarked-refl ts)

pub record IsRow (left : PlanTask) (rest : List PlanTask) (m : Marked) : Type 0 where
  pub first : IsMarked left m.left
  pub others : AllMarked rest m.rest
  pub joined : All (Joined m.conflicts m.left) m.rest

pair-IsMarked :
    (left right : PlanTask) (c : Option String)
    → IsMarked left (mark_pair left right c).0 × IsMarked right (mark_pair left right c).1
pair-IsMarked left right none = (IsMarked-refl left, IsMarked-refl right)
pair-IsMarked left right (some r) =
    (add-IsMarked (append "write:" r) left, add-IsMarked (append "write:" r) right)

pair-Joined :
    (left right left' : PlanTask) (c : Option String) (later : List ConflictConstraint)
    → conflict_of (write_overlap left right) ≡ c
    → IsMarked (mark_pair left right c).0 left'
    → Joined (constraints left right c ++ later) left' (mark_pair left right c).1
pair-Joined left right left' none later e m = apart (
    ap is_some_overlap (overlap-IsMarked left left' right right m (IsMarked-refl right))
    ∙ conflict_of-none left right e)
pair-Joined left right left' (some r) later e m =
    sharing (append "write:" r) (m.kept (append "write:" r) (add-mem (append "write:" r) left))
      (add-mem (append "write:" r) right)
      (rw m.id (ground (arith, eq_refl left.id, eq_refl right.id)))

pub mark_right-IsRow :
    (left : PlanTask) (rest : List PlanTask) → IsRow left rest (mark_right left rest)
unfolding mark_right
mark_right-IsRow left [] = record { first = IsMarked-refl left; others = tt; joined = tt }
mark_right-IsRow left (right ∷ rest) =
    let c = conflict_of (write_overlap left right) in
    let both = pair-IsMarked left right c in
    let later = mark_right (mark_pair left right c).0 rest in
    let row = mark_right-IsRow (mark_pair left right c).0 rest in
    record {
      first = IsMarked-trans both.0 row.first;
      others = (both.1, row.others);
      joined = (
        pair-Joined left right later.left c later.conflicts refl row.first,
        All-grow later.conflicts (constraints left right c ++ later.conflicts) later.left later.rest
            later.rest
            (λ a b h.
              represented-append (constraints left right c) later.conflicts a b (ground (arith, h)))
            (AllMarked-refl later.rest) row.joined,
      );
    }

-- Each task with each of those after it.
abbrev pub Pairwise : (PlanTask → PlanTask → Type 0) → List PlanTask → Type 0
Pairwise R [] = Unit
Pairwise R (t ∷ ts) = All (R t) ts × Pairwise R ts
