-- ===== src/Planning/Paths/Shared.antt =====
-- src/firstgreen/planning/compiler.py, `write_overlap`: tasks that overlap share a named path.
use firstgreen.Prelude.{
  min, max, String, true, false, ◌≡◌, ◌⊎◌, refl, Option, none, some, List, [], ◌∷◌, ◌++◌, ◌==◌,
  arith, Bool-cases, inl, inr, All, All-append, ltb, length, dedup, text_leb,
}
use firstgreen.Planning.Models.{PlanTask}
use firstgreen.Planning.Paths.{
  found, shared_with, overlaps, least, paths_of, common_resource, overlap_of, cannot_overlap,
  write_overlap, is_some_overlap,
}

abbrev pub IsNamed : String → Type 0
IsNamed r = (r == "") ≡ false

found-IsNamed : (o : Option String) → All IsNamed (found o)
found-IsNamed none = tt
found-IsNamed (some r) = elim (Bool-cases (r == "")) [ inl e ↦ rw e tt | inr n ↦ rw n (n, tt) ]

shared_with-IsNamed : (first : String) (right : List String) → All IsNamed (shared_with first right)
shared_with-IsNamed first [] = tt
shared_with-IsNamed first (second ∷ rest) =
    All-append IsNamed (found (common_resource first second)) (shared_with first rest)
      (found-IsNamed (common_resource first second)) (shared_with-IsNamed first rest)

overlaps-IsNamed : (left right : List String) → All IsNamed (overlaps left right)
overlaps-IsNamed [] right = tt
overlaps-IsNamed (first ∷ rest) right =
    All-append IsNamed (shared_with first right) (overlaps rest right)
      (shared_with-IsNamed first right) (overlaps-IsNamed rest right)

least-IsNamed :
    (rs : List String)
    → All IsNamed rs
    → (rs ≡ []) ⊎ ((r : String) × (least rs ≡ some r) × IsNamed r)
least-IsNamed [] h = inl refl
least-IsNamed (r ∷ rs) h = elim (least-IsNamed rs h.1) [
  | inl e ↦ inr (r, rw e refl, h.0)
  | inr (s, e, n) ↦ elim (Bool-cases (text_leb r s)) [
    | inl le ↦ inr (r, ground (arith, e, le), h.0)
    | inr gt ↦ inr (s, ground (arith, e, gt), n)
  ]
]

overlap_of-resource :
    (a b : List String)
    → is_some_overlap (overlap_of a b) ≡ true
    → (r : String) × ((overlap_of a b).resource ≡ some r) × IsNamed r
unfolding overlap_of
overlap_of-resource a b h = elim (least-IsNamed (overlaps a b) (overlaps-IsNamed a b)) [
  | inl e ↦ absurd (nothing (rw e at h))
  | inr (r, e, n) ↦ (r, e, n)
]
  where
    nothing : ltb 0 (min (max 1 (length (dedup (a ++ b)))) 0) ≡ true → ⊥
    nothing h = ground arith

-- Tasks that overlap have a resource with a name.
pub overlap-resource :
    (left right : PlanTask)
    → is_some_overlap (write_overlap left right) ≡ true
    → (r : String) × ((write_overlap left right).resource ≡ some r) × IsNamed r
unfolding write_overlap
overlap-resource left right h = elim (Bool-cases (cannot_overlap left right)) [
  | inl off ↦ absurd (ground arith)
  | inr on ↦ rw on (overlap_of-resource (paths_of left) (paths_of right) (rw on at h))
]
