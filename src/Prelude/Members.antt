-- ===== src/Prelude/Members.antt =====
-- Lists of texts as Python's lists and sets: membership, distinctness, and the pigeonhole lemma.
use Prim.Native.Nat.{suc, ◌≤◌}
use Prim.Native.String.{String}
use mathlib.Core.Path.{◌≡◌, refl}
use mathlib.Core.Logic.{inl, inr}
use mathlib.Core.Bool.{Bool, true, false, not, ◌&&◌, ◌||◌}
use mathlib.Core.List.{List, [], ◌∷◌, ◌++◌}
use native.Mathlib.Omega.{arith}
use text.Mathlib.Text.{◌==◌}
use text.Mathlib.TextEquality.{eq_iff}
use text.Mathlib.TextPositions.{eq_refl}
use firstgreen.Prelude.Tests.{if◌then◌else◌, Bool-cases}
use firstgreen.Prelude.Lists.{length, All, keep}
use firstgreen.Prelude.Sorting.{sort, insert}

-- `x in xs`
abbrev pub mem : String → List String → Bool
mem x [] = false
mem x (y ∷ ys) = x == y || mem x ys

-- `len(xs) == len(set(xs))`
abbrev pub distinct : List String → Bool
distinct [] = true
distinct (x ∷ xs) = not (mem x xs) && distinct xs

-- `set(xs)` as the list of its elements, each where it stands last.
abbrev pub dedup : List String → List String
dedup [] = []
dedup (x ∷ xs) = let rest = dedup xs in if mem x xs then rest else x ∷ rest

-- Every element of the one list is in the other.
abbrev pub Within : List String → List String → Type 0
Within xs ys = All (λ x. mem x ys ≡ true) xs

without : String → List String → List String
without x [] = []
without x (y ∷ ys) = let rest = without x ys in if x == y then ys else y ∷ rest

length-without :
    (x : String) (ys : List String) → mem x ys ≡ true → length ys ≡ suc (length (without x ys))
unfolding without
length-without x [] h = cc
length-without x (y ∷ ys) h = ground (arith, length-without x ys)

mem-without :
    (x z : String) (ys : List String)
    → mem z ys ≡ true
    → (z == x) ≡ false
    → mem z (without x ys) ≡ true
unfolding without
mem-without x z [] h e = h
mem-without x z (y ∷ ys) h e =
    ground (arith, mem-without x z ys, eq_iff z x, eq_iff z y, eq_iff x y)

Within-without :
    (x : String) (xs ys : List String) → mem x xs ≡ false → Within xs ys → Within xs (without x ys)
Within-without x [] ys h w = tt
Within-without x (z ∷ xs) ys h w = (
  mem-without x z ys w.0 (ground (arith, eq_iff x z, eq_iff z x)),
  Within-without x xs ys (ground arith) w.1,
)

-- Distinct elements of a list are no more than the list is long.
pub distinct_bound :
    (xs ys : List String) → distinct xs ≡ true → Within xs ys → length xs ≤ length ys
distinct_bound [] ys d w = omega arith
distinct_bound (x ∷ xs) ys d w = omega (
  arith,
  length-without x ys w.0,
  distinct_bound xs (without x ys) (ground arith) (Within-without x xs ys (ground arith) w.1),
)

pub mem_trans :
    (x : String) (xs ys : List String) → mem x xs ≡ true → Within xs ys → mem x ys ≡ true
mem_trans x [] ys h w = cc
mem_trans x (y ∷ xs) ys h w = ground (arith, eq_iff x y, mem_trans x xs ys)

pub Within-trans : (xs ys zs : List String) → Within xs ys → Within ys zs → Within xs zs
Within-trans [] ys zs h k = tt
Within-trans (x ∷ xs) ys zs h k = (mem_trans x ys zs h.0 k, Within-trans xs ys zs h.1 k)

pub Within-cons : (y : String) (xs ys : List String) → Within xs ys → Within xs (y ∷ ys)
Within-cons y [] ys h = tt
Within-cons y (x ∷ xs) ys h = (ground (arith, eq_iff x y), Within-cons y xs ys h.1)

pub Within-refl : (xs : List String) → Within xs xs
Within-refl [] = tt
Within-refl (x ∷ xs) = (ground (arith, eq_refl x), Within-cons x xs xs (Within-refl xs))

-- A property of every element holds of a member.
pub All-mem :
    (P : String → Type 0) (x : String) (xs : List String) → mem x xs ≡ true → All P xs → P x
All-mem P x [] h k = cc
All-mem P x (y ∷ xs) h k = elim (Bool-cases (x == y)) [
  | inl e ↦ rw ((eq_iff x y).0 e) k.0
  | inr e ↦ All-mem P x xs (ground arith) k.1
]

pub mem-append : (x : String) (xs ys : List String) → mem x (xs ++ ys) ≡ (mem x xs || mem x ys)
mem-append x [] ys = refl
mem-append x (y ∷ xs) ys = ground (arith, mem-append x xs ys)

pub distinct_snoc :
    (x : String) (xs : List String)
    → distinct xs ≡ true
    → mem x xs ≡ false
    → distinct (xs ++ x ∷ []) ≡ true
distinct_snoc x [] d n = refl
distinct_snoc x (y ∷ xs) d n =
    ground (arith, distinct_snoc x xs, mem-append y xs (x ∷ []), eq_iff x y, eq_iff y x)

-- Sorting neither adds nor removes elements, nor repeats one.
module _ (le : String → String → Bool) where
  mem-insert : (x y : String) (ys : List String) → mem x (insert le y ys) ≡ (x == y || mem x ys)
  unfolding insert
  mem-insert x y [] = refl
  mem-insert x y (z ∷ ys) = ground (arith, mem-insert x y ys)

  pub mem-sort : (x : String) (ys : List String) → mem x (sort le ys) ≡ mem x ys
  unfolding sort
  mem-sort x [] = refl
  mem-sort x (y ∷ ys) = ground (arith, mem-insert x y (sort le ys), mem-sort x ys)

  distinct-insert :
      (x : String) (ys : List String) → distinct (insert le x ys) ≡ (not (mem x ys) && distinct ys)
  unfolding insert
  distinct-insert x [] = refl
  distinct-insert x (y ∷ ys) =
      ground (arith, distinct-insert x ys, mem-insert y x ys, eq_iff x y, eq_iff y x)

  pub distinct-sort : (ys : List String) → distinct (sort le ys) ≡ distinct ys
  unfolding sort
  distinct-sort [] = refl
  distinct-sort (y ∷ ys) =
      ground (arith, distinct-insert y (sort le ys), mem-sort y ys, distinct-sort ys)

pub mem-keep :
    (p : String → Bool) (x : String) (xs : List String) → mem x (keep p xs) ≡ (mem x xs && p x)
mem-keep p x [] = refl
mem-keep p x (y ∷ xs) = elim (Bool-cases (x == y)) [
  | inl e ↦
      let same : x ≡ y = (eq_iff x y).0 e in
      rw (← same) (ground (arith, eq_refl x, mem-keep p x xs))
  | inr e ↦ ground (arith, mem-keep p x xs)
]

pub distinct-keep :
    (p : String → Bool) (xs : List String) → distinct xs ≡ true → distinct (keep p xs) ≡ true
distinct-keep p [] d = refl
distinct-keep p (x ∷ xs) d = ground (arith, distinct-keep p xs, mem-keep p x xs)

-- A property of every member is a property of every element.
pub All-of_mem :
    (P : String → Type 0) (xs : List String) → ((x : String) → mem x xs ≡ true → P x) → All P xs
All-of_mem P [] f = tt
All-of_mem P (x ∷ xs) f =
    (f x (ground (arith, eq_refl x)), All-of_mem P xs (λ y h. f y (ground (arith, eq_iff y x))))
