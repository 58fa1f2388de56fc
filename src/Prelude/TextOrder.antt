-- ===== src/Prelude/TextOrder.antt =====
-- The order of texts by code points, as Python compares `str`: total, transitive, antisymmetric.
use Prim.Native.Nat.{ℕ, Ordering, compare as compare_ℕ}
use Prim.Native.Char.{code}
use Prim.Native.String.{String, [], ◌∷◌, compare, then}
use Prim.Native.String.compare as cmp
use mathlib.Core.Path.{◌≡◌, refl}
use mathlib.Core.Bool.{Bool, true, false}
use native.Mathlib.Omega.{arith}
use text.Mathlib.Text.{is_le}
use text.Mathlib.TextEquality.{path_by_compare}

-- `s <= t`
abbrev pub text_leb : String → String → Bool
text_leb s t = is_le (compare s t)

abbrev opposite : Ordering → Ordering
opposite Ordering.lt = Ordering.gt
opposite Ordering.eq = Ordering.eq
opposite Ordering.gt = Ordering.lt

then-opposite :
    (m n : ℕ) (o o' : Ordering)
    → o' ≡ opposite o
    → then (compare_ℕ n m) o' ≡ opposite (then (compare_ℕ m n) o)
then-opposite m n o o' h = ground arith

then_trans :
    (k m n : ℕ) (o o' o'' : Ordering)
    → (is_le o ≡ true → is_le o' ≡ true → is_le o'' ≡ true)
    → is_le (then (compare_ℕ k m) o) ≡ true
    → is_le (then (compare_ℕ m n) o') ≡ true
    → is_le (then (compare_ℕ k n) o'') ≡ true
then_trans k m n o o' o'' f h h' = ground arith

compare-opposite : (s t : String) → compare t s ≡ opposite (compare s t)
compare-opposite [] [] = rw cmp.nil-nil
compare-opposite [] (d ∷ t) = rw (cmp.nil-cons, cmp.cons-nil)
compare-opposite (c ∷ s) [] = rw (cmp.nil-cons, cmp.cons-nil)
compare-opposite (c ∷ s) (d ∷ t) =
    rw (cmp.cons-cons c d s t, cmp.cons-cons d c t s)
      (then-opposite (code c) (code d) (compare s t) (compare t s) (compare-opposite s t))

pub text_total : (s t : String) → text_leb s t ≡ false → text_leb t s ≡ true
text_total s t h = ground (arith, compare-opposite s t)

pub text_trans : (s t u : String) → text_leb s t ≡ true → text_leb t u ≡ true → text_leb s u ≡ true
text_trans [] [] u h k = k
text_trans [] (d ∷ t) [] h k = refl
text_trans [] (d ∷ t) (e ∷ u) h k = rw cmp.nil-cons
text_trans (c ∷ s) [] u h k = cc (cmp.cons-nil c s)
text_trans (c ∷ s) (d ∷ t) [] h k = cc (cmp.cons-nil d t)
text_trans (c ∷ s) (d ∷ t) (e ∷ u) h k = rw (cmp.cons-cons c e s u) (
    then_trans (code c) (code d) (code e) (compare s t) (compare t u) (compare s u)
      (text_trans s t u) (rw (cmp.cons-cons c d s t) at h) (rw (cmp.cons-cons d e t u) at k))

pub text_antisym : (s t : String) → text_leb s t ≡ true → text_leb t s ≡ true → s ≡ t
text_antisym s t h k = path_by_compare s t (ground (arith, compare-opposite s t))
