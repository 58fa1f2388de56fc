-- ===== src/Prelude/Int.antt =====
-- Signed integers over the native numbers, with the order that the program needs.
use Prim.Native.Nat.{ℕ, ◌<◌}
use mathlib.Core.Path.{◌≡◌, ap}
use mathlib.Core.Bool.{Bool, true, false}
use native.Mathlib.Omega.{arith}
use firstgreen.Prelude.Tests.{leb}

-- `negsuc n` is -(n + 1).
pub data ℤ : Type 0 where
  pos : ℕ → ℤ
  negsuc : ℕ → ℤ

abbrev pub leb_ℤ : ℤ → ℤ → Bool
leb_ℤ (pos a) (pos b) = leb a b
leb_ℤ (pos a) (negsuc b) = false
leb_ℤ (negsuc a) (pos b) = true
leb_ℤ (negsuc a) (negsuc b) = leb b a

pub leb_ℤ_total : (a b : ℤ) → leb_ℤ a b ≡ false → leb_ℤ b a ≡ true
leb_ℤ_total a b h = ground arith

pub leb_ℤ_trans : (a b c : ℤ) → leb_ℤ a b ≡ true → leb_ℤ b c ≡ true → leb_ℤ a c ≡ true
leb_ℤ_trans a b c h k = ground arith

-- The one is greater than the other.
abbrev pub Greater : ℤ → ℤ → Type 0
Greater (pos a) (pos b) = b < a
Greater (pos a) (negsuc b) = Unit
Greater (negsuc a) (pos b) = ⊥
Greater (negsuc a) (negsuc b) = a < b

pub not_le-Greater : (a b : ℤ) → leb_ℤ a b ≡ false → Greater a b
not_le-Greater (pos a) (pos b) h = ground arith
not_le-Greater (pos a) (negsuc b) h = tt
not_le-Greater (negsuc a) (pos b) h = cc
not_le-Greater (negsuc a) (negsuc b) h = ground arith

pub leb_ℤ_antisym : (a b : ℤ) → leb_ℤ a b ≡ true → leb_ℤ b a ≡ true → a ≡ b
leb_ℤ_antisym (pos a) (pos b) h k = ap pos (ground arith)
leb_ℤ_antisym (pos a) (negsuc b) h k = absurd (cc)
leb_ℤ_antisym (negsuc a) (pos b) h k = absurd (cc)
leb_ℤ_antisym (negsuc a) (negsuc b) h k = ap negsuc (ground arith)
