-- ===== src/Service/Loop/Counts.antt =====
-- How often a task id stands in a list, for the lists of src/firstgreen/service.py's loop.
use native.Mathlib.Nat.{ℕ_set}
use mathlib.Core.List.{Perm, foldr}
use mathlib.Core.List.Perm
use firstgreen.Prelude.{
  ℕ, suc, ◌+◌, ◌≤◌, String, Bool, true, false, ◌≡◌, refl, sym, ◌∙◌, List, [], ◌∷◌, ◌++◌, map, arith,
  ◌==◌, eq_iff, if◌then◌else◌, keep, length, mem, distinct, is_empty, leb, Bool-cases, inl, inr,
}
use firstgreen.Config.Models.{TaskConfig}
use firstgreen.Config.Dag.{ids}
use firstgreen.Scheduler.Queue.{RankedTask}
use firstgreen.Service.Admission.{resource_keys, conflicts, select}
use firstgreen.Service.Admission.Exclusive.{chosen}
use firstgreen.Service.Loop.{pop}

abbrev pub count : String → List String → ℕ
count x [] = 0
count x (y ∷ ys) = (if x == y then 1 else 0) + count x ys

pub count-append : (x : String) (xs ys : List String) → count x (xs ++ ys) ≡ count x xs + count x ys
count-append x [] ys = omega arith
count-append x (y ∷ xs) ys = omega (arith, count-append x xs ys)

pub ids-append : (xs ys : List TaskConfig) → ids (xs ++ ys) ≡ ids xs ++ ids ys
ids-append [] ys = refl
ids-append (x ∷ xs) ys = rw (ids-append xs ys)

pub count-mem : (x : String) (xs : List String) → (mem x xs ≡ false) → count x xs ≡ 0
count-mem x [] h = refl
count-mem x (y ∷ ys) h = ground (arith, count-mem x ys)

pub mem-count : (x : String) (xs : List String) → mem x xs ≡ true → 1 ≤ count x xs
mem-count x [] h = cc
mem-count x (y ∷ ys) h = ground (arith, mem-count x ys)

pub count-distinct : (x : String) (xs : List String) → distinct xs ≡ true → count x xs ≤ 1
count-distinct x [] h = omega arith
count-distinct x (y ∷ ys) h = ground (arith, count-distinct x ys, count-mem y ys, eq_iff x y)

-- Popping a key removes as many entries as the key has.
pub length-pop :
    (x : String) (ts : List TaskConfig) → length (pop x ts) + count x (ids ts) ≡ length ts
length-pop x [] = refl
length-pop x (t ∷ ts) = ground (arith, length-pop x ts, eq_iff x t.id, eq_iff t.id x)

pub count-pop :
    (x y : String) (ts : List TaskConfig)
    → count y (ids (pop x ts)) ≡ (if y == x then 0 else count y (ids ts))
count-pop x y [] = ground arith
count-pop x y (t ∷ ts) = ground (arith, count-pop x y ts, eq_iff y x, eq_iff t.id x, eq_iff y t.id)

pub count-snoc :
    (y : String) (ts : List TaskConfig) (t : TaskConfig)
    → count y (ids (ts ++ t ∷ [])) ≡ count y (ids ts) + (if y == t.id then 1 else 0)
count-snoc y [] t = omega arith
count-snoc y (u ∷ ts) t = omega (arith, count-snoc y ts t)

pub count-keep :
    (p : TaskConfig → Bool) (x : String) (ts : List TaskConfig)
    → count x (ids (keep p ts)) ≤ count x (ids ts)
count-keep p x [] = omega arith
count-keep p x (t ∷ ts) = ground (arith, count-keep p x ts)

add_if : String → String → ℕ → ℕ
add_if x y n = (if x == y then 1 else 0) + n

count-foldr : (x : String) (xs : List String) → count x xs ≡ foldr (add_if x) 0 xs
unfolding add_if
count-foldr x [] = refl
count-foldr x (y ∷ ys) = rw (count-foldr x ys) refl

pub count-Perm : (x : String) {xs ys : List String} → Perm xs ys → count x xs ≡ count x ys
unfolding add_if
count-Perm x {xs} {ys} p =
    count-foldr x xs
    ∙ Perm.foldr-eq ℕ_set (add_if x) (λ a b n. omega arith) p 0
    ∙ sym (count-foldr x ys)

-- What is selected is part of the queue.
pub count-select :
    (x : String) (capacity n : ℕ) (held : List String) (ranked : List RankedTask)
    → count x (ids (chosen (select capacity n held ranked)))
      ≤ count x (ids (map (λ (r : RankedTask). r.task) ranked))
unfolding select
count-select x capacity n held [] = omega arith
count-select x capacity n held (r ∷ rest) =
    let a = count-select x capacity n held rest in
    let b = count-select x capacity (suc n) (resource_keys r.task ++ held) rest in
    elim (Bool-cases (is_empty (conflicts (resource_keys r.task) held))) [
      | inr busy ↦ rw busy (omega (arith, a))
      | inl free ↦ elim (Bool-cases (leb capacity (suc n))) [
        | inl full ↦ rw (free, full) (omega arith)
        | inr room ↦ rw (free, room) (omega (arith, b))
      ]
    ]
