-- ===== src/Planning/Execution/Ahead.antt =====
-- Pairs of a list in order, against the resources that the tasks of a run hold.
use firstgreen.Prelude.{
  String, true, false, ◌≡◌, subst, sym, ◌∙◌, List, ◌∷◌, ◌++◌, arith, All, All-mem, mem, mem-append,
}
use mathlib.Core.List.{Memᴰ}
use mathlib.Core.List.Memᴰ.{head, tail}
use firstgreen.Config.Models.{TaskConfig}
use firstgreen.Service.Admission.{resource_keys}
use firstgreen.Service.Admission.Exclusive.{Exclusive}
use firstgreen.Planning.Models.{PlanTask}
use firstgreen.Planning.Conflicts.Joined.{Pairwise}

-- The first stands before the second in the list.
pub data Ahead {ℓ} {A : Type ℓ} (a b : A) : List A → Type ℓ where
  first : {x : A} {xs : List A} → a ≡ x → Memᴰ b xs → Ahead a b (x ∷ xs)
  later : {x : A} {xs : List A} → Ahead a b xs → Ahead a b (x ∷ xs)

pub true-ne-false : true ≡ false → ⊥
true-ne-false h = cc

held-clash :
    (key : String) (b : TaskConfig) (held : List String) {ts : List TaskConfig}
    → Memᴰ b ts
    → Exclusive held ts
    → mem key held ≡ true
    → mem key (resource_keys b) ≡ true
    → ⊥
held-clash key b held (head {x = x} {xs = xs} e) ex h k =
    let free =
      All-mem (λ j. mem j held ≡ false) key (resource_keys x)
        (subst (λ z. mem key (resource_keys z) ≡ true) e k) ex.0 in
    true-ne-false (sym h ∙ free)
held-clash key b held (tail {x = x} {xs = xs} i) ex h k =
    held-clash key b (resource_keys x ++ held) i ex.1
      (ground (arith, h, mem-append key (resource_keys x) held)) k

pub ahead-clash :
    (key : String) (a b : TaskConfig) (held : List String) {ts : List TaskConfig}
    → Ahead a b ts
    → Exclusive held ts
    → mem key (resource_keys a) ≡ true
    → mem key (resource_keys b) ≡ true
    → ⊥
ahead-clash key a b held (first {x = x} {xs = xs} e i) ex j k =
    let j' = subst (λ z. mem key (resource_keys z) ≡ true) e j in
    held-clash key b (resource_keys x ++ held) i ex.1
      (ground (arith, j', mem-append key (resource_keys x) held)) k
ahead-clash key a b held (later {x = x} {xs = xs} i) ex j k =
    ahead-clash key a b (resource_keys x ++ held) i ex.1 j k

All-at : (R : PlanTask → Type 0) (b : PlanTask) {ts : List PlanTask} → Memᴰ b ts → All R ts → R b
All-at R b (head e) h = subst R (sym e) h.0
All-at R b (tail i) h = All-at R b i h.1

pub Pairwise-at :
    (R : PlanTask → PlanTask → Type 0) (a b : PlanTask) {ts : List PlanTask}
    → Ahead a b ts
    → Pairwise R ts
    → R a b
Pairwise-at R a b (first e i) h = subst (λ z. R z b) (sym e) (All-at (R _) b i h.0)
Pairwise-at R a b (later i) h = Pairwise-at R a b i h.1
