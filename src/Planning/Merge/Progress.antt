-- ===== src/Planning/Merge/Progress.antt =====
-- src/firstgreen/planning/compiler.py: the loop that merges tasks comes to an end, and leaves no two
-- tasks that have to be merged.
use firstgreen.Prelude.{
  sym, ℕ, zero, suc, ◌+◌, ◌≤◌, ◌<◌, String, Bool, true, false, not, ◌≡◌, refl, ◌∙◌, ap, subst, none,
  some, List, [], ◌∷◌, ◌++◌, map, arith, eq_refl, Bool-cases, Option-cases, inl, inr, All, ltb,
  keep, length, length-append, length-map, mem, sort, insert,
}
use firstgreen.Planning.Models.{PlanTask}
use firstgreen.Planning.Texts.{Host}
use firstgreen.Planning.Merge.{
  is_selected, merged_task, merged_id, redirect, by_task_id, merge_tasks, must_merge, partner,
  first_pair, merge_loop,
}

length-keep-both {ℓ} :
    {A : Type ℓ} (p : A → Bool) (xs : List A)
    → length (keep p xs) + length (keep (λ x. not (p x)) xs) ≡ length xs
length-keep-both p [] = omega arith
length-keep-both p (x ∷ xs) = ground (arith, length-keep-both p xs)

length-insert :
    (x : PlanTask) (xs : List PlanTask) → length (insert by_task_id x xs) ≡ suc (length xs)
unfolding insert
length-insert x [] = refl
length-insert x (y ∷ ys) = ground (arith, length-insert x ys)

length-sort : (xs : List PlanTask) → length (sort by_task_id xs) ≡ length xs
unfolding sort
length-sort [] = refl
length-sort (x ∷ xs) = length-insert x (sort by_task_id xs) ∙ ap suc (length-sort xs)

module _ (host : Host) where
  -- Merging two tasks or more leaves fewer.
  merge_shortens :
      (tasks : List PlanTask) (ids : List String)
      → 2 ≤ length (keep (is_selected ids) tasks)
      → length (merge_tasks host tasks ids).0 < length tasks
  unfolding merge_tasks
  merge_shortens tasks ids h =
      let selected = keep (is_selected ids) tasks in
      let others = keep (λ t. not (is_selected ids t)) tasks in
      let id = merged_id host ids in
      let enough : ltb (length selected) 2 ≡ false = ground arith in
      rw enough (
        omega (
          arith,
          h,
          length-sort (map (redirect id ids) others ++ merged_task id ids selected ∷ []),
          length-append (map (redirect id ids) others) (merged_task id ids selected ∷ []),
          length-map others (redirect id ids),
          length-keep-both (is_selected ids) tasks,
        ))

  module _ (limit : ℕ) where
    partner-selected :
        (left : PlanTask) (rest : List PlanTask) {pair : List String}
        → partner host limit left rest ≡ some pair
        → (mem left.id pair ≡ true) × (1 ≤ length (keep (is_selected pair) rest))
    partner-selected left [] e = absurd (cc)
    partner-selected left (right ∷ rest) {pair} e =
        elim (Bool-cases (must_merge host limit left right)) [
          | inl m ↦
              let same : left.id ∷ right.id ∷ [] ≡ pair = ground arith in
              subst
                (λ p. (mem left.id p ≡ true) × (1 ≤ length (keep (is_selected p) (right ∷ rest))))
                same (ground (arith, eq_refl left.id), ground (arith, eq_refl right.id))
          | inr n ↦
              let (a, b) = partner-selected left rest {pair = pair} (ground arith) in
              (a, ground (arith, b))
        ]

    first_pair-selected :
        (tasks : List PlanTask) {pair : List String}
        → first_pair host limit tasks ≡ some pair
        → 2 ≤ length (keep (is_selected pair) tasks)
    unfolding first_pair
    first_pair-selected [] e = absurd (cc)
    first_pair-selected (left ∷ rest) {pair} e =
        elim (Option-cases (partner host limit left rest)) [
          | inl nobody ↦
              let b = first_pair-selected rest {pair = pair} (ground arith) in ground (arith, b)
          | inr (p, found) ↦
              let same : p ≡ pair = ground arith in
              let (a, b) = partner-selected left rest found in
              subst (λ q. 2 ≤ length (keep (is_selected q) (left ∷ rest))) same
                (ground (arith, a, b))
        ]

    -- No pair of tasks of the list has to be merged.
    abbrev pub IsSeparate : List PlanTask → Type 0
    IsSeparate [] = Unit
    IsSeparate (t ∷ ts) = All (λ u. must_merge host limit t u ≡ false) ts × IsSeparate ts

    none-IsSeparate :
        (tasks : List PlanTask) → first_pair host limit tasks ≡ none → IsSeparate tasks
    unfolding first_pair
    none-IsSeparate [] e = tt
    none-IsSeparate (t ∷ ts) e = elim (Option-cases (partner host limit t ts)) [
      | inl nobody ↦ (row t ts nobody, none-IsSeparate ts (ground arith))
      | inr (p, found) ↦ absurd (ground arith)
    ]
      where
        row :
            (t : PlanTask) (us : List PlanTask)
            → partner host limit t us ≡ none
            → All (λ u. must_merge host limit t u ≡ false) us
        row t [] e = tt
        row t (u ∷ us) e = elim (Bool-cases (must_merge host limit t u)) [
          | inl m ↦ absurd (ground arith)
          | inr n ↦ (n, row t us (ground arith))
        ]

    -- With as many rounds as there are tasks, the loop ends because no two tasks are left that
    -- overlap by more than the limit, but for pairs that both produce artifacts. It leaves no more
    -- tasks than there were.
    pub merge_loop-IsSeparate :
        (fuel : ℕ) (tasks : List PlanTask)
        → length tasks ≤ fuel
        → IsSeparate (merge_loop host fuel limit tasks).0
          × (length (merge_loop host fuel limit tasks).0 ≤ length tasks)
    unfolding merge_loop
    merge_loop-IsSeparate zero [] h = (tt, omega arith)
    merge_loop-IsSeparate zero (t ∷ ts) h = absurd (omega arith)
    merge_loop-IsSeparate (suc fuel) tasks h = elim (Option-cases (first_pair host limit tasks)) [
      | inl done ↦
          let stays : merge_loop host (suc fuel) limit tasks ≡ (tasks, []) = ground (arith, done) in
          subst Ends (sym stays) (none-IsSeparate tasks done, omega arith)
      | inr (pair, found) ↦
          let next = (merge_tasks host tasks pair).0 in
          let later = merge_loop host fuel limit next in
          let goes : merge_loop host (suc fuel) limit tasks ≡ (later.0, pair ∷ later.1) =
            ground (arith, found) in
          let shorter = merge_shortens tasks pair (first_pair-selected tasks found) in
          let (separate, le) = merge_loop-IsSeparate fuel next (omega (arith, h, shorter)) in
          subst Ends (sym goes) (separate, omega (arith, le, shorter))
    ]
      where
        Ends : List PlanTask × List (List String) → Type 0
        Ends r = IsSeparate (r.0) × (length (r.0) ≤ length tasks)
