-- ===== src/Planning/Parallelism/Width.antt =====
-- src/firstgreen/planning/parallelism.py, `_ready_width`: the largest group of tasks that can run
-- together.
use firstgreen.Prelude.{
  ℕ, zero, suc, ◌+◌, ◌-◌, ◌≤◌, ◌<◌, Bool, true, ◌≡◌, ◌⊎◌, refl, sym, subst, ◌∙◌, List, [], ◌∷◌,
  ◌++◌, map, ◌||◌, arith, Bool-cases, inl, inr, length, any, if◌then◌else◌,
}
use firstgreen.Planning.Models.{PlanTask}
use firstgreen.Planning.Parallelism.{
  Ancestors, combinations, is_compatible, range, widest, ready_width,
}

-- The first list has some of the elements of the second, in its order.
pub data Picked {ℓ} {A : Type ℓ} : List A → List A → Type ℓ where
  stop : Picked [] []
  skip : {x : A} {g xs : List A} → Picked g xs → Picked g (x ∷ xs)
  pick : {x : A} {g xs : List A} → Picked g xs → Picked (x ∷ g) (x ∷ xs)

module _ {ℓ} {A : Type ℓ} where
  any-append :
      (p : List A → Bool) (gs hs : List (List A)) → any p (gs ++ hs) ≡ (any p gs || any p hs)
  any-append p [] hs = refl
  any-append p (g ∷ gs) hs = ground (arith, any-append p gs hs)

  any-map :
      (p : List A → Bool) (x : A) (gs : List (List A))
      → any p (map (λ g. x ∷ g) gs) ≡ any (λ g. p (x ∷ g)) gs
  any-map p x [] = refl
  any-map p x (g ∷ gs) = ground (arith, any-map p x gs)

  -- Every choice of elements is among the combinations of its size.
  pub combinations_complete :
      (p : List A → Bool) {g xs : List A}
      → Picked g xs
      → p g ≡ true
      → any p (combinations (length g) xs) ≡ true
  unfolding combinations
  combinations_complete p stop h = ground (arith, h)
  combinations_complete p (skip {x = x} {g = []} {xs = xs} c) h = ground (arith, h)
  combinations_complete p (skip {x = x} {g = y ∷ ys} {xs = xs} c) h = ground (
    arith,
    combinations_complete p c h,
    any-append p (map (λ g. x ∷ g) (combinations (length ys) xs))
        (combinations (suc (length ys)) xs),
  )
  combinations_complete p (pick {x = x} {g = g} {xs = xs} c) h = ground (
    arith,
    combinations_complete (λ g'. p (x ∷ g')) c h,
    any-map p x (combinations (length g) xs),
    any-append p (map (λ g'. x ∷ g') (combinations (length g) xs))
        (combinations (suc (length g)) xs),
  )

  abbrev pub Chosen : (List A → Bool) → ℕ → List A → Type ℓ
  Chosen p n xs = (g : List A) × Picked g xs × (p g ≡ true) × (length g ≡ n)

  none-Picked : (xs : List A) → Picked [] xs
  none-Picked [] = stop
  none-Picked (x ∷ xs) = skip (none-Picked xs)

  combinations_sound :
      (p : List A → Bool) (n : ℕ) (xs : List A) → any p (combinations n xs) ≡ true → Chosen p n xs
  unfolding combinations
  combinations_sound p zero xs h = ([], none-Picked xs, ground arith, refl)
  combinations_sound p (suc n) [] h = absurd (cc)
  combinations_sound p (suc n) (x ∷ xs) h =
      elim (Bool-cases (any (λ g. p (x ∷ g)) (combinations n xs))) [
        | inl found ↦
            let (g, c, e, l) = combinations_sound (λ g. p (x ∷ g)) n xs found in
            (x ∷ g, pick c, e, omega (arith, l))
        | inr other ↦
            let (g, c, e, l) = combinations_sound p (suc n) xs (
              ground (
                arith,
                h,
                any-map p x (combinations n xs),
                any-append p (map (λ g. x ∷ g) (combinations n xs)) (combinations (suc n) xs),
              )) in
            (g, skip c, e, l)
      ]

  Picked-length : {g xs : List A} → Picked g xs → length g ≤ length xs
  Picked-length stop = omega arith
  Picked-length (skip c) = omega (arith, Picked-length c)
  Picked-length (pick c) = omega (arith, Picked-length c)

module _ (m : Ancestors) (tasks : List PlanTask) where
  abbrev fits : ℕ → Bool
  fits size = any (is_compatible m) (combinations size tasks)

  record IsWidest (size count best width : ℕ) : Type 0 where
    at_least : best ≤ width
    covers : (s : ℕ) → size ≤ s → s < size + count → fits s ≡ true → s ≤ width
    attained : (width ≡ best) ⊎ (fits width ≡ true)

  widest-IsWidest :
      (size count best : ℕ)
      → best ≤ size
      → IsWidest size count best (widest m tasks (range size count) best)
  unfolding widest
  widest-IsWidest size zero best h = record {
    at_least = omega arith;
    covers = λ s a b f. absurd (omega (arith, a, b));
    attained = inl refl;
  }
  widest-IsWidest size (suc count) best h =
      let next = if fits size then size else best in
      let w = widest-IsWidest (suc size) count next (ground arith) in
      let kept : best ≤ next = ground arith in
      record {
        at_least = omega (arith, kept, w.at_least);
        covers = λ s a b f. elim (cases-le size s a) [
          | inl same ↦ found size s count best f same w.at_least
          | inr above ↦ w.covers s above (omega (arith, b)) f
        ];
        attained = elim w.attained [
          | inr f ↦ inr f
          | inl e ↦ elim (Bool-cases (fits size)) [
            | inl f ↦ inr (subst (λ z. fits z ≡ true) (sym (e ∙ rw f)) f)
            | inr n ↦ inl (e ∙ rw n)
          ]
        ];
      }
    where
      cases-le : (a b : ℕ) → a ≤ b → (a ≡ b) ⊎ (suc a ≤ b)
      cases-le a b le = ground arith

      found : (a s c b : ℕ) {r : ℕ} → fits s ≡ true → a ≡ s → (if fits a then a else b) ≤ r → s ≤ r
      found a s c b f e le =
          let here : fits a ≡ true = subst (λ z. fits z ≡ true) (sym e) f in
          omega (arith, e, rw here at le)

  -- No compatible group of tasks is larger than the ready width, and there is one of that size,
  -- unless the width is 1, which one task alone gives.
  pub ready_width-IsWidest :
      ((g : List PlanTask)
        → Picked g tasks
        → is_compatible m g ≡ true
        → length g ≤ ready_width m tasks)
      × ((ready_width m tasks ≡ 1)
          ⊎ ((g : List PlanTask) × Picked g tasks
              × (is_compatible m g ≡ true)
              × (length g ≡ ready_width m tasks)))
  unfolding ready_width
  ready_width-IsWidest =
      let w = widest-IsWidest 2 (length tasks - 1) 1 (omega arith) in
      (
        λ g c f. elim (small-or (length g)) [
          | inl small ↦ omega (arith, small, w.at_least)
          | inr large ↦
              w.covers (length g) large (omega (arith, Picked-length c, large))
                (combinations_complete (is_compatible m) c f)
        ],
        elim w.attained [
          | inl one_task ↦ inl one_task
          | inr f ↦ inr (combinations_sound (is_compatible m) (ready_width m tasks) tasks f)
        ],
      )
    where
      small-or : (n : ℕ) → (n ≤ 1) ⊎ (2 ≤ n)
      small-or n = ground arith
