-- ===== src/Planning/Parallelism/Lineage.antt =====
-- src/firstgreen/planning/parallelism.py, `_ancestors`: the dictionary holds for each task the tasks
-- that it depends on, directly or through others.
use firstgreen.Prelude.{
  ℕ, zero, suc, String, Bool, true, false, not, ◌≡◌, refl, sym, ◌∙◌, subst, List, [], ◌∷◌, ◌++◌,
  ◌==◌, arith, eq_iff, eq_refl, Bool-cases, inl, inr, All, All-imp, length, mem,
}
use firstgreen.Prelude.Result.{Result, ok, value_error, ◌>>=◌, >>=-eq-ok, raise_if-eq-ok}
use firstgreen.Planning.Models.{PlanTask}
use firstgreen.Planning.Parallelism.{
  Ancestors, is_known, ancestors_at, collect, has_id, visit, visit_all, deps_of,
}

-- What the loop over some dependencies collects from a dictionary.
abbrev pub flat : Ancestors → List String → List String
flat m [] = []
flat m (d ∷ ds) = d ∷ (ancestors_at m d ++ flat m ds)

abbrev pub Extends : Ancestors → Ancestors → Type 0
Extends m m' =
    (k : String)
    → is_known k m ≡ true
    → (is_known k m' ≡ true) × (ancestors_at m' k ≡ ancestors_at m k)

abbrev pub AllKnown : List String → Ancestors → Type 0
AllKnown ks m = All (λ k. is_known k m ≡ true) ks

Extends-trans : (a b c : Ancestors) → Extends a b → Extends b c → Extends a c
Extends-trans a b c h k x p = let (q, e) = h x p in ((k x q).0, (k x q).1 ∙ e)

pub flat-Extends :
    (m m' : Ancestors) (ds : List String) → Extends m m' → AllKnown ds m → flat m' ds ≡ flat m ds
flat-Extends m m' [] x h = refl
flat-Extends m m' (d ∷ ds) x h = rw ((x d h.0).1, flat-Extends m m' ds x h.1) refl

pub AllKnown-Extends :
    (m m' : Ancestors) (ds : List String) → Extends m m' → AllKnown ds m → AllKnown ds m'
AllKnown-Extends m m' ds x =
    All-imp (λ d. is_known d m ≡ true) (λ d. is_known d m' ≡ true) ds (λ d h. (x d h).0)

pub Extends-fresh :
    (t : String) (v : List String) (m : Ancestors) → is_known t m ≡ false → Extends m ((t, v) ∷ m)
unfolding is_known ancestors_at
Extends-fresh t v m h k p = elim (Bool-cases (t == k)) [
  | inl e ↦ absurd (clash (subst (λ z. is_known z m ≡ true) (sym ((eq_iff t k).0 e)) p))
  | inr e ↦ (rw e p, rw e refl)
]
  where
    clash : is_known t m ≡ true → ⊥
    clash e = cc

Avoids-fresh :
    (t : String) (v : List String) (m : Ancestors) (ys : List String)
    → mem t ys ≡ false
    → All (λ y. is_known y m ≡ false) ys
    → All (λ y. is_known y ((t, v) ∷ m) ≡ false) ys
unfolding is_known
Avoids-fresh t v m [] n a = tt
Avoids-fresh t v m (y ∷ ys) n a = (ground (arith, a.0), Avoids-fresh t v m ys (ground arith) a.1)

pub known-new : (t : String) (v : List String) (m : Ancestors) → is_known t ((t, v) ∷ m) ≡ true
unfolding is_known
known-new t v m = rw (eq_refl t) refl

pub at-new : (t : String) (v : List String) (m : Ancestors) → ancestors_at ((t, v) ∷ m) t ≡ v
unfolding ancestors_at
at-new t v m = rw (eq_refl t) refl

module _ (tasks : List PlanTask) where
  -- Each entry is new, and holds what the loop collects from the entries before it.
  abbrev pub IsRecorded : Ancestors → Type 0
  IsRecorded [] = Unit
  IsRecorded ((t, v) ∷ m) =
      (is_known t m ≡ false)
      × (v ≡ flat m (deps_of tasks t))
      × AllKnown (deps_of tasks t) m
      × IsRecorded m

  pub record IsFilled (visiting keys : List String) (m m' : Ancestors) : Type 0 where
    pub recorded : IsRecorded m'
    pub avoids : All (λ y. is_known y m' ≡ false) visiting
    pub extends : Extends m m'
    pub present : AllKnown keys m'

  abbrev GoodVisit : List String → (String → Ancestors → Result Ancestors) → Type 0
  GoodVisit visiting f =
      (x : String) (m m' : Ancestors)
      → IsRecorded m
      → All (λ y. is_known y m ≡ false) visiting
      → f x m ≡ ok m'
      → IsFilled visiting (x ∷ []) m m'

  collect-IsFilled :
      (visiting : List String) (known : String → Bool) (f : String → Ancestors → Result Ancestors)
      (ds : List String) (m : Ancestors) (v : List String) (m' : Ancestors)
      → GoodVisit visiting f
      → IsRecorded m
      → All (λ y. is_known y m ≡ false) visiting
      → collect known f ds m ≡ ok (v, m')
      → IsFilled visiting ds m m' × (v ≡ flat m' ds)
  unfolding collect
  collect-IsFilled visiting known f [] m v m' good r a e =
      let same : m ≡ m' = cc in
      let none_found : v ≡ [] = cc in
      subst (λ z. IsFilled visiting [] m z × (v ≡ [])) same
        (record { recorded = r; avoids = a; extends = λ k h. (h, refl); present = tt }, none_found)
  collect-IsFilled visiting known f (d ∷ ds) m v m' good r a e =
      let (_, e₁) =
        raise_if-eq-ok (not (known d)) value_error
          (f d m >>= λ filled. collect known f ds filled >>= λ rest.
            ok (d ∷ (ancestors_at filled d ++ rest.0), rest.1))
          e in
      let (m₁, now, e₂) =
        >>=-eq-ok (f d m)
          (λ filled. collect known f ds filled >>= λ rest.
            ok (d ∷ (ancestors_at filled d ++ rest.0), rest.1))
          e₁ in
      let ((rest, m₂), later, done) =
        >>=-eq-ok (collect known f ds m₁)
          (λ (p : List String × Ancestors). ok (d ∷ (ancestors_at m₁ d ++ p.0), p.1)) e₂ in
      let first = good d m m₁ r a now in
      let (others, value) =
        collect-IsFilled visiting known f ds m₁ rest m₂ good first.recorded first.avoids later in
      let same : m₂ ≡ m' = cc in
      let v_eq : d ∷ (ancestors_at m₁ d ++ rest) ≡ v = cc in
      subst (λ z. IsFilled visiting (d ∷ ds) m z × (v ≡ flat z (d ∷ ds))) same
        (
          record {
            recorded = others.recorded;
            avoids = others.avoids;
            extends = Extends-trans m m₁ m₂ first.extends others.extends;
            present = ((others.extends d first.present.0).0, others.present);
          },
          sym v_eq ∙ rw ((others.extends d first.present.0).1, value) refl,
        )

  visit-IsFilled :
      (fuel : ℕ) (visiting : List String) → GoodVisit visiting (visit tasks fuel visiting)
  unfolding visit
  visit-IsFilled zero visiting x m m' r a e = absurd (cc)
  visit-IsFilled (suc fuel) visiting x m m' r a e = elim (Bool-cases (is_known x m)) [
    | inl old ↦
        let same : m ≡ m' = ground arith in
        subst (IsFilled visiting (x ∷ []) m) same
          (record { recorded = r; avoids = a; extends = λ k h. (h, refl); present = (old, tt) })
    | inr new ↦ elim (Bool-cases (mem x visiting)) [
      | inl again ↦ absurd (ground arith)
      | inr fresh ↦
          let ((v, m₁), found, done) =
            >>=-eq-ok (collect (has_id tasks) (visit tasks fuel (x ∷ visiting)) (deps_of tasks x) m)
              (λ (p : List String × Ancestors). ok ((x, p.0) ∷ p.1)) (rw (new, fresh) at e) in
          let (w, value) =
            collect-IsFilled (x ∷ visiting) (has_id tasks) (visit tasks fuel (x ∷ visiting))
              (deps_of tasks x) m v m₁ (visit-IsFilled fuel (x ∷ visiting)) r (new, a) found in
          let same : (x, v) ∷ m₁ ≡ m' = cc in
          subst (IsFilled visiting (x ∷ []) m) same (record {
            recorded = (w.avoids.0, value, w.present, w.recorded);
            avoids = Avoids-fresh x v m₁ visiting fresh w.avoids.1;
            extends = Extends-trans m m₁ ((x, v) ∷ m₁) w.extends (Extends-fresh x v m₁ w.avoids.0);
            present = (known-new x v m₁, tt);
          })
    ]
  ]

  pub visit_all-IsFilled :
      (keys : List String) (m m' : Ancestors)
      → IsRecorded m
      → visit_all tasks keys m ≡ ok m'
      → IsFilled [] keys m m'
  unfolding visit_all
  visit_all-IsFilled [] m m' r e =
      let same : m ≡ m' = cc in
      subst (IsFilled [] [] m) same
        (record { recorded = r; avoids = tt; extends = λ k h. (h, refl); present = tt })
  visit_all-IsFilled (x ∷ keys) m m' r e =
      let (m₁, now, later) =
        >>=-eq-ok (visit tasks (suc (length tasks)) [] x m) (visit_all tasks keys) e in
      let first = visit-IsFilled (suc (length tasks)) [] x m m₁ r tt now in
      let others = visit_all-IsFilled keys m₁ m' first.recorded later in
      record {
        recorded = others.recorded;
        avoids = tt;
        extends = Extends-trans m m₁ m' first.extends others.extends;
        present = ((others.extends x first.present.0).0, others.present);
      }
