-- ===== src/Db/Sql.antt =====
-- The SQL that the program uses, over a table as the list of its rows.
use firstgreen.Prelude.{
  ℕ, ◌+◌, Bool, true, false, ◌≡◌, refl, List, [], ◌∷◌, map, arith, if◌then◌else◌, All, Bool-cases,
  inl, inr,
}

module _ {ℓ} {A : Type ℓ} where
  -- `UPDATE … SET … WHERE …`
  unfoldable pub update_where : (A → Bool) → (A → A) → List A → List A
  update_where p f [] = []
  update_where p f (x ∷ xs) = (if p x then f x else x) ∷ update_where p f xs

  -- `cursor.rowcount` of such an update.
  unfoldable pub rowcount : (A → Bool) → List A → ℕ
  rowcount p [] = 0
  rowcount p (x ∷ xs) = (if p x then 1 else 0) + rowcount p xs

  -- A row that an update has written no longer fits its condition: the same update finds none.
  pub rowcount-update_where :
      (p : A → Bool) (f : A → A) (xs : List A)
      → ((x : A) → p x ≡ true → p (f x) ≡ false)
      → rowcount p (update_where p f xs) ≡ 0
  unfolding rowcount update_where
  rowcount-update_where p f [] h = refl
  rowcount-update_where p f (x ∷ xs) h = elim (Bool-cases (p x)) [
    | inl e ↦ rw (e, h x e) (omega (arith, rowcount-update_where p f xs h))
    | inr e ↦ rw (e, e) (omega (arith, rowcount-update_where p f xs h))
  ]

  -- An update that finds no row changes nothing.
  pub update_where-none :
      (p : A → Bool) (f : A → A) (xs : List A) → rowcount p xs ≡ 0 → update_where p f xs ≡ xs
  unfolding rowcount update_where
  update_where-none p f [] h = refl
  update_where-none p f (x ∷ xs) h = ground (arith, update_where-none p f xs)

  -- What holds of every row, and of each row that is written anew, holds after the update.
  pub All-update_where :
      (P : A → Type 0) (p : A → Bool) (f : A → A) (xs : List A)
      → ((x : A) → P x → p x ≡ true → P (f x))
      → All P xs
      → All P (update_where p f xs)
  unfolding update_where
  All-update_where P p f [] h k = tt
  All-update_where P p f (x ∷ xs) h k = elim (Bool-cases (p x)) [
    | inl e ↦ rw e (h x k.0 e, All-update_where P p f xs h k.1)
    | inr e ↦ rw e (k.0, All-update_where P p f xs h k.1)
  ]

  -- From what held of every row: what a written row satisfies, and one that is left alone.
  pub All-updated :
      (P Q : A → Type 0) (p : A → Bool) (f : A → A) (xs : List A)
      → ((x : A) → P x → p x ≡ true → Q (f x))
      → ((x : A) → P x → p x ≡ false → Q x)
      → All P xs
      → All Q (update_where p f xs)
  unfolding update_where
  All-updated P Q p f [] h k a = tt
  All-updated P Q p f (x ∷ xs) h k a = elim (Bool-cases (p x)) [
    | inl e ↦ rw e (h x a.0 e, All-updated P Q p f xs h k a.1)
    | inr e ↦ rw e (k x a.0 e, All-updated P Q p f xs h k a.1)
  ]

  -- A column that the update does not set stays as it was.
  pub map-update_where {κ} :
      {B : Type κ} (column : A → B) (p : A → Bool) (f : A → A) (xs : List A)
      → ((x : A) → column (f x) ≡ column x)
      → map column (update_where p f xs) ≡ map column xs
  unfolding update_where
  map-update_where column p f [] h = refl
  map-update_where column p f (x ∷ xs) h = elim (Bool-cases (p x)) [
    | inl e ↦ rw (e, h x, map-update_where column p f xs h)
    | inr e ↦ rw (e, map-update_where column p f xs h)
  ]
