-- ===== src/PathPatterns/Meaning.antt =====
-- src/firstgreen/path_patterns.py: what a pattern means.
use firstgreen.Prelude.{
  String, Bool, true, false, ◌≡◌, refl, sym, subst, ap, ◌∙◌, ◌++◌, ◌⊎◌, List, [], ◌∷◌, ◌==◌, arith,
  eq_iff, Bool-cases, inl, inr, ◌↔◌,
}
use firstgreen.PathPatterns.{parts, star, last_of, one, match_parts, match_split, path_matches}

module _ (glob : String → String → Bool) where
  -- The parts of a pattern against those of a path: `**` stands for any number of parts, each other
  -- part of the pattern for one part of the path that its glob accepts.
  pub data Matches : List String → List String → Type 0 where
    done : Matches [] []
    part :
        (c p : String) (cs ps : List String)
        → (c == "**") ≡ false
        → glob p c ≡ true
        → Matches cs ps
        → Matches (c ∷ cs) (p ∷ ps)
    nothing : (cs ps : List String) → Matches cs ps → Matches ("**" ∷ cs) ps
    more :
        (p : String) (cs ps : List String) → Matches ("**" ∷ cs) ps → Matches ("**" ∷ cs) (p ∷ ps)

  star-Matches :
      (cs ps : List String)
      → ((qs : List String) → match_parts glob cs qs ≡ true → Matches cs qs)
      → star (match_parts glob cs) ps ≡ true
      → Matches ("**" ∷ cs) ps
  unfolding star
  star-Matches cs [] f h = nothing cs [] (f [] h)
  star-Matches cs (p ∷ ps) f h = elim (Bool-cases (match_parts glob cs (p ∷ ps))) [
    | inl e ↦ nothing cs (p ∷ ps) (f (p ∷ ps) e)
    | inr e ↦ more p cs ps (star-Matches cs ps f (ground arith))
  ]

  match-Matches : (cs ps : List String) → match_parts glob cs ps ≡ true → Matches cs ps
  unfolding match_parts
  match-Matches [] [] h = done
  match-Matches [] (p ∷ ps) h = cc
  match-Matches (c ∷ cs) ps h = elim (Bool-cases (c == "**")) [
    | inl e ↦
        subst (λ d. Matches (d ∷ cs) ps) (sym ((eq_iff c "**").0 e))
          (star-Matches cs ps (match-Matches cs) (rw e at h))
    | inr e ↦ single c cs ps e (match-Matches cs) (rw e at h)
  ]
    where
      single :
          (c : String) (cs ps : List String)
          → (c == "**") ≡ false
          → ((qs : List String) → match_parts glob cs qs ≡ true → Matches cs qs)
          → one glob c (match_parts glob cs) ps ≡ true
          → Matches (c ∷ cs) ps
      single c cs [] e f h = cc
      single c cs (p ∷ ps) e f h = part c p cs ps e (ground arith) (f ps (ground arith))

  star_none :
      (cs ps : List String) → match_parts glob cs ps ≡ true → star (match_parts glob cs) ps ≡ true
  unfolding star
  star_none cs [] h = h
  star_none cs (p ∷ ps) h = ground arith

  Matches-match : (cs ps : List String) → Matches cs ps → match_parts glob cs ps ≡ true
  unfolding match_parts
  Matches-match _ _ done = refl
  Matches-match _ _ (part c p cs ps e g m) = rw (e, g) (Matches-match cs ps m)
  Matches-match _ _ (nothing cs ps m) = star_none cs ps (Matches-match cs ps m)
  Matches-match _ _ (more p cs ps m) = ground (arith, Matches-match ("**" ∷ cs) ps m)

  match_iff : (cs ps : List String) → (match_parts glob cs ps ≡ true) ↔ Matches cs ps
  match_iff cs ps = (match-Matches cs ps, Matches-match cs ps)

  -- A pattern of one part other than `**` is for the last part of a path, whatever stands before;
  -- any other pattern is for the whole path. A path or a pattern without parts matches nothing.
  abbrev pub Means : List String → List String → Type 0
  Means [] pattern = ⊥
  Means (p ∷ ps) [] = ⊥
  Means (p ∷ ps) (c ∷ []) =
      ((c == "**") ≡ true)
      ⊎ ((front : List String) × (last : String) × (p ∷ ps ≡ front ++ last ∷ [])
          × (glob last c ≡ true))
  Means (p ∷ ps) (c ∷ d ∷ cs) = Matches (c ∷ d ∷ cs) (p ∷ ps)

  split_last :
      (p : String) (ps : List String)
      → (front : List String) × (p ∷ ps ≡ front ++ last_of p ps ∷ [])
  split_last p [] = ([], refl)
  split_last p (q ∷ ps) = let (front, e) = split_last q ps in (p ∷ front, ap (λ xs. p ∷ xs) e)

  last-snoc :
      (p : String) (ps front : List String) (last : String)
      → p ∷ ps ≡ front ++ last ∷ []
      → last_of p ps ≡ last
  last-snoc p [] [] last e = cc
  last-snoc p [] (x ∷ []) last e = absurd (cc)
  last-snoc p [] (x ∷ y ∷ front) last e = absurd (cc)
  last-snoc p (q ∷ ps) [] last e = absurd (cc)
  last-snoc p (q ∷ ps) (x ∷ front) last e = last-snoc q ps front last (cc)

  star_all : (ps : List String) → star (match_parts glob []) ps ≡ true
  unfolding star match_parts
  star_all [] = refl
  star_all (p ∷ ps) = star_all ps

  one-Means :
      (p : String) (ps : List String) (c : String)
      → (match_split glob (p ∷ ps) (c ∷ []) ≡ true) ↔ Means (p ∷ ps) (c ∷ [])
  one-Means p ps c = elim (Bool-cases (c == "**")) [
    | inl e ↦ ((λ h. inl e), (λ h. rw e (star_all (p ∷ ps))))
    | inr e ↦
        let (front, split) = split_last p ps in
        (
          (λ h. inr (front, last_of p ps, split, (rw e at h))),
          (λ h. elim h [
            | inl d ↦ absurd (clash (sym e ∙ d))
            | inr (front, last, same, g) ↦ rw (e, last-snoc p ps front last same) g
          ]),
        )
  ]
    where
      clash : false ≡ true → ⊥
      clash h = cc

  split-Means :
      (path pattern : List String) → (match_split glob path pattern ≡ true) ↔ Means path pattern
  split-Means [] pattern = ((λ h. cc), (λ h. absurd h))
  split-Means (p ∷ ps) [] = ((λ h. cc), (λ h. absurd h))
  split-Means (p ∷ ps) (c ∷ []) = one-Means p ps c
  split-Means (p ∷ ps) (c ∷ d ∷ cs) = match_iff (c ∷ d ∷ cs) (p ∷ ps)

  -- `path_matches` accepts exactly the paths that the pattern means, both split at the slashes, with
  -- their empty parts and their `.` left out: a pattern of several parts, or `**`, is matched against
  -- the whole path, where `**` stands for any number of parts and each other part for one that its
  -- glob accepts; a pattern of one part against the last part only; and without parts nothing matches.
  pub path_matches_iff :
      (path pattern : List String)
      → (path_matches glob path pattern ≡ true) ↔ Means (parts path) (parts pattern)
  unfolding path_matches
  path_matches_iff path pattern = split-Means (parts path) (parts pattern)
