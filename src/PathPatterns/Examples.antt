-- ===== src/PathPatterns/Examples.antt =====
-- Tests and witnesses for the path patterns; a glob here is a text that must be the same, or `*`.
use firstgreen.Prelude.{String, Bool, true, false, ◌≡◌, refl, ◌↔◌, ◌||◌, [], ◌∷◌, ◌==◌}
use firstgreen.PathPatterns.{parts, path_matches}
use firstgreen.PathPatterns.Meaning.{Means, path_matches_iff}

abbrev plain : String → String → Bool
plain p c = c == "*" || p == c

deep_match : path_matches plain ("src" ∷ "a" ∷ "b.py" ∷ []) ("src" ∷ "**" ∷ "b.py" ∷ []) ≡ true
unfolding path_matches
deep_match = refl

star_stays : path_matches plain ("src" ∷ "a" ∷ "b.py" ∷ []) ("src" ∷ "*" ∷ []) ≡ false
unfolding path_matches
star_stays = refl

-- A pattern of one part is for the last part of the path.
name_only : path_matches plain ("a" ∷ "b.py" ∷ []) ("b.py" ∷ []) ≡ true
unfolding path_matches
name_only = refl

path_matches_iff_example :
    (path_matches plain ("src" ∷ "" ∷ "a" ∷ []) ("src" ∷ "**" ∷ []) ≡ true)
    ↔ Means plain (parts ("src" ∷ "" ∷ "a" ∷ [])) (parts ("src" ∷ "**" ∷ []))
path_matches_iff_example = path_matches_iff plain ("src" ∷ "" ∷ "a" ∷ []) ("src" ∷ "**" ∷ [])
