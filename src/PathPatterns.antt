-- ===== src/PathPatterns.antt =====
-- src/firstgreen/path_patterns.py: a path against a pattern. A path is given as its text split at the
-- slashes; `fnmatchcase` of the standard library is the argument `glob`.
pub mod Meaning
pub mod Examples
use firstgreen.Prelude.{
  String, Bool, true, false, not, ◌&&◌, ◌||◌, List, [], ◌∷◌, ◌==◌, if◌then◌else◌, keep,
}

-- `_parts`: doubled, leading and trailing slashes give empty parts.
unfoldable pub parts : List String → List String
parts segments = keep (λ (part : String). not (part == "") && not (part == ".")) segments

-- `**` on what is left of the path: it takes nothing, or one more part.
unfoldable pub star : (List String → Bool) → List String → Bool
star rest [] = rest []
star rest (p ∷ ps) = rest (p ∷ ps) || star rest ps

abbrev pub last_of : String → List String → String
last_of p [] = p
last_of p (q ∷ ps) = last_of q ps

module _ (glob : String → String → Bool) where
  abbrev one : String → (List String → Bool) → List String → Bool
  one c rest [] = false
  one c rest (p ∷ ps) = glob p c && rest ps

  -- `match`, for the parts that are left of the pattern.
  unfoldable pub match_parts : List String → List String → Bool
  unfolding star
  match_parts [] [] = true
  match_parts [] (p ∷ ps) = false
  match_parts (c ∷ cs) ps =
      if c == "**" then star (match_parts cs) ps else one c (match_parts cs) ps

  abbrev pub match_split : List String → List String → Bool
  match_split [] pattern = false
  match_split (p ∷ ps) [] = false
  match_split (p ∷ ps) (c ∷ []) =
      if c == "**" then star (match_parts []) (p ∷ ps) else glob (last_of p ps) c
  match_split (p ∷ ps) (c ∷ d ∷ cs) = match_parts (c ∷ d ∷ cs) (p ∷ ps)

  unfoldable pub path_matches : List String → List String → Bool
  unfolding parts match_parts
  path_matches path pattern = match_split (parts path) (parts pattern)
