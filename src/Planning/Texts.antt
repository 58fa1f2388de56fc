-- ===== src/Planning/Texts.antt =====
-- Python's operations on texts that src/firstgreen/planning/compiler.py uses. What Unicode's tables
-- decide (`lower`, `strip`), hashing and `fnmatchcase` of the standard library are arguments.
use Prim.Native.Char.{Char, code}
use Prim.Native.String as Str
use text.Mathlib.Text.{starts_with}
use firstgreen.Prelude.{String, Bool, List, [], ◌∷◌, ◌&&◌, ◌||◌, ◌==◌, if◌then◌else◌, nat_eq}
use firstgreen.PathPatterns.{path_matches}

pub record Host : Type 0 where
  pub lower : String → String
  pub strip : String → String
  -- The first eight digits of the SHA-256 hash.
  pub digest : String → String
  pub glob : String → String → Bool

abbrev slash : Char
slash = "/"

unfoldable pub append : String → String → String
append s t = Str.◌++◌ s t

-- `value.replace("\\", "/")`
unfoldable pub slashes : String → String
slashes String.[] = ""
slashes (String.◌∷◌ c s) = String.◌∷◌ (if nat_eq (code c) 92 then slash else c) (slashes s)

drop_slashes : String → String
drop_slashes String.[] = ""
drop_slashes (String.◌∷◌ c s) =
    let rest = drop_slashes s in if nat_eq (code c) 47 then rest else String.◌∷◌ c s

cut_slashes : String → String
cut_slashes String.[] = ""
cut_slashes (String.◌∷◌ c s) =
    let rest = cut_slashes s in if nat_eq (code c) 47 && rest == "" then "" else String.◌∷◌ c rest

-- `value.rstrip("/")`
unfoldable pub rstrip_slashes : String → String
unfolding cut_slashes
rstrip_slashes s = cut_slashes s

-- `value.strip("/")`
unfoldable pub strip_slashes : String → String
unfolding drop_slashes cut_slashes
strip_slashes s = cut_slashes (drop_slashes s)

-- The segments of `value.split("/")`, the first one apart.
split_at : String → String × List String
split_at String.[] = ("", [])
split_at (String.◌∷◌ c s) =
    let (first, rest) = split_at s in
    if nat_eq (code c) 47 then ("", first ∷ rest) else (String.◌∷◌ c first, rest)

-- `value.split("/", 1)[0]`
unfoldable pub head_segment : String → String
unfolding split_at
head_segment s = (split_at s).0

unfoldable pub segments : String → List String
unfolding split_at
segments s = (split_at s).0 ∷ (split_at s).1

-- `t in s`
unfoldable pub contains : String → String → Bool
contains String.[] t = t == ""
contains (String.◌∷◌ c s) t = starts_with (String.◌∷◌ c s) t || contains s t

-- `s.endswith(t)`
unfoldable pub ends_with : String → String → Bool
ends_with String.[] t = t == ""
ends_with (String.◌∷◌ c s) t = String.◌∷◌ c s == t || ends_with s t

-- `separator.join(texts)`
unfoldable pub join : String → List String → String
join separator [] = ""
join separator (t ∷ []) = t
join separator (t ∷ u ∷ ts) = append t (append separator (join separator (u ∷ ts)))

-- `path_matches(path, pattern)` of two texts.
unfoldable pub text_matches : Host → String → String → Bool
unfolding slashes segments path_matches
text_matches host path pattern =
    path_matches host.glob (segments (slashes path)) (segments (slashes pattern))
