-- ===== src/Planning/Paths.antt =====
-- src/firstgreen/planning/compiler.py: the paths of a plan's tasks, and where two tasks write to the
-- same place.
pub mod Shared
use firstgreen.Prelude.{
  ℕ, ◌*◌, min, max, String, Bool, true, false, not, ◌&&◌, ◌||◌, Option, none, some, List, [], ◌∷◌,
  ◌++◌, map, ◌==◌, if◌then◌else◌, ltb, length, any, mem, dedup, is_empty, is_some, text_leb,
}
use text.Mathlib.Text.{starts_with}
use firstgreen.Planning.Models.{
  FileKind, source, migration, RepositoryFile, RepositoryMap, PlanTask,
}
use firstgreen.Planning.Texts.{
  Host, append, slashes, strip_slashes, head_segment, segments, contains, ends_with,
}

unfoldable pub normal : String → String
unfolding slashes strip_slashes
normal path = strip_slashes (slashes path)

abbrev pub last_part : String → List String → String
last_part p [] = p
last_part p (q ∷ qs) = last_part q qs

abbrev all_but_last : String → List String → List String
all_but_last p [] = []
all_but_last p (q ∷ qs) = p ∷ all_but_last q qs

abbrev pub name_of : List String → String
name_of [] = ""
name_of (p ∷ ps) = last_part p ps

abbrev directories : List String → List String
directories [] = []
directories (p ∷ ps) = all_but_last p ps

unfoldable pub looks_like_test_path : Host → String → Bool
unfolding normal segments contains ends_with
looks_like_test_path host path =
    let parts = segments (host.lower (normal path)) in
    let name = name_of parts in
    any (λ d. mem d ("test" ∷ "tests" ∷ "spec" ∷ "specs" ∷ [])) (directories parts)
    || (starts_with name "test_"
        || (contains name ".test." || (contains name ".spec." || ends_with name "_test.py")))

-- `_common_resource`
unfoldable pub common_resource : String → String → Option String
unfolding normal append
common_resource left right =
    let a = normal left in
    let b = normal right in
    if a == b
    then some a
    else if starts_with a (append b "/")
    then some b
    else if starts_with b (append a "/")
    then some a
    else none

abbrev is_source_kind : FileKind → Bool
is_source_kind source = true
is_source_kind migration = true
is_source_kind other_kind = false

-- The body of the loop over the likely paths, on a path that is no test.
abbrev is_source_path : Host → RepositoryMap → String → Bool
is_source_path host repo_map path =
    mem (host.lower (head_segment path)) ("app" ∷ "src" ∷ "lib" ∷ "packages" ∷ [])
    || any (λ (f : RepositoryFile). is_source_kind f.kind && is_some (common_resource f.path path))
        repo_map.files

unfoldable pub has_source_scope : Host → PlanTask → RepositoryMap → Bool
unfolding looks_like_test_path common_resource normal head_segment
has_source_scope host t repo_map =
    any (λ p. not (looks_like_test_path host (normal p)) && is_source_path host repo_map (normal p))
      t.likely_paths

-- The `overlap` of two tasks is `shared / paths`; it is nonzero just when `shared` is.
pub record Overlap : Type 0 where
  pub shared : ℕ
  pub paths : ℕ
  pub resource : Option String

abbrev pub no_overlap : Overlap
no_overlap = record { shared = 0; paths = 1; resource = none }

-- `if resource: overlaps.append(resource)`
abbrev pub found : Option String → List String
found none = []
found (some r) = if r == "" then [] else r ∷ []

abbrev pub shared_with : String → List String → List String
shared_with first [] = []
shared_with first (second ∷ rest) = found (common_resource first second) ++ shared_with first rest

abbrev pub overlaps : List String → List String → List String
overlaps [] right = []
overlaps (first ∷ rest) right = shared_with first right ++ overlaps rest right

-- `min(overlaps) if overlaps else None`
abbrev pub least : List String → Option String
least [] = none
least (r ∷ rs) = elim (least rs) [ none ↦ some r | some s ↦ some (if text_leb r s then r else s) ]

abbrev pub paths_of : PlanTask → List String
paths_of t = dedup (map normal t.likely_paths)

-- What two sets of paths share.
unfoldable pub overlap_of : List String → List String → Overlap
unfolding common_resource
overlap_of a b =
    let denominator = max 1 (length (dedup (a ++ b))) in
    record {
      shared = min denominator (length (dedup (overlaps a b)));
      paths = denominator;
      resource = least (overlaps a b);
    }

abbrev pub cannot_overlap : PlanTask → PlanTask → Bool
cannot_overlap left right =
    is_empty (paths_of left) || (is_empty (paths_of right) || (left.read_only || right.read_only))

unfoldable pub write_overlap : PlanTask → PlanTask → Overlap
unfolding overlap_of normal
write_overlap left right =
    if cannot_overlap left right then no_overlap else overlap_of (paths_of left) (paths_of right)

-- `if overlap`
abbrev pub is_some_overlap : Overlap → Bool
is_some_overlap o = ltb 0 o.shared

-- `overlap > limit`, the limit in thousandths.
abbrev pub exceeds : ℕ → Overlap → Bool
exceeds limit o = ltb (limit * o.paths) (o.shared * 1000)

unfoldable pub path_known : String → RepositoryMap → Bool
unfolding normal append
path_known path repo_map =
    any
      (λ (f : RepositoryFile).
        normal f.path == normal path
        || (starts_with (normal f.path) (append (normal path) "/")
            || starts_with (normal path) (append (normal f.path) "/")))
      repo_map.files
