-- ===== src/Planning/Verifiers.antt =====
-- src/firstgreen/planning/compiler.py: the commands that verify a planned task.
use firstgreen.Prelude.{
  String, Bool, true, false, not, ◌&&◌, ◌||◌, List, [], ◌∷◌, ◌++◌, map, ◌==◌, if◌then◌else◌, any,
  all, keep, dedup, is_empty, is_some, sort, text_leb,
}
use text.Mathlib.Text.{starts_with}
use Prim.Native.String.{len, slice}
use firstgreen.Planning.Models.{FileKind, source, docs, RepositoryFile, RepositoryMap, ProposedTask}
use firstgreen.Planning.Texts.{Host, append, head_segment, ends_with, text_matches}
use firstgreen.Planning.Paths.{normal, common_resource}

abbrev pub Command : Type 0
Command = List String

abbrev Commands : Type 0
Commands = List (String × List Command)

-- `repo_map.commands.get(category, [])`
unfoldable pub commands_at : Commands → String → List Command
commands_at [] category = []
commands_at ((k, v) ∷ rest) category = if k == category then v else commands_at rest category

-- Equality of commands, and `command in commands`.
abbrev pub same_command : Command → Command → Bool
same_command [] [] = true
same_command [] (y ∷ ys) = false
same_command (x ∷ xs) [] = false
same_command (x ∷ xs) (y ∷ ys) = x == y && same_command xs ys

-- `[c for i, c in enumerate(commands) if c not in commands[:i]]`, with the commands before these.
unfoldable pub first_ones : List Command → List Command → List Command
first_ones before [] = []
first_ones before (c ∷ cs) =
    let rest = first_ones (c ∷ before) cs in if any (same_command c) before then rest else c ∷ rest

unfoldable pub inherited_verifier : RepositoryMap → List Command
unfolding commands_at
inherited_verifier m =
    commands_at m.commands "setup"
    ++ (commands_at m.commands "test"
        ++ (commands_at m.commands "lint" ++ commands_at m.commands "typecheck"))

-- The script of `_PYTHON_SYNTAX_CHECK` is a constant, given as an argument.
module _ (host : Host) (syntax_check : String) (m : RepositoryMap) where
  abbrev touches : String → RepositoryFile → Bool
  touches path f = is_some (common_resource f.path path)

  abbrev is_source : FileKind → Bool
  is_source source = true
  is_source other_kind = false

  abbrev is_python : String → Bool
  is_python path =
      ends_with path ".py"
      || any
          (λ (f : RepositoryFile). is_source f.kind && (ends_with f.path ".py" && touches path f))
          m.files

  unfoldable pub python_compile_verifier : ProposedTask → List Command
  unfolding normal common_resource ends_with head_segment
  python_compile_verifier t =
      let roots =
        dedup (
          map head_segment
            (keep (λ p. not (p == "") && is_python p) (map normal t.likely_paths))) in
      if is_empty roots
      then []
      else ("python" ∷ "-c" ∷ syntax_check ∷ sort text_leb roots)
        ∷ ("git" ∷ "diff" ∷ "--check" ∷ [])
        ∷ []

  -- `key.startswith(prefix)`, and `path_matches(path, f"{scope}/**")` for one of the paths.
  abbrev in_scope : String → ProposedTask → String → Bool
  in_scope prefix t key =
      starts_with key prefix
      && any (λ p. text_matches host p (append (slice key (len prefix) (len key)) "/**"))
          t.likely_paths

  abbrev key_leb : String × List Command → String × List Command → Bool
  key_leb a b = text_leb (a.0) (b.0)

  abbrev scoped_entries : ProposedTask → String → Commands
  scoped_entries t prefix = keep (λ e. in_scope prefix t (e.0)) (sort key_leb m.commands)

  abbrev all_scoped : ProposedTask → Commands
  all_scoped t =
      scoped_entries t "test@" ++ (scoped_entries t "lint@" ++ scoped_entries t "typecheck@")

  abbrev commands_of : Commands → List Command
  commands_of [] = []
  commands_of (e ∷ es) = e.1 ++ commands_of es

  abbrev is_docs : FileKind → Bool
  is_docs docs = true
  is_docs other_kind = false

  -- The files that one of the likely paths meets.
  abbrev matched : ProposedTask → List RepositoryFile
  matched t = keep (λ (f : RepositoryFile). any (λ p. touches p f) t.likely_paths) m.files

  abbrev only_docs : ProposedTask → Bool
  only_docs t =
      not (is_empty (matched t))
      && all (λ (f : RepositoryFile). is_docs f.kind) (matched t)
      && not (any (λ p. ends_with (normal p) ".py") t.likely_paths)

  unfoldable pub task_verifier : ProposedTask → Bool → List Command
  unfolding commands_at inherited_verifier python_compile_verifier first_ones text_matches append
      ends_with normal common_resource
  task_verifier t terminal =
      let setup = commands_at m.commands "setup" in
      let compile = python_compile_verifier t in
      if not (is_empty (all_scoped t))
      then first_ones [] (setup ++ commands_of (all_scoped t))
      else if only_docs t
      then ("git" ∷ "diff" ∷ "--check" ∷ []) ∷ []
      else if not terminal
          && (not (is_empty (commands_at m.commands "test")) && not (is_empty compile))
      then setup ++ compile
      else inherited_verifier m
