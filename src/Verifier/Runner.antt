-- ===== src/Verifier/Runner.antt =====
-- src/firstgreen/verifier/runner.py: the commands of a verification are run in order up to the first
-- that fails. Processes, git and the text library are arguments.
pub mod Verdict
use firstgreen.Prelude.{
  ℕ, ◌+◌, ◌-◌, min, String, Bool, true, false, not, ◌&&◌, ◌||◌, Option, none, some, List, [], ◌∷◌,
  if◌then◌else◌, nat_eq, ltb, is_some, is_empty, any, all, keep, length,
}
use firstgreen.Prelude.Int.{ℤ, pos, negsuc}
use firstgreen.Prelude.Result.{Result, ok, value_error, raise_if, ◌>>=◌, ◌>>◌}
use firstgreen.PathPatterns.{path_matches}

pub record VerificationCommand : Type 0 where
  pub argv : Option (List String)
  pub command : Option String
  pub shell : Bool
  pub timeout_seconds : ℕ

abbrev is_empty_argv : Option (List String) → Bool
is_empty_argv none = false
is_empty_argv (some l) = is_empty l

abbrev same : Bool → Bool → Bool
same a b = a && b || not a && not b

-- `__post_init__`
unfoldable pub check_verification_command : VerificationCommand → Result (Unit {0})
check_verification_command c = do
  raise_if (same (is_some c.argv) (is_some c.command)) value_error
  raise_if (is_empty_argv c.argv) value_error
  raise_if (is_some c.command && not c.shell) value_error

-- The streams as bytes.
pub record CommandResult : Type 0 where
  pub exit_code : Option ℤ
  pub stdout : List ℕ
  pub stderr : List ℕ
  pub timed_out : Bool
  pub output_truncated : Bool
  pub started_at : String
  pub finished_at : String
  pub resolved_executable : Option String
  pub launch_error_kind : Option String

pub record VerificationRequest : Type 0 where
  pub commands : List VerificationCommand
  pub allowed_changed_paths : List String
  pub max_output_bytes : ℕ

pub record VerificationResult : Type 0 where
  pub passed : Bool
  pub commands : List CommandResult
  pub changed_paths : List String
  pub disallowed_paths : List String
  pub diff_hash : String

-- What a process has left: its exit code, whether it was killed at the timeout, and its streams.
pub record Ended : Type 0 where
  pub returncode : Option ℤ
  pub timed_out : Bool
  pub stdout : List ℕ
  pub stderr : List ℕ
  pub started_at : String
  pub finished_at : String

abbrev pub take {ℓ} : {A : Type ℓ} → ℕ → List A → List A
take n [] = []
take n (x ∷ xs) = let rest = take (n - 1) xs in if nat_eq n 0 then [] else x ∷ rest

-- The end of `_run`: the streams share the limit, stdout first.
unfoldable pub finish_run : ℕ → Option String → Ended → CommandResult
finish_run max_output_bytes executable e =
    let stdout_limit = min (length e.stdout) max_output_bytes in
    record {
      exit_code = e.returncode;
      stdout = take stdout_limit e.stdout;
      stderr = take (max_output_bytes - stdout_limit) e.stderr;
      timed_out = e.timed_out;
      output_truncated = ltb max_output_bytes (length e.stdout + length e.stderr);
      started_at = e.started_at;
      finished_at = e.finished_at;
      resolved_executable = executable;
      launch_error_kind = none;
    }

-- The host: a command run to its result, the changed paths, the texts' splitting and globbing, and
-- the digest of the diff.
pub record Host : Type 0 where
  pub run : VerificationCommand → ℕ → CommandResult
  pub changed_paths : List String
  pub split : String → List String
  pub glob : String → String → Bool
  pub digest : String

abbrev is_zero : ℤ → Bool
is_zero (pos n) = nat_eq n 0
is_zero (negsuc n) = false

-- `exit_code == 0`
abbrev pub exited_zero : Option ℤ → Bool
exited_zero none = false
exited_zero (some n) = is_zero n

abbrev pub succeeded : CommandResult → Bool
succeeded r = exited_zero r.exit_code && not r.timed_out

module _ (h : Host) where
  -- `_allowed`
  unfoldable pub allowed : String → List String → Bool
  allowed path patterns =
      is_empty patterns || any (λ p. path_matches h.glob (h.split path) (h.split p)) patterns

  -- The loop over the commands.
  unfoldable pub run_commands : ℕ → List VerificationCommand → List CommandResult
  run_commands limit [] = []
  run_commands limit (c ∷ cs) =
      let result = h.run c limit in
      let rest = run_commands limit cs in
      if not (succeeded result) then result ∷ [] else result ∷ rest

  unfoldable pub verify : VerificationRequest → VerificationResult
  unfolding run_commands allowed
  verify request =
      let disallowed =
        keep (λ path. not (allowed path request.allowed_changed_paths)) h.changed_paths in
      let results = run_commands request.max_output_bytes request.commands in
      record {
        passed =
            is_empty disallowed
            && (nat_eq (length results) (length request.commands) && all succeeded results);
        commands = results;
        changed_paths = h.changed_paths;
        disallowed_paths = disallowed;
        diff_hash = h.digest;
      }
