-- ===== src/Verifier/Examples.antt =====
-- Tests and witnesses for the verifier.
use firstgreen.Prelude.{true, false, ◌≡◌, refl, ◌↔◌, none, some, [], ◌∷◌, ◌==◌, All}
use firstgreen.Prelude.Int.{pos}
use firstgreen.PathPatterns.{path_matches}
use firstgreen.Verifier.Runner.{VerificationRequest, Ended, Host, finish_run, allowed, verify}
use firstgreen.Verifier.Runner.Verdict.{AllSucceed, verify_passed_iff}

abbrev long_output : Ended
long_output = record {
  returncode = some (pos 0);
  timed_out = false;
  stdout = 65 ∷ 66 ∷ 67 ∷ [];
  stderr = 68 ∷ 69 ∷ [];
  started_at = "0";
  finished_at = "1";
}

stderr_cut : (finish_run 4 none long_output).stderr ≡ 68 ∷ []
unfolding finish_run
stderr_cut = refl

abbrev sample_host : Host
sample_host = record {
  run = λ c limit. finish_run limit none long_output;
  changed_paths = "a.py" ∷ [];
  split = λ p. p ∷ [];
  glob = λ p c. p == c;
  digest = "d";
}

abbrev sample_request : VerificationRequest
sample_request = record {
  commands =
      record { argv = some ("pytest" ∷ []); command = none; shell = false; timeout_seconds = 900 }
      ∷ [];
  allowed_changed_paths = "a.py" ∷ [];
  max_output_bytes = 4;
}

passes : (verify sample_host sample_request).passed ≡ true
unfolding verify finish_run path_matches
passes = refl

verify_passed_iff_example : ((verify sample_host sample_request).passed ≡ true) ↔ (
    All (λ path. allowed sample_host path ("a.py" ∷ []) ≡ true) ("a.py" ∷ [])
    × AllSucceed sample_host 4 sample_request.commands)
verify_passed_iff_example = verify_passed_iff sample_host sample_request
