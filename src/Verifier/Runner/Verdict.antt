-- ===== src/Verifier/Runner/Verdict.antt =====
-- What a verification's verdict means, and how much output it keeps.
use firstgreen.Prelude.{
  ℕ, ◌+◌, ◌-◌, ◌≤◌, min, String, Bool, true, false, not, ◌&&◌, ◌≡◌, refl, Option, List, [], ◌∷◌,
  arith, Bool-cases, inl, inr, ◌↔◌, is_empty, all, keep, length, All, nat_eq,
}
use firstgreen.Verifier.Runner.{
  VerificationCommand, VerificationRequest, Ended, Host, take, finish_run, succeeded, allowed,
  run_commands, verify,
}

length-take : {A : Type 0} (n : ℕ) (xs : List A) → length (take n xs) ≡ min n (length xs)
length-take n [] = omega arith
length-take n (x ∷ xs) = ground (arith, length-take (n - 1) xs)

take-all : {A : Type 0} (n : ℕ) (xs : List A) → length xs ≤ n → take n xs ≡ xs
take-all n [] h = refl
take-all n (x ∷ xs) h = ground (arith, take-all (n - 1) xs)

-- The two streams of a command together keep no more bytes than the limit; and unless the result is
-- marked as truncated, they keep every byte.
pub output_bounded :
    (limit : ℕ) (executable : Option String) (e : Ended)
    → (length (finish_run limit executable e).stdout + length (finish_run limit executable e).stderr
        ≤ limit)
      × ((finish_run limit executable e).output_truncated ≡ false
          → ((finish_run limit executable e).stdout ≡ e.stdout)
            × ((finish_run limit executable e).stderr ≡ e.stderr))
unfolding finish_run
output_bounded limit executable e =
    let kept = min (length e.stdout) limit in
    (
      omega (arith, length-take kept e.stdout, length-take (limit - kept) e.stderr),
      (λ whole.
          (take-all kept e.stdout (ground arith), take-all (limit - kept) e.stderr (ground arith))),
    )

module _ (h : Host) where
  -- Each command, run on its own, succeeds.
  abbrev pub AllSucceed : ℕ → List VerificationCommand → Type 0
  AllSucceed limit cs = All (λ (c : VerificationCommand). succeeded (h.run c limit) ≡ true) cs

  abbrev ran_well : ℕ → List VerificationCommand → Bool
  ran_well limit cs =
      nat_eq (length (run_commands h limit cs)) (length cs)
      && all succeeded (run_commands h limit cs)

  ran-AllSucceed :
      (limit : ℕ) (cs : List VerificationCommand) → ran_well limit cs ≡ true → AllSucceed limit cs
  unfolding run_commands
  ran-AllSucceed limit [] e = tt
  ran-AllSucceed limit (c ∷ cs) e = elim (Bool-cases (succeeded (h.run c limit))) [
    | inl s ↦ (s, ran-AllSucceed limit cs (ground arith))
    | inr s ↦ absurd (ground arith)
  ]

  AllSucceed-ran :
      (limit : ℕ) (cs : List VerificationCommand) → AllSucceed limit cs → ran_well limit cs ≡ true
  unfolding run_commands
  AllSucceed-ran limit [] s = refl
  AllSucceed-ran limit (c ∷ cs) s = ground (arith, s.0, AllSucceed-ran limit cs s.1)

  keep-none :
      (p : String → Bool) (xs : List String)
      → is_empty (keep (λ x. not (p x)) xs) ≡ true
      → All (λ x. p x ≡ true) xs
  keep-none p [] e = tt
  keep-none p (x ∷ xs) e = elim (Bool-cases (p x)) [
    | inl y ↦ (y, keep-none p xs (ground arith))
    | inr n ↦ absurd (ground arith)
  ]

  none-keep :
      (p : String → Bool) (xs : List String)
      → All (λ x. p x ≡ true) xs
      → is_empty (keep (λ x. not (p x)) xs) ≡ true
  none-keep p [] a = refl
  none-keep p (x ∷ xs) a = rw (a.0) (none-keep p xs a.1)

  -- A verification passes exactly if every changed path is allowed and every planned command, run in
  -- the worktree, exits with zero within its time.
  pub verify_passed_iff :
      (request : VerificationRequest)
      → ((verify h request).passed ≡ true) ↔ (
          All (λ path. allowed h path request.allowed_changed_paths ≡ true) h.changed_paths
          × AllSucceed request.max_output_bytes request.commands)
  unfolding verify
  verify_passed_iff request =
      let ok_path = λ (path : String). allowed h path request.allowed_changed_paths in
      (
        (λ e. (
          keep-none ok_path h.changed_paths (ground arith),
          ran-AllSucceed request.max_output_bytes request.commands (ground arith),
        )),
        (λ a.
            let paths = none-keep ok_path h.changed_paths a.0 in
            let ran = AllSucceed-ran request.max_output_bytes request.commands a.1 in rw paths ran),
      )
