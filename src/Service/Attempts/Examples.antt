-- ===== src/Service/Attempts/Examples.antt =====
-- Tests and witnesses for the transactions of a task's attempts.
use firstgreen.Prelude.{
  length, ℕ, ◌≤◌, String, true, false, ◌≡◌, refl, none, some, [], ◌∷◌, arith, distinct, map,
  if◌then◌else◌, nat_eq,
}
use firstgreen.Prelude.Result.{ok, err, transition_error, integrity_error}
use firstgreen.Domain.Models.{RunStatus, TaskStatus}
use firstgreen.Config.Samples.{sample_manifest, sample_task, docs_task, model_task}
use firstgreen.Db.Sql.{update_where, rowcount}
use firstgreen.Db.Tables.{TaskRow, Database}
use firstgreen.Db.Repository.{claim_winner}
use firstgreen.Db.Repository.Winners.{Won}
use firstgreen.Db.Samples.{sample_run, database, sample_db, failed_db}
use firstgreen.Scheduler.Racing.{AttemptOutcome, RaceResult}
use firstgreen.Service.Attempts.{create_run, resume_task, begin_verifying}
use firstgreen.Service.Attempts.Cancel.{cancel_request}
use firstgreen.Service.Attempts.Steps.{
  Steps, none_yet, then_step, claimed, verifying_begun, cancel_requested, winner_forever,
}
use firstgreen.Service.Policy.{may_back_up, is_hedge, effective_policy, Repairs, run_repairs}
use firstgreen.Service.Policy.Limits.{executed, backup_is_allowed, attempts_within_limit}
use firstgreen.Service.Reverify.{
  Presented, open_reverification, pass_reverification, fail_reverification, reopen,
}
use firstgreen.Service.Reverify.Rules.{IsAllowed, AreFailed, open-IsAllowed, fail_restores}
use firstgreen.Service.Verifications.{Rendered, verification_commands}
use firstgreen.Service.Verifications.Rounds.{AreApart}
use firstgreen.Verifier.Runner.{VerificationResult}

abbrev won_db : Database
won_db = (claim_winner "t" "a" "now" sample_db).1

claimed_db-Won : Won "t" "a" won_db
unfolding claim_winner rowcount update_where
claimed_db-Won = ((λ e. refl), tt)

abbrev verifying_db : Database
verifying_db = (begin_verifying "b" "t" won_db).1

abbrev later_db : Database
later_db = (claim_winner "t" "b" "later" (cancel_request "r" none verifying_db).1).1

later_writes : Steps won_db later_db
later_writes =
    then_step (cancel_request "r" none verifying_db).1 later_db
      (then_step verifying_db (cancel_request "r" none verifying_db).1
        (then_step won_db verifying_db none_yet (verifying_begun "b" "t"))
        (cancel_requested "r" none))
      (claimed "t" "b" "later")

winner_forever_example : Won "t" "a" later_db
winner_forever_example = winner_forever "t" "a" won_db later_writes claimed_db-Won

-- A dependency that is named twice passes the manifest's check, and then breaks a key.
twice_refused :
    (create_run
      (sample_run RunStatus.running)
      (λ k. k)
      (model_task ∷ sample_task "view" ("model" ∷ "model" ∷ []) [] ∷ [])
      (record failed_db { runs = []; tasks = []; attempts = [] })).0
    ≡ err integrity_error
unfolding create_run
twice_refused = refl

queued_not_resumed :
    (resume_task "t" (database RunStatus.running TaskStatus.queued [])).0 ≡ err transition_error
unfolding resume_task
queued_not_resumed = refl

hedged : may_back_up (effective_policy "delayed-hedge" sample_manifest docs_task).0 ≡ true
unfolding effective_policy
hedged = refl

backup_is_allowed_example :
    ((docs_task.replay_safe ≡ true) × (2 ≤ docs_task.limits.max_attempts))
    × (is_hedge (effective_policy "delayed-hedge" sample_manifest docs_task).0 ≡ true
        → (sample_manifest.scheduler.hedge.enabled ≡ true)
          × (1 ≤ sample_manifest.scheduler.hedge.max_replicas))
backup_is_allowed_example = backup_is_allowed "delayed-hedge" sample_manifest docs_task hedged

abbrev failing : String → ℕ → AttemptOutcome
failing a n = record {
  attempt_id = a;
  verified = false;
  ordinal = n;
  verification_feedback = some "failed";
}

abbrev always_fails : Repairs
always_fails = record {
  prepares = λ n. true;
  executes = λ n. failing "repair" n;
  claims = λ a. true;
}

abbrev lost_race : RaceResult
lost_race = record {
  winner_attempt_id = none;
  launched_backup = false;
  cancelled_attempt_ids = [];
  outcomes = failing "a" 1 ∷ [];
}

all_three_used : (run_repairs docs_task always_fails ("a" ∷ []) lost_race).attempts_used ≡ 3
unfolding run_repairs
all_three_used = refl

attempts_within_limit_example :
    (executed lost_race (run_repairs docs_task always_fails ("a" ∷ []) lost_race)
      ≡ (run_repairs docs_task always_fails ("a" ∷ []) lost_race).attempts_used)
    × (executed lost_race (run_repairs docs_task always_fails ("a" ∷ []) lost_race) ≤ 3)
attempts_within_limit_example =
    attempts_within_limit docs_task always_fails ("a" ∷ []) lost_race (omega arith)
      (λ e. omega arith)

abbrev presented : Presented
presented = record {
  manifest_hash = "h";
  repo = "/repo";
  base_sha = "sha";
  tasks = model_task ∷ [];
}

abbrev reopened : Database
reopened = (open_reverification presented "r" "a" failed_db).1

reopens : open_reverification presented "r" "a" failed_db ≡ (ok "t", reopened)
unfolding open_reverification
reopens = refl

open-IsAllowed_example : IsAllowed presented "r" "a" failed_db "t"
open-IsAllowed_example = open-IsAllowed presented "r" "a" failed_db reopens

failed_rows : AreFailed "t" failed_db.tasks
failed_rows = ((λ e. (refl, refl)), tt)

fail_restores_example :
    (fail_reverification "r" "t" "a" "now" (reopen "r" "t" "a" failed_db)).1.tasks ≡ failed_db.tasks
fail_restores_example = fail_restores "r" "t" "a" "now" failed_db failed_rows

abbrev passed_db : Database
passed_db = (pass_reverification "r" "t" "a" "now" (reopen "r" "t" "a" failed_db)).1

passes : pass_reverification "r" "t" "a" "now" (reopen "r" "t" "a" failed_db) ≡ (ok true, passed_db)
unfolding pass_reverification reopen rowcount update_where
passes = refl

reopened-keys : distinct (map (λ (r : TaskRow). r.id) (reopen "r" "t" "a" failed_db).tasks) ≡ true
unfolding reopen update_where
reopened-keys = refl

abbrev texts : Rendered
texts = record {
  id = λ n. if nat_eq n 0 then "v0" else "v1";
  command_json = λ c. "{}";
  output_path = λ n. "out";
}

texts-apart : AreApart (length (verification_commands docs_task sample_manifest)) texts
unfolding verification_commands
texts-apart i j l m e = omega arith

abbrev nothing_ran : VerificationResult
nothing_ran = record {
  passed = false;
  commands = [];
  changed_paths = [];
  disallowed_paths = [];
  diff_hash = "d";
}
