-- ===== src/Service/Verifications.antt =====
-- src/firstgreen/service.py, `_verification_commands` and `_persist_verification`: the commands of a
-- task, and one row per planned command of each round.
pub mod Rounds
use firstgreen.Prelude.{
  ℕ, zero, suc, ◌+◌, String, Bool, true, false, not, ◌&&◌, ◌||◌, Option, none, some, List, [], ◌∷◌,
  ◌++◌, map, ◌==◌, nat_eq, if◌then◌else◌, any,
}
use firstgreen.Prelude.Result.{Result, ok, err, integrity_error, ◌>>=◌}
use firstgreen.Config.Models.{
  CommandConfig, VerifyConfig, TaskConfig, Manifest, VerificationDefaults,
}
use firstgreen.Db.Tables.{
  AttemptRow, VerificationRow, CommandStatus, passed, failed, timed_out, skipped, EventRow,
  Database,
}
use firstgreen.Db.Repository.{Statements, transaction, append_event}
use firstgreen.Verifier.Runner.{VerificationCommand, CommandResult, VerificationResult, exited_zero}
use firstgreen.Service.Reverify.{previous_rounds}

unfoldable pub verification_commands : TaskConfig → Manifest → List VerificationCommand
verification_commands task m =
    map
      (λ (c : CommandConfig). record {
        argv = c.argv;
        command = c.command;
        shell = c.shell;
        timeout_seconds = m.verification_defaults.command_timeout_seconds;
      })
      task.verify.commands

abbrev pub status_of : CommandResult → CommandStatus
status_of r = if r.timed_out then timed_out else if exited_zero r.exit_code then passed else failed

-- The texts that the host makes for the command with an index: an id, its JSON and its output file.
pub record Rendered : Type 0 where
  pub id : ℕ → String
  pub command_json : VerificationCommand → String
  pub output_path : ℕ → String

abbrev pub run_row :
    Rendered → String → ℕ → ℕ → VerificationCommand → CommandResult → VerificationRow
run_row texts attempt_id round index c r = record {
  id = texts.id index;
  attempt_id = attempt_id;
  command_index = index;
  verification_round = round;
  command_json = texts.command_json c;
  status = status_of r;
  exit_code = r.exit_code;
  started_at = some r.started_at;
  finished_at = some r.finished_at;
  output_path = some (texts.output_path index);
}

abbrev pub skipped_row : Rendered → String → ℕ → ℕ → VerificationCommand → VerificationRow
skipped_row texts attempt_id round index c = record {
  id = texts.id index;
  attempt_id = attempt_id;
  command_index = index;
  verification_round = round;
  command_json = texts.command_json c;
  status = skipped;
  exit_code = none;
  started_at = none;
  finished_at = none;
  output_path = none;
}

-- The `for index, command in enumerate(commands)` loop, from an index on, with the results from
-- there on.
unfoldable pub rows_from :
    Rendered → String → ℕ → ℕ → List VerificationCommand → List CommandResult → List VerificationRow
rows_from texts attempt_id round index [] results = []
rows_from texts attempt_id round index (c ∷ cs) [] =
    skipped_row texts attempt_id round index c ∷ rows_from texts attempt_id round (suc index) cs []
rows_from texts attempt_id round index (c ∷ cs) (r ∷ rs) =
    run_row texts attempt_id round index c r ∷ rows_from texts attempt_id round (suc index) cs rs

-- The keys of `verification_runs`.
abbrev pub clashes : VerificationRow → VerificationRow → Bool
clashes v r =
    r.id == v.id
    || r.attempt_id == v.attempt_id
      && (nat_eq r.verification_round v.verification_round
          && nat_eq r.command_index v.command_index)

unfoldable pub insert_rows : List VerificationRow → Statements (Unit {0})
insert_rows [] db = ok (tt, db)
insert_rows (v ∷ vs) db =
    if any (clashes v) db.verifications
    then err integrity_error
    else if not (any (λ (a : AttemptRow). a.id == v.attempt_id) db.attempts)
    then err integrity_error
    else insert_rows vs (record db { verifications = db.verifications ++ v ∷ [] })

-- `COALESCE(MAX(verification_round),0)+1`
abbrev pub next_round : String → Database → ℕ
next_round attempt_id db = suc (previous_rounds attempt_id db.verifications)

abbrev pub report : ℕ → EventRow → Result (Unit {0}) × Database → Result ℕ × Database
report round e (err x, db) = (err x, db)
report round e (ok u, db) = (ok round, (append_event e db).1)

-- The rows of the next round, and the event; the round is returned.
unfoldable pub persist_verification :
    Rendered
    → String
    → List VerificationCommand
    → VerificationResult
    → EventRow
    → Database
    → Result ℕ × Database
unfolding previous_rounds rows_from insert_rows append_event
persist_verification texts attempt_id commands result e db =
    let round = next_round attempt_id db in
    report round e
      (transaction (insert_rows (rows_from texts attempt_id round 0 commands result.commands)) db)
