-- ===== src/Service/Composition.antt =====
-- src/firstgreen/service.py: what a delivery is composed of (`_delivery_task`, `_delivery_snapshots`), and
-- the winners that a task's workspace starts from (`_dependency_winners`).
use firstgreen.Prelude.{
  String, Bool, true, false, not, ◌&&◌, Option, none, some, List, [], ◌∷◌, ◌++◌, map, ◌==◌,
  if◌then◌else◌, nat_eq, any, keep, length, mem, dedup, is_empty, sort, text_leb,
}
use firstgreen.Prelude.Int.{pos}
use firstgreen.Prelude.Result.{Result, ok, value_error, workspace_safety_error, raise_if, ◌>>◌}
use firstgreen.Config.Models.{CommandConfig, TaskConfig, Manifest}
use firstgreen.Config.Dag.{ids}
use firstgreen.Db.Tables.{TaskRow, DependencyRow, AttemptRow, Database}

-- Equality of commands, which the code compares as JSON.
abbrev same_texts : List String → List String → Bool
same_texts [] [] = true
same_texts [] (y ∷ ys) = false
same_texts (x ∷ xs) [] = false
same_texts (x ∷ xs) (y ∷ ys) = x == y && same_texts xs ys

abbrev same_argv : Option (List String) → Option (List String) → Bool
same_argv none none = true
same_argv none (some m) = false
same_argv (some l) none = false
same_argv (some l) (some m) = same_texts l m

abbrev same_line : Option String → Option String → Bool
same_line none none = true
same_line none (some t) = false
same_line (some s) none = false
same_line (some s) (some t) = s == t

abbrev same_flag : Bool → Bool → Bool
same_flag true b = b
same_flag false b = not b

abbrev pub same_config : CommandConfig → CommandConfig → Bool
same_config a b =
    same_argv a.argv b.argv && (same_line a.command b.command && same_flag a.shell b.shell)

-- The loop over the commands, with those that were seen.
unfoldable pub first_configs : List CommandConfig → List CommandConfig → List CommandConfig
first_configs seen [] = []
first_configs seen (c ∷ cs) =
    let rest = first_configs (c ∷ seen) cs in if any (same_config c) seen then rest else c ∷ rest

abbrev task_commands : List TaskConfig → List CommandConfig
task_commands [] = []
task_commands (t ∷ ts) = t.verify.commands ++ task_commands ts

abbrev task_paths : List TaskConfig → List String
task_paths [] = []
task_paths (t ∷ ts) = t.verify.allowed_changed_paths ++ task_paths ts

abbrev is_unrestricted : TaskConfig → Bool
is_unrestricted t = is_empty t.verify.allowed_changed_paths

-- The commands of the delivery's own, or else those of the tasks.
abbrev pub delivery_commands : Manifest → List CommandConfig
delivery_commands m =
    let own = m.verification_defaults.delivery_commands in
    first_configs [] (if is_empty own then task_commands m.tasks else own)

-- `_delivery_task`; `VerifyConfig` refuses an empty list of commands.
unfoldable pub delivery_task : Manifest → Result TaskConfig
unfolding first_configs
delivery_task m =
    raise_if (is_empty (delivery_commands m)) value_error
    >> ok (record {
      id = "__firstgreen_delivery__";
      task_class = "general";
      priority = pos 0;
      estimated_duration = 1000;
      estimate_source = "unit";
      prompt = "Scheduler-owned final delivery composition";
      replay_safe = false;
      dependencies = [];
      resources = [];
      limits = record { max_attempts = 2; max_estimated_usd = none };
      verify = record {
        commands = delivery_commands m;
        allowed_changed_paths =
            if any is_unrestricted m.tasks then [] else sort text_leb (dedup (task_paths m.tasks));
      };
    })

-- The snapshot of a winner; the code adds the task's record, which its key names.
pub record DependencySnapshot : Type 0 where
  pub task_key : String
  pub workspace : Option String
  pub base_sha : String

abbrev all_dependencies : List TaskConfig → List String
all_dependencies [] = []
all_dependencies (t ∷ ts) = t.dependencies ++ all_dependencies ts

-- The tasks that no other task depends on.
abbrev pub sinks : Manifest → List String
sinks m = sort text_leb (keep (λ key. not (mem key (all_dependencies m.tasks))) (ids m.tasks))

-- `JOIN attempts attempt ON attempt.id=task.winner_attempt_id`
abbrev pub is_winner_of : TaskRow → AttemptRow → Bool
is_winner_of t a = elim t.winner_attempt_id [ none ↦ false | some id ↦ a.id == id ]

abbrev pub winners_of : TaskRow → List AttemptRow → List DependencySnapshot
winners_of t attempts =
    map
      (λ (a : AttemptRow). record {
        task_key = t.task_key;
        workspace = a.workspace_path;
        base_sha = a.base_sha;
      })
      (keep (is_winner_of t) attempts)

abbrev pub all_winners : List TaskRow → List AttemptRow → List DependencySnapshot
all_winners [] attempts = []
all_winners (t ∷ ts) attempts = winners_of t attempts ++ all_winners ts attempts

abbrev pub by_key : DependencySnapshot → DependencySnapshot → Bool
by_key a b = text_leb a.task_key b.task_key

-- `_delivery_snapshots`
unfoldable pub delivery_snapshots : String → Manifest → Database → Result (List DependencySnapshot)
delivery_snapshots run_id m db =
    let rows =
      all_winners (keep (λ (t : TaskRow). t.run_id == run_id && mem t.task_key (sinks m)) db.tasks)
        db.attempts in
    raise_if (not (nat_eq (length rows) (length (sinks m)))) workspace_safety_error
    >> ok (sort by_key rows)

abbrev is_parent : String → List DependencyRow → TaskRow → Bool
is_parent task_id rows t =
    any (λ (d : DependencyRow). d.task_id == task_id && d.dependency_id == t.id) rows

abbrev has_workspace : DependencySnapshot → Bool
has_workspace s = elim s.workspace [ none ↦ false | some path ↦ true ]

-- `_dependency_winners`; the primary key of `task_dependencies` lets each parent appear once.
unfoldable pub dependency_winners : String → Database → List DependencySnapshot
dependency_winners task_id db =
    keep has_workspace
      (sort by_key (all_winners (keep (is_parent task_id db.dependencies) db.tasks) db.attempts))
