-- ===== src/Lib.antt =====
-- FirstGreen: a scheduler that runs coding tasks in isolated attempts, verifies each attempt with the
-- repository's own commands, and lets the first verified attempt of a task win.
--
-- The parts and the files that model them (paths from the repository's root):
--
-- - src/firstgreen/config.py: Config/Models has the manifest's records and the checks of their fields,
--   Config/Dag the validation of the task graph, which returns here the order in which it visits the
--   tasks.
-- - src/firstgreen/domain: Domain/Models and Domain/Transitions, the statuses of runs, tasks and
--   attempts and the tables of their transitions. src/firstgreen/planning/state_machine.py:
--   Planning/StateMachine.
-- - src/firstgreen/planning/models.py: Planning/Models. src/firstgreen/planning/parallelism.py:
--   Planning/Parallelism is the estimate of a duration, `_ancestors` and `_ready_width`,
--   Planning/Schedule the finishes and the critical path of `analyze_parallelism`, Planning/Analysis
--   the whole of it.
-- - src/firstgreen/planning/compiler.py: Planning/Texts has the operations on texts, Planning/Paths the
--   paths and `write_overlap`, Planning/Verifiers `_inherited_verifier`, `_python_compile_verifier` and
--   `_task_verifier`, Planning/Cycles `_cycle_nodes`, Planning/Merge `_merge_tasks` and the loop that
--   calls it, Planning/Conflicts the loop that adds constraints and resources, Planning/Checks
--   `validate_plan`, Planning/Candidate `_candidate` and `can_auto_approve`, Planning/Compile
--   `compile_plan` with `_plan_task` and `_single_task_plan`.
-- - src/firstgreen/planning/decomposition.py: Planning/Decomposition, with the regular expressions as an
--   argument.
-- - src/firstgreen/planning/workflow.py: Planning/Store has the tables of planning and `_transition`,
--   Planning/Proposals the choice of a proposal, Planning/Workflow `plan_issue`, `approve` and
--   `replace_candidate`; Planning/Execution is `plan_to_manifest` with
--   `_path_patterns` and `_transitive_task_paths`.
-- - src/firstgreen/db/repository.py: Db/Tables has the rows of the schema, Db/Sql the two statements on
--   a table, Db/Repository the transactions. A transaction is a function from a database to a value or
--   an error, and the database: an error rolls every statement back. A breach of a key or of a
--   reference is `integrity_error`.
-- - src/firstgreen/scheduler: Scheduler/Concurrency (the AIMD control of the root concurrency, threads),
--   Scheduler/Hedging (when a backup starts), Scheduler/Queue (bottom levels and the ready queue),
--   Scheduler/Racing (`first_verified_wins`).
-- - src/firstgreen/verifier/runner.py: Verifier/Runner; the host answers each command on its own, so that
--   what an earlier command leaves behind is not seen. src/firstgreen/path_patterns.py: PathPatterns.
-- - src/firstgreen/service.py: Service/Admission and Service/Loop are the loop of `_run_started`,
--   Service/Attempts its transactions and those of `_execute_attempt` and `run`, Service/Policy the
--   policy and the repairs of `_run_task_with_resources`, Service/Verifications the rows of
--   `_persist_verification`, Service/Reverify `reverify`. Service/Composition is `_delivery_task`,
--   `_delivery_snapshots` and `_dependency_winners`, Service/Delivery `_finalize_delivery`; its result is
--   an argument of `run_started`, and so are worktrees and verification there.
-- - src/firstgreen/cli.py: Service/Attempts/Cancel is the transaction of `cancel`.
--
-- How they interact: the service's loop asks the queue for the ready tasks, the controller for the
-- root limit and the admission for the tasks to start; each task runs its attempts as a race or one by
-- one and claims a winner in the repository; the loop only sees whether a task ended with a winner.
-- Service/Loop therefore takes what happens outside the loop from a `World`: the host's pressure, the
-- clock, and which of the running tasks a wait returns. `IsWaiting` states what asyncio documents: a
-- wait on tasks returns some of them, and no others. `run_started` begins after the transaction that
-- creates the rows of the run; Service/Run puts Service/Attempts' `create_run`, which may be refused,
-- before it. A task or a delivery that raises in the loop is not in the model.
--
-- A request becomes a plan in the compiler, whose analysis sets the number of root slots; the plan
-- becomes a manifest, and its resources are what the admission compares: Planning/Execution has the
-- results that span all of these.
-- Planning/Workflow wraps the compiler: each of its transactions stays when a later step raises.
--
-- Numbers are natural numbers; seconds, dollars, shares and durations are counted in thousandths, times
-- of the controller in microseconds. A duration in a finer unit than a millisecond, which `rank` rounds,
-- is not in the model. Ids, times of rows and rendered JSON are texts given by the caller.
-- Sets of texts are lists, and a dictionary of tasks is the list of its values in order.
--
-- Fuel: `visit` and `rank` follow a path of distinct tasks, so the number of tasks and one more is
-- enough; without fuel they refuse as for a cycle, and the totality results show that they do so only
-- where there is one. The loop of the service gets two turns for each task, one to start it and one to
-- see it finish. The repair loop gets one iteration for each allowed attempt. A race gets a round for
-- each of its jobs. The searches of the compiler, of the analysis and of the transitive paths follow
-- distinct tasks as `visit` does; each round of `timeline` places a task or refuses, and each merge
-- leaves fewer tasks, so that the number of tasks is enough for both.
--
-- What Python decides by tables, hashes or patterns is an argument: a `Host` gives lower case, strip, the
-- first eight digits of a hash and `fnmatchcase`; the script of the syntax check, the text of a
-- worker's prompt and whether the stored hash of the estimates is stale are arguments too. The
-- messages of `validate_plan` are constructors.
--
-- Not modelled: worktrees, worker processes, git, the rest of the command line and the screens, which are
-- input and output; reporting and the testbed; the simulator of random workloads; the rows of a delivery's
-- verification; the planner and the scanner, which the planning engine takes as arguments; work requests
-- and plans as files; the text of the recommendation and the hash of the estimates; the text of the
-- feedback for a repair and the redaction in it.
--
-- Prelude has the shared names, tests on numbers, lists, results, sorting and membership. Modules named
-- Examples hold tests and concrete instances, modules named Samples their data.
pub mod Prelude
pub mod Domain
pub mod Planning
pub mod Config
pub mod Db
pub mod Scheduler
pub mod PathPatterns
pub mod Verifier
pub mod Service
