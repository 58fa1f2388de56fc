-- ===== src/Planning/Samples.antt =====
-- A small repository and a proposal, for the tests and the witnesses.
use firstgreen.Prelude.{some, String, true, false, List, [], ◌∷◌, ◌==◌}
use firstgreen.Planning.Models.{
  source, docs, RepositoryMap, ProposedTask, unit, PlanTask, decompose, PlannerProposal,
  deterministic_heuristic_v1, low,
}
use firstgreen.Planning.Texts.{Host}
use firstgreen.Planning.Candidate.{CandidatePlan}
use firstgreen.Planning.Compile.{DecompositionConfig}

-- Every text stands for its hash, and lower case is taken for granted.
abbrev pub plain_host : Host
plain_host = record { lower = λ s. s; strip = λ s. s; digest = λ s. s; glob = λ p c. p == c }

abbrev pub shop : RepositoryMap
shop = record {
  modules = record { name = "src"; paths = "src/" ∷ [] } ∷ [];
  repo = "shop";
  commit_sha = "c0ffee";
  files =
      record { path = "src/api.py"; kind = source }
      ∷ record { path = "src/mail.py"; kind = source }
      ∷ record { path = "docs/api.md"; kind = docs }
      ∷ [];
  commands = ("test", ("pytest" ∷ []) ∷ []) ∷ [];
}

abbrev pub proposed : String → List String → List String → List String → ProposedTask
proposed id produces requires paths = record {
  id = id;
  objective = id;
  produces = produces;
  requires = requires;
  likely_paths = paths;
  verification_hints = [];
  risk_tags = [];
  read_only = false;
}

abbrev pub proposal_of : List ProposedTask → PlannerProposal
proposal_of tasks = record {
  decision = record { recommended_parallelism = 2; decision = decompose };
  tasks = tasks;
  external_artifacts = [];
}

-- Two tasks write to src/api.py; the third needs the result of the first.
abbrev pub api_proposal : PlannerProposal
api_proposal = proposal_of (
    proposed "expiry" ("expiry" ∷ []) [] ("src/api.py" ∷ [])
    ∷ proposed "limits" ("limits" ∷ []) [] ("src\\api.py" ∷ [])
    ∷ proposed "mail" ("mail" ∷ []) ("expiry" ∷ []) ("src/mail.py" ∷ [])
    ∷ [])

abbrev pub config : DecompositionConfig
config = record {
  max_tasks = 5;
  minimum_expected_task_seconds = 180;
  maximum_write_overlap = 350;
  allow_single_task_fallback = true;
}

abbrev pub planned : String → List String → List String → PlanTask
planned id dependencies resources = record {
  id = id;
  objective = id;
  produces = id ∷ [];
  requires = dependencies;
  likely_paths = [];
  verification_hints = [];
  risk_tags = [];
  read_only = false;
  dependencies = dependencies;
  verifier = ("pytest" ∷ []) ∷ [];
  resources = resources;
  estimated_duration = 1000;
  estimate_source = unit;
}

-- The three tasks as they are compiled.
abbrev pub expiry_task : PlanTask
expiry_task = record (planned "expiry" [] ("write:src/api.py" ∷ [])) {
  likely_paths = "src/api.py" ∷ [];
  verifier = ("python" ∷ "-c" ∷ "check" ∷ "src" ∷ []) ∷ ("git" ∷ "diff" ∷ "--check" ∷ []) ∷ [];
  estimated_duration = 189000;
  estimate_source = deterministic_heuristic_v1;
}

abbrev pub limits_task : PlanTask
limits_task = record (planned "limits" [] ("write:src/api.py" ∷ [])) {
  likely_paths = "src\\api.py" ∷ [];
  estimated_duration = 180000;
  estimate_source = deterministic_heuristic_v1;
}

abbrev pub mail_task : PlanTask
mail_task = record (planned "mail" ("expiry" ∷ []) []) {
  likely_paths = "src/mail.py" ∷ [];
  estimated_duration = 180000;
  estimate_source = deterministic_heuristic_v1;
}

abbrev pub api_plan : CandidatePlan
api_plan = record {
  repo = "shop";
  commit_sha = "c0ffee";
  decision = record { recommended_parallelism = 2; decision = decompose };
  tasks = expiry_task ∷ limits_task ∷ mail_task ∷ [];
  analysis = some (record {
    estimated_work = 549000;
    estimated_span = 369000;
    critical_path = "expiry" ∷ "mail" ∷ [];
    ready_width = 2;
    exposed_parallelism = 1488;
    recommended_root_slots = 2;
  });
  delivery_verifier = ("pytest" ∷ []) ∷ [];
  conflicts = record { task_a = "expiry"; task_b = "limits"; resource = "src/api.py" } ∷ [];
  external_artifacts = [];
  risk_level = low;
  validation = record { errors = []; warnings = []; repairs = [] };
  approved = false;
  user_edited = false;
}

-- `b` and `c` depend on `a`; `d` depends on no task.
abbrev pub fan : List PlanTask
fan =
    planned "a" [] []
    ∷ planned "b" ("a" ∷ []) []
    ∷ planned "c" ("a" ∷ []) []
    ∷ planned "d" [] ("x" ∷ [])
    ∷ []

-- Each of the tasks needs another one; `a` needs both.
abbrev pub tangled_proposal : PlannerProposal
tangled_proposal = proposal_of (
    proposed "a" ("a" ∷ []) ("b" ∷ "c" ∷ []) ("src/a.py" ∷ [])
    ∷ proposed "b" ("b" ∷ []) ("a" ∷ []) ("src/b.py" ∷ [])
    ∷ proposed "c" ("c" ∷ []) ("b" ∷ []) ("src/c.py" ∷ [])
    ∷ [])

-- The first and the last task write to one file, and the one between needs one and serves the other.
abbrev pub sandwich_proposal : PlannerProposal
sandwich_proposal = proposal_of (
    proposed "a" ("a" ∷ []) [] ("src/api.py" ∷ [])
    ∷ proposed "b" ("b" ∷ []) ("a" ∷ []) ("src/b.py" ∷ [])
    ∷ proposed "c" [] ("b" ∷ []) ("src/api.py" ∷ [])
    ∷ [])
