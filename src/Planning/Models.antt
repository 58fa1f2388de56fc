-- ===== src/Planning/Models.antt =====
-- src/firstgreen/planning/models.py: the records of a plan. Seconds are counted in thousandths; the
-- fields that no decision reads (symbols, owners, counters of tokens) are left out.
use firstgreen.Prelude.{ℕ, String, Bool, List}

-- `kind` of a RepositoryFile.
pub data FileKind : Type 0 where
  source test migration config docs other : FileKind

pub record RepositoryFile : Type 0 where
  pub path : String
  pub kind : FileKind

pub record RepositoryModule : Type 0 where
  pub name : String
  pub paths : List String

-- `commands` is a dictionary from a category to its commands.
pub record RepositoryMap : Type 0 where
  pub repo : String
  pub commit_sha : String
  pub modules : List RepositoryModule
  pub files : List RepositoryFile
  pub commands : List (String × List (List String))

pub record ProposedTask : Type 0 where
  pub id : String
  pub objective : String
  pub produces : List String
  pub requires : List String
  pub likely_paths : List String
  pub verification_hints : List String
  pub risk_tags : List String
  pub read_only : Bool

pub data EstimateSource : Type 0 where
  unit deterministic_heuristic_v1 merged : EstimateSource

-- A PlanTask has the fields of a ProposedTask and six more.
pub record PlanTask : Type 0 where
  pub id : String
  pub objective : String
  pub produces : List String
  pub requires : List String
  pub likely_paths : List String
  pub verification_hints : List String
  pub risk_tags : List String
  pub read_only : Bool
  pub dependencies : List String
  pub verifier : List (List String)
  pub resources : List String
  pub estimated_duration : ℕ
  pub estimate_source : EstimateSource

pub data Decision : Type 0 where
  single_task decompose : Decision

pub record DecompositionDecision : Type 0 where
  pub recommended_parallelism : ℕ
  pub decision : Decision

pub record PlannerProposal : Type 0 where
  pub decision : DecompositionDecision
  pub tasks : List ProposedTask
  pub external_artifacts : List String

-- The `constraint` of a conflict is always `exclusive_write` in the code that builds one.
pub record ConflictConstraint : Type 0 where
  pub task_a : String
  pub task_b : String
  pub resource : String

pub record ParallelismAnalysis : Type 0 where
  pub estimated_work : ℕ
  pub estimated_span : ℕ
  pub critical_path : List String
  pub ready_width : ℕ
  pub exposed_parallelism : ℕ
  pub recommended_root_slots : ℕ

pub data RiskLevel : Type 0 where
  low medium high : RiskLevel
