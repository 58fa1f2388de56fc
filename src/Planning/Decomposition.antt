-- ===== src/Planning/Decomposition.antt =====
-- src/firstgreen/planning/decomposition.py: whether a request is decomposed before any planner is asked.
-- The regular expressions that cut a text into tokens and a path into pieces are arguments.
use firstgreen.Prelude.{
  ℕ, zero, suc, ◌-◌, min, max, String, Bool, ◌&&◌, ◌||◌, List, [], ◌∷◌, map, if◌then◌else◌, ltb,
  leb, nat_eq, any, keep, length, mem, dedup, sort, text_leb,
}
use text.Mathlib.Text.{starts_with}
use firstgreen.Planning.Models.{
  RepositoryFile, RepositoryModule, RepositoryMap, single_task, decompose, DecompositionDecision,
}
use firstgreen.Planning.Texts.{Host, contains}

-- `re.findall` of `_tokens` on a text in lower case, and `re.split` of a path.
pub record Words : Type 0 where
  pub tokens : String → List String
  pub pieces : String → List String

abbrev pub concepts : List (List String)
concepts =
    ("schema" ∷ "model" ∷ "migration" ∷ "database" ∷ "table" ∷ "数据库" ∷ "数据表" ∷ "模型" ∷ "迁移" ∷ "字段"
      ∷ [])
    ∷ ("service" ∷ "logic" ∷ "behavior" ∷ "expiry" ∷ "expiration" ∷ "服务" ∷ "逻辑" ∷ "行为" ∷ "过期"
        ∷ "业务层" ∷ [])
    ∷ ("api" ∷ "endpoint" ∷ "route" ∷ "controller" ∷ "接口" ∷ "端点" ∷ "路由" ∷ "控制器" ∷ [])
    ∷ ("email" ∷ "mail" ∷ "template" ∷ "notification" ∷ "邮件" ∷ "模板" ∷ "通知" ∷ "消息" ∷ [])
    ∷ ("test" ∷ "tests" ∷ "integration" ∷ "regression" ∷ "测试" ∷ "集成测试" ∷ "回归测试" ∷ "单元测试" ∷ [])
    ∷ ("docs" ∷ "documentation" ∷ "readme" ∷ "文档" ∷ "说明" ∷ "使用指南" ∷ [])
    ∷ []

abbrev pub local_markers : List String
local_markers =
    "one file" ∷ "single function" ∷ "typo" ∷ "rename" ∷ "race condition" ∷ "单个文件" ∷ "一个文件" ∷ "单个函数"
    ∷ "错别字" ∷ "重命名" ∷ []

abbrev Scored : Type 0
Scored = ℕ × String

-- `(-score, path)`
abbrev best_first : Scored → Scored → Bool
best_first a b = ltb (b.0) (a.0) || (nat_eq (a.0) (b.0) && text_leb (a.1) (b.1))

-- `[:limit]`
abbrev pub first_paths : ℕ → List Scored → List String
first_paths zero rows = []
first_paths (suc n) [] = []
first_paths (suc n) (r ∷ rows) = r.1 ∷ first_paths n rows

module _ (host : Host) (words : Words) (issue : String) (m : RepositoryMap) where
  -- `len(tokens & pieces)`
  abbrev score : String → ℕ
  score path =
      length (
        keep (λ t. mem t (words.pieces (host.lower path)))
          (dedup (words.tokens (host.lower issue))))

  unfoldable pub relevant_paths : ℕ → List String
  relevant_paths limit = first_paths limit (
      sort best_first
        (keep (λ r. ltb 0 (r.0)) (map (λ (f : RepositoryFile). (score f.path, f.path)) m.files)))

  abbrev is_matched : List String → RepositoryModule → Bool
  is_matched paths module_ =
      contains (host.lower issue) (host.lower module_.name)
      || any (λ p. any (starts_with p) module_.paths) paths

  -- `decide_decomposition`, with the relevant paths of the decision.
  unfoldable pub decide_decomposition : DecompositionDecision × List String
  unfolding relevant_paths contains
  decide_decomposition =
      let paths = relevant_paths 20 in
      let named = length (keep (λ markers. any (contains (host.lower issue)) markers) concepts) in
      let matched =
        length
          (dedup (map (λ (x : RepositoryModule). x.name) (keep (is_matched paths) m.modules))) in
      let local = any (contains (host.lower issue)) local_markers in
      if local || (leb named 1 && leb matched 1)
      then (record { recommended_parallelism = 1; decision = single_task }, paths)
      else (
        record {
          recommended_parallelism = min (min 3 (max 2 (named - 1))) 5;
          decision = decompose;
        },
        paths,
      )
