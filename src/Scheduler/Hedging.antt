-- ===== src/Scheduler/Hedging.antt =====
-- src/firstgreen/scheduler/hedging.py: the delayed-hedge policy. Seconds and costs are counted in
-- thousandths; a quantile is in thousandths too, so that `math.ceil` is exact.
pub mod Quantiles
use firstgreen.Prelude.{
  ℕ, ◌+◌, ◌-◌, ◌*◌, ◌/◌, String, Bool, true, false, not, ◌&&◌, ◌||◌, Option, none, some, List, [],
  ◌∷◌, ◌==◌, ltb, leb, if◌then◌else◌, is_empty, length, sort,
}
use firstgreen.Prelude.Result.{Result, ok, err, value_error, ◌>>=◌}

pub record RuntimeBucket : Type 0 where
  pub repo_fingerprint : String
  pub task_class : String
  pub adapter : String
  pub model : String
  pub verifier_profile : String

-- From the most to the least specific key.
unfoldable pub fallbacks : RuntimeBucket → List (List String)
fallbacks b =
    (b.repo_fingerprint ∷ b.task_class ∷ b.adapter ∷ b.model ∷ b.verifier_profile ∷ [])
    ∷ (b.repo_fingerprint ∷ b.task_class ∷ b.adapter ∷ b.model ∷ [])
    ∷ (b.repo_fingerprint ∷ b.adapter ∷ b.model ∷ [])
    ∷ (b.adapter ∷ b.model ∷ [])
    ∷ []

-- `ordered[i]`; the index is in range wherever the code reads.
abbrev nth : List ℕ → ℕ → ℕ → ℕ
nth [] i d = d
nth (x ∷ xs) i d = let rest = nth xs (i - 1) d in if leb i 0 then x else rest

-- `max(0, math.ceil(quantile * n) - 1)`
abbrev pub quantile_index : ℕ → ℕ → ℕ
quantile_index quantile n = (quantile * n + 999) / 1000 - 1

unfoldable pub empirical_quantile : List ℕ → ℕ → Result ℕ
unfolding sort
empirical_quantile samples quantile =
    if is_empty samples
    then err value_error
    else if not (ltb 0 quantile && leb quantile 1000)
    then err value_error
    else ok (nth (sort leb samples) (quantile_index quantile (length samples)) 0)

pub data Source : Type 0 where
  historical_level : ℕ → Source
  configured_fallback unavailable : Source

pub record Threshold : Type 0 where
  pub seconds : Option ℕ
  pub source : Source
  pub sample_count : ℕ

-- Equality of key tuples, and `dict.get(key, [])`.
abbrev pub key_eq : List String → List String → Bool
key_eq [] [] = true
key_eq [] (t ∷ ts) = false
key_eq (s ∷ ss) [] = false
key_eq (s ∷ ss) (t ∷ ts) = s == t && key_eq ss ts

abbrev pub Samples : Type 0
Samples = List (List String × List ℕ)

unfoldable pub samples_at : Samples → List String → List ℕ
samples_at [] key = []
samples_at ((k, v) ∷ rest) key = if key_eq k key then v else samples_at rest key

module _ (samples_by_bucket : Samples) (quantile min_samples : ℕ) (fallback : Option ℕ) where
  configured : Threshold
  configured = elim fallback [
    | some s ↦ record { seconds = some s; source = configured_fallback; sample_count = 0 }
    | none ↦ record { seconds = none; source = unavailable; sample_count = 0 }
  ]

  -- The `for` loop from the key with the given index on.
  choose_from : ℕ → List (List String) → Result Threshold
  unfolding configured
  choose_from index [] = ok configured
  choose_from index (key ∷ keys) =
      let samples = samples_at samples_by_bucket key in
      let rest = choose_from (index + 1) keys in
      if leb min_samples (length samples)
      then (do
        seconds ← empirical_quantile samples quantile
        ok (record {
          seconds = some seconds;
          source = historical_level index;
          sample_count = length samples;
        }))
      else rest

  unfoldable pub choose_threshold : RuntimeBucket → Result Threshold
  unfolding choose_from fallbacks
  choose_threshold bucket = choose_from 0 (fallbacks bucket)

pub record HedgeInputs : Type 0 where
  pub replay_safe : Bool
  pub enabled : Bool
  pub winner_absent : Bool
  pub primary_active : Bool
  pub replicas : ℕ
  pub max_replicas : ℕ
  pub budget_available : Bool
  pub slots_available : Bool
  pub resources_available : Bool
  pub controller_backoff : Bool
  pub elapsed_seconds : ℕ
  pub threshold : Threshold
  pub estimated_extra_cost : Option ℕ

pub record HedgeDecision : Type 0 where
  pub launch : Bool
  pub reason : String
  pub threshold_seconds : Option ℕ
  pub threshold_source : Source
  pub sample_count : ℕ
  pub estimated_extra_cost : Option ℕ

threshold_block : Option ℕ → ℕ → Option String
threshold_block none elapsed = some "threshold_unavailable"
threshold_block (some seconds) elapsed =
    if ltb elapsed seconds then some "threshold_not_reached" else none

unfoldable pub blocked_reason : HedgeInputs → Option String
unfolding threshold_block
blocked_reason i =
    if not i.replay_safe
    then some "task_not_replay_safe"
    else if not i.enabled
    then some "hedging_disabled"
    else if not i.winner_absent
    then some "winner_exists"
    else if not i.primary_active
    then some "primary_not_active"
    else if leb i.max_replicas i.replicas
    then some "max_replicas_reached"
    else if not i.budget_available
    then some "hedge_budget_exhausted"
    else if not i.slots_available
    then some "no_root_slot"
    else if not i.resources_available
    then some "resource_unavailable"
    else if i.controller_backoff
    then some "controller_backoff"
    else threshold_block i.threshold.seconds i.elapsed_seconds

unfoldable pub evaluate : HedgeInputs → HedgeDecision
unfolding blocked_reason
evaluate i = elim (blocked_reason i) [
  | none ↦ record {
    launch = true;
    reason = "threshold_reached";
    threshold_seconds = i.threshold.seconds;
    threshold_source = i.threshold.source;
    sample_count = i.threshold.sample_count;
    estimated_extra_cost = i.estimated_extra_cost;
  }
  | some why ↦ record {
    launch = false;
    reason = why;
    threshold_seconds = i.threshold.seconds;
    threshold_source = i.threshold.source;
    sample_count = i.threshold.sample_count;
    estimated_extra_cost = i.estimated_extra_cost;
  }
]
