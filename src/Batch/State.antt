-- ===== src/Batch/State.antt =====
-- errander/agent/graph.py: the state of the batch graph, as far as the gate before execution reads it.
use errander_ai.Common.{
  ℕ, String, Bool, Option, none, some, List, [], ◌∷◌, ltb, str_eq, if◌then◌else◌,
}

-- A package of a preview or of a selection; an empty name stands for a missing one.
pub record Package : Type 0 where
  pub name : String
  pub target : String

-- A planned action. `packages` is the list under `packages` of its preview, where there is one.
pub record PlannedAction : Type 0 where
  pub action_type : String
  pub risk_tier : String
  pub packages : Option (List Package)

pub record VmPlan : Type 0 where
  pub vm_id : String
  pub planned_actions : List PlannedAction

-- An item of `approved_items`: what the operator ticked for an action of a VM.
pub record ApprovedItem : Type 0 where
  pub vm_id : String
  pub action_type : String
  pub packages : Option (List Package)

-- What the nodes write to `error`.
pub data BatchError : Type 0 where
  no_targets fleet_abort outside_window : BatchError
  missing_artifact missing_timestamp artifact_too_old bad_timestamp : BatchError
  corrupt_artifact artifact_mismatch : BatchError
  no_approval_store claimed_elsewhere plan_hash_missing plan_hash_drift : BatchError

-- `BatchGraphState`. `enriched_vm_plans` is empty where the source's key is missing.
pub record BatchState : Type 0 where
  pub batch_id : String
  pub env_name : String
  pub env_policy : String
  pub plan_id : String
  pub plan_hash : String
  pub dry_run : Bool
  pub force : Bool
  pub error : Option BatchError
  pub approved : Option Bool
  pub deferred : Bool
  pub healthy_targets : List String
  pub failed_targets : List String
  pub vm_plans : List VmPlan
  pub enriched_vm_plans : List VmPlan
  pub is_deferred_replay : Bool
  pub preloaded_plan_json : String
  pub preloaded_plan_hash : String
  pub preloaded_approved_at : String
  pub operator_approved_packages : List (String × List Package)

-- `enriched if enriched else vm_plans`.
abbrev pub or_else : List VmPlan → List VmPlan → List VmPlan
or_else [] plans = plans
or_else (p ∷ ps) plans = p ∷ ps

abbrev pub effective_vm_plans : BatchState → List VmPlan
effective_vm_plans s = or_else s.enriched_vm_plans s.vm_plans

pub data RiskTier : Type 0 where
  low medium high critical : RiskTier

abbrev pub tier_order : RiskTier → ℕ
tier_order low = 0
tier_order medium = 1
tier_order high = 2
tier_order critical = 3

-- `RiskTier(text)`; `none` is the ValueError.
abbrev pub parse_tier : String → Option RiskTier
parse_tier text =
    if str_eq text "low"
    then some low
    else if str_eq text "medium"
    then some medium
    else if str_eq text "high"
    then some high
    else if str_eq text "critical"
    then some critical
    else none

abbrev pub raise_tier : RiskTier → Option RiskTier → RiskTier
raise_tier max none = max
raise_tier max (some tier) = if ltb (tier_order max) (tier_order tier) then tier else max

abbrev pub max_tier_of_actions : RiskTier → List PlannedAction → RiskTier
max_tier_of_actions max [] = max
max_tier_of_actions max (a ∷ rest) =
    max_tier_of_actions (raise_tier max (parse_tier a.risk_tier)) rest

abbrev pub max_tier_of_plans : RiskTier → List VmPlan → RiskTier
max_tier_of_plans max [] = max
max_tier_of_plans max (p ∷ rest) =
    max_tier_of_plans (max_tier_of_actions max p.planned_actions) rest

-- `_max_risk_tier_from_plans`.
abbrev pub max_risk_tier_from_plans : List VmPlan → RiskTier
max_risk_tier_from_plans plans = max_tier_of_plans low plans
