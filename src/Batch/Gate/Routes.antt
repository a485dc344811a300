-- ===== src/Batch/Gate/Routes.antt =====
-- errander/agent/graph.py: `verify_plan_hash_node` and the routes after the approval.
use errander_ai.Common.{String, false, none, some, List, str_eq, if◌then◌else◌}
use errander_ai.Batch.State.{
  VmPlan, plan_hash_missing, plan_hash_drift, BatchState, effective_vm_plans,
}
use errander_ai.Batch.Gate.{GateOutcome, finished}

-- Where the graph goes: to its end, to the report, to the waves, or nowhere yet.
pub data Route : Type 0 where
  ended stopped : Route
  to_report to_waves : BatchState → Route

-- `route_after_hash_verify`.
unfoldable pub route_after_hash_verify : BatchState → Route
route_after_hash_verify s = elim s.error [
  | some _ ↦ to_report s
  | none ↦ elim s.approved [ none ↦ to_waves s | some ok ↦ if ok then to_waves s else to_report s ]
]

-- `json.dumps` of the batch, the environment and the plans, hashed.
module _ (digest : String → String → List VmPlan → String) where
  -- `generate_plan_artifact_node`; the id of the plan is drawn at random.
  unfoldable pub generate_plan_artifact : String → BatchState → BatchState
  generate_plan_artifact plan_id s = record s {
    plan_id = plan_id;
    plan_hash = digest s.batch_id s.env_name (effective_vm_plans s);
  }

  -- `verify_plan_hash_node`.
  unfoldable pub verify_plan_hash : BatchState → BatchState
  verify_plan_hash s =
      if s.dry_run
      then s
      else if str_eq s.plan_hash ""
      then record s { error = some plan_hash_missing; approved = some false }
      else if str_eq (digest s.batch_id s.env_name (effective_vm_plans s)) s.plan_hash
      then s
      else record s { error = some plan_hash_drift; approved = some false }

  -- `route_after_approval`, with the nodes that it leads to.
  unfoldable pub route_after_approval : BatchState → Route
  unfolding verify_plan_hash route_after_hash_verify
  route_after_approval s = if s.deferred then ended else elim s.approved [
    | none ↦ to_report s
    | some ok ↦ if ok then route_after_hash_verify (verify_plan_hash s) else to_report s
  ]

  unfoldable pub after_gate : GateOutcome → Route
  unfolding route_after_approval
  after_gate (finished s) = route_after_approval s
  after_gate _ = stopped
