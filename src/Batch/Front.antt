-- ===== src/Batch/Front.antt =====
-- errander/agent/graph.py: the nodes and routes before the approval: `validate_window_node`,
-- `check_fleet_health_node` and `load_deferred_artifact_node`, which a replay has in place of planning.
pub mod Replay
use errander_ai.Common.{
  ℕ, ◌+◌, ◌*◌, String, Bool, true, false, ◌||◌, Option, none, some, List, [], ◌∷◌, ltb, ◌==◌,
  str_eq, if◌then◌else◌, length,
}
use errander_ai.Batch.State.{
  VmPlan, BatchError, no_targets, fleet_abort, outside_window, missing_artifact, missing_timestamp,
  artifact_too_old, bad_timestamp, corrupt_artifact, artifact_mismatch, BatchState,
}

-- `validate_window_node`; the argument is what `check_window_from_config` says, if there is a window.
unfoldable pub validate_window : Option Bool → BatchState → BatchState
validate_window none s = s
validate_window (some is_open) s =
    if s.force then s else if is_open then s else record s { error = some outside_window }

-- `check_fleet_health_node`, with the threshold `num / den`.
unfoldable pub check_fleet_health : ℕ → ℕ → BatchState → BatchState
check_fleet_health num den s =
    let failed = length s.failed_targets in
    let total = length s.healthy_targets + failed in
    if total == 0
    then record s { error = some no_targets }
    else if ltb (num * total) (failed * den)
    then record s { error = some fleet_abort }
    else s

pub data NextNode : Type 0 where
  generate_report load_deferred_artifact_next plan_vms : NextNode

abbrev route_replay : String → NextNode
route_replay json = if str_eq json "" then plan_vms else load_deferred_artifact_next

-- `route_after_fleet_check`.
unfoldable pub route_after_fleet_check : BatchState → NextNode
route_after_fleet_check s = elim s.error [
  | some _ ↦ generate_report
  | none ↦ elim s.healthy_targets [
    | [] ↦ generate_report
    | _ ∷ _ ↦ route_replay s.preloaded_plan_json
  ]
]

-- The object under `json.loads`, with the keys that may be missing.
pub record Artifact : Type 0 where
  pub vm_plans : Option (List VmPlan)
  pub plan_id : Option String

-- The time of the approval: empty, no date, or as old as the seconds say.
pub data Timestamp : Type 0 where
  blank unparseable : Timestamp
  aged : ℕ → Timestamp

-- `artifact.get("vm_plans", [])`, and the same for the plan's id.
abbrev pub plans_in : Artifact → List VmPlan
plans_in a = elim a.vm_plans [ none ↦ [] | some plans ↦ plans ]

abbrev pub plan_id_in : Artifact → String
plan_id_in a = elim a.plan_id [ none ↦ "replayed" | some id ↦ id ]

-- `_DEFERRED_MAX_ARTIFACT_AGE_HOURS` in seconds.
abbrev pub max_artifact_age : ℕ
max_artifact_age = 168 * 3600

abbrev pub fail_with : BatchError → BatchState → BatchState
fail_with e s = record s { error = some e }

-- `json.dumps` and SHA-256 of the batch, the environment and the plans; what the clock and
-- `datetime.fromisoformat` make of a stripped text; and `json.loads`.
module _ (digest : String → String → List VmPlan → String) (age_of : String → Timestamp)
    (parse : String → Option Artifact) where
  abbrev pub load_parsed : Option Artifact → BatchState → BatchState
  load_parsed none s = fail_with corrupt_artifact s
  load_parsed (some a) s =
      if str_eq (digest s.batch_id s.env_name (plans_in a)) s.preloaded_plan_hash
      then record s {
        enriched_vm_plans = plans_in a;
        plan_id = plan_id_in a;
        plan_hash = s.preloaded_plan_hash;
        is_deferred_replay = true;
      }
      else fail_with artifact_mismatch s

  abbrev pub load_dated : Timestamp → BatchState → BatchState
  load_dated blank s = fail_with missing_timestamp s
  load_dated unparseable s = fail_with bad_timestamp s
  load_dated (aged seconds) s =
      if ltb max_artifact_age seconds
      then fail_with artifact_too_old s
      else load_parsed (parse s.preloaded_plan_json) s

  -- `load_deferred_artifact_node`.
  unfoldable pub load_deferred_artifact : BatchState → BatchState
  load_deferred_artifact s =
      if str_eq s.preloaded_plan_json "" || str_eq s.preloaded_plan_hash ""
      then fail_with missing_artifact s
      else load_dated (age_of s.preloaded_approved_at) s
