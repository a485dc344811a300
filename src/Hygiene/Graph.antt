-- ===== src/Hygiene/Graph.antt =====
-- errander/agent/subgraphs/docker_hygiene.py: the sub-graph, which assesses a VM and executes an approval
-- if it gets one.
use errander_ai.Common.{
  String, Bool, true, false, not, Option, none, some, List, [], ◌∷◌, ◌++◌, map, str_eq,
  if◌then◌else◌, ℤ,
}
use errander_ai.Vm.{ActionStatus, status_pending, skipped, dry_run_ok, failed}
use errander_ai.Hygiene.{Finding, Assessment, is_nil, nothing_to_surface, compute_assessment_hash}
use errander_ai.Hygiene.Rules.{Config}
use errander_ai.Hygiene.Assess.{parse_assess_v2_output}
use errander_ai.Hygiene.Removal.{
  removed, RemovalResult, HygieneApproval, build_allowlist, parse_remove_v2_output,
  aggregate_status,
}

-- What the sub-graph sends: the assess wrapper, and the remove wrapper with its input.
pub data WrapperCall : Type 0 where
  assess_v2 : WrapperCall
  remove_v2 : String → WrapperCall

pub record WrapperReply : Type 0 where
  pub is_success : Bool
  pub stdout : String

-- What the VM answers, by the commands that it has got before; `none` is an exception.
abbrev pub Wrappers : Type 0
Wrappers = List WrapperCall → WrapperCall → Option WrapperReply

-- `DockerHygieneGraphState`, without the texts of errors.
pub record HygieneState : Type 0 where
  pub vm_id : String
  pub dry_run : Bool
  pub docker_available : Bool
  pub docker_command_mode : String
  pub config : Config
  pub approval : Option HygieneApproval
  pub status : ActionStatus
  pub assessment : Option Assessment
  pub nothing_to_do : Bool
  pub removal_results : List RemovalResult

abbrev pub with_status : ActionStatus → HygieneState → HygieneState
with_status status s = record s { status = status; removal_results = [] }

-- The commands sent, and the state; `none` if an exception was raised.
abbrev pub Outcome : Type 0
Outcome = List WrapperCall × Option HygieneState

unfoldable pub validate_hygiene : HygieneState → ActionStatus
validate_hygiene s =
    if str_eq s.docker_command_mode "disabled"
    then skipped
    else if not (str_eq s.docker_command_mode "wrapper")
    then skipped
    else if not s.docker_available
    then skipped
    else status_pending

abbrev pub removal_outcome :
    HygieneApproval → Option WrapperReply → HygieneState → Option HygieneState
removal_outcome approval none s = none
removal_outcome approval (some reply) s =
    let results = parse_remove_v2_output reply.stdout approval.approved_findings in
    some (
      if reply.is_success
      then record s { status = aggregate_status results; removal_results = results }
      else with_status failed s)

abbrev pub as_removed : Finding → RemovalResult
as_removed f = record { finding = f; status = removed; drift_reason = none; error = none }

abbrev pub send_removal : Wrappers → HygieneApproval → List WrapperCall → HygieneState → Outcome
send_removal vm approval sent s =
    let c = remove_v2 (build_allowlist approval.approved_findings) in
    (sent ++ c ∷ [], removal_outcome approval (vm sent c) s)

-- What `assess_node` does with an assessment.
unfoldable pub assessed : Assessment → HygieneState → HygieneState
assessed a s =
    if not a.reachable
    then record s { status = skipped; assessment = some a; nothing_to_do = true }
    else if nothing_to_surface a
    then record s { status = skipped; assessment = some a; nothing_to_do = true }
    else record s { assessment = some a; nothing_to_do = false }

abbrev pub is_skipped : ActionStatus → Bool
is_skipped skipped = true
is_skipped _ = false

-- `digest` is as in `compute_assessment_hash`.
module _ (digest : List (String × String × String) → String) where
  -- The gate that compares the assessment of the moment with the approved one.
  abbrev pub has_drifted : HygieneApproval → Option Assessment → Bool
  has_drifted approval none = false
  has_drifted approval (some a) =
      not (str_eq (compute_assessment_hash digest a) approval.snapshot_hash)

  -- `execute_node`.
  unfoldable pub execute_approval :
      Wrappers → Option HygieneApproval → List WrapperCall → HygieneState → Outcome
  unfolding build_allowlist parse_remove_v2_output aggregate_status compute_assessment_hash
  execute_approval vm none sent s = (sent, some (with_status skipped s))
  execute_approval vm (some approval) sent s =
      if is_nil approval.approved_findings
      then (sent, some (with_status skipped s))
      else if has_drifted approval s.assessment
      then (sent, some (with_status skipped s))
      else if s.dry_run
      then (
        sent,
        some (record s {
          status = dry_run_ok;
          removal_results = map as_removed approval.approved_findings;
        }),
      )
      else send_removal vm approval sent s

  module _ (int : String → Option ℤ) (lower : String → String) where
    abbrev pub assess_reply : WrapperReply → HygieneState → HygieneState
    assess_reply reply s =
        let a = parse_assess_v2_output int lower s.config s.vm_id reply.stdout in
        if reply.is_success
        then assessed a s
        else record s { status = failed; nothing_to_do = true }

    abbrev pub after_assess : Wrappers → List WrapperCall → HygieneState → Outcome
    after_assess vm sent s = if s.nothing_to_do then (sent, some s) else elim s.approval [
      | some a ↦ execute_approval vm s.approval sent s
      | none ↦ (sent, some s)
    ]

    abbrev pub on_assess :
        Wrappers → List WrapperCall → Option WrapperReply → HygieneState → Outcome
    on_assess vm sent none s = (sent, none)
    on_assess vm sent (some reply) s = after_assess vm sent (assess_reply reply s)

    -- `build_docker_hygiene_subgraph`.
    unfoldable pub docker_hygiene : Wrappers → List WrapperCall → HygieneState → Outcome
    unfolding validate_hygiene assessed execute_approval parse_assess_v2_output nothing_to_surface
    docker_hygiene vm sent s =
        let after = record s { status = validate_hygiene s } in
        if is_skipped (validate_hygiene s)
        then (sent, some after)
        else on_assess vm (sent ++ assess_v2 ∷ []) (vm sent assess_v2) after
