-- ===== src/Restart/Graph.antt =====
-- errander/agent/subgraphs/service_restart.py: the sub-graph, with the state of
-- errander/models/service_restart.py.
use errander_ai.Common.{
  String, Bool, not, ◌&&◌, ◌||◌, Option, none, some, List, [], ◌∷◌, ◌++◌, str_eq, if◌then◌else◌,
  any, strip, contains_text,
}
use errander_ai.Vm.{ActionStatus, status_pending, dry_run_ok, success, failed}
use errander_ai.Restart.{RestartContext, is_safe_unit, parse_restart_output}

-- The three uses of the wrapper.
pub data RestartCall : Type 0 where
  check_wrapper : RestartCall
  snapshot_only restart : String → RestartCall

pub record RestartReply : Type 0 where
  pub is_success : Bool
  pub stdout : String

-- What the target answers, by the calls that it has got before; `none` is an exception.
abbrev pub RestartTarget : Type 0
RestartTarget = List RestartCall → RestartCall → Option RestartReply

-- The audit events of the sub-graph.
pub data RestartEvent : Type 0 where
  unit_not_allowed verify_ok verify_failed : RestartEvent

-- `ServiceRestartState`, with the audit events.
pub record RestartState : Type 0 where
  pub dry_run : Bool
  pub unit_name : String
  pub restartable_units : List String
  pub status : ActionStatus
  pub context : RestartContext
  pub events : List RestartEvent

abbrev pub RestartRun : Type 0
RestartRun = List RestartCall × Option RestartState

abbrev pub fails : RestartState → RestartState
fails s = record s { status = failed }

abbrev pub log : RestartEvent → RestartState → RestartState
log e s = record s { events = s.events ++ e ∷ [] }

-- `verify_node`: the text after the restart says active, and not inactive.
abbrev pub is_up : String → Bool
is_up text = contains_text "active" (strip text) && not (contains_text "inactive" (strip text))

unfoldable pub verify_restart : RestartState → RestartState
verify_restart s =
    if is_up s.context.post_active then log verify_ok s else fails (log verify_failed s)

module _ (target : RestartTarget) where
  abbrev pub on_restart : List RestartCall → RestartState → Option RestartReply → RestartRun
  on_restart sent s none = (sent, none)
  on_restart sent s (some reply) =
      if reply.is_success
      then (
        sent,
        some (
            verify_restart
              (record s { status = success; context = parse_restart_output reply.stdout })),
      )
      else (sent, some (fails s))

  -- `execute_node`, and `verify_node` after a restart that succeeded.
  unfoldable pub execute_restart : List RestartCall → RestartState → RestartRun
  unfolding verify_restart parse_restart_output
  execute_restart sent s =
      let c = restart s.unit_name in
      if not (is_safe_unit s.unit_name)
      then (sent, some (fails s))
      else if s.dry_run
      then (sent, some (record s { status = dry_run_ok }))
      else on_restart (sent ++ c ∷ []) s (target sent c)

  abbrev pub before_restart : RestartContext → RestartReply → RestartContext
  before_restart old reply =
      let now = parse_restart_output reply.stdout in
      record old {
        pre_status = if reply.is_success then now.pre_status else "";
        pre_journal = if reply.is_success then now.pre_journal else "";
      }

  abbrev pub on_snapshot : List RestartCall → RestartState → Option RestartReply → RestartRun
  on_snapshot sent s none = (sent, none)
  on_snapshot sent s (some reply) =
      execute_restart sent (record s { context = before_restart s.context reply })

  -- `snapshot_node`, which always goes on to the execution.
  unfoldable pub snapshot_restart : List RestartCall → RestartState → RestartRun
  unfolding execute_restart parse_restart_output
  snapshot_restart sent s =
      let c = snapshot_only s.unit_name in
      if not (is_safe_unit s.unit_name)
      then execute_restart sent
          (record s { context = record s.context { pre_status = ""; pre_journal = "" } })
      else on_snapshot (sent ++ c ∷ []) s (target sent c)

  abbrev pub on_check : RestartState → Option RestartReply → RestartRun
  on_check s none = (check_wrapper ∷ [], none)
  on_check s (some reply) =
      if not reply.is_success || not (contains_text "ok" reply.stdout)
      then (check_wrapper ∷ [], some (fails s))
      else snapshot_restart (check_wrapper ∷ []) (record s { status = status_pending })

  -- `build_service_restart_subgraph`, from `validate_node` on.
  unfoldable pub service_restart : RestartState → RestartRun
  unfolding snapshot_restart contains_text strip is_safe_unit
  service_restart s =
      if not (any (λ u. str_eq u s.unit_name) s.restartable_units)
      then ([], some (fails (log unit_not_allowed s)))
      else on_check s (target [] check_wrapper)
