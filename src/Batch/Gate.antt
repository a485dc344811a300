-- ===== src/Batch/Gate.antt =====
-- errander/agent/graph.py: `approval_gate_node`, over the store of errander/safety/approval_store.py.
pub mod Outcomes
pub mod Live
pub mod Window
pub mod Hash
pub mod Routes
use mathlib.Core.Option
use errander_ai.Common.{
  ℕ, String, Bool, true, false, not, ◌&&◌, Option, none, some, List, [], ◌∷◌, map, str_eq,
  if◌then◌else◌,
}
use errander_ai.Approval.{ApprovalRequest, is_approved}
use errander_ai.Approval.Store.{
  ApprovalStore, NewRequest, create, set_slack_ts, mark_execution_started,
}
use errander_ai.Approval.Store.Run.{Op, run}
use errander_ai.Approval.Wait.{
  Round, Wait, returned, key_error, assertion_error, waiting, wait_for_decision,
}
use errander_ai.Batch.State.{
  Package, VmPlan, ApprovedItem, BatchError, no_approval_store, claimed_elsewhere,
  plan_hash_missing, plan_hash_drift, BatchState, effective_vm_plans, RiskTier, low, medium, high,
  critical, max_risk_tier_from_plans,
}

-- The arguments of the node that are not a store.
pub record GateConfig : Type 0 where
  pub approval_timeout_seconds : ℕ
  pub require_live_approval : Bool
  pub autonomous_live_apply_enabled : Bool
  pub has_deferred_store : Bool

-- What `check_window_from_config` and `next_window_open` say of the configured window at the instant
-- at which the node asks.
pub record WindowView : Type 0 where
  pub is_open : Bool
  pub next_open : ℕ

-- What the node meets while it runs: the clock, Slack's reply, and the writes of the other tasks to
-- the store between its own statements. Those after the INSERT of `create` come before or after its SELECT.
pub record Meanwhile : Type 0 where
  pub created_at : ℕ
  pub slack_ts : Option String
  pub after_create : List Op
  pub before_wait : List Op
  pub wait_start : ℕ
  pub rounds : List Round
  pub before_claim : List Op
  pub claimed_at : ℕ
  pub window : Option WindowView

-- The record that `deferred_store.save` gets.
pub record Deferral : Type 0 where
  pub batch_id : String
  pub env_name : String
  pub approved_by : Option String
  pub window_start : ℕ
  pub plan_id : String
  pub vm_plans : List VmPlan
  pub plan_hash : String

pub data AuditEvent : Type 0 where
  approval_granted execution_deferred : String → AuditEvent

-- The node returns a state, raises, or still waits when the rounds given have passed.
pub data GateOutcome : Type 0 where
  finished : BatchState → GateOutcome
  raised still_waiting : GateOutcome

pub record GateRun : Type 0 where
  pub outcome : GateOutcome
  pub approval_store : Option ApprovalStore
  pub deferral : Option Deferral
  pub audit : List AuditEvent

abbrev pub live_approval : GateConfig → Bool → Bool
live_approval config dry_run =
    if not config.autonomous_live_apply_enabled && (not config.require_live_approval && not dry_run)
    then true
    else config.require_live_approval

-- `max_tier in _approval_tiers`.
abbrev pub in_tiers : Bool → String → RiskTier → Bool
in_tiers hitl policy critical = true
in_tiers hitl policy high = if hitl then true else not (str_eq policy "relaxed")
in_tiers hitl policy medium = if hitl then true else str_eq policy "strict"
in_tiers hitl policy low = hitl

abbrev pub needs_approval : GateConfig → BatchState → Bool
needs_approval config s =
    in_tiers (live_approval config s.dry_run && not s.dry_run) s.env_policy
      (max_risk_tier_from_plans (effective_vm_plans s))

-- `op_pkgs[vm_id] = packages`.
abbrev pub set_packages :
    String → List Package → List (String × List Package) → List (String × List Package)
set_packages id pkgs [] = (id, pkgs) ∷ []
set_packages id pkgs (entry ∷ rest) =
    let later = set_packages id pkgs rest in
    if str_eq entry.0 id then (id, pkgs) ∷ rest else entry ∷ later

abbrev pub add_item : List (String × List Package) → ApprovedItem → List (String × List Package)
add_item op_pkgs item = elim item.packages [
  | none ↦ op_pkgs
  | some pkgs ↦
      if str_eq item.action_type "patching" then set_packages item.vm_id pkgs op_pkgs else op_pkgs
]

abbrev pub add_items :
    List (String × List Package) → List ApprovedItem → List (String × List Package)
add_items op_pkgs [] = op_pkgs
add_items op_pkgs (item ∷ rest) = add_items (add_item op_pkgs item) rest

-- `build_operator_approved_packages`.
abbrev pub build_operator_approved_packages :
    Option (List ApprovedItem) → List (String × List Package)
build_operator_approved_packages none = []
build_operator_approved_packages (some items) = add_items [] items

abbrev pub deferral_of : BatchState → Option String → WindowView → Deferral
deferral_of s approver view = record {
  batch_id = s.batch_id;
  env_name = s.env_name;
  approved_by = approver;
  window_start = view.next_open;
  plan_id = s.plan_id;
  vm_plans = effective_vm_plans s;
  plan_hash = s.plan_hash;
}

-- The end of the node: outside the window a live batch is handed to the deferred store, if there is
-- one, and otherwise the state is returned with the packages that the operator chose.
unfoldable pub settle :
    GateConfig
    → Option WindowView
    → BatchState
    → Option ApprovalStore
    → Bool
    → Option String
    → Option (List ApprovedItem)
    → GateRun
settle config window s store approved approver items =
    let proceed : GateRun = record {
      outcome = finished (record s {
        approved = some approved;
        deferred = false;
        operator_approved_packages = build_operator_approved_packages items;
      });
      approval_store = store;
      deferral = none;
      audit = [];
    } in
    elim window [
      | none ↦ proceed
      | some view ↦
          if approved && (not s.dry_run && not view.is_open)
          then record {
            outcome = finished (record s { approved = some true; deferred = true });
            approval_store = store;
            deferral =
                if config.has_deferred_store then some (deferral_of s approver view) else none;
            audit = execution_deferred s.batch_id ∷ [];
          }
          else proceed
    ]

abbrev pub fail_closed : BatchError → BatchState → Option ApprovalStore → GateRun
fail_closed e s store = record {
  outcome = finished (record s { approved = some false; error = some e });
  approval_store = store;
  deferral = none;
  audit = [];
}

-- The node has raised, or waits.
abbrev pub unreturned : GateOutcome → ApprovalStore → GateRun
unreturned outcome store = record {
  outcome = outcome;
  approval_store = some store;
  deferral = none;
  audit = [];
}

-- The replay of a deferred batch has the approval of the original one.
abbrev pub carry_forward : BatchState → Option ApprovalStore → GateRun
carry_forward s store = record {
  outcome = finished (record s { approved = some true });
  approval_store = store;
  deferral = none;
  audit = approval_granted s.batch_id ∷ [];
}

-- The node, where `Item` is a JSON object, `plan_dict` a plan as one, and `read_item` what the source
-- reads of one that is an approved item; `report` is `_format_plan_for_approval`.
module _ {Item : Type 0} (loads : String → Option (List Item)) (dumps : List Item → String)
    (plan_dict : VmPlan → Item) (read_item : Item → ApprovedItem)
    (report : BatchState → String) where
  abbrev pub request_of : GateConfig → BatchState → NewRequest
  request_of config s = record {
    batch_id = s.batch_id;
    env_name = s.env_name;
    plan_id = s.plan_id;
    plan_hash = s.plan_hash;
    report = report s;
    vm_plans_json = none;
    timeout_seconds = config.approval_timeout_seconds;
    slack_message_ts = none;
  }

  -- The store when the node begins to wait: the row is there before Slack is told.
  unfoldable pub announce : GateConfig → Meanwhile → BatchState → ApprovalStore → ApprovalStore
  unfolding create set_slack_ts run
  announce config m s store =
      let plans = some (map plan_dict (effective_vm_plans s)) in
      let others =
        (create loads dumps (λ st. run st m.after_create) store m.created_at (request_of config s)
          plans).0 in
      let stamped : ApprovalStore = elim m.slack_ts [
        | none ↦ others
        | some ts ↦ set_slack_ts others s.batch_id ts
      ] in
      run stamped m.before_wait

  -- The decision has been read: an approval is claimed before anything is done with it.
  unfoldable pub act_on :
      GateConfig → Meanwhile → BatchState → ApprovalRequest Item → ApprovalStore → GateRun
  act_on config m s request store =
      let items = Option.map (map read_item) request.approved_items in
      let (claimed, won) =
        mark_execution_started (run store m.before_claim) m.claimed_at s.batch_id in
      if is_approved request.status
      then (if won
          then settle config m.window s (some claimed) true request.decided_by items
          else fail_closed claimed_elsewhere s (some claimed))
      else settle config m.window s (some store) false request.decided_by items

  unfoldable pub after_wait :
      GateConfig → Meanwhile → BatchState → Wait Item × ApprovalStore → GateRun
  after_wait config m s (returned request, store) = act_on config m s request store
  after_wait config m s (waiting, store) = unreturned still_waiting store
  after_wait config m s (_, store) = unreturned raised store

  unfoldable pub ask : GateConfig → Meanwhile → BatchState → ApprovalStore → GateRun
  ask config m s store = after_wait config m s (
      wait_for_decision loads s.batch_id m.wait_start config.approval_timeout_seconds m.rounds
        (announce config m s store))

  -- `approval_gate_node`.
  unfoldable pub approval_gate :
      GateConfig → Meanwhile → BatchState → Option ApprovalStore → GateRun
  approval_gate config m s store =
      if s.is_deferred_replay
      then carry_forward s store
      else if not s.dry_run && needs_approval config s
      then elim store [ none ↦ fail_closed no_approval_store s none | some st ↦ ask config m s st ]
      else settle config m.window s store true none none
