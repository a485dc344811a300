-- ===== src/Batch/Gate/Outcomes.antt =====
-- errander/agent/graph.py: the ways in which `approval_gate_node` comes out.
use mathlib.Core.Option
use mathlib.Core.Path.{subst}
use errander_ai.Common.{
  String, ◌≡◌, refl, Bool, true, false, not, ◌&&◌, Option, none, some, List, map, arith, if_holds,
}
use errander_ai.Approval.{ApprovalRequest, is_approved}
use errander_ai.Approval.Store.{ApprovalStore, mark_execution_started}
use errander_ai.Approval.Store.Run.{run}
use errander_ai.Approval.Wait.{Wait, returned, key_error, assertion_error, waiting}
use errander_ai.Batch.State.{
  Package, no_approval_store, claimed_elsewhere, BatchError, VmPlan, ApprovedItem, BatchState,
  effective_vm_plans,
}
use errander_ai.Batch.Gate.{
  build_operator_approved_packages, GateConfig, WindowView, Meanwhile, GateOutcome, finished,
  raised, still_waiting, GateRun, needs_approval, settle, fail_closed, act_on, after_wait, ask,
  approval_gate, carry_forward, unreturned,
}

-- What holds of the state that the node returns, if it returns one.
abbrev pub Finishes : (BatchState → Type 0) → GateOutcome → Type 0
Finishes P (finished s) = P s
Finishes P _ = Unit

pub Finishes-finished :
    (P : BatchState → Type 0) {o : GateOutcome} {s : BatchState}
    → o ≡ finished s
    → Finishes P o
    → P s
Finishes-finished P e holds = subst (λ o. Finishes P o) e holds

-- The node changes neither the batch nor its plan, and clears no error.
pub record Keeps (s t : BatchState) : Type 0 where
  pub same_batch : t.batch_id ≡ s.batch_id
  pub same_env : t.env_name ≡ s.env_name
  pub same_hash : t.plan_hash ≡ s.plan_hash
  pub same_mode : t.dry_run ≡ s.dry_run
  pub same_plans : effective_vm_plans t ≡ effective_vm_plans s
  pub had_no_error : t.error ≡ none → s.error ≡ none

decided-Keeps :
    (s : BatchState) (approve deferral : Bool) (op_pkgs : List (String × List Package))
    → Keeps s (record s {
      approved = some approve;
      deferred = deferral;
      operator_approved_packages = op_pkgs;
    })
decided-Keeps s approve deferral op_pkgs = record {
  same_batch = refl;
  same_env = refl;
  same_hash = refl;
  same_mode = refl;
  same_plans = refl;
  had_no_error = λ e. e;
}

settle-Keeps :
    (config : GateConfig) (window : Option WindowView) (s : BatchState)
    (store : Option ApprovalStore) (approve : Bool) (approver : Option String)
    (items : Option (List ApprovedItem))
    → Finishes (Keeps s) (settle config window s store approve approver items).outcome
unfolding settle
settle-Keeps config none s store approve approver items =
    decided-Keeps s approve false (build_operator_approved_packages items)
settle-Keeps config (some view) s store approve approver items =
    if_holds (λ (r : GateRun). Finishes (Keeps s) r.outcome)
      (approve && (not s.dry_run && not view.is_open))
      (λ _. decided-Keeps s true true s.operator_approved_packages)
      (λ _. decided-Keeps s approve false (build_operator_approved_packages items))

pub Finishes-map :
    (P Q : BatchState → Type 0)
    → ((t : BatchState) → P t → Q t)
    → (o : GateOutcome) → Finishes P o
    → Finishes Q o
Finishes-map P Q f (finished s) holds = f s holds
Finishes-map P Q f raised holds = tt
Finishes-map P Q f still_waiting holds = tt

pub settle-outcome :
    (config : GateConfig) (window : Option WindowView) (s : BatchState)
    (store : Option ApprovalStore) (approve : Bool) (approver : Option String)
    (items : Option (List ApprovedItem))
    → Finishes
        (λ t. t.approved ≡ some approve)
        (settle config window s store approve approver items).outcome
unfolding settle
settle-outcome config none s store approve approver items = refl
settle-outcome config (some view) s store true approver items =
    if_holds (λ (r : GateRun). Finishes (λ t. t.approved ≡ some true) r.outcome)
      (not s.dry_run && not view.is_open) (λ _. refl) (λ _. refl)
settle-outcome config (some view) s store false approver items = refl

settle-approval_store :
    (config : GateConfig) (window : Option WindowView) (s : BatchState)
    (store : Option ApprovalStore) (approve : Bool) (approver : Option String)
    (items : Option (List ApprovedItem))
    → (settle config window s store approve approver items).approval_store ≡ store
unfolding settle
settle-approval_store config none s store approve approver items = refl
settle-approval_store config (some view) s store approve approver items =
    if_holds (λ (r : GateRun). r.approval_store ≡ store)
      (approve && (not s.dry_run && not view.is_open)) (λ _. refl) (λ _. refl)

fail_closed-Keeps :
    (e : BatchError) (s : BatchState) (store : Option ApprovalStore)
    → Finishes (Keeps s) (fail_closed e s store).outcome
fail_closed-Keeps e s store = record {
  same_batch = refl;
  same_env = refl;
  same_hash = refl;
  same_mode = refl;
  same_plans = refl;
  had_no_error = λ h. (ground (arith, h));
}

-- The last write of the node to the store is a claim of the batch, and it has won.
pub record WonClaim (m : Meanwhile) (s : BatchState) (r : GateRun) : Type 0 where
  pub before : ApprovalStore
  pub last_write : r.approval_store ≡ some (mark_execution_started before m.claimed_at s.batch_id).0
  pub won : (mark_execution_started before m.claimed_at s.batch_id).1 ≡ true

module _ {Item : Type 0} (loads : String → Option (List Item)) (dumps : List Item → String)
    (plan_dict : VmPlan → Item) (read_item : Item → ApprovedItem) (report : BatchState → String)
    (config : GateConfig) (m : Meanwhile) where
  -- How a run of the node comes out.
  pub data GateCase (s : BatchState) (store : Option ApprovalStore) : GateRun → Type 0 where
    replay : s.is_deferred_replay ≡ true → GateCase s store (carry_forward s store)
    auto :
        not s.dry_run && needs_approval config s ≡ false
        → GateCase s store (settle config m.window s store true none none)
    unwired : GateCase s store (fail_closed no_approval_store s none)
    claimed :
        (before : ApprovalStore) (request : ApprovalRequest Item)
        → (mark_execution_started before m.claimed_at s.batch_id).1 ≡ true
        → GateCase s store (
            settle config m.window s
              (some (mark_execution_started before m.claimed_at s.batch_id).0)
              true
              request.decided_by
              (Option.map (map read_item) request.approved_items))
    lost : (st : ApprovalStore) → GateCase s store (fail_closed claimed_elsewhere s (some st))
    refused :
        (st : ApprovalStore) (request : ApprovalRequest Item)
        → GateCase s store (
            settle config m.window s
              (some st)
              false
              request.decided_by
              (Option.map (map read_item) request.approved_items))
    unreturned_by : (st : ApprovalStore) → GateCase s store (unreturned raised st)
    waits : (st : ApprovalStore) → GateCase s store (unreturned still_waiting st)

  act_on-GateCase :
      (s : BatchState) (store : Option ApprovalStore) (request : ApprovalRequest Item)
      (st : ApprovalStore)
      → GateCase s store (act_on loads dumps plan_dict read_item report config m s request st)
  unfolding act_on
  act_on-GateCase s store request st =
      let before = run st m.before_claim in
      let claim = mark_execution_started before m.claimed_at s.batch_id in
      if_holds (GateCase s store) (is_approved request.status)
        (λ _.
          if_holds (GateCase s store) claim.1 (λ won. claimed before request won)
            (λ _. lost claim.0))
        (λ _. refused st request)

  after_wait-GateCase :
      (s : BatchState) (store : Option ApprovalStore) (w : Wait Item × ApprovalStore)
      → GateCase s store (after_wait loads dumps plan_dict read_item report config m s w)
  unfolding after_wait
  after_wait-GateCase s store (returned request, st) = act_on-GateCase s store request st
  after_wait-GateCase s store (waiting, st) = waits st
  after_wait-GateCase s store (key_error, st) = unreturned_by st
  after_wait-GateCase s store (assertion_error, st) = unreturned_by st

  ask-GateCase :
      (s : BatchState) (store : Option ApprovalStore) (st : ApprovalStore)
      → GateCase s store (ask loads dumps plan_dict read_item report config m s st)
  unfolding ask
  ask-GateCase s store st = after_wait-GateCase s store _

  ask_or_fail-GateCase :
      (s : BatchState) (store : Option ApprovalStore)
      → GateCase s store (elim store [
        | none ↦ fail_closed no_approval_store s none
        | some st ↦ ask loads dumps plan_dict read_item report config m s st
      ])
  ask_or_fail-GateCase s none = unwired
  ask_or_fail-GateCase s (some st) = ask-GateCase s (some st) st

  pub approval_gate-GateCase :
      (s : BatchState) (store : Option ApprovalStore)
      → GateCase s store (approval_gate loads dumps plan_dict read_item report config m s store)
  unfolding approval_gate
  approval_gate-GateCase s store = if_holds (GateCase s store) s.is_deferred_replay replay (λ _.
      if_holds (GateCase s store) (not s.dry_run && needs_approval config s)
        (λ _. ask_or_fail-GateCase s store) auto)

  pub Keeps-GateCase :
      (s : BatchState) (store : Option ApprovalStore) (r : GateRun)
      → GateCase s store r
      → Finishes (Keeps s) r.outcome
  Keeps-GateCase s store _ (replay _) = decided-Keeps s true s.deferred s.operator_approved_packages
  Keeps-GateCase s store _ (auto _) = settle-Keeps config m.window s store true none none
  Keeps-GateCase s store _ unwired = fail_closed-Keeps no_approval_store s none
  Keeps-GateCase s store _ (claimed before request _) = settle-Keeps config m.window s _ true _ _
  Keeps-GateCase s store _ (lost st) = fail_closed-Keeps claimed_elsewhere s (some st)
  Keeps-GateCase s store _ (refused st request) = settle-Keeps config m.window s _ false _ _
  Keeps-GateCase s store _ (unreturned_by st) = tt
  Keeps-GateCase s store _ (waits st) = tt

  pub WonClaim-GateCase :
      (s : BatchState) (store : Option ApprovalStore) (r : GateRun)
      → s.is_deferred_replay ≡ false
      → not s.dry_run && needs_approval config s ≡ true
      → GateCase s store r
      → Finishes (λ t. t.approved ≡ some true → WonClaim m s r) r.outcome
  WonClaim-GateCase s store _ fresh asks (replay again) = λ _. absurd (ground (arith, fresh, again))
  WonClaim-GateCase s store _ fresh asks (auto goes) = absurd (ground (arith, asks, goes))
  WonClaim-GateCase s store _ fresh asks unwired = λ e. absurd (ground (arith, e))
  WonClaim-GateCase s store _ fresh asks (claimed before request won) =
      let settled =
        settle config m.window s (some (mark_execution_started before m.claimed_at s.batch_id).0)
          true request.decided_by (Option.map (map read_item) request.approved_items) in
      Finishes-map (λ t. t.approved ≡ some true)
        (λ t. t.approved ≡ some true → WonClaim m s settled)
        (λ t _ _. record {
          before = before;
          last_write = settle-approval_store config m.window s _ true _ _;
          won = won;
        })
        settled.outcome (settle-outcome config m.window s _ true _ _)
  WonClaim-GateCase s store _ fresh asks (lost st) = λ e. absurd (ground (arith, e))
  WonClaim-GateCase s store _ fresh asks (refused st request) =
      let settled =
        settle config m.window s (some st) false request.decided_by
          (Option.map (map read_item) request.approved_items) in
      Finishes-map (λ t. t.approved ≡ some false)
        (λ t. t.approved ≡ some true → WonClaim m s settled)
        (λ t no ok. absurd (ground (arith, no, ok))) settled.outcome
        (settle-outcome config m.window s _ false _ _)
  WonClaim-GateCase s store _ fresh asks (unreturned_by st) = tt
  WonClaim-GateCase s store _ fresh asks (waits st) = tt
