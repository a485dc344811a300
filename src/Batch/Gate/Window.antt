-- ===== src/Batch/Gate/Window.antt =====
-- errander/agent/graph.py: an approved batch outside its maintenance window, and a dry run.
use mathlib.Core.Option
use errander_ai.Common.{
  String, ◌≡◌, refl, true, false, not, ◌&&◌, Option, none, some, List, [], map, arith, if_holds,
  if◌then◌else◌,
}
use errander_ai.Approval.Store.{ApprovalStore, mark_execution_started}
use errander_ai.Batch.State.{VmPlan, ApprovedItem, BatchState, effective_vm_plans}
use errander_ai.Batch.Gate.{
  GateConfig, WindowView, Meanwhile, Deferral, finished, GateRun, settle, approval_gate,
  deferral_of,
}
use errander_ai.Batch.Gate.Routes.{
  ended, to_waves, route_after_approval, verify_plan_hash, route_after_hash_verify, after_gate,
}
use errander_ai.Batch.Gate.Outcomes.{
  Finishes, Finishes-finished, GateCase, replay, auto, unwired, claimed, lost, refused,
  unreturned_by, waits, approval_gate-GateCase, settle-outcome, Finishes-map,
}

-- The batch is put off: the graph will end, and what the deferred store gets is the approved plan with
-- its hash, for the next opening of the window.
pub record Defers (config : GateConfig) (view : WindowView) (s : BatchState) (r : GateRun)
    (t : BatchState) : Type 0 where
  pub is_deferred : t.deferred ≡ true
  pub saved : Deferral
  pub same_batch : saved.batch_id ≡ s.batch_id
  pub same_plans : saved.vm_plans ≡ effective_vm_plans s
  pub same_hash : saved.plan_hash ≡ s.plan_hash
  pub at_opening : saved.window_start ≡ view.next_open
  pub handed_over : r.deferral ≡ (if config.has_deferred_store then some saved else none)

settle-Defers :
    (config : GateConfig) (view : WindowView) (s : BatchState) (store : Option ApprovalStore)
    (approver : Option String) (items : Option (List ApprovedItem))
    → not s.dry_run && not view.is_open ≡ true
    → Finishes
        (Defers config view s (settle config (some view) s store true approver items))
        (settle config (some view) s store true approver items).outcome
unfolding settle
settle-Defers config view s store approver items closed =
    if_holds (λ (r : GateRun). Finishes (Defers config view s r) r.outcome)
      (not s.dry_run && not view.is_open)
      (λ _. record {
        is_deferred = refl;
        saved = deferral_of s approver view;
        same_batch = refl;
        same_plans = refl;
        same_hash = refl;
        at_opening = refl;
        handed_over = refl;
      })
      (λ opened. absurd (ground (arith, closed, opened)))

module _ {Item : Type 0} (digest : String → String → List VmPlan → String)
    (loads : String → Option (List Item)) (dumps : List Item → String) (plan_dict : VmPlan → Item)
    (read_item : Item → ApprovedItem) (report : BatchState → String) (config : GateConfig)
    (m : Meanwhile) where
  Defers-GateCase :
      (s : BatchState) (store : Option ApprovalStore) (view : WindowView) (r : GateRun)
      → m.window ≡ some view
      → not s.dry_run && not view.is_open ≡ true
      → s.is_deferred_replay ≡ false
      → GateCase loads dumps plan_dict read_item report config m s store r
      → Finishes (λ t. t.approved ≡ some true → Defers config view s r t) r.outcome
  Defers-GateCase s store view _ here closed fresh (replay again) =
      λ _. absurd (ground (arith, fresh, again))
  Defers-GateCase s store view _ here closed fresh (auto goes) =
      let settled = settle config (some view) s store true none none in
      rw here (
        Finishes-map (Defers config view s settled)
          (λ t. t.approved ≡ some true → Defers config view s settled t) (λ t d _. d)
          settled.outcome (settle-Defers config view s store none none closed))
  Defers-GateCase s store view _ here closed fresh unwired = λ e. absurd (ground (arith, e))
  Defers-GateCase s store view _ here closed fresh (claimed before request won) =
      let items = Option.map (map read_item) request.approved_items in
      let settled =
        settle config (some view) s (some (mark_execution_started before m.claimed_at s.batch_id).0)
          true request.decided_by items in
      rw here (
        Finishes-map (Defers config view s settled)
          (λ t. t.approved ≡ some true → Defers config view s settled t) (λ t d _. d)
          settled.outcome (settle-Defers config view s _ request.decided_by items closed))
  Defers-GateCase s store view _ here closed fresh (lost st) = λ e. absurd (ground (arith, e))
  Defers-GateCase s store view _ here closed fresh (refused st request) =
      let settled =
        settle config m.window s (some st) false request.decided_by
          (Option.map (map read_item) request.approved_items) in
      Finishes-map (λ t. t.approved ≡ some false)
        (λ t. t.approved ≡ some true → Defers config view s settled t)
        (λ t no ok. absurd (ground (arith, no, ok))) settled.outcome
        (settle-outcome config m.window s (some st) false _ _)
  Defers-GateCase s store view _ here closed fresh (unreturned_by st) = tt
  Defers-GateCase s store view _ here closed fresh (waits st) = tt

  route-Defers : (t : BatchState) → t.deferred ≡ true → route_after_approval digest t ≡ ended
  unfolding route_after_approval
  route-Defers t put_off = rw put_off refl

  -- A live batch that is not a replay and is approved while the window is closed does not execute: the
  -- graph ends, and the deferred store, if there is one, gets the batch with the approved plan, its
  -- hash and the next opening of the window.
  pub outside_window-Defers :
      (s t : BatchState) (store : Option ApprovalStore) (view : WindowView)
      → m.window ≡ some view
      → view.is_open ≡ false
      → s.dry_run ≡ false
      → s.is_deferred_replay ≡ false
      → (approval_gate loads dumps plan_dict read_item report config m s store).outcome ≡ finished t
      → t.approved ≡ some true
      → Defers config view s
          (approval_gate loads dumps plan_dict read_item report config m s store)
          t
        × (after_gate digest (finished t) ≡ ended)
  unfolding after_gate
  outside_window-Defers s t store view here shut live fresh returns ok =
      let r = approval_gate loads dumps plan_dict read_item report config m s store in
      let d =
        Finishes-finished (λ u. u.approved ≡ some true → Defers config view s r u) returns
          (Defers-GateCase s store view r here (ground (arith, shut, live)) fresh
            (approval_gate-GateCase loads dumps plan_dict read_item report config m s store))
          ok in
      (d, route-Defers t d.is_deferred)

  -- A dry run that is not a replay and has no error goes on to the waves with its plan, and
  -- leaves the approval store as it is.
  pub dry_run_proceeds :
      (s : BatchState) (store : Option ApprovalStore)
      → s.dry_run ≡ true
      → s.is_deferred_replay ≡ false
      → s.error ≡ none
      → let r = approval_gate loads dumps plan_dict read_item report config m s store in
        (r.approval_store ≡ store)
        × (r.deferral ≡ none)
        × (after_gate digest r.outcome
            ≡ to_waves (record s {
              approved = some true;
              deferred = false;
              operator_approved_packages = [];
            }))
  unfolding approval_gate settle after_gate route_after_approval verify_plan_hash
      route_after_hash_verify
  dry_run_proceeds s store dry fresh clean =
      (ground (arith, dry, fresh), ground (arith, dry, fresh), ground (arith, dry, fresh, clean))
