-- ===== src/Batch/Gate/Live.antt =====
-- errander/agent/graph.py: what has happened when the gate lets a batch go on to the waves.
use mathlib.Core.Path.{ap₂}
use errander_ai.Common.{
  String, ◌≡◌, refl, ap, ◌∙◌, true, false, not, ◌&&◌, Option, none, some, List, arith, eq_iff,
}
use errander_ai.Approval.Store.{ApprovalStore}
use errander_ai.Batch.State.{
  VmPlan, ApprovedItem, BatchState, effective_vm_plans, max_risk_tier_from_plans, RiskTier, low,
  medium, high, critical,
}
use errander_ai.Batch.Gate.{
  GateConfig, Meanwhile, GateOutcome, finished, raised, still_waiting, GateRun, live_approval,
  in_tiers, needs_approval, approval_gate,
}
use errander_ai.Batch.Gate.Routes.{
  to_waves, verify_plan_hash, route_after_hash_verify, route_after_approval, after_gate,
}
use errander_ai.Batch.Gate.Outcomes.{
  Finishes-finished, Keeps, approval_gate-GateCase, Keeps-GateCase, WonClaim, WonClaim-GateCase,
}

in_tiers_all : (policy : String) (tier : RiskTier) → in_tiers true policy tier ≡ true
in_tiers_all policy low = refl
in_tiers_all policy medium = refl
in_tiers_all policy high = refl
in_tiers_all policy critical = refl

-- A live batch needs an approval whatever its policy and its risk, unless the agent is autonomous and
-- live approvals are switched off.
pub needs_approval_live :
    (config : GateConfig) (s : BatchState)
    → s.dry_run ≡ false
    → config.autonomous_live_apply_enabled && not config.require_live_approval ≡ false
    → needs_approval config s ≡ true
needs_approval_live config s live guarded =
    let hitl : live_approval config s.dry_run && not s.dry_run ≡ true =
      ground (arith, live, guarded) in
    ap (λ b. in_tiers b s.env_policy (max_risk_tier_from_plans (effective_vm_plans s))) hitl
    ∙ in_tiers_all s.env_policy (max_risk_tier_from_plans (effective_vm_plans s))

module _ (digest : String → String → List VmPlan → String) where
  abbrev pub hash_of : BatchState → String
  hash_of s = digest s.batch_id s.env_name (effective_vm_plans s)

  -- A state that the routes send on.
  pub record Cleared (s t : BatchState) : Type 0 where
    pub goes_on : t ≡ s
    pub not_deferred : s.deferred ≡ false
    pub is_approved : s.approved ≡ some true
    pub no_error : s.error ≡ none
    pub hash_agrees : s.dry_run ≡ false → hash_of s ≡ s.plan_hash

  pub route_after_approval-Cleared :
      (s t : BatchState) → route_after_approval digest s ≡ to_waves t → Cleared s t
  unfolding route_after_approval verify_plan_hash route_after_hash_verify
  route_after_approval-Cleared s t h = record {
    goes_on = ground arith;
    not_deferred = ground arith;
    is_approved = ground arith;
    no_error = ground arith;
    hash_agrees = λ live. (ground (arith, eq_iff (hash_of s) s.plan_hash));
  }

  after_gate-Cleared :
      (o : GateOutcome) (t : BatchState)
      → after_gate digest o ≡ to_waves t
      → (s : BatchState) × (o ≡ finished s) × Cleared s t
  unfolding after_gate
  after_gate-Cleared (finished s) t h = (s, refl, route_after_approval-Cleared s t h)
  after_gate-Cleared raised t h = ground arith
  after_gate-Cleared still_waiting t h = ground arith

module _ {Item : Type 0} (digest : String → String → List VmPlan → String)
    (loads : String → Option (List Item)) (dumps : List Item → String) (plan_dict : VmPlan → Item)
    (read_item : Item → ApprovedItem) (report : BatchState → String) (config : GateConfig)
    (m : Meanwhile) where
  abbrev pub gate : BatchState → Option ApprovalStore → GateRun
  gate s store = approval_gate loads dumps plan_dict read_item report config m s store

  gate-Keeps :
      (s u : BatchState) (store : Option ApprovalStore)
      → (gate s store).outcome ≡ finished u
      → Keeps s u
  gate-Keeps s u store returns = Finishes-finished (Keeps s) returns (
      Keeps-GateCase loads dumps plan_dict read_item report config m s store (gate s store)
        (approval_gate-GateCase loads dumps plan_dict read_item report config m s store))

  -- The waves get the state that the gate returned, and no node has written an error.
  pub to_waves-no_error :
      (s t : BatchState) (store : Option ApprovalStore)
      → after_gate digest (gate s store).outcome ≡ to_waves t
      → (s.error ≡ none) × (effective_vm_plans t ≡ effective_vm_plans s)
  to_waves-no_error s t store h =
      let (u, returns, c) = after_gate-Cleared digest (gate s store).outcome t h in
      let k = gate-Keeps s u store returns in (k.had_no_error c.no_error, rw c.goes_on k.same_plans)

  -- A live batch that is not a replay goes on to the waves only if the last write of the gate to the
  -- approval store was a claim of the batch that has won, unless the agent is autonomous and live
  -- approvals are switched off. Without an approval store it does not go on.
  pub live_execution-WonClaim :
      (s t : BatchState) (store : Option ApprovalStore)
      → s.dry_run ≡ false
      → s.is_deferred_replay ≡ false
      → config.autonomous_live_apply_enabled && not config.require_live_approval ≡ false
      → after_gate digest (gate s store).outcome ≡ to_waves t
      → WonClaim m s (gate s store)
  live_execution-WonClaim s t store live fresh guarded h =
      let (u, returns, c) = after_gate-Cleared digest (gate s store).outcome t h in
      let needed : not s.dry_run && needs_approval config s ≡ true =
        ap₂ (λ d n. not d && n) live (needs_approval_live config s live guarded) in
      Finishes-finished (λ x. x.approved ≡ some true → WonClaim m s (gate s store)) returns
        (WonClaim-GateCase loads dumps plan_dict read_item report config m s store (gate s store)
          fresh needed
          (approval_gate-GateCase loads dumps plan_dict read_item report config m s store))
        c.is_approved
