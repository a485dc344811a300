-- ===== src/Batch/Gate/Hash.antt =====
-- errander/agent/graph.py: `generate_plan_artifact_node`, which fixes the hash, against
-- `verify_plan_hash_node`, which checks it.
use errander_ai.Common.{
  String, ◌≡◌, ◌≢◌, refl, true, false, some, List, arith, str_eq, eq_refl, if_holds,
}
use errander_ai.Batch.State.{VmPlan, BatchState, effective_vm_plans}
use errander_ai.Batch.Gate.Routes.{
  generate_plan_artifact, verify_plan_hash, to_waves, route_after_approval,
}
use errander_ai.Batch.Gate.Live.{route_after_approval-Cleared}

module _ (digest : String → String → List VmPlan → String) where
  -- A plan that is not touched after its hash was fixed passes the check, if a hash is never empty.
  pub verify_plan_hash-generate_plan_artifact :
      (plan_id : String) (s : BatchState)
      → str_eq (digest s.batch_id s.env_name (effective_vm_plans s)) "" ≡ false
      → verify_plan_hash digest (generate_plan_artifact digest plan_id s)
        ≡ generate_plan_artifact digest plan_id s
  unfolding verify_plan_hash generate_plan_artifact
  verify_plan_hash-generate_plan_artifact plan_id s filled =
      let hash = digest s.batch_id s.env_name (effective_vm_plans s) in
      if_holds (λ (t : BatchState). t ≡ generate_plan_artifact digest plan_id s) s.dry_run
        (λ _. refl)
        (λ _.
          if_holds (λ (t : BatchState). t ≡ generate_plan_artifact digest plan_id s)
            (str_eq hash "") (λ empty. absurd (ground (arith, empty, filled)))
            (λ _.
              if_holds (λ (t : BatchState). t ≡ generate_plan_artifact digest plan_id s)
                (str_eq hash hash) (λ _. refl)
                (λ differs. absurd (ground (arith, differs, eq_refl hash)))))

  -- A live batch whose plans were changed after their hash was fixed, so that they have another hash,
  -- never goes on to the waves.
  pub drift_stops :
      (plan_id : String) (s t : BatchState) (plans : List VmPlan)
      → s.dry_run ≡ false
      → digest s.batch_id s.env_name (effective_vm_plans (record s { enriched_vm_plans = plans }))
        ≢ digest s.batch_id s.env_name (effective_vm_plans s)
      → route_after_approval digest (record (generate_plan_artifact digest plan_id s) {
        enriched_vm_plans = plans;
        approved = some true;
      })
        ≢ to_waves t
  unfolding generate_plan_artifact
  drift_stops plan_id s t plans live drifted h = drifted (
      (route_after_approval-Cleared digest
          (record (generate_plan_artifact digest plan_id s) {
            enriched_vm_plans = plans;
            approved = some true;
          })
          t h).hash_agrees
        live)
