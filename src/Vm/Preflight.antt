-- ===== src/Vm/Preflight.antt =====
-- errander/agent/vm_graph.py: the graph of a VM returns, and when it runs the probe of the sudo preflight.
use errander_ai.Common.{
  ℕ, suc, ◌≤◌, String, ◌≡◌, refl, ap, ◌∙◌, Bool, true, false, ◌&&◌, ◌⊎◌, Option, some, List, [],
  ◌∷◌, arith, ltb, if◌then◌else◌, if_holds, length, get_elem?, Bool-cases, inl, inr,
}
use errander_ai.Batch.State.{PlannedAction, BatchState}
use errander_ai.Batch.Dispatch.{VmDispatch, dispatch_vm}
use errander_ai.Batch.Dispatch.Selected.{live_dispatch}
use errander_ai.Vm.{
  VmState, Target, drift_detected, discovery_failed, start_state, fail, has_error, discover,
  drift_check, plan_actions, sudo_preflight, action_loop, dispatch_at, dispatch_action,
  post_cleanup_disk_gate, last_type, frees_disk, is_patching, is_full, work, after_preflight,
  approved_work, after_drift_check, after_discover, under_lock,
}
use errander_ai.Vm.Validate.{Params}
use errander_ai.Vm.Loop.{Aligned, Ends, round, action_loop-next, action_loop-Ends}

-- A state in which nothing has been done yet.
pub record IsFresh (s : VmState) : Type 0 where
  pub at_start : s.current_action_index ≡ 0
  pub no_results : s.results ≡ []
  pub nothing_ran : s.ran ≡ []

module _ (params_of : PlannedAction → Params) (lower : String → List ℕ) where
  pub Aligned-IsFresh : (s : VmState) → IsFresh s → Aligned params_of lower s
  Aligned-IsFresh s f = record {
    in_order = rw (f.no_results, f.at_start) refl;
    in_plan = omega (arith, f.at_start);
    admitted = rw f.nothing_ran tt;
  }

  pub work-Ends :
      (target : Target) (s : VmState)
      → IsFresh s
      → 1 ≤ length s.planned_actions
      → (t : VmState) × (work params_of lower target s ≡ some t) × Ends params_of lower s t
  work-Ends target s f some_left =
      action_loop-Ends params_of lower (suc (length s.planned_actions)) target s
        (Aligned-IsFresh s f) (omega (arith, f.at_start, some_left)) (omega arith)

  -- A graph run returns, and has sent no more probes.
  abbrev pub Quiet : VmState → Option VmState → Type 0
  Quiet s r = (t : VmState) × (r ≡ some t) × (t.probes ≡ s.probes)

  approved_work-Quiet :
      (target : Target) (s : VmState) (plan : List PlannedAction)
      → IsFresh s
      → s.planned_actions ≡ plan
      → Quiet s (approved_work params_of lower target s plan)
  approved_work-Quiet target s [] f e = (s, refl, refl)
  approved_work-Quiet target s (a ∷ rest) f e =
      let size : length s.planned_actions ≡ suc (length rest) = ap (λ p. length p) e in
      let (t, returns, ends) = work-Ends target s f (omega (arith, size)) in
      (t, returns, ends.continues.same_probes)

  dispatch_action-none :
      (target : Target) (s : VmState)
      → s.planned_actions ≡ []
      → dispatch_action params_of lower target s ≡ s
  unfolding dispatch_action
  dispatch_action-none target s e =
      ap (λ plan. dispatch_at params_of lower target s (get_elem? plan s.current_action_index)) e

  post_cleanup_disk_gate-none :
      (target : Target) (s : VmState)
      → s.planned_actions ≡ []
      → post_cleanup_disk_gate params_of lower target s ≡ s
  unfolding post_cleanup_disk_gate
  post_cleanup_disk_gate-none target s e =
      let next = get_elem? s.planned_actions s.current_action_index in
      let nothing : is_patching next ≡ false =
        ap (λ plan. is_patching (get_elem? plan s.current_action_index)) e in
      if_holds (λ (t : VmState). t ≡ s)
        (frees_disk (last_type s.results)
          && (is_patching next && is_full (target.disk_pct s.current_action_index)))
        (λ full. absurd (ground (arith, full, nothing))) (λ _. refl)

  round-none :
      (target : Target) (s : VmState) → s.planned_actions ≡ [] → round params_of lower target s ≡ s
  round-none target s e =
      ap (post_cleanup_disk_gate params_of lower target) (dispatch_action-none target s e)
      ∙ post_cleanup_disk_gate-none target s e

  work-none :
      (target : Target) (s : VmState)
      → IsFresh s
      → s.planned_actions ≡ []
      → Quiet s (work params_of lower target s)
  work-none target s f e =
      let size : length s.planned_actions ≡ 0 = ap (λ p. length p) e in
      let stop : ltb s.current_action_index (length s.planned_actions) ≡ false =
        ground (arith, size) in
      (
        s,
        action_loop-next params_of lower (length s.planned_actions) target s
            ∙ (ap
                  (λ r.
                    if ltb r.current_action_index (length r.planned_actions)
                    then action_loop params_of lower (length s.planned_actions) target r
                    else some r)
                  (round-none target s e)
                ∙ ap
                    (λ b.
                      if b
                      then action_loop params_of lower (length s.planned_actions) target s
                      else some s)
                    stop),
        refl,
      )

  work-Quiet :
      (target : Target) (s : VmState) (plan : List PlannedAction)
      → IsFresh s
      → s.planned_actions ≡ plan
      → Quiet s (work params_of lower target s)
  work-Quiet target s [] f e = work-none target s f e
  work-Quiet target s (a ∷ rest) f e =
      let size : length s.planned_actions ≡ suc (length rest) = ap (λ p. length p) e in
      let (t, returns, ends) = work-Ends target s f (omega (arith, size)) in
      (t, returns, ends.continues.same_probes)

  after_preflight-Quiet :
      (target : Target) (s : VmState)
      → IsFresh s
      → Quiet s (after_preflight params_of lower target s)
  after_preflight-Quiet target s f =
      if_holds (Quiet s) (has_error s) (λ _. (s, refl, refl))
        (λ _. work-Quiet target s s.planned_actions f refl)

  sudo_preflight-dry :
      (target : Target) (s : VmState) → s.dry_run ≡ true → sudo_preflight target s ≡ s
  unfolding sudo_preflight
  sudo_preflight-dry target s dry =
      if_holds (λ (t : VmState). t ≡ s) s.dry_run (λ _. refl)
        (λ live. absurd (ground (arith, dry, live)))

  plan_actions-IsFresh :
      (target : Target) (s : VmState) → IsFresh s → IsFresh (plan_actions target s)
  unfolding plan_actions
  plan_actions-IsFresh target s f = record {
    at_start = refl;
    no_results = f.no_results;
    nothing_ran = f.nothing_ran;
  }

  plan_actions-rest :
      (target : Target) (s : VmState)
      → ((plan_actions target s).dry_run ≡ s.dry_run) × ((plan_actions target s).probes ≡ s.probes)
  unfolding plan_actions
  plan_actions-rest target s = (refl, refl)

  planned-Quiet :
      (target : Target) (s : VmState)
      → IsFresh s
      → s.dry_run ≡ true
      → Quiet s
          (after_preflight params_of lower target (sudo_preflight target (plan_actions target s)))
  planned-Quiet target s f dry =
      let p = plan_actions target s in
      let (same_mode, same_probes) = plan_actions-rest target s in
      let (t, returns, quiet) = after_preflight-Quiet target p (plan_actions-IsFresh target s f) in
      (
        t,
        ap (after_preflight params_of lower target) (sudo_preflight-dry target p (same_mode ∙ dry))
            ∙ returns,
        quiet ∙ same_probes,
      )

  after_drift_check-Quiet :
      (target : Target) (s : VmState)
      → IsFresh s
      → (s.pre_approved_plan_set ≡ true) ⊎ (s.dry_run ≡ true)
      → Quiet s (after_drift_check params_of lower target s)
  unfolding after_drift_check
  after_drift_check-Quiet target s f mode =
      if_holds (Quiet s) (has_error s) (λ _. (s, refl, refl))
        (λ _.
          if_holds (Quiet s) s.pre_approved_plan_set
            (λ _. approved_work-Quiet target s s.planned_actions f refl)
            (λ fresh. planned-Quiet target s f (ground (arith, mode, fresh))))

  drift_check-Quiet :
      (target : Target) (s : VmState)
      → IsFresh s
      → (s.pre_approved_plan_set ≡ true) ⊎ (s.dry_run ≡ true)
      → Quiet s (after_drift_check params_of lower target (drift_check target s))
  unfolding drift_check
  drift_check-Quiet target s f mode =
      if_holds (λ (u : VmState). Quiet s (after_drift_check params_of lower target u))
        target.has_aborting_drift
        (λ _.
          after_drift_check-Quiet target (fail drift_detected s)
            (record {
              at_start = f.at_start;
              no_results = f.no_results;
              nothing_ran = f.nothing_ran;
            })
            mode)
        (λ _. after_drift_check-Quiet target s f mode)

  after_discover-Quiet :
      (target : Target) (s : VmState)
      → IsFresh s
      → (s.pre_approved_plan_set ≡ true) ⊎ (s.dry_run ≡ true)
      → Quiet s (after_discover params_of lower target s)
  unfolding after_discover
  after_discover-Quiet target s f mode =
      if_holds (Quiet s) (has_error s) (λ _. (s, refl, refl))
        (λ _. drift_check-Quiet target s f mode)

  under_lock-Quiet :
      (target : Target) (s : VmState)
      → IsFresh s
      → (s.pre_approved_plan_set ≡ true) ⊎ (s.dry_run ≡ true)
      → Quiet s (under_lock params_of lower target s)
  unfolding under_lock discover
  under_lock-Quiet target s f mode =
      if_holds (λ (u : VmState). Quiet s (after_discover params_of lower target u))
        target.is_discovered (λ _. after_discover-Quiet target s f mode)
        (λ _.
          after_discover-Quiet target (fail discovery_failed s)
            (record {
              at_start = f.at_start;
              no_results = f.no_results;
              nothing_ran = f.nothing_ran;
            })
            mode)

  start_mode :
      (b : BatchState) (id : String)
      → ((dispatch_vm b id).pre_approved_plan_set ≡ true) ⊎ (b.dry_run ≡ true)
  start_mode b id = elim (Bool-cases b.dry_run) [
    | inl dry ↦ inr dry
    | inr live ↦ inl ((live_dispatch b id live).0)
  ]

  -- The state a wave starts with has done nothing, and has no probe.
  start_state-IsFresh :
      (batch : String) (dry : Bool) (d : VmDispatch) → IsFresh (start_state batch dry d)
  unfolding start_state
  start_state-IsFresh batch dry d = record {
    at_start = refl;
    no_results = refl;
    nothing_ran = refl;
  }

  start_state-mode :
      (batch : String) (dry : Bool) (d : VmDispatch)
      → (d.pre_approved_plan_set ≡ true) ⊎ (dry ≡ true)
      → ((start_state batch dry d).pre_approved_plan_set ≡ true)
        ⊎ ((start_state batch dry d).dry_run ≡ true)
  unfolding start_state
  start_state-mode batch dry d mode = mode

  start_state-probes :
      (batch : String) (dry : Bool) (d : VmDispatch) → (start_state batch dry d).probes ≡ 0
  unfolding start_state
  start_state-probes batch dry d = refl

  -- The graph of a VM returns for every batch and every target, and no batch, dry or live, ever runs the
  -- probe of the sudo preflight.
  pub preflight_never_probes :
      (b : BatchState) (id batch : String) (target : Target)
      → (t : VmState) × (under_lock params_of lower target
            (start_state batch b.dry_run (dispatch_vm b id))
          ≡ some t)
        × (t.probes ≡ 0)
  preflight_never_probes b id batch target =
      let d = dispatch_vm b id in
      let (t, returns, quiet) =
        under_lock-Quiet target (start_state batch b.dry_run d)
          (start_state-IsFresh batch b.dry_run d)
          (start_state-mode batch b.dry_run d (start_mode b id)) in
      (t, returns, quiet ∙ start_state-probes batch b.dry_run d)
