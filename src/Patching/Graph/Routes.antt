-- ===== src/Patching/Graph/Routes.antt =====
-- errander/agent/subgraphs/patching.py: each route of the sub-graph leads to one of the ends.
use mathlib.Core.Path.{subst}
use errander_ai.Common.{
  String, ◌≡◌, refl, sym, ap, ◌∙◌, Bool, true, false, not, ◌&&◌, ◌||◌, List, [], ◌∷◌, ◌++◌,
  if_holds, inl, inr,
}
use errander_ai.Vm.{
  ActionStatus, status_pending, skipped, dry_run_ok, success, failed, rolled_back, rollback_failed,
  needs_manual, blocked,
}
use errander_ai.Patching.{
  PatchCall, simulate_upgrade, reboot_probe, service_states, install_pinned, simulate_pinned,
  roll_back, PatchVm, ApprovedPackage, PatchState, Checks, needs_reboot, find_regressions,
}
use errander_ai.Patching.Nodes.{and_then, done, is_empty_list, services_shown}
use errander_ai.Patching.Execute.{
  pinned_of, safe_pairs, execute_live, simulate, execute_dry, execute_patch, verify_patch,
  reboot_check, service_health_post,
}
use errander_ai.Patching.Graph.{
  is_failed_status, is_dry_status, is_blocked_status, after_reboot, after_verify, after_execute,
  patching,
}
use errander_ai.Patching.Graph.History.{
  changes_packages, Follows, Good, send-Good, and_then-Good, Before,
}
use errander_ai.Patching.Graph.Reads.{patching-Good}
use errander_ai.Patching.Graph.Ended.{
  Verified, Verified-append, RollsBack, EndsAs, Ended, rollback-Good,
}
use errander_ai.Patching.Graph.Installed.{
  Installable, Installed, Tested, execute_live-Good, verify-Good,
}

blocked_ends :
    (vm : PatchVm) (dry : Bool) (ps : List ApprovedPackage) (sent : List PatchCall)
    (status : ActionStatus)
    → is_blocked_status status ≡ true
    → EndsAs vm dry ps sent status
blocked_ends vm dry ps sent blocked e = tt
blocked_ends vm dry ps sent status_pending e = cc
blocked_ends vm dry ps sent skipped e = cc
blocked_ends vm dry ps sent dry_run_ok e = cc
blocked_ends vm dry ps sent success e = cc
blocked_ends vm dry ps sent failed e = cc
blocked_ends vm dry ps sent rolled_back e = cc
blocked_ends vm dry ps sent rollback_failed e = cc
blocked_ends vm dry ps sent needs_manual e = cc

not_both :
    (status : ActionStatus) → is_dry_status status ≡ true → is_failed_status status ≡ true → ⊥
not_both dry_run_ok d f = cc
not_both failed d f = cc
not_both status_pending d f = cc
not_both skipped d f = cc
not_both success d f = cc
not_both rolled_back d f = cc
not_both rollback_failed d f = cc
not_both needs_manual d f = cc
not_both blocked d f = cc

module _ (P : List PatchCall → PatchCall → Type 0)
    (reads : (sent : List PatchCall) (c : PatchCall) → changes_packages c ≡ false → P sent c)
    (vm : PatchVm) (dry : Bool) (ps : List ApprovedPackage)
    (installs : (sent : List PatchCall)
      → Installable dry ps
      → P sent (install_pinned (pinned_of ps)))
    (rolls : (sent : List PatchCall) (specs : List (String × String))
      → RollsBack vm dry sent specs
      → P sent (roll_back specs))
    (checks : Checks) (fnmatch : String → String → Bool) where
  abbrev Passed : List PatchCall → PatchState → Type 0
  Passed sent t = (t.status ≡ success) × (dry ≡ false) × Verified vm ps sent

  Passed-Ended : (sent : List PatchCall) (t : PatchState) → Passed sent t → Ended vm dry ps sent t
  Passed-Ended sent t (ok, live, v) = inr (subst (EndsAs vm dry ps sent) (sym ok) (live, v))

  Passed-append :
      (sent : List PatchCall) (t : PatchState) (c : PatchCall)
      → Passed sent t
      → Passed (sent ++ c ∷ []) t
  Passed-append sent t c (ok, live, v) = (ok, live, Verified-append vm ps sent c v)

  service_post-Good :
      (sent : List PatchCall) (t : PatchState)
      → Follows P [] sent
      → Passed sent t
      → Good P (Ended vm dry ps) (after_reboot checks fnmatch vm sent t)
  unfolding service_health_post
  service_post-Good sent t a p =
      let G = Good P (Ended vm dry ps) in
      let e = Passed-Ended sent t p in
      if_holds G checks.sre_service_check
        (λ _.
          if_holds G (is_empty_list t.critical_services || is_empty_list t.service_pre_snapshot)
            (λ _. (a, e))
            (λ _.
              send-Good P (Ended vm dry ps) vm sent (service_states t.critical_services)
                (λ sent' reply.
                  done
                    (record t {
                      service_regressions =
                          find_regressions t.service_pre_snapshot
                            (services_shown reply t.critical_services);
                    })
                    sent')
                a (reads _ (service_states t.critical_services) refl)
                (λ reply _ b.
                  let c = service_states t.critical_services in
                  (b, Passed-Ended (sent ++ c ∷ []) t (Passed-append sent t c p)))))
        (λ _. (a, e))

  reboot-Good :
      (sent : List PatchCall) (t : PatchState)
      → Follows P [] sent
      → Passed sent t
      → Good P Passed (reboot_check vm sent t)
  unfolding reboot_check
  reboot-Good sent t a p =
      send-Good P Passed vm sent reboot_probe
        (λ sent' reply.
          done
            (record t {
              reboot_status_detected = reply.is_success && needs_reboot reply.stdout t.os_family;
            })
            sent')
        a (reads _ reboot_probe refl) (λ reply _ b. (b, Passed-append sent t reboot_probe p))

  after_verify-Good :
      (sent : List PatchCall) (t : PatchState)
      → Follows P [] sent
      → Tested vm dry ps sent t
      → Good P (Ended vm dry ps) (after_verify checks fnmatch vm sent t)
  after_verify-Good sent t a (live, recorded, tested) =
      let G = Good P (Ended vm dry ps) in
      if_holds G (is_failed_status t.status || t.has_error)
        (λ _. rollback-Good P reads vm dry ps rolls sent t live recorded a)
        (λ fine. elim tested [
          | inr bad ↦ cc (bad, fine)
          | inl (ok, v) ↦
              let p : Passed sent t = (ok, live, v) in
              if_holds G checks.sre_reboot_check
                (λ _.
                  and_then-Good P Passed (Ended vm dry ps) (reboot_check vm sent t)
                    (after_reboot checks fnmatch vm) (reboot-Good sent t a p) service_post-Good)
                (λ _. service_post-Good sent t a p)
        ])

  after_live-Good :
      (sent : List PatchCall) (t : PatchState)
      → Follows P [] sent
      → Installed vm dry ps sent t
      → Good P (Ended vm dry ps) (after_execute checks fnmatch vm sent t)
  after_live-Good sent t a (q, live, recorded, inr bad) =
      let G = Good P (Ended vm dry ps) in
      if_holds G (is_dry_status t.status) (λ d. absurd (not_both t.status d bad))
        (λ _.
          if_holds G (is_failed_status t.status)
            (λ _. rollback-Good P reads vm dry ps rolls sent t live recorded a)
            (λ fine. cc (bad, fine)))
  after_live-Good sent t a (q, live, recorded, inl (ok, just)) =
      let G = Good P (Ended vm dry ps) in
      if_holds G (is_dry_status t.status) (λ d. cc (d, ap is_dry_status ok.status))
        (λ _.
          if_holds G (is_failed_status t.status) (λ bad. cc (bad, ap is_failed_status ok.status))
            (λ _.
              and_then-Good P (Tested vm dry ps) (Ended vm dry ps) (verify_patch vm sent t)
                (after_verify checks fnmatch vm)
                (verify-Good P reads vm dry ps installs sent t a q live recorded ok just)
                after_verify-Good))

  abbrev Simulated : List PatchCall → PatchState → Type 0
  Simulated sent t = t.status ≡ dry_run_ok

  simulate-Good :
      (sent : List PatchCall) (t : PatchState) (c : PatchCall)
      → Follows P [] sent
      → changes_packages c ≡ false
      → Good P Simulated (simulate vm sent t c)
  simulate-Good sent t c a read =
      send-Good P Simulated vm sent c
        (λ sent' reply.
          done (record t { status = dry_run_ok; has_error = not reply.is_success }) sent')
        a (reads _ c read) (λ reply _ b. (b, refl))

  execute_dry-Good :
      (sent : List PatchCall) (t : PatchState)
      → Follows P [] sent
      → Good P Simulated (execute_dry vm sent t)
  unfolding execute_dry
  execute_dry-Good sent t a =
      let G = Good P Simulated in
      let pinned = pinned_of t.approved_packages in
      if_holds G (is_empty_list pinned) (λ _. simulate-Good sent t simulate_upgrade a refl)
        (λ _.
          if_holds G (safe_pairs pinned) (λ _. simulate-Good sent t (simulate_pinned pinned) a refl)
            (λ _. a))

  executed-Good :
      (sent : List PatchCall) (t : PatchState)
      → Follows P [] sent
      → Before vm dry ps sent t
      → Good P
          (Ended vm dry ps)
          (and_then (execute_patch vm sent t) (after_execute checks fnmatch vm))
  unfolding execute_patch
  executed-Good sent t a (q, only, recorded) =
      let after = after_execute checks fnmatch vm in
      if_holds (λ run. Good P (Ended vm dry ps) (and_then run after)) t.dry_run
        (λ d.
          and_then-Good P Simulated (Ended vm dry ps) (execute_dry vm sent t) after
            (execute_dry-Good sent t a)
            (λ sent' t' a' e.
              if_holds (Good P (Ended vm dry ps)) (is_dry_status t'.status)
                (λ _. (a', inr (subst (EndsAs vm dry ps sent') (sym e) (sym q.0 ∙ d))))
                (λ other. cc (other, ap is_dry_status e))))
        (λ l.
          and_then-Good P (Installed vm dry ps) (Ended vm dry ps) (execute_live vm sent t) after
            (execute_live-Good P reads vm dry ps installs sent t (sym q.0 ∙ l) a q recorded)
            after_live-Good)

  pub run-Good :
      (s : PatchState)
      → Before vm dry ps [] s
      → Good P (Ended vm dry ps) (patching checks fnmatch vm s)
  run-Good s q =
      patching-Good P reads vm dry ps (Ended vm dry ps) checks fnmatch
        (record {
          locked = λ sent t q' e. inr (blocked_ends vm dry ps sent t.status e);
          idle = λ sent t q' e. inl e;
          executed = executed-Good;
        })
        s q
