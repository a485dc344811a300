-- ===== src/Patching/Execute.antt =====
-- errander/agent/subgraphs/patching.py: the installation, its verification and the checks after it, and in
-- errander/safety/rollback.py the rollback of a patching.
use errander_ai.Common.{
  String, Bool, true, false, not, ◌&&◌, ◌||◌, Option, none, some, List, [], ◌∷◌, map, str_eq,
  if◌then◌else◌, any, select_where, strip, lookup, put,
}
use errander_ai.Vm.{dry_run_ok, success, failed, rolled_back, rollback_failed}
use errander_ai.Patching.{
  is_safe, all_safe, PatchCall, simulate_upgrade, reboot_probe, installed_versions, service_states,
  install_pinned, simulate_pinned, roll_back, PatchVm, ApprovedPackage, PatchState, is_blank,
  parse_versions, parse_service_statuses, find_regressions, needs_reboot,
}
use errander_ai.Patching.Nodes.{
  PatchRun, done, fail_patch, is_at, is_empty_list, names_of, send, services_shown,
}

abbrev pub pinned_of : List ApprovedPackage → List (String × String)
pinned_of ps =
    map (λ p. (p.name, p.target))
      (select_where (λ p. not (is_blank p.name) && not (is_blank p.target)) ps)

abbrev pub lacks_target : ApprovedPackage → Bool
lacks_target p = is_blank p.target

-- Both texts of a package have to be safe for a command with versions.
abbrev pub safe_pairs : List (String × String) → Bool
safe_pairs ps = not (any (λ p. not (is_safe p.0 && is_safe p.1)) ps)

abbrev pub install : PatchVm → List PatchCall → PatchState → List (String × String) → PatchRun
install vm sent s pinned =
    if safe_pairs pinned
    then send vm sent (install_pinned pinned) (λ sent' reply.
      done
        (record s {
          status = if reply.is_success then success else failed;
          has_error = not reply.is_success;
        })
        sent')
    else (sent, none)

-- The live part of `execute_node`. What a command that failed has written is taken not to be empty.
unfoldable pub execute_live : PatchVm → List PatchCall → PatchState → PatchRun
unfolding is_safe
execute_live vm sent s =
    if is_empty_list s.approved_packages
    then (sent, some (fail_patch s))
    else if any lacks_target s.approved_packages
    then (sent, some (fail_patch s))
    else if is_empty_list (pinned_of s.approved_packages)
    then (sent, some (fail_patch s))
    else install vm sent s (pinned_of s.approved_packages)

abbrev pub simulate : PatchVm → List PatchCall → PatchState → PatchCall → PatchRun
simulate vm sent s c =
    send vm sent c (λ sent' reply.
      done (record s { status = dry_run_ok; has_error = not reply.is_success }) sent')

unfoldable pub execute_dry : PatchVm → List PatchCall → PatchState → PatchRun
unfolding is_safe
execute_dry vm sent s =
    let pinned = pinned_of s.approved_packages in
    if is_empty_list pinned
    then simulate vm sent s simulate_upgrade
    else if safe_pairs pinned
    then simulate vm sent s (simulate_pinned pinned)
    else (sent, none)

-- `execute_node`.
unfoldable pub execute_patch : PatchVm → List PatchCall → PatchState → PatchRun
unfolding execute_live execute_dry
execute_patch vm sent s = if s.dry_run then execute_dry vm sent s else execute_live vm sent s

-- Whether some package is not shown at its version.
abbrev pub misses : List (String × String) → List (String × String) → Bool
misses pinned versions = any (λ p. not (is_at versions p.0 p.1)) pinned

-- The dict `expected`: the last target of each name.
unfoldable pub expected_of :
    List (String × String) → List (String × String) → List (String × String)
expected_of [] d = d
expected_of ((name, target) ∷ ps) d = expected_of ps (put name target d)

abbrev pub expected : PatchState → List (String × String)
expected s = expected_of (pinned_of s.approved_packages) []

abbrev pub or_unknown : Option String → String
or_unknown none = "unknown"
or_unknown (some v) = v

abbrev pub has_changed : List (String × String) → List (String × String) → Bool
has_changed versions before = any (λ v. not (str_eq (or_unknown (lookup v.0 before)) v.1)) versions

abbrev pub checked : PatchState → List (String × String) → PatchState
checked s versions =
    let shown = record s { updated_versions = versions } in
    if is_empty_list s.approved_packages
    then (if not (has_changed versions s.version_snapshot) && not (is_empty_list s.version_snapshot)
        then fail_patch s
        else shown)
    else if misses (expected s) versions
    then fail_patch shown
    else shown

abbrev pub queried : PatchState → List String
queried s =
    if is_empty_list s.approved_packages then s.pending_updates else names_of s.approved_packages

-- `verify_node` after a live install.
unfoldable pub verify_patch : PatchVm → List PatchCall → PatchState → PatchRun
unfolding parse_versions lookup is_safe expected_of put
verify_patch vm sent s =
    if is_empty_list (queried s)
    then (sent, some s)
    else if all_safe (queried s)
    then send vm sent (installed_versions (queried s)) (λ sent' reply.
      done (if reply.is_success then checked s (parse_versions reply.stdout) else fail_patch s)
        sent')
    else (sent, none)

-- The specs of `_rollback_patching_apt` and `_rollback_patching_dnf`: unsafe and empty ones are left out.
abbrev pub restorable : List (String × String) → List (String × String)
restorable before =
    select_where (λ p. is_safe p.0 && is_safe p.1) (map (λ p. (strip p.0, strip p.1)) before)

abbrev pub is_restored : List (String × String) → List (String × String) → Bool
is_restored before versions = not (misses before versions)

-- Whether the rollback succeeded; a version check that fails counts as a success.
abbrev pub with_rollback : PatchState → Bool → PatchState
with_rollback s ok = record s {
  status = if ok then rolled_back else rollback_failed;
  has_error = true;
}

abbrev pub rollback_check : PatchVm → List PatchCall → PatchState → PatchRun
rollback_check vm sent s =
    let names = select_where (λ n. not (is_blank (strip n))) (map (λ p. p.0) s.version_snapshot) in
    if all_safe names
    then send vm sent (installed_versions names) (λ sent' reply.
      done
        (with_rollback s
          (not reply.is_success || is_restored s.version_snapshot (parse_versions reply.stdout)))
        sent')
    else (sent, none)

-- `rollback_node` with `rollback_action` for a patching.
unfoldable pub rollback : PatchVm → List PatchCall → PatchState → PatchRun
unfolding parse_versions lookup is_safe strip
rollback vm sent s =
    if is_empty_list s.version_snapshot
    then (sent, some (with_rollback s false))
    else if is_empty_list (restorable s.version_snapshot)
    then (sent, some (with_rollback s false))
    else send vm sent (roll_back (restorable s.version_snapshot)) (λ sent' reply.
      if reply.is_success then rollback_check vm sent' s else (sent', some (with_rollback s false)))

-- `reboot_check_node`; `set_needs_reboot` is called exactly where the flag is set.
unfoldable pub reboot_check : PatchVm → List PatchCall → PatchState → PatchRun
unfolding needs_reboot
reboot_check vm sent s = send vm sent reboot_probe (λ sent' reply.
    done
      (record s {
        reboot_status_detected = reply.is_success && needs_reboot reply.stdout s.os_family;
      })
      sent')

-- `service_health_post_node`.
unfoldable pub service_health_post : PatchVm → List PatchCall → PatchState → PatchRun
unfolding parse_service_statuses find_regressions
service_health_post vm sent s =
    if is_empty_list s.critical_services || is_empty_list s.service_pre_snapshot
    then (sent, some (record s { service_regressions = [] }))
    else send vm sent (service_states s.critical_services) (λ sent' reply.
      done
        (record s {
          service_regressions =
              find_regressions s.service_pre_snapshot (services_shown reply s.critical_services);
        })
        sent')
