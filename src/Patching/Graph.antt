-- ===== src/Patching/Graph.antt =====
-- errander/agent/subgraphs/patching.py: the routes of the sub-graph, and in errander/agent/vm_graph.py the
-- state that it starts from.
pub mod History
pub mod Ended
pub mod Installed
pub mod Routes
pub mod Changes
pub mod Reads
use errander_ai.Common.{
  String, Bool, true, false, not, ◌&&◌, ◌||◌, Option, none, some, List, [], ◌∷◌, ◌++◌, map, str_eq,
  if◌then◌else◌, any, select_where, strip, lookup, put,
}
use errander_ai.Vm.{
  ActionStatus, status_pending, skipped, dry_run_ok, success, failed, rolled_back, rollback_failed,
  blocked,
}
use errander_ai.Patching.{
  kernel_excludes, is_excluded, is_safe, all_safe, PatchCall, detect_lock, refresh_lists,
  list_upgradable, simulate_upgrade, reboot_probe, installed_versions, service_states,
  install_pinned, simulate_pinned, roll_back, PatchReply, PatchVm, ApprovedPackage, PatchState,
  Checks, is_blank, parse_upgradable, parse_versions, parse_service_statuses, find_regressions,
  needs_reboot,
}
use errander_ai.Patching.Nodes.{
  PatchRun, and_then, assess_approved, assess_fresh, assess_patch, done, fail_patch, is_at,
  is_empty_list, is_locked_by, names_of, not_excluded, nothing_pending, on_reply, preflight_lock,
  send, service_health_pre, services_shown, snapshot, to_install, validate_patch, with_pending,
  with_snapshot,
}
use errander_ai.Patching.Execute.{
  checked, execute_dry, execute_live, execute_patch, expected, expected_of, has_changed, install,
  is_restored, lacks_target, misses, or_unknown, pinned_of, queried, reboot_check, restorable,
  rollback, rollback_check, safe_pairs, service_health_post, simulate, verify_patch, with_rollback,
}

abbrev pub is_failed_status : ActionStatus → Bool
is_failed_status failed = true
is_failed_status _ = false

abbrev pub is_dry_status : ActionStatus → Bool
is_dry_status dry_run_ok = true
is_dry_status _ = false

abbrev pub is_blocked_status : ActionStatus → Bool
is_blocked_status blocked = true
is_blocked_status _ = false

-- `build_patching_subgraph`.
module _ (checks : Checks) (fnmatch : String → String → Bool) (vm : PatchVm) where
  abbrev pub after_reboot : List PatchCall → PatchState → PatchRun
  after_reboot sent s =
      if checks.sre_service_check then service_health_post vm sent s else (sent, some s)

  abbrev pub after_verify : List PatchCall → PatchState → PatchRun
  after_verify sent s =
      if is_failed_status s.status || s.has_error
      then rollback vm sent s
      else if checks.sre_reboot_check
      then and_then (reboot_check vm sent s) after_reboot
      else after_reboot sent s

  abbrev pub after_execute : List PatchCall → PatchState → PatchRun
  after_execute sent s =
      if is_dry_status s.status
      then (sent, some s)
      else if is_failed_status s.status
      then rollback vm sent s
      else and_then (verify_patch vm sent s) after_verify

  abbrev pub after_snapshot : List PatchCall → PatchState → PatchRun
  after_snapshot sent s =
      and_then (if checks.sre_service_check then service_health_pre vm sent s else (sent, some s))
        (λ sent' s'. and_then (execute_patch vm sent' s') after_execute)

  abbrev pub after_assess_patch : List PatchCall → PatchState → PatchRun
  after_assess_patch sent s =
      if s.nothing_to_do then (sent, some s) else and_then (snapshot vm sent s) after_snapshot

  abbrev pub after_validate : List PatchCall → PatchState → PatchRun
  after_validate sent s =
      and_then (assess_patch fnmatch vm sent (validate_patch s)) after_assess_patch

  abbrev pub after_preflight_lock : List PatchCall → PatchState → PatchRun
  after_preflight_lock sent s =
      if is_blocked_status s.status then (sent, some s) else after_validate sent s

  unfoldable pub patching : PatchState → PatchRun
  unfolding select_where preflight_lock validate_patch assess_patch snapshot service_health_pre
      execute_patch verify_patch rollback reboot_check service_health_post
  patching s =
      if checks.sre_preflight_lock_check
      then and_then (preflight_lock vm [] s) after_preflight_lock
      else after_validate [] s

-- `_run_patching`: the state that it starts from, where an approved package has a name.
unfoldable pub start_patching : String → Bool → List String → List ApprovedPackage → PatchState
unfolding select_where
start_patching family dry_run services packages = record {
  os_family = family;
  dry_run = dry_run;
  exclude_patterns = [];
  approved_packages = select_where (λ p. not (is_blank p.name)) packages;
  critical_services = services;
  status = status_pending;
  has_error = false;
  nothing_to_do = false;
  pending_updates = [];
  version_snapshot = [];
  updated_versions = [];
  service_pre_snapshot = [];
  service_regressions = [];
  reboot_status_detected = false;
}

-- The status of its result dict.
abbrev pub patching_status : PatchRun → ActionStatus
patching_status (sent, none) = failed
patching_status (sent, some s) = s.status
