-- ===== src/Patching/Nodes.antt =====
-- errander/agent/subgraphs/patching.py: the nodes of the sub-graph before the execution.
pub mod Kernel
use errander_ai.Common.{
  String, Bool, true, false, not, ◌&&◌, ◌||◌, Option, none, some, List, [], ◌∷◌, ◌++◌, map, str_eq,
  if◌then◌else◌, any, select_where, strip, lookup, put,
}
use errander_ai.Vm.{
  ActionStatus, status_pending, skipped, dry_run_ok, success, failed, rolled_back, rollback_failed,
  blocked,
}
use errander_ai.Patching.{
  kernel_excludes, is_excluded, is_safe, all_safe, PatchCall, detect_lock, refresh_lists,
  list_upgradable, simulate_upgrade, reboot_probe, installed_versions, service_states,
  install_pinned, simulate_pinned, roll_back, PatchReply, PatchVm, ApprovedPackage, PatchState,
  Checks, is_blank, parse_upgradable, parse_versions, parse_service_statuses, find_regressions,
  needs_reboot,
}

-- The calls sent, and the state; `none` if an exception was raised.
abbrev pub PatchRun : Type 0
PatchRun = List PatchCall × Option PatchState

-- A node that goes on with what was sent and the state.
abbrev pub and_then : PatchRun → (List PatchCall → PatchState → PatchRun) → PatchRun
and_then (sent, none) next = (sent, none)
and_then (sent, some s) next = next sent s

abbrev pub on_reply :
    List PatchCall → Option PatchReply → (List PatchCall → PatchReply → PatchRun) → PatchRun
on_reply sent none k = (sent, none)
on_reply sent (some reply) k = k sent reply

-- `executor.execute` of a command that is sent as it is.
abbrev pub send :
    PatchVm → List PatchCall → PatchCall → (List PatchCall → PatchReply → PatchRun) → PatchRun
send vm sent c k = on_reply (sent ++ c ∷ []) (vm sent c) k

abbrev pub done : PatchState → List PatchCall → PatchRun
done s sent = (sent, some s)

abbrev pub fail_patch : PatchState → PatchState
fail_patch s = record s { status = failed; has_error = true }

-- `preflight_lock_node` with `validate_no_pkg_lock`: a lock is held if the answer is not blank.
abbrev pub is_locked_by : Bool → PatchReply → Bool
is_locked_by dry_run reply =
    if reply.is_success then not (is_blank (strip reply.stdout)) else not dry_run

unfoldable pub preflight_lock : PatchVm → List PatchCall → PatchState → PatchRun
unfolding strip
preflight_lock vm sent s = send vm sent detect_lock (λ sent' reply.
    done
      (if is_locked_by s.dry_run reply then record s { status = blocked; has_error = true } else s)
      sent')

-- `validate_node`.
unfoldable pub validate_patch : PatchState → PatchState
validate_patch s = record s {
  exclude_patterns = kernel_excludes ++ s.exclude_patterns;
  status = status_pending;
}

abbrev pub names_of : List ApprovedPackage → List String
names_of ps = select_where (λ n. not (is_blank n)) (map (λ p. p.name) ps)

abbrev pub is_at : List (String × String) → String → String → Bool
is_at versions name version = elim (lookup name versions) [
  | none ↦ false
  | some v ↦ str_eq v version
]

-- The packages of the artifact that are not at their target.
abbrev pub to_install : List ApprovedPackage → List (String × String) → List String
to_install ps installed =
    map (λ p. p.name)
      (select_where
        (λ p.
          not (is_blank p.name) && not (is_blank p.target) && not (is_at installed p.name p.target))
        ps)

abbrev pub nothing_pending : PatchState → PatchState
nothing_pending s = record s { pending_updates = []; nothing_to_do = true; status = skipped }

abbrev pub with_pending : PatchState → List String → PatchState
with_pending s [] = nothing_pending s
with_pending s (n ∷ ns) = record s { pending_updates = n ∷ ns; nothing_to_do = false }

module _ (fnmatch : String → String → Bool) where
  abbrev pub not_excluded : PatchState → List String → List String
  not_excluded s names = select_where (λ n. not (is_excluded fnmatch s.exclude_patterns n)) names

  unfoldable pub assess_fresh : PatchVm → List PatchCall → PatchState → PatchRun
  unfolding parse_upgradable
  assess_fresh vm sent s = send vm sent refresh_lists (λ sent' refresh.
      send vm sent' list_upgradable (λ sent'' reply.
        done
          (if reply.is_success
            then with_pending s (not_excluded s (parse_upgradable reply.stdout s.os_family))
            else fail_patch s)
          sent''))

unfoldable pub assess_approved : PatchVm → List PatchCall → PatchState → PatchRun
unfolding parse_versions lookup is_safe
assess_approved vm sent s =
    let names = names_of s.approved_packages in
    if all_safe names
    then send vm sent (installed_versions names) (λ sent' reply.
      done
        (if reply.is_success
          then with_pending s (to_install s.approved_packages (parse_versions reply.stdout))
          else fail_patch s)
        sent')
    else (sent, none)

abbrev pub is_empty_list {ℓ} : {A : Type ℓ} → List A → Bool
is_empty_list [] = true
is_empty_list (x ∷ xs) = false

-- `assess_node`.
unfoldable pub assess_patch :
    (String → String → Bool) → PatchVm → List PatchCall → PatchState → PatchRun
unfolding select_where assess_fresh assess_approved
assess_patch fnmatch vm sent s =
    if is_empty_list s.approved_packages
    then assess_fresh fnmatch vm sent s
    else assess_approved vm sent s

abbrev pub with_snapshot : PatchState → List (String × String) → PatchState
with_snapshot s [] = fail_patch s
with_snapshot s (v ∷ vs) = record s { version_snapshot = v ∷ vs }

-- `snapshot_node`.
unfoldable pub snapshot : PatchVm → List PatchCall → PatchState → PatchRun
unfolding parse_versions is_safe
snapshot vm sent s =
    if is_empty_list s.pending_updates
    then (sent, some (record s { version_snapshot = [] }))
    else if all_safe s.pending_updates
    then send vm sent (installed_versions s.pending_updates) (λ sent' reply.
      done
        (if reply.is_success then with_snapshot s (parse_versions reply.stdout) else fail_patch s)
        sent')
    else (sent, none)

-- `service_health_pre_node`; a probe that fails shows no service.
abbrev pub services_shown : PatchReply → List String → List (String × String)
services_shown reply services =
    if reply.is_success then parse_service_statuses reply.stdout services else []

unfoldable pub service_health_pre : PatchVm → List PatchCall → PatchState → PatchRun
unfolding parse_service_statuses
service_health_pre vm sent s =
    if is_empty_list s.critical_services
    then (sent, some (record s { service_pre_snapshot = [] }))
    else send vm sent (service_states s.critical_services) (λ sent' reply.
      done (record s { service_pre_snapshot = services_shown reply s.critical_services }) sent')
