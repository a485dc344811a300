-- ===== src/Patching/Graph/Changes.antt =====
-- errander/agent/subgraphs/patching.py: what a patching changes, how it ends, and a failed query.
use errander_ai.Common.{
  String, ◌≡◌, ◌++◌, if◌then◌else◌, Bool, true, false, none, some, List, [], ◌∷◌, any, select_where,
}
use errander_ai.Vm.{rollback_failed}
use errander_ai.Patching.{
  PatchCall, detect_lock, installed_versions, install_pinned, roll_back, PatchVm, PatchState,
  Checks, is_safe, is_blank,
}
use errander_ai.Patching.Nodes.{PatchRun}
use errander_ai.Patching.Execute.{pinned_of, lacks_target}
use errander_ai.Patching.Graph.{patching, start_patching, patching_status}
use errander_ai.Patching.Graph.History.{Good, Follows}
use errander_ai.Patching.Graph.Ended.{Ended, RollsBack}

-- What a run may send: an install of exactly the artifact, in a live run, if each of its packages has a
-- target; a rollback in a live run, to versions that the VM has reported before anything was changed; and
-- what only reads.
abbrev pub Allowed : PatchVm → PatchState → List PatchCall → PatchCall → Type 0
Allowed vm s sent (install_pinned pinned) =
    (pinned ≡ pinned_of s.approved_packages)
    × (s.dry_run ≡ false)
    × (any lacks_target s.approved_packages ≡ false)
Allowed vm s sent (roll_back specs) = RollsBack vm s.dry_run sent specs
Allowed vm s sent _ = Unit

-- The calls and the state at the end, unless an exception was raised.
abbrev pub EndsWith : (List PatchCall → PatchState → Type 0) → PatchRun → Type 0
EndsWith Q (sent, none) = Unit
EndsWith Q (sent, some t) = Q sent t

-- The state at the end, unless an exception was raised.
abbrev pub AtEnd : (PatchState → Type 0) → PatchRun → Type 0
AtEnd Q run = EndsWith (λ sent. Q) run

pub at_end :
    (P : List PatchCall → PatchCall → Type 0) (Q : List PatchCall → PatchState → Type 0)
    (run : PatchRun)
    → Good P Q run
    → Follows P [] run.0 × EndsWith Q run
at_end P Q (sent, none) a = (a, tt)
at_end P Q (sent, some t) g = g

-- A VM whose package database cannot be queried, while installs succeed and nothing holds the lock of the
-- package manager.
abbrev pub CannotQuery : PatchVm → Type 0
CannotQuery vm =
    ((sent : List PatchCall) (names : List String)
      → vm sent (installed_versions names) ≡ some (record { is_success = false; stdout = "" }))
    × ((sent : List PatchCall) (pinned : List (String × String))
        → vm sent (install_pinned pinned) ≡ some (record { is_success = true; stdout = "" }))
    × ((sent : List PatchCall)
        → vm sent detect_lock ≡ some (record { is_success = true; stdout = "" }))

abbrev pub no_checks : Checks
no_checks = record {
  sre_preflight_lock_check = false;
  sre_reboot_check = false;
  sre_service_check = false;
}

-- The question for the versions of the package, its install, and the question again.
abbrev pub blind_calls : Bool → String → String → List PatchCall
blind_calls lock_check name target =
    (if lock_check then detect_lock ∷ [] else [])
    ++ installed_versions (name ∷ [])
      ∷ install_pinned ((name, target) ∷ [])
      ∷ installed_versions (name ∷ [])
      ∷ []

unqueried_checks :
    (lock_check reboot_check service_check : Bool) (fnmatch : String → String → Bool) (vm : PatchVm)
    (family name target : String)
    → CannotQuery vm
    → is_safe name ≡ true
    → is_safe target ≡ true
    → is_blank name ≡ false
    → is_blank target ≡ false
    → let run =
        patching
          (record {
            sre_preflight_lock_check = lock_check;
            sre_reboot_check = reboot_check;
            sre_service_check = service_check;
          })
          fnmatch
          vm
          (start_patching family false [] (record { name = name; target = target } ∷ [])) in
      (run.0 ≡ blind_calls lock_check name target) × (patching_status run ≡ rollback_failed)
unfolding patching start_patching select_where
unqueried_checks true reboot_check true fnmatch vm family name target (queries, installs, free) safe
      safe' named targeted =
    (
      simp (named, targeted, safe, safe', queries, installs, free),
      simp (named, targeted, safe, safe', queries, installs, free),
    )
unqueried_checks true reboot_check false fnmatch vm family name target (queries, installs, free)
      safe safe' named targeted =
    (
      simp (named, targeted, safe, safe', queries, installs, free),
      simp (named, targeted, safe, safe', queries, installs, free),
    )
unqueried_checks false reboot_check true fnmatch vm family name target (queries, installs, _) safe
      safe' named targeted =
    (
      simp (named, targeted, safe, safe', queries, installs),
      simp (named, targeted, safe, safe', queries, installs),
    )
unqueried_checks false reboot_check false fnmatch vm family name target (queries, installs, _) safe
      safe' named targeted =
    (
      simp (named, targeted, safe, safe', queries, installs),
      simp (named, targeted, safe, safe', queries, installs),
    )

-- If every query of the installed versions fails and every install succeeds, then a live run of an
-- artifact with one package on a VM with no critical services installs the package all the same, without
-- a snapshot, with whichever SRE checks are on: the rollback that follows sends nothing and fails. Nothing
-- holds the lock of the package manager, and the name and the target are safe texts and not blank.
pub unqueried_install :
    (checks : Checks) (fnmatch : String → String → Bool) (vm : PatchVm)
    (family name target : String)
    → CannotQuery vm
    → is_safe name ≡ true
    → is_safe target ≡ true
    → is_blank name ≡ false
    → is_blank target ≡ false
    → let run =
        patching checks fnmatch vm
          (start_patching family false [] (record { name = name; target = target } ∷ [])) in
      (run.0 ≡ blind_calls checks.sre_preflight_lock_check name target)
      × (patching_status run ≡ rollback_failed)
unqueried_install checks fnmatch vm family name target cannot safe safe' named targeted =
    unqueried_checks checks.sre_preflight_lock_check checks.sre_reboot_check
      checks.sre_service_check fnmatch vm family name target cannot safe safe' named targeted
