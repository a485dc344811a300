-- ===== src/Examples/Patchings.antt =====
-- Runs of errander/agent/subgraphs/patching.py on two VMs.
use errander_ai.Common.{◌≡◌, refl, String, Bool, true, false, some, List, [], ◌∷◌, str_eq}
use errander_ai.Vm.{success, status_pending, rollback_failed}
use errander_ai.Patching.{
  Checks, detect_lock, PatchCall, installed_versions, install_pinned, list_upgradable, PatchVm,
  PatchState, is_safe,
}
use errander_ai.Patching.Nodes.{is_empty_list, validate_patch, assess_patch}
use errander_ai.Patching.Graph.{patching, patching_status, start_patching}
use errander_ai.Patching.Graph.Ended.{Ended}
use errander_ai.Patching.Graph.Changes.{AtEnd, no_checks, unqueried_install}
use errander_ai.Patching.Nodes.Kernel.{WithoutKernel, assess-WithoutKernel}

-- A matcher that knows only the first pattern of the kernel.
abbrev linux_only : String → String → Bool
linux_only = λ name pattern. str_eq name "linux-image-6.1"

-- A VM that has nginx 1.18, and 1.24 once an install was sent.
abbrev version_after : List PatchCall → String
version_after [] = "nginx=1.18\n"
version_after (install_pinned pinned ∷ sent) = "nginx=1.24\n"
version_after (c ∷ sent) = version_after sent

abbrev nginx_vm : PatchVm
nginx_vm = λ sent c. some (record {
  is_success = true;
  stdout = elim c [
    | installed_versions names ↦ version_after sent
    | list_upgradable ↦ "Listing...\nnginx/stable 1.24 amd64\nlinux-image-6.1/stable 6.1.9 amd64\n"
    | _ ↦ ""
  ];
})

abbrev broken_database : PatchVm
broken_database = λ sent c.
    some
      (record { is_success = elim c [ installed_versions names ↦ false | _ ↦ true ]; stdout = "" })

abbrev upgrade_nginx : PatchState
upgrade_nginx = start_patching "ubuntu" false [] (record { name = "nginx"; target = "1.24" } ∷ [])

upgrades_nginx :
    (patching no_checks linux_only nginx_vm upgrade_nginx).0
    ≡ installed_versions ("nginx" ∷ [])
      ∷ installed_versions ("nginx" ∷ [])
      ∷ install_pinned (("nginx", "1.24") ∷ [])
      ∷ installed_versions ("nginx" ∷ [])
      ∷ []
unfolding patching start_patching
upgrades_nginx = refl

upgraded : patching_status (patching no_checks linux_only nginx_vm upgrade_nginx) ≡ success
unfolding patching start_patching
upgraded = refl

is_safe_nginx : is_safe "nginx" ≡ true
unfolding is_safe
is_safe_nginx = refl

is_safe_version : is_safe "1.24" ≡ true
unfolding is_safe
is_safe_version = refl

-- The checks of a builder without arguments.
abbrev all_checks : Checks
all_checks = record {
  sre_preflight_lock_check = true;
  sre_reboot_check = true;
  sre_service_check = true;
}

unqueried_install_example :
    ((patching all_checks linux_only broken_database upgrade_nginx).0
      ≡ detect_lock
        ∷ installed_versions ("nginx" ∷ [])
        ∷ install_pinned (("nginx", "1.24") ∷ [])
        ∷ installed_versions ("nginx" ∷ [])
        ∷ [])
    × (patching_status (patching all_checks linux_only broken_database upgrade_nginx)
        ≡ rollback_failed)
unqueried_install_example =
    unqueried_install all_checks linux_only broken_database "ubuntu" "nginx" "1.24"
      (λ sent names. refl, λ sent pinned. refl, λ sent. refl) is_safe_nginx is_safe_version refl
      refl

abbrev plan_nginx : PatchState
plan_nginx = start_patching "ubuntu" true [] []

no_packages : is_empty_list plan_nginx.approved_packages ≡ true
unfolding start_patching
no_packages = refl

no_updates : plan_nginx.pending_updates ≡ []
unfolding start_patching
no_updates = refl

plans_nginx :
    patching_status (assess_patch linux_only nginx_vm [] (validate_patch plan_nginx))
    ≡ status_pending
unfolding assess_patch validate_patch start_patching
plans_nginx = refl

assess-WithoutKernel_example :
    AtEnd
      (WithoutKernel linux_only)
      (assess_patch linux_only nginx_vm [] (validate_patch plan_nginx))
assess-WithoutKernel_example =
    assess-WithoutKernel linux_only nginx_vm [] plan_nginx no_packages no_updates
