-- ===== src/Examples/Vms.antt =====
-- A VM with an approved plan of a cleanup and an update, run by errander/agent/vm_graph.py.
use errander_ai.Common.{
  arith, update_where, ℕ, String, ◌≡◌, refl, Bool, true, false, none, some, List, [], ◌∷◌,
  find_where,
}
use errander_ai.Batch.State.{PlannedAction, BatchState}
use errander_ai.Batch.Dispatch.{dispatch_vm}
use errander_ai.Lock.{
  undisturbed, LockInfo, File, lock, file_at, sanitize_vm_id, new_lock, acquire, read_lock,
  write_lock, fill_lock, open_lock, same_name,
}
use errander_ai.Lock.Files.{IsHeld}
use errander_ai.Vm.{VmState, Target, failed, start_state, under_lock, run_vm}
use errander_ai.Vm.Validate.{Params}
use errander_ai.Vm.Preflight.{IsFresh, preflight_never_probes}
use errander_ai.Vm.Locked.{WorkedOff, under_lock-WorkedOff, run_vm_unlocks}

abbrev one_package : PlannedAction → Params
one_package a = record { packages = "nginx" ∷ []; paths = "/tmp" ∷ [] }

abbrev spelled : String → List ℕ
spelled text = b'n' ∷ []

abbrev cleanup : PlannedAction
cleanup = record { action_type = "disk_cleanup"; risk_tier = "low"; packages = none }

abbrev update : PlannedAction
update = record { action_type = "patching"; risk_tier = "medium"; packages = none }

-- The cleanup fails and the disk stays full, so that the update is skipped.
abbrev full_disk : Target
full_disk = record {
  is_discovered = true;
  has_aborting_drift = false;
  replanned = [];
  sudo_works = true;
  outcome = λ i. failed;
  disk_pct = λ i. some 97;
}

abbrev web : List ℕ
web = b'w' ∷ b'e' ∷ b'b' ∷ []

abbrev approved : VmState
approved = record {
  vm_id = web;
  batch_id = "b1";
  dry_run = false;
  planned_actions = cleanup ∷ update ∷ [];
  pre_approved_plan_set = true;
  current_action_index = 0;
  results = [];
  locked = false;
  error = none;
  ran = [];
  probes = 0;
}

approved-IsFresh : IsFresh approved
approved-IsFresh = record { at_start = refl; no_results = refl; nothing_ran = refl }

under_lock-WorkedOff_example :
    (t : VmState) × (under_lock one_package spelled full_disk approved ≡ some t)
    × WorkedOff one_package spelled approved t
under_lock-WorkedOff_example =
    under_lock-WorkedOff one_package spelled full_disk approved approved-IsFresh refl refl refl refl

abbrev batch : BatchState
batch = record {
  batch_id = "b1";
  env_name = "prod";
  env_policy = "strict";
  plan_id = "p1";
  plan_hash = "web";
  dry_run = false;
  force = false;
  error = none;
  approved = some true;
  deferred = false;
  healthy_targets = "web" ∷ [];
  failed_targets = [];
  vm_plans = (record { vm_id = "web"; planned_actions = cleanup ∷ update ∷ [] }) ∷ [];
  enriched_vm_plans = [];
  is_deferred_replay = false;
  preloaded_plan_json = "";
  preloaded_plan_hash = "";
  preloaded_approved_at = "";
  operator_approved_packages = [];
}

preflight_never_probes_example :
    (t : VmState) × (under_lock one_package spelled full_disk
        (start_state "b1" false (dispatch_vm batch "web"))
      ≡ some t)
    × (t.probes ≡ 0)
preflight_never_probes_example =
    preflight_never_probes one_package spelled batch "web" "b1" full_disk

abbrev any_character : ℕ → Bool
any_character c = true

abbrev held_by_b0 : LockInfo
held_by_b0 = record { vm_id = web; batch_id = "b0"; acquired_at = 0; ttl = 7200000000 }

abbrev taken : List File
taken = record { name = web; content = lock held_by_b0 } ∷ []

taken-IsHeld : IsHeld (sanitize_vm_id any_character web) held_by_b0 taken
unfolding sanitize_vm_id find_where same_name
taken-IsHeld = refl

abbrev nobody_else : List File → List File
nobody_else dir = dir

gets_lock :
    (acquire any_character undisturbed approved.vm_id approved.batch_id 7200000000 50 []).1 ≡ true
unfolding acquire sanitize_vm_id read_lock find_where
gets_lock = refl

keeps_lock :
    IsHeld
      (sanitize_vm_id any_character approved.vm_id)
      (new_lock any_character approved.vm_id approved.batch_id 7200000000 50)
      (nobody_else
        (acquire any_character undisturbed approved.vm_id approved.batch_id 7200000000 50 []).0)
unfolding acquire sanitize_vm_id find_where read_lock write_lock same_name fill_lock open_lock
    update_where
keeps_lock = refl

run_vm_unlocks_example :
    (file_at
        (sanitize_vm_id any_character web)
        (run_vm one_package spelled any_character nobody_else false 50 full_disk approved []).1
      ≡ none)
    × (let left =
          (run_vm one_package spelled any_character nobody_else true 50 full_disk approved []).1 in
        acquire any_character undisturbed web "b2" 100 60 left ≡ (left, false))
run_vm_unlocks_example =
    run_vm_unlocks one_package spelled any_character nobody_else 50 60 "b2" 100 full_disk approved
      [] gets_lock keeps_lock (omega arith)
