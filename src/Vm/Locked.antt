-- ===== src/Vm/Locked.antt =====
-- errander/agent/vm_graph.py: what an approved plan leads to, and the lock around the graph.
use errander_ai.Common.{
  ℕ, suc, ◌+◌, ◌≤◌, String, ◌≡◌, refl, ap, ◌∙◌, Bool, true, false, Option, none, some, List, [],
  ◌∷◌, arith, if_holds, length, All, str_eq, eq_refl,
}
use errander_ai.Batch.State.{PlannedAction}
use errander_ai.Lock.{
  undisturbed, LockInfo, File, file_at, unlink, is_expired, sanitize_vm_id, new_lock, acquire,
  release,
}
use errander_ai.Lock.Files.{IsHeld, file_at-unlinked}
use errander_ai.Lock.Exclusion.{acquire-held, release-own}
use errander_ai.Vm.{
  VmState, Target, already_locked, discover, drift_check, approved_work, after_drift_check,
  after_discover, under_lock, run_vm,
}
use errander_ai.Vm.Validate.{Params}
use errander_ai.Vm.Admitted.{IsAdmitted}
use errander_ai.Vm.Loop.{result_types, plan_types, take-all, Ends}
use errander_ai.Vm.Preflight.{IsFresh, work-Ends}

module _ (params_of : PlannedAction → Params) (lower : String → List ℕ) where
  -- One result for each action, and only admitted actions were sent to a sub-graph.
  pub record WorkedOff (s t : VmState) : Type 0 where
    pub one_result_each : result_types t.results ≡ plan_types s.planned_actions
    pub admitted : All (IsAdmitted params_of lower) t.ran

  WorkedOff-Ends : (s t : VmState) → Ends params_of lower s t → WorkedOff s t
  WorkedOff-Ends s t e = record {
    one_result_each =
        e.is_aligned.in_order
        ∙ (take-all t.planned_actions t.current_action_index e.at_end
            ∙ ap plan_types e.continues.same_plan);
    admitted = e.is_aligned.admitted;
  }

  approved_work-WorkedOff :
      (target : Target) (s : VmState) (plan : List PlannedAction)
      → IsFresh s
      → s.planned_actions ≡ plan
      → (t : VmState) × (approved_work params_of lower target s plan ≡ some t) × WorkedOff s t
  approved_work-WorkedOff target s [] f e = (
    s,
    refl,
    record { one_result_each = rw (f.no_results, e) refl; admitted = rw f.nothing_ran tt },
  )
  approved_work-WorkedOff target s (a ∷ rest) f e =
      let size : length s.planned_actions ≡ suc (length rest) = ap (λ p. length p) e in
      let (t, returns, ends) = work-Ends params_of lower target s f (omega (arith, size)) in
      (t, returns, WorkedOff-Ends s t ends)

  -- The graph of a VM with an approved plan, on a target that answers and has not drifted, ends with
  -- exactly one result for each planned action, in the order of the plan, and has sent to a
  -- sub-graph no action of the critical tier, no patching whose params list a kernel package and no
  -- cleanup whose params list a path that is not on the whitelist. The packages that the sub-graph
  -- installs are those of the action's preview, of which this says nothing.
  pub under_lock-WorkedOff :
      (target : Target) (s : VmState)
      → IsFresh s
      → s.pre_approved_plan_set ≡ true
      → s.error ≡ none
      → target.is_discovered ≡ true
      → target.has_aborting_drift ≡ false
      → (t : VmState) × (under_lock params_of lower target s ≡ some t) × WorkedOff s t
  unfolding under_lock discover after_discover drift_check after_drift_check
  under_lock-WorkedOff target s f approved clean found still =
      let (t, returns, w) = approved_work-WorkedOff target s s.planned_actions f refl in
      (t, (ground (arith, approved, clean, found, still, returns)), w)

  module _ (is_word : ℕ → Bool) (meanwhile : List File → List File) where
    -- If another batch holds the lock of the VM and its time to live has not passed, the graph does
    -- nothing on the VM and leaves the lock as it is.
    pub run_vm_locked :
        (raises : Bool) (now : ℕ) (target : Target) (s : VmState) (info : LockInfo)
        (dir : List File)
        → IsHeld (sanitize_vm_id is_word s.vm_id) info dir
        → is_expired info now ≡ false
        → run_vm params_of lower is_word meanwhile raises now target s dir
          ≡ (some (record s { locked = false; error = some already_locked }), dir)
    unfolding run_vm
    run_vm_locked raises now target s info dir held live =
        rw (acquire-held is_word undisturbed s.vm_id s.batch_id 7200000000 now info dir held live)
          refl

    run_vm-freed :
        (now : ℕ) (target : Target) (s : VmState) (dir : List File)
        → (acquire is_word undisturbed s.vm_id s.batch_id 7200000000 now dir).1 ≡ true
        → IsHeld
            (sanitize_vm_id is_word s.vm_id)
            (new_lock is_word s.vm_id s.batch_id 7200000000 now)
            (meanwhile (acquire is_word undisturbed s.vm_id s.batch_id 7200000000 now dir).0)
        → file_at
            (sanitize_vm_id is_word s.vm_id)
            (run_vm params_of lower is_word meanwhile false now target s dir).1
          ≡ none
    unfolding run_vm
    run_vm-freed now target s dir got held =
        let lock = sanitize_vm_id is_word s.vm_id in
        let entry = acquire is_word undisturbed s.vm_id s.batch_id 7200000000 now dir in
        let left = meanwhile entry.0 in
        let own : str_eq s.batch_id s.batch_id ≡ true = eq_refl s.batch_id in
        let freed : (release is_word s.vm_id s.batch_id left).0 ≡ unlink lock left =
          ap (λ r. r.0)
            (release-own is_word s.vm_id s.batch_id
              (new_lock is_word s.vm_id s.batch_id 7200000000 now) left held)
          ∙ if_holds (λ (r : List File × Bool). r.0 ≡ unlink lock left)
              (str_eq s.batch_id s.batch_id) (λ _. refl)
              (λ foreign. absurd (ground (arith, own, foreign))) in
        if_holds (λ (r : Option VmState × List File). file_at lock r.1 ≡ none) entry.1
          (λ _. ap (λ d. file_at lock d) freed ∙ file_at-unlinked lock left)
          (λ denied. absurd (ground (arith, got, denied)))

    run_vm-left :
        (now later : ℕ) (other : String) (ttl : ℕ) (target : Target) (s : VmState) (dir : List File)
        → (acquire is_word undisturbed s.vm_id s.batch_id 7200000000 now dir).1 ≡ true
        → IsHeld
            (sanitize_vm_id is_word s.vm_id)
            (new_lock is_word s.vm_id s.batch_id 7200000000 now)
            (meanwhile (acquire is_word undisturbed s.vm_id s.batch_id 7200000000 now dir).0)
        → later ≤ now + 7200000000
        → let left = (run_vm params_of lower is_word meanwhile true now target s dir).1 in
          acquire is_word undisturbed s.vm_id other ttl later left ≡ (left, false)
    unfolding run_vm
    run_vm-left now later other ttl target s dir got held in_time =
        let own = new_lock is_word s.vm_id s.batch_id 7200000000 now in
        rw got (
          acquire-held is_word undisturbed s.vm_id other ttl later own
            (meanwhile (acquire is_word undisturbed s.vm_id s.batch_id 7200000000 now dir).0) held
            (ground (arith, in_time)))

    -- If the graph got the lock and the lock file is its own at the end, then a run in which no node
    -- raises leaves no lock file of the VM, whatever the actions have led to; and a run in which a
    -- node raises leaves the lock, so that every acquire for the VM fails up to the end of its two hours.
    pub run_vm_unlocks :
        (now later : ℕ) (other : String) (ttl : ℕ) (target : Target) (s : VmState) (dir : List File)
        → (acquire is_word undisturbed s.vm_id s.batch_id 7200000000 now dir).1 ≡ true
        → IsHeld
            (sanitize_vm_id is_word s.vm_id)
            (new_lock is_word s.vm_id s.batch_id 7200000000 now)
            (meanwhile (acquire is_word undisturbed s.vm_id s.batch_id 7200000000 now dir).0)
        → later ≤ now + 7200000000
        → (file_at
              (sanitize_vm_id is_word s.vm_id)
              (run_vm params_of lower is_word meanwhile false now target s dir).1
            ≡ none)
          × (let left = (run_vm params_of lower is_word meanwhile true now target s dir).1 in
              acquire is_word undisturbed s.vm_id other ttl later left ≡ (left, false))
    run_vm_unlocks now later other ttl target s dir got held in_time = (
      run_vm-freed now target s dir got held,
      run_vm-left now later other ttl target s dir got held in_time,
    )
