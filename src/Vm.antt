-- ===== src/Vm.antt =====
-- errander/agent/vm_graph.py: the graph that works off the actions of one VM under its lock, with the
-- validators of errander/safety/validators.py before each action.
pub mod Validate
pub mod Admitted
pub mod Loop
pub mod Preflight
pub mod Locked
use errander_ai.Common.{
  ℕ, zero, suc, ◌+◌, String, Bool, true, false, not, ◌&&◌, ◌||◌, Option, none, some, List, [], ◌∷◌,
  ◌++◌, str_eq, ltb, leb, ◌==◌, if◌then◌else◌, length, get_elem?, any,
}
use errander_ai.Batch.State.{PlannedAction, parse_tier}
use errander_ai.Batch.Dispatch.{VmDispatch}
use errander_ai.Proposals.{codes}
use errander_ai.Lock.{undisturbed, LockInfo, File, acquire, release}
use Validate.{ActionType, parse_action_type, is_scheduled, Params, Action, validate_action}

-- `ActionStatus`.
pub data ActionStatus : Type 0 where
  status_pending skipped dry_run_ok success failed rolled_back rollback_failed needs_manual
        blocked :
      ActionStatus

-- A result dict, without its times and texts.
pub record ActionResult : Type 0 where
  pub action_type : String
  pub status : ActionStatus

-- What the nodes write to `error`.
pub data VmError : Type 0 where
  not_in_plan already_locked discovery_failed drift_detected preflight_failed : VmError

-- `VMGraphState`, with the actions that went to a sub-graph and the SSH probes of the sudo preflight.
pub record VmState : Type 0 where
  pub vm_id : List ℕ
  pub batch_id : String
  pub dry_run : Bool
  pub planned_actions : List PlannedAction
  pub pre_approved_plan_set : Bool
  pub current_action_index : ℕ
  pub results : List ActionResult
  pub locked : Bool
  pub error : Option VmError
  pub ran : List PlannedAction
  pub probes : ℕ

-- What the target VM does: whether discovery succeeds, whether drift aborts the run, what
-- `prioritize_actions` plans for it, whether the sudo probe passes, how the sub-graph of the action at
-- an index ends, and the disk usage that the gate reads after it, if it can.
pub record Target : Type 0 where
  pub is_discovered : Bool
  pub has_aborting_drift : Bool
  pub replanned : List PlannedAction
  pub sudo_works : Bool
  pub outcome : ℕ → ActionStatus
  pub disk_pct : ℕ → Option ℕ

-- The state that `dispatch_current_wave` sends.
unfoldable pub start_state : String → Bool → VmDispatch → VmState
start_state batch dry_run d = record {
  vm_id = codes d.vm_id;
  batch_id = batch;
  dry_run = dry_run;
  planned_actions = d.planned_actions;
  pre_approved_plan_set = d.pre_approved_plan_set;
  current_action_index = 0;
  results = [];
  locked = false;
  error = if d.refused then some not_in_plan else none;
  ran = [];
  probes = 0;
}

abbrev pub fail : VmError → VmState → VmState
fail e s = record s { error = some e }

abbrev pub has_error : VmState → Bool
has_error s = elim s.error [ none ↦ false | some _ ↦ true ]

unfoldable pub discover : Target → VmState → VmState
discover target s = if target.is_discovered then s else fail discovery_failed s

unfoldable pub drift_check : Target → VmState → VmState
drift_check target s = if target.has_aborting_drift then fail drift_detected s else s

unfoldable pub plan_actions : Target → VmState → VmState
plan_actions target s = record s { planned_actions = target.replanned; current_action_index = 0 }

-- `sudo_preflight_node`: the probe is for live runs only.
unfoldable pub sudo_preflight : Target → VmState → VmState
sudo_preflight target s = if s.dry_run then s else record s {
  probes = suc s.probes;
  error = if target.sudo_works then s.error else some preflight_failed;
}

abbrev pub add_result : String → ActionStatus → VmState → VmState
add_result type status s = record s {
  results = s.results ++ (record { action_type = type; status = status }) ∷ [];
  current_action_index = suc s.current_action_index;
}

abbrev pub last_type : List ActionResult → String
last_type [] = ""
last_type (r ∷ []) = r.action_type
last_type (r ∷ q ∷ rest) = last_type (q ∷ rest)

abbrev pub frees_disk : String → Bool
frees_disk type = str_eq type "disk_cleanup" || str_eq type "log_rotation"

abbrev pub is_patching : Option PlannedAction → Bool
is_patching none = false
is_patching (some a) = str_eq a.action_type "patching"

abbrev pub is_full : Option ℕ → Bool
is_full none = false
is_full (some pct) = leb 95 pct

-- `params_of` is what the action's dict has under `params`, which `validate_action` looks at. The packages
-- that the patching sub-graph installs come from the dict's preview, which is not looked at. `lower` is
-- Python's `str.lower` with the code points of the result.
module _ (params_of : PlannedAction → Params) (lower : String → List ℕ) where
  abbrev pub typed : PlannedAction → Option ActionType → Option Action
  typed a none = none
  typed a (some type) = elim (parse_tier a.risk_tier) [
    | none ↦ none
    | some tier ↦ some (record { action_type = type; risk_tier = tier; params = params_of a })
  ]

  -- `Action(...)`; `none` is the ValueError.
  abbrev pub action_of : PlannedAction → Option Action
  action_of a = typed a (parse_action_type a.action_type)

  -- Whether the action goes to a sub-graph: it is well formed, it passes `validate_action`, and there is
  -- a sub-graph for its type.
  abbrev pub is_runnable : Option Action → Bool
  is_runnable none = false
  is_runnable (some a) = validate_action lower a && is_scheduled a.action_type

  abbrev pub dispatch_at : Target → VmState → Option PlannedAction → VmState
  dispatch_at target s none = s
  dispatch_at target s (some a) =
      if is_runnable (action_of a)
      then record (add_result a.action_type (target.outcome s.current_action_index) s) {
        ran = s.ran ++ a ∷ [];
      }
      else add_result a.action_type skipped s

  -- `dispatch_action_node`.
  unfoldable pub dispatch_action : Target → VmState → VmState
  dispatch_action target s =
      dispatch_at target s (get_elem? s.planned_actions s.current_action_index)

  -- `post_cleanup_disk_gate_node`.
  unfoldable pub post_cleanup_disk_gate : Target → VmState → VmState
  post_cleanup_disk_gate target s =
      if frees_disk (last_type s.results)
        && (is_patching (get_elem? s.planned_actions s.current_action_index)
            && is_full (target.disk_pct s.current_action_index))
      then add_result "patching" skipped s
      else s

  -- The cycle dispatch_action, post_cleanup_disk_gate, check_more_actions; `none` says that the fuel
  -- ran out.
  unfoldable pub action_loop : ℕ → Target → VmState → Option VmState
  action_loop zero target s = none
  action_loop (suc fuel) target s =
      let s' = post_cleanup_disk_gate target (dispatch_action target s) in
      let rest = action_loop fuel target s' in
      if ltb s'.current_action_index (length s'.planned_actions) then rest else some s'

  -- The rounds that the cycle may need.
  abbrev pub work : Target → VmState → Option VmState
  work target s = action_loop (suc (length s.planned_actions)) target s

  -- `route_after_sudo_preflight`.
  abbrev pub after_preflight : Target → VmState → Option VmState
  after_preflight target s = let done = work target s in if has_error s then some s else done

  abbrev pub approved_work : Target → VmState → List PlannedAction → Option VmState
  approved_work target s [] = some s
  approved_work target s (a ∷ rest) = work target s

  -- `route_after_drift_check`, with the nodes that it leads to before `audit_results`.
  unfoldable pub after_drift_check : Target → VmState → Option VmState
  after_drift_check target s =
      let approved = approved_work target s s.planned_actions in
      let planned = after_preflight target (sudo_preflight target (plan_actions target s)) in
      if has_error s then some s else if s.pre_approved_plan_set then approved else planned

  -- `route_after_discover`; the snapshot nodes between change nothing that is modelled.
  unfoldable pub after_discover : Target → VmState → Option VmState
  after_discover target s =
      let checked = after_drift_check target (drift_check target s) in
      if has_error s then some s else checked

  -- The graph between the lock and its release.
  unfoldable pub under_lock : Target → VmState → Option VmState
  under_lock target s = after_discover target (discover target s)

  -- `acquire_lock_node` with the default time to live of two hours, the graph, and `release_lock_node`.
  -- `meanwhile` is what other processes do to the lock directory while the graph runs. `raises` says that
  -- a node raises an exception on the way, a write of the audit trail for one: then `ainvoke` ends, no
  -- later node runs, `release_lock_node` least of all, and there is no final state.
  unfoldable pub run_vm :
      (ℕ → Bool)
      → (List File → List File)
      → Bool
      → ℕ
      → Target
      → VmState
      → List File
      → Option VmState × List File
  run_vm is_word meanwhile raises now target s dir =
      let (dir', got) = acquire is_word undisturbed s.vm_id s.batch_id 7200000000 now dir in
      let done = under_lock target (record s { locked = true }) in
      if got
      then (if raises then (none, meanwhile dir') else (
        elim done [ none ↦ none | some t ↦ some (record t { locked = false }) ],
        (release is_word s.vm_id s.batch_id (meanwhile dir')).0,
      ))
      else (some (record s { locked = false; error = some already_locked }), dir')
