-- ===== src/Examples/Batches.antt =====
-- Batches of one or three machines that go through errander/agent/graph.py.
use errander_ai.Common.{
  ℕ, String, ◌≡◌, ◌≢◌, refl, ap, str_eq, true, false, Option, none, some, List, [], ◌∷◌, All, arith,
  find_where, update_where, count_where,
}
use errander_ai.Approval.Store.{ApprovalStore}
use errander_ai.Approval.Store.Run.{decision}
use errander_ai.Approval.Wait.{wait_for_decision}
use errander_ai.Batch.State.{
  Package, PlannedAction, VmPlan, ApprovedItem, BatchState, effective_vm_plans, artifact_too_old,
}
use errander_ai.Batch.Gate.{
  GateConfig, WindowView, Meanwhile, finished, approval_gate, ask, after_wait, announce, act_on,
  settle,
}
use errander_ai.Batch.Gate.Routes.{to_waves, ended, after_gate}
use errander_ai.Batch.Gate.Outcomes.{WonClaim}
use errander_ai.Batch.Gate.Live.{live_execution-WonClaim}
use errander_ai.Batch.Gate.Window.{Defers, outside_window-Defers}
use errander_ai.Batch.Front.{Artifact, Timestamp, aged, load_deferred_artifact}
use errander_ai.Batch.Front.Replay.{Verified, replay_execution}
use errander_ai.Batch.Dispatch.{approved_actions, selection, dispatch_vm}
use errander_ai.Batch.Dispatch.Selected.{InstallsOnly, dispatch_vm-InstallsOnly}

abbrev openssl : Package
openssl = record { name = "openssl"; target = "3.0.2" }

abbrev curl : Package
curl = record { name = "curl"; target = "8.5" }

abbrev patch_both : PlannedAction
patch_both = record {
  action_type = "patching";
  risk_tier = "medium";
  packages = some (openssl ∷ curl ∷ []);
}

abbrev web_plan : VmPlan
web_plan = record { vm_id = "web"; planned_actions = patch_both ∷ [] }

abbrev live_batch : BatchState
live_batch = record {
  batch_id = "b1";
  env_name = "prod";
  env_policy = "strict";
  plan_id = "p1";
  plan_hash = "web";
  dry_run = false;
  force = false;
  error = none;
  approved = none;
  deferred = false;
  healthy_targets = "web" ∷ [];
  failed_targets = [];
  vm_plans = web_plan ∷ [];
  enriched_vm_plans = [];
  is_deferred_replay = false;
  preloaded_plan_json = "";
  preloaded_plan_hash = "";
  preloaded_approved_at = "";
  operator_approved_packages = [];
}

-- The plans' hash is the name of the first VM, and an item stands for itself.
abbrev first_vm : String → String → List VmPlan → String
first_vm batch env [] = "none"
first_vm batch env (p ∷ ps) = p.vm_id

abbrev load_items : String → Option (List ApprovedItem)
load_items text = none

abbrev dump_items : List ApprovedItem → String
dump_items items = "[]"

abbrev as_item : VmPlan → ApprovedItem
as_item p = record { vm_id = p.vm_id; action_type = "patching"; packages = none }

abbrev same_item : ApprovedItem → ApprovedItem
same_item item = item

abbrev title : BatchState → String
title s = "patch web"

abbrev guarded : GateConfig
guarded = record {
  approval_timeout_seconds = 1800;
  require_live_approval = false;
  autonomous_live_apply_enabled = false;
  has_deferred_store = true;
}

-- Somebody approves while the gate waits.
abbrev calm : Option WindowView → Meanwhile
calm window = record {
  created_at = 0;
  slack_ts = some "171.5";
  after_create = [];
  before_wait = decision 5 "b1" true (some "ui:ann") (some "admin") none ∷ [];
  wait_start = 6;
  rounds =
      record { now = 7; before_mark = []; marked_at = 7; before_reread = []; elsewhere = [] } ∷ [];
  before_claim = [];
  claimed_at = 8;
  window = window;
}

abbrev no_requests : Option ApprovalStore
no_requests = some (record { rows = []; waiters = [] })

abbrev executed : BatchState
executed = record live_batch {
  approved = some true;
  deferred = false;
  operator_approved_packages = [];
}

live_run :
    after_gate first_vm
      (approval_gate load_items dump_items as_item same_item title guarded
        (calm none)
        live_batch
        no_requests).outcome
    ≡ to_waves executed
unfolding approval_gate after_gate find_where update_where count_where ask after_wait
    wait_for_decision announce act_on settle
live_run = refl

live_execution-WonClaim_example : WonClaim (calm none) live_batch (
    approval_gate load_items dump_items as_item same_item title guarded
      (calm none)
      live_batch
      no_requests)
live_execution-WonClaim_example =
    live_execution-WonClaim first_vm load_items dump_items as_item same_item title guarded
      (calm none) live_batch executed no_requests refl refl refl live_run

abbrev shut_window : WindowView
shut_window = record { is_open = false; next_open = 90 }

deferred_run :
    (approval_gate load_items dump_items as_item same_item title guarded
      (calm (some shut_window))
      live_batch
      no_requests).outcome
    ≡ finished (record live_batch { approved = some true; deferred = true })
unfolding approval_gate find_where update_where count_where ask after_wait wait_for_decision
    announce act_on settle
deferred_run = refl

outside_window-Defers_example :
    Defers guarded shut_window live_batch
      (approval_gate load_items dump_items as_item same_item title guarded
        (calm (some shut_window))
        live_batch
        no_requests)
      (record live_batch { approved = some true; deferred = true })
    × (after_gate first_vm (finished (record live_batch { approved = some true; deferred = true }))
        ≡ ended)
outside_window-Defers_example =
    outside_window-Defers first_vm load_items dump_items as_item same_item title guarded
      (calm (some shut_window)) live_batch
      (record live_batch { approved = some true; deferred = true }) no_requests shut_window refl
      refl refl refl deferred_run refl

abbrev dry_batch : BatchState
dry_batch = record live_batch { dry_run = true }

abbrev db_plan : VmPlan
db_plan = record { vm_id = "db"; planned_actions = [] }

db_is_not_web : ◌≢◌ {A = String} "db" "web"
db_is_not_web e =
    let same : false ≡ true = ap (λ vm. str_eq vm "web") e in absurd (ground (arith, same))

-- A replay of the batch, fresh or stale.
abbrev replay_batch : BatchState
replay_batch = record live_batch {
  plan_hash = "";
  vm_plans = [];
  is_deferred_replay = true;
  preloaded_plan_json = "stored";
  preloaded_plan_hash = "web";
  preloaded_approved_at = "monday";
}

abbrev aged_by : ℕ → String → Timestamp
aged_by seconds text = aged seconds

abbrev parse_stored : String → Option Artifact
parse_stored text = some (record { vm_plans = some (web_plan ∷ []); plan_id = some "p1" })

abbrev replayed : BatchState
replayed = record replay_batch {
  enriched_vm_plans = web_plan ∷ [];
  plan_id = "p1";
  plan_hash = "web";
  approved = some true;
}

replay_run :
    after_gate first_vm
      (approval_gate load_items dump_items as_item same_item title guarded
        (calm none)
        (load_deferred_artifact first_vm (aged_by 60) parse_stored replay_batch)
        no_requests).outcome
    ≡ to_waves replayed
unfolding approval_gate after_gate load_deferred_artifact
replay_run = refl

replay_execution_example :
    Verified first_vm
      (aged_by 60)
      parse_stored
      replay_batch
      (load_deferred_artifact first_vm (aged_by 60) parse_stored replay_batch)
    × (effective_vm_plans replayed
        ≡ effective_vm_plans
            (load_deferred_artifact first_vm (aged_by 60) parse_stored replay_batch))
replay_execution_example =
    replay_execution first_vm (aged_by 60) parse_stored load_items dump_items as_item same_item
      title guarded (calm none) replay_batch replayed no_requests replay_run

stale_artifact :
    (load_deferred_artifact first_vm (aged_by 700000) parse_stored replay_batch).error
    ≡ some artifact_too_old
unfolding load_deferred_artifact
stale_artifact = refl

abbrev ticked : List Package → BatchState
ticked pkgs = record executed { operator_approved_packages = ("web", pkgs) ∷ [] }

one_ticked :
    selection (ticked (openssl ∷ [])).operator_approved_packages "web" ≡ some (openssl ∷ [])
unfolding selection
one_ticked = refl

dispatch_vm-InstallsOnly_example :
    All (InstallsOnly (openssl ∷ [])) (dispatch_vm (ticked (openssl ∷ [])) "web").planned_actions
dispatch_vm-InstallsOnly_example =
    dispatch_vm-InstallsOnly (ticked (openssl ∷ [])) "web" (openssl ∷ []) one_ticked refl

none_ticked : selection (ticked []).operator_approved_packages "web" ≡ some []
unfolding selection
none_ticked = refl

web_planned : approved_actions (effective_vm_plans (ticked [])) "web" ≡ some (patch_both ∷ [])
unfolding approved_actions
web_planned = refl
