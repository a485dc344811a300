-- ===== src/Examples/Recoveries.antt =====
-- An approval that a restart orphans outside its window, through the jobs of errander/main.py.
use errander_ai.Common.{
  ℕ, ◌+◌, ◌≤◌, String, ◌≡◌, refl, false, Option, none, some, List, [], ◌∷◌, map, arith, count_where,
  find_where, update_where, select_where, order_by,
}
use errander_ai.Approval.{Row, approved}
use errander_ai.Approval.Store.{
  ApprovalStore, get, expire_overdue, get_orphaned_approved, mark_execution_started, has_waiter,
}
use errander_ai.Approval.Store.Run.{run}
use errander_ai.Approval.Store.Keys.{HasUniqueKeys}
use errander_ai.Batch.Gate.{WindowView}
use errander_ai.Deferred.{
  DeferredExecution, of_batch, save, get_pending, mark_executing, mark_done, expire_old, inserted,
}
use errander_ai.Deferred.Pending.{waiting_in}
use errander_ai.Recovery.{
  Progress, BatchRun, save_all, launch_batch, open_one, open_all, window_opener, deliver,
  reconcile_one, reconcile_all, approval_reconciler,
}
use errander_ai.Deferred.Ready.{TakesUp}
use errander_ai.Recovery.Opener.{launches, hand_offs_of, launched_ids, window_opener-launched}
use errander_ai.Recovery.Jobs.{Job, opens, reconciles, run_job, run_jobs, run_jobs_launch_once}

abbrev approved_b1 : Row
approved_b1 = record {
  batch_id = "b1";
  env_name = "prod";
  plan_id = "p1";
  plan_hash = "h1";
  report = "";
  vm_plans_json = some "[web]";
  posted_at = 0;
  expires_at = 100;
  status = approved;
  slack_message_ts = none;
  decided_by = some "ui:ann";
  decided_by_group = none;
  decided_at = some 50;
  approved_items_json = none;
  execution_started_at = none;
}

abbrev orphaned : ApprovalStore
orphaned = record { rows = approved_b1 ∷ []; waiters = [] }

abbrev at_restart : Progress String
at_restart = record {
  approvals = orphaned;
  deferred = [];
  launched = [];
  handed = [];
  raised = false;
}

-- A column with a list of one text.
abbrev one_text : String → Option (List String)
one_text text = some (text ∷ [])

abbrev plan_text : String → List String → String
plan_text id plans = id

abbrev quiet : BatchRun String
quiet = record { writes = λ l p. []; hand_offs = λ l p. []; raises = λ l p. false }

abbrev closed_until : ℕ → String → Option (Option WindowView)
closed_until start env = some (some (record { is_open = false; next_open = start }))

-- The reconciler runs twice and the opener twice.
abbrev jobs : List (Job String)
jobs =
    reconciles (closed_until 500000000) 200000000 quiet
    ∷ reconciles (closed_until 500000000) 300000000 quiet
    ∷ opens "prod" 500000000 quiet
    ∷ opens "prod" 600000000 quiet
    ∷ []

executed_once : launches "b1" (run_jobs one_text plan_text at_restart jobs).launched ≡ 1
unfolding run_jobs count_where run_job window_opener open_all open_one get_pending order_by
    select_where expire_old update_where approval_reconciler reconcile_all get_orphaned_approved
    expire_overdue reconcile_one has_waiter mark_execution_started deliver launch_batch save_all
    save find_where mark_executing mark_done get run inserted
executed_once = refl

orphaned-HasUniqueKeys : HasUniqueKeys orphaned
unfolding count_where
orphaned-HasUniqueKeys = record { unique = λ id. ground arith }

nothing_deferred : count_where (of_batch "b1") [] ≤ 1
unfolding count_where
nothing_deferred = omega arith

run_jobs_launch_once_example :
    launches "b1" (run_jobs one_text plan_text at_restart jobs).launched + hand_offs_of "b1" []
    ≤ 1
      + launches {Item = String} "b1" []
      + waiting_in "b1" []
      + hand_offs_of "b1" (run_jobs one_text plan_text at_restart jobs).handed
run_jobs_launch_once_example =
    run_jobs_launch_once one_text plan_text "b1" at_restart jobs orphaned-HasUniqueKeys
      nothing_deferred

abbrev deferred_b1 : DeferredExecution
deferred_b1 = inserted 200000000 (record {
  batch_id = "b1";
  env_name = "prod";
  approved_by = some "ui:ann";
  window_start = 500000000;
  plan_json = some "p1";
  plan_hash = some "h1";
})

abbrev waits_for_window : Progress String
waits_for_window = record at_restart { deferred = deferred_b1 ∷ [] }

one_deferred : count_where (of_batch "b1") waits_for_window.deferred ≤ 1
unfolding count_where
one_deferred = ground arith

no_batch_raises : (window_opener one_text quiet "prod" 500000000 waits_for_window).raised ≡ false
unfolding window_opener open_all get_pending order_by select_where expire_old update_where inserted
    open_one launch_batch
no_batch_raises = refl

window_opener-launched_example :
    (rows : List DeferredExecution) × (launched_ids
        (window_opener one_text quiet "prod" 500000000 waits_for_window).launched
      ≡ map (λ r. r.batch_id) rows)
    × TakesUp "prod" 500000000 waits_for_window.deferred rows
window_opener-launched_example =
    window_opener-launched one_text quiet "prod" 500000000 waits_for_window no_batch_raises
