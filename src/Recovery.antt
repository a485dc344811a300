-- ===== src/Recovery.antt =====
-- errander/main.py: the jobs that carry out what was approved earlier, `_window_opener` and
-- `_approval_reconciler`, over the stores of the approvals and of the deferred batches.
pub mod Opener
pub mod Paid
pub mod Claimed
pub mod Jobs
pub mod Proposed
use errander_ai.Common.{
  ℕ, ◌+◌, ◌*◌, String, Bool, true, false, not, ◌&&◌, ◌||◌, Option, none, some, List, [], ◌∷◌, ◌++◌,
  map, str_eq, ltb, if◌then◌else◌,
}
use errander_ai.Approval.{ApprovalRequest}
use errander_ai.Approval.Store.{
  ApprovalStore, get, expire_overdue, mark_execution_started, get_orphaned_approved, has_waiter,
}
use errander_ai.Approval.Store.Run.{Op, run}
use errander_ai.Batch.Gate.{WindowView}
use errander_ai.Deferred.{
  DeferredExecution, HandOff, save, get_pending, mark_executing, mark_done, expire_old,
}

-- The `preloaded_` arguments of `run_env_batch`; a plan id that is not passed is none.
pub record Replay (Item : Type 0) : Type 0 where
  pub plan_json : String
  pub plan_hash : String
  pub plan_id : Option String
  pub approved_at : ℕ
  pub approved_items : Option (List Item)

-- A live call of `run_env_batch`, with the batch whose approval it stands on. Without a replay the
-- batch plans anew and asks for an approval of its own.
pub record Launch (Item : Type 0) : Type 0 where
  pub batch_id : String
  pub env_name : String
  pub replay : Option (Replay Item)

-- The two stores, and what has happened: the batches that were launched, what running batches have
-- handed to the deferred store, and whether an exception ended the job.
pub record Progress (Item : Type 0) : Type 0 where
  pub approvals : ApprovalStore
  pub deferred : List DeferredExecution
  pub launched : List (Launch Item)
  pub handed : List HandOff
  pub raised : Bool

-- What `run_env_batch`, and the other tasks while it runs, write to the two stores, and whether it
-- raises.
pub record BatchRun (Item : Type 0) : Type 0 where
  pub writes : Launch Item → Progress Item → List Op
  pub hand_offs : Launch Item → Progress Item → List HandOff
  pub raises : Launch Item → Progress Item → Bool

unfoldable pub save_all : ℕ → List HandOff → List DeferredExecution → List DeferredExecution
save_all now [] rows = rows
save_all now (h ∷ more) rows = save_all now more (save now h rows)

-- `none` for a column that is NULL or empty.
abbrev pub filled : Option String → Option String
filled none = none
filled (some text) = if str_eq text "" then none else some text

-- `_RECONCILER_CLAIM_GRACE_SECONDS`, in microseconds.
abbrev pub claim_grace : ℕ
claim_grace = 120 * 1000000

abbrev pub has_plans : {Item : Type 0} → Option (List Item) → Bool
has_plans none = false
has_plans (some []) = false
has_plans (some (p ∷ ps)) = true

abbrev pub or_empty : {Item : Type 0} → Option (List Item) → List Item
or_empty none = []
or_empty (some items) = items

abbrev pub or_now : ℕ → Option ℕ → ℕ
or_now now none = now
or_now now (some t) = t

abbrev pub items_of : {Item : Type 0} → Option (ApprovalRequest Item) → Option (List Item)
items_of none = none
items_of (some request) = request.approved_items

abbrev pub artifact_of :
    {Item : Type 0}
    → DeferredExecution
    → Option (List Item)
    → Option String
    → Option String
    → Option (Replay Item)
artifact_of r items (some plan) (some hash) = some (record {
  plan_json = plan;
  plan_hash = hash;
  plan_id = none;
  approved_at = r.approved_at;
  approved_items = items;
})
artifact_of r items _ _ = none

-- The artifact of a record that has one, with the items of its approval row.
abbrev pub launch_deferred :
    {Item : Type 0}
    → (String → Option (List Item))
    → ApprovalStore
    → DeferredExecution
    → Launch Item
launch_deferred loads approvals r = record {
  batch_id = r.batch_id;
  env_name = r.env_name;
  replay =
      artifact_of r (items_of (get loads approvals r.batch_id)) (filled r.plan_json)
        (filled r.plan_hash);
}

abbrev pub is_fresh : {Item : Type 0} → ℕ → ApprovalRequest Item → Bool
is_fresh now request = elim request.decided_at [ none ↦ false | some t ↦ ltb now (t + claim_grace) ]

-- `dump_plan` is the JSON text of a plan id and its plans.
abbrev pub hand_off :
    {Item : Type 0} → (String → List Item → String) → ApprovalRequest Item → WindowView → HandOff
hand_off dump_plan request view = record {
  batch_id = request.batch_id;
  env_name = request.env_name;
  approved_by = request.decided_by;
  window_start = view.next_open;
  plan_json = some (dump_plan request.plan_id (or_empty request.vm_plans));
  plan_hash = some request.plan_hash;
}

abbrev pub launch_approved :
    {Item : Type 0} → (String → List Item → String) → ℕ → ApprovalRequest Item → Launch Item
launch_approved dump_plan now request = record {
  batch_id = request.batch_id;
  env_name = request.env_name;
  replay = some (record {
    plan_json = dump_plan request.plan_id (or_empty request.vm_plans);
    plan_hash = request.plan_hash;
    plan_id = some request.plan_id;
    approved_at = or_now now request.decided_at;
    approved_items = request.approved_items;
  });
}

abbrev pub claimed : {Item : Type 0} → ℕ → Progress Item → ApprovalRequest Item → Progress Item
claimed now p request = record p {
  approvals = (mark_execution_started p.approvals now request.batch_id).0;
}

module _ {Item : Type 0} (loads : String → Option (List Item)) (batches : BatchRun Item) where
  unfoldable pub launch_batch : ℕ → Launch Item → Progress Item → Progress Item
  launch_batch now l p = record p {
    approvals = run p.approvals (batches.writes l p);
    deferred = save_all now (batches.hand_offs l p) p.deferred;
    launched = p.launched ++ l ∷ [];
    handed = p.handed ++ batches.hand_offs l p;
    raised = batches.raises l p;
  }

  -- One round of the loop of `_window_opener`; its `finally` clause runs also after an exception.
  unfoldable pub open_one : ℕ → Progress Item → DeferredExecution → Progress Item
  open_one now p r =
      let started = record p { deferred = mark_executing r.batch_id p.deferred } in
      let q = launch_batch now (launch_deferred loads p.approvals r) started in
      record q { deferred = mark_done now r.batch_id q.deferred }

  unfoldable pub open_all : ℕ → Progress Item → List DeferredExecution → Progress Item
  open_all now p [] = p
  open_all now p (r ∷ rows) =
      let next = open_one now p r in
      let rest = open_all now next rows in if next.raised then next else rest

  unfoldable pub window_opener : String → ℕ → Progress Item → Progress Item
  window_opener env now p =
      let rows = (expire_old now p.deferred).0 in
      open_all now (record p { deferred = rows; raised = false }) (get_pending env now rows)

  -- `environments.get`, with what the window of an environment says at the present.
  module _ (environments : String → Option (Option WindowView))
      (dump_plan : String → List Item → String) where
    -- What follows a claim that was won: hand-off outside the window, else execution.
    unfoldable pub deliver :
        ℕ → Progress Item → ApprovalRequest Item → Option WindowView → Progress Item
    deliver now p request none = launch_batch now (launch_approved dump_plan now request) p
    deliver now p request (some view) =
        let executed = launch_batch now (launch_approved dump_plan now request) p in
        if view.is_open
        then executed
        else record p { deferred = save now (hand_off dump_plan request view) p.deferred }

    -- The claim, and what follows in an environment that is known.
    abbrev pub execute_claimed :
        ℕ → Progress Item → ApprovalRequest Item → Option (Option WindowView) → Progress Item
    execute_claimed now p request none = p
    execute_claimed now p request (some window) =
        let q = claimed now p request in
        let delivered = deliver now q request window in
        if has_plans request.vm_plans && not (str_eq request.plan_hash "")
        then (if (mark_execution_started p.approvals now request.batch_id).1 then delivered else q)
        else q

    -- One round of the second loop of `_approval_reconciler`.
    unfoldable pub reconcile_one : ℕ → Progress Item → ApprovalRequest Item → Progress Item
    reconcile_one now p request =
        let executed = execute_claimed now p request (environments request.env_name) in
        if has_waiter p.approvals request.batch_id || is_fresh now request then p else executed

    unfoldable pub reconcile_all : ℕ → Progress Item → List (ApprovalRequest Item) → Progress Item
    reconcile_all now p [] = p
    reconcile_all now p (request ∷ requests) =
        let next = reconcile_one now p request in
        let rest = reconcile_all now next requests in if next.raised then next else rest

    unfoldable pub approval_reconciler : ℕ → Progress Item → Progress Item
    approval_reconciler now p =
        let s = (expire_overdue p.approvals now).0 in
        reconcile_all now (record p { approvals = s; raised = false })
          (get_orphaned_approved loads s)
