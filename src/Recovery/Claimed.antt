-- ===== src/Recovery/Claimed.antt =====
-- errander/main.py: `_approval_reconciler`, which launches a batch only after a claim that it has won.
use errander_ai.Common.{
  ℕ, ◌+◌, ◌≤◌, String, ◌≡◌, refl, ◌∙◌, true, false, not, ◌&&◌, ◌||◌, Option, none, some, List, [],
  ◌∷◌, ◌++◌, arith, str_eq, if◌then◌else◌, if_holds, count_where, count_where-append,
}
use errander_ai.Approval.{ApprovalRequest}
use errander_ai.Approval.Store.{
  expire_overdue, mark_execution_started, get_orphaned_approved, has_waiter,
}
use errander_ai.Approval.Store.Run.{Op, claim, sweep, step, run}
use errander_ai.Approval.Store.Claims.{claims, count_ops}
use errander_ai.Batch.Gate.{WindowView}
use errander_ai.Deferred.{HandOff, of_batch, save}
use errander_ai.Deferred.Pending.{waiting_in, waiting-save, unique-save}
use errander_ai.Recovery.{
  Launch, Progress, BatchRun, launch_batch, is_fresh, hand_off, launch_approved, deliver, claimed,
  execute_claimed, reconcile_one, reconcile_all, approval_reconciler, has_plans,
}
use errander_ai.Recovery.Opener.{launches, hand_offs_of, save_all-waiting}
use errander_ai.Recovery.Paid.{unique-save_all, Advances, Advances-refl, Advances-trans}

abbrev owned : String → String → ℕ
owned id batch = if str_eq batch id then 1 else 0

module _ {Item : Type 0} where
  -- The same for a launch or hand-off of one batch that is still to be paid for.
  record Owes (id batch : String) (p q : Progress Item) : Type 0 where
    writes : List Op
    ran : q.approvals ≡ run p.approvals writes
    unique : count_where (of_batch id) p.deferred ≤ 1 → count_where (of_batch id) q.deferred ≤ 1
    paid :
        launches id q.launched + waiting_in id q.deferred + hand_offs_of id p.handed
        ≤ launches id p.launched
          + waiting_in id p.deferred
          + hand_offs_of id q.handed
          + owned id batch

module _ {Item : Type 0} (loads : String → Option (List Item)) (batches : BatchRun Item) where
  launch_batch-Owes :
      (now : ℕ) (id : String) (l : Launch Item) (p : Progress Item)
      → Owes id l.batch_id p (launch_batch loads batches now l p)
  unfolding launch_batch
  launch_batch-Owes now id l p =
      let hs = batches.hand_offs l p in
      let (kept, added) = save_all-waiting now id hs p.deferred in
      let handed : hand_offs_of id (p.handed ++ hs)
          ≡ hand_offs_of id p.handed + hand_offs_of id hs =
        count_where-append _ p.handed hs in
      let launched : launches id (p.launched ++ l ∷ [])
          ≡ launches id p.launched + (if str_eq l.batch_id id then 1 else 0) =
        count_where-append _ p.launched (l ∷ []) ∙ (unfold count_where in refl) in
      record {
        writes = batches.writes l p;
        ran = refl;
        unique = unique-save_all now id hs p.deferred;
        paid = omega (arith, added, handed, launched);
      }

  module _ (environments : String → Option (Option WindowView))
      (dump_plan : String → List Item → String) where
    put_off-Owes :
        (now : ℕ) (id : String) (p : Progress Item) (h : HandOff)
        → Owes id h.batch_id p (record p { deferred = save now h p.deferred })
    put_off-Owes now id p h = record {
      writes = [];
      ran = unfold run in refl;
      unique = unique-save now h id p.deferred;
      paid = omega (arith, (waiting-save now h id p.deferred).1);
    }

    deliver-Owes :
        (now : ℕ) (id : String) (p : Progress Item) (request : ApprovalRequest Item)
        (window : Option WindowView)
        → Owes id request.batch_id p
            (deliver loads batches environments dump_plan now p request window)
    unfolding deliver
    deliver-Owes now id p request none =
        launch_batch-Owes now id (launch_approved dump_plan now request) p
    deliver-Owes now id p request (some view) =
        if_holds (Owes id request.batch_id p) view.is_open
          (λ _. launch_batch-Owes now id (launch_approved dump_plan now request) p)
          (λ _. put_off-Owes now id p (hand_off dump_plan request view))

    claimed-Advances :
        (now : ℕ) (id : String) (p : Progress Item) (request : ApprovalRequest Item)
        → Advances id p (claimed now p request)
    claimed-Advances now id p request = record {
      writes = claim now request.batch_id ∷ [];
      ran = unfold run step in refl;
      unique = λ u. u;
      paid = λ u. omega arith;
    }

    won-Advances :
        (now : ℕ) (id : String) (p : Progress Item) (request : ApprovalRequest Item)
        (q : Progress Item)
        → (mark_execution_started p.approvals now request.batch_id).1 ≡ true
        → Owes id request.batch_id (claimed now p request) q
        → Advances id p q
    won-Advances now id p request q won o = record {
      writes = claim now request.batch_id ∷ o.writes;
      ran = o.ran ∙ (unfold run step in refl);
      unique = o.unique;
      paid = λ u.
          let wins : count_ops (claims id) p.approvals (claim now request.batch_id ∷ o.writes)
              ≡ (if str_eq request.batch_id id
                    && (mark_execution_started p.approvals now request.batch_id).1
                  then 1
                  else 0)
                + count_ops (claims id) (step p.approvals (claim now request.batch_id)) o.writes =
            refl in
          ground (arith, o.paid, won, wins);
    }

    execute_claimed-Advances :
        (now : ℕ) (id : String) (p : Progress Item) (request : ApprovalRequest Item)
        (env : Option (Option WindowView))
        → Advances id p (execute_claimed loads batches environments dump_plan now p request env)
    execute_claimed-Advances now id p request none = Advances-refl id p
    execute_claimed-Advances now id p request (some window) =
        let q = claimed now p request in
        if_holds (Advances id p) (has_plans request.vm_plans && not (str_eq request.plan_hash ""))
          (λ _.
            if_holds (Advances id p) (mark_execution_started p.approvals now request.batch_id).1
              (λ won.
                won-Advances now id p request
                  (deliver loads batches environments dump_plan now q request window) won
                  (deliver-Owes now id q request window))
              (λ _. claimed-Advances now id p request))
          (λ _. claimed-Advances now id p request)

    reconcile_one-Advances :
        (now : ℕ) (id : String) (p : Progress Item) (request : ApprovalRequest Item)
        → Advances id p (reconcile_one loads batches environments dump_plan now p request)
    unfolding reconcile_one
    reconcile_one-Advances now id p request =
        if_holds (Advances id p) (has_waiter p.approvals request.batch_id || is_fresh now request)
          (λ _. Advances-refl id p)
          (λ _. execute_claimed-Advances now id p request (environments request.env_name))

    reconcile_all-Advances :
        (now : ℕ) (id : String) (p : Progress Item) (requests : List (ApprovalRequest Item))
        → Advances id p (reconcile_all loads batches environments dump_plan now p requests)
    unfolding reconcile_all
    reconcile_all-Advances now id p [] = Advances-refl id p
    reconcile_all-Advances now id p (request ∷ requests) =
        let next = reconcile_one loads batches environments dump_plan now p request in
        let rest = reconcile_all loads batches environments dump_plan now next requests in
        let here = reconcile_one-Advances now id p request in
        if_holds (Advances id p) next.raised (λ _. here)
          (λ _. Advances-trans id p next rest here (reconcile_all-Advances now id next requests))

    pub approval_reconciler-Advances :
        (now : ℕ) (id : String) (p : Progress Item)
        → Advances id p (approval_reconciler loads batches environments dump_plan now p)
    unfolding approval_reconciler
    approval_reconciler-Advances now id p =
        let swept : Progress Item = record p {
          approvals = (expire_overdue p.approvals now).0;
          raised = false;
        } in
        let requests = get_orphaned_approved loads swept.approvals in
        Advances-trans id p swept
          (reconcile_all loads batches environments dump_plan now swept requests)
          (record {
            writes = sweep now ∷ [];
            ran = unfold run step in refl;
            unique = λ u. u;
            paid = λ u. omega arith;
          })
          (reconcile_all-Advances now id swept requests)
