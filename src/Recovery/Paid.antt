-- ===== src/Recovery/Paid.antt =====
-- errander/main.py: what pays for a launch, and that the window opener pays.
use errander_ai.Common.{
  ℕ, ◌+◌, ◌≤◌, String, ◌≡◌, refl, sym, ap, ◌∙◌, Bool, false, Option, List, [], ◌∷◌, ◌++◌, arith,
  if_holds, count_where,
}
use errander_ai.Approval.Store.{ApprovalStore}
use errander_ai.Approval.Store.Run.{Op, step, run}
use errander_ai.Approval.Store.Claims.{claims, count_ops}
use errander_ai.Deferred.{
  DeferredExecution, HandOff, of_batch, save, get_pending, mark_executing, expire_old,
}
use errander_ai.Deferred.Pending.{
  waiting_in, unique-save, unique-mark_executing, unique-mark_done, unique-expire_old,
}
use errander_ai.Recovery.{
  Progress, BatchRun, save_all, launch_batch, launch_deferred, open_one, open_all, window_opener,
}
use errander_ai.Recovery.Opener.{launches, hand_offs_of, window_opener-Spends}

run-append : (s : ApprovalStore) (ops more : List Op) → run s (ops ++ more) ≡ run (run s ops) more
unfolding run
run-append s [] more = refl
run-append s (op ∷ ops) more = run-append (step s op) ops more

count_ops-append :
    (test : ApprovalStore → Op → Bool) (s : ApprovalStore) (ops more : List Op)
    → count_ops test s (ops ++ more) ≡ count_ops test s ops + count_ops test (run s ops) more
unfolding run
count_ops-append test s [] more = omega arith
count_ops-append test s (op ∷ ops) more = omega (arith, count_ops-append test (step s op) ops more)

pub unique-save_all :
    (now : ℕ) (id : String) (hs : List HandOff) (rows : List DeferredExecution)
    → count_where (of_batch id) rows ≤ 1
    → count_where (of_batch id) (save_all now hs rows) ≤ 1
unfolding save_all
unique-save_all now id [] rows unique = unique
unique-save_all now id (h ∷ hs) rows unique =
    unique-save_all now id hs (save now h rows) (unique-save now h id rows unique)

module _ {Item : Type 0} where
  -- From one point to a later one the jobs and the other tasks have written to the approval store, and
  -- every new launch or wait of a batch is paid for by a claim that was won or by a hand-off of a
  -- running batch.
  pub record Advances (id : String) (p q : Progress Item) : Type 0 where
    pub writes : List Op
    pub ran : q.approvals ≡ run p.approvals writes
    pub unique : count_where (of_batch id) p.deferred ≤ 1 → count_where (of_batch id) q.deferred ≤ 1
    pub paid :
        count_where (of_batch id) p.deferred ≤ 1
        → launches id q.launched + waiting_in id q.deferred + hand_offs_of id p.handed
          ≤ launches id p.launched
            + waiting_in id p.deferred
            + hand_offs_of id q.handed
            + count_ops (claims id) p.approvals writes

  pub Advances-refl : (id : String) (p : Progress Item) → Advances id p p
  Advances-refl id p = record {
    writes = [];
    ran = unfold run in refl;
    unique = λ u. u;
    paid = λ u. omega arith;
  }

  pub Advances-trans :
      (id : String) (p q r : Progress Item) → Advances id p q → Advances id q r → Advances id p r
  Advances-trans id p q r a b = record {
    writes = a.writes ++ b.writes;
    ran = b.ran ∙ (ap (λ s. run s b.writes) a.ran ∙ sym (run-append p.approvals a.writes b.writes));
    unique = λ u. b.unique (a.unique u);
    paid = λ u.
        let split = count_ops-append (claims id) p.approvals a.writes b.writes in
        let same : count_ops (claims id) q.approvals b.writes
            ≡ count_ops (claims id) (run p.approvals a.writes) b.writes =
          ap (λ s. count_ops (claims id) s b.writes) a.ran in
        omega (arith, a.paid u, b.paid (a.unique u), split, same);
  }

module _ {Item : Type 0} (loads : String → Option (List Item)) (batches : BatchRun Item) where
  record Keeps (id : String) (p q : Progress Item) : Type 0 where
    writes : List Op
    ran : q.approvals ≡ run p.approvals writes
    unique : count_where (of_batch id) p.deferred ≤ 1 → count_where (of_batch id) q.deferred ≤ 1

  Keeps-trans : (id : String) (p q r : Progress Item) → Keeps id p q → Keeps id q r → Keeps id p r
  Keeps-trans id p q r a b = record {
    writes = a.writes ++ b.writes;
    ran = b.ran ∙ (ap (λ s. run s b.writes) a.ran ∙ sym (run-append p.approvals a.writes b.writes));
    unique = λ u. b.unique (a.unique u);
  }

  open_one-Keeps :
      (now : ℕ) (id : String) (p : Progress Item) (r : DeferredExecution)
      → Keeps id p (open_one loads batches now p r)
  unfolding open_one launch_batch
  open_one-Keeps now id p r =
      let l = launch_deferred loads p.approvals r in
      let rows = mark_executing r.batch_id p.deferred in
      let started : Progress Item = record p { deferred = rows } in
      let hs = batches.hand_offs l started in
      record {
        writes = batches.writes l started;
        ran = refl;
        unique = λ u.
            unique-mark_done now id r.batch_id (save_all now hs rows)
              (unique-save_all now id hs rows (unique-mark_executing id r.batch_id p.deferred u));
      }

  open_all-Keeps :
      (now : ℕ) (id : String) (p : Progress Item) (rows : List DeferredExecution)
      → Keeps id p (open_all loads batches now p rows)
  unfolding open_all
  open_all-Keeps now id p [] = record { writes = []; ran = unfold run in refl; unique = λ u. u }
  open_all-Keeps now id p (r ∷ rows) =
      let next = open_one loads batches now p r in
      let rest = open_all loads batches now next rows in
      if_holds (Keeps id p) next.raised (λ _. open_one-Keeps now id p r)
        (λ _.
          Keeps-trans id p next rest (open_one-Keeps now id p r) (open_all-Keeps now id next rows))

  pub window_opener-Advances :
      (env : String) (now : ℕ) (id : String) (p : Progress Item)
      → Advances id p (window_opener loads batches env now p)
  unfolding window_opener
  window_opener-Advances env now id p =
      let rows = (expire_old now p.deferred).0 in
      let k =
        open_all-Keeps now id (record p { deferred = rows; raised = false })
          (get_pending env now rows) in
      record {
        writes = k.writes;
        ran = k.ran;
        unique = λ u. k.unique (unique-expire_old now id p.deferred u);
        paid = λ u.
            unfold window_opener in
            (omega (arith, (window_opener-Spends loads batches env now id p u).balance));
      }
