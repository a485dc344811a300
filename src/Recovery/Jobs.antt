-- ===== src/Recovery/Jobs.antt =====
-- errander/main.py: the window opener, the approval reconciler and the other tasks of the agent, one
-- after another in any order.
use errander_ai.Common.{
  ℕ, ◌+◌, ◌≤◌, String, ◌≡◌, refl, Option, List, [], ◌∷◌, ◌++◌, arith, count_where,
  count_where-append,
}
use errander_ai.Approval.Store.Run.{Op, run}
use errander_ai.Approval.Store.Keys.{HasUniqueKeys}
use errander_ai.Approval.Store.Claims.{one_claim}
use errander_ai.Batch.Gate.{WindowView}
use errander_ai.Deferred.{HandOff, of_batch}
use errander_ai.Deferred.Pending.{waiting_in}
use errander_ai.Recovery.{Progress, BatchRun, save_all, window_opener, approval_reconciler}
use errander_ai.Recovery.Opener.{launches, hand_offs_of, save_all-waiting}
use errander_ai.Recovery.Paid.{
  Advances, Advances-refl, Advances-trans, unique-save_all, window_opener-Advances,
}
use errander_ai.Recovery.Claimed.{approval_reconciler-Advances}

-- A run of one of the two jobs, with the instant and with what the batches do that it executes; or what
-- all other tasks do to the two stores, the first run of a batch with its deferral included.
pub data Job (Item : Type 0) : Type 0 where
  opens : String → ℕ → BatchRun Item → Job Item
  reconciles : (String → Option (Option WindowView)) → ℕ → BatchRun Item → Job Item
  other_tasks : ℕ → List Op → List HandOff → Job Item

module _ {Item : Type 0} (loads : String → Option (List Item))
    (dump_plan : String → List Item → String) where
  unfoldable pub run_job : Progress Item → Job Item → Progress Item
  run_job p (opens env now batches) = window_opener loads batches env now p
  run_job p (reconciles environments now batches) =
      approval_reconciler loads batches environments dump_plan now p
  run_job p (other_tasks now ops hs) = record p {
    approvals = run p.approvals ops;
    deferred = save_all now hs p.deferred;
    handed = p.handed ++ hs;
  }

  unfoldable pub run_jobs : Progress Item → List (Job Item) → Progress Item
  run_jobs p [] = p
  run_jobs p (job ∷ jobs) = run_jobs (run_job p job) jobs

  run_job-Advances :
      (id : String) (p : Progress Item) (job : Job Item) → Advances id p (run_job p job)
  unfolding run_job
  run_job-Advances id p (opens env now batches) = window_opener-Advances loads batches env now id p
  run_job-Advances id p (reconciles environments now batches) =
      approval_reconciler-Advances loads batches environments dump_plan now id p
  run_job-Advances id p (other_tasks now ops hs) =
      let (kept, added) = save_all-waiting now id hs p.deferred in
      let handed : hand_offs_of id (p.handed ++ hs)
          ≡ hand_offs_of id p.handed + hand_offs_of id hs =
        count_where-append _ p.handed hs in
      record {
        writes = ops;
        ran = refl;
        unique = unique-save_all now id hs p.deferred;
        paid = λ u. omega (arith, added, handed);
      }

  run_jobs-Advances :
      (id : String) (p : Progress Item) (jobs : List (Job Item)) → Advances id p (run_jobs p jobs)
  unfolding run_jobs
  run_jobs-Advances id p [] = Advances-refl id p
  run_jobs-Advances id p (job ∷ jobs) =
      let next = run_job p job in
      Advances-trans id p next (run_jobs next jobs) (run_job-Advances id p job)
        (run_jobs-Advances id next jobs)

  -- In any sequence of window openers, reconcilers and other tasks, a batch is launched at most once,
  -- and once more for each pending record that it has at the start and for each time that a running
  -- batch or another task puts it off, if the two tables have one row at most for a batch.
  pub run_jobs_launch_once :
      (id : String) (p : Progress Item) (jobs : List (Job Item))
      → HasUniqueKeys p.approvals
      → count_where (of_batch id) p.deferred ≤ 1
      → launches id (run_jobs p jobs).launched + hand_offs_of id p.handed
        ≤ 1
          + launches id p.launched
          + waiting_in id p.deferred
          + hand_offs_of id (run_jobs p jobs).handed
  run_jobs_launch_once id p jobs keys unique =
      let a = run_jobs-Advances id p jobs in
      omega (arith, a.paid unique, one_claim id p.approvals a.writes keys)
