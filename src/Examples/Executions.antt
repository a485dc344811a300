-- ===== src/Examples/Executions.antt =====
-- An approved proposal, executed by `_proposal_reconciler` of errander/main.py.
use errander_ai.Common.{
  ℕ, ◌+◌, ◌≤◌, String, ◌≡◌, refl, Bool, true, false, Option, none, some, List, [], ◌∷◌, arith,
  count_where, find_where, update_where, select_where, order_by, delete_where,
}
use errander_ai.Proposals.{codes, action, pending, approved, snoozed}
use errander_ai.Proposals.Store.{
  Row, expire_overdue, wake_snoozed, mark_execution_started, set_execution_status,
}
use errander_ai.Proposals.Store.Reads.{get_approved_unclaimed}
use errander_ai.Proposals.Store.Run.{run}
use errander_ai.Proposals.Store.Claims.{HasUniqueIds}
use errander_ai.Lock.{
  LockInfo, lock, sanitize_vm_id, acquire, release, read_lock, write_lock, same_name,
}
use errander_ai.Lock.Files.{IsHeld}
use errander_ai.Recovery.Proposed.{
  EnvironmentSchema, Work, SubgraphRun, reconcile_proposal, reconcile_proposals,
  proposal_reconciler, lock_and_execute, execute_locked, fail_closed, resolve_action,
}
use errander_ai.Recovery.Proposed.Once.{executions}
use errander_ai.Recovery.Proposed.Passes.{
  clash_blocks, Tick, pass, tick, run_ticks, run_ticks_execute_once,
}

abbrev approved_cleanup : Row
approved_cleanup = record {
  proposal_id = "u1";
  env_name = "prod";
  vm_id = "web";
  kind = action;
  action_type = "disk_cleanup";
  action_key = "disk_cleanup";
  signal_kind = "disk_growth";
  origin = "probe_detector";
  probe_id = "p1";
  evidence_json = "[]";
  confidence = "high";
  status = approved;
  created_at = 0;
  updated_at = 1;
  expires_at = some 900;
  decided_by = some "ui:ann";
  decided_by_group = none;
  decided_at = some 1;
  snoozed_until = none;
  execution_started_at = none;
  execution_status = none;
}

abbrev prod : String → Option EnvironmentSchema
prod name = some (record {
  targets = (record { name = "web"; actions = [] }) ∷ [];
  actions = ("disk_cleanup", true) ∷ [];
  window = none;
})

abbrev succeeds : SubgraphRun ℕ
succeeds = record { writes = λ r. []; to_locks = λ r dir. dir; status = λ r. some "success" }

abbrev dumps : List ℕ → String
dumps evidence = "[]"

abbrev any_character : ℕ → Bool
any_character c = true

abbrev approved_work : Work
approved_work = record { rows = approved_cleanup ∷ []; locks = []; executed = [] }

abbrev two_passes : List (Tick ℕ)
two_passes = pass false 10 prod succeeds ∷ pass false 20 prod succeeds ∷ []

runs_once : executions "u1" (run_ticks dumps any_character approved_work two_passes).executed ≡ 1
unfolding run_ticks count_where tick proposal_reconciler wake_snoozed update_where expire_overdue
    reconcile_proposals get_approved_unclaimed order_by select_where reconcile_proposal find_where
    lock_and_execute execute_locked fail_closed resolve_action run mark_execution_started
    set_execution_status acquire read_lock write_lock sanitize_vm_id same_name release delete_where
runs_once = refl

approved_work-HasUniqueIds : HasUniqueIds approved_work.rows
unfolding count_where
approved_work-HasUniqueIds = record { unique = λ id. ground arith }

run_ticks_execute_once_example :
    executions "u1" (run_ticks dumps any_character approved_work two_passes).executed
    ≤ executions "u1" [] + 1
run_ticks_execute_once_example =
    run_ticks_execute_once dumps any_character "u1" approved_work two_passes
      approved_work-HasUniqueIds

-- Beside the approved proposal, an open one and a snoozed one of another VM.
abbrev open_db : Row
open_db = record approved_cleanup {
  proposal_id = "u2";
  vm_id = "db";
  status = pending;
  decided_at = none;
}

abbrev snoozed_db : Row
snoozed_db = record approved_cleanup {
  proposal_id = "u3";
  vm_id = "db";
  status = snoozed;
  snoozed_until = some 5;
}

abbrev clashing : Work
clashing = record { rows = approved_cleanup ∷ open_db ∷ snoozed_db ∷ []; locks = []; executed = [] }

clash_blocks_example :
    proposal_reconciler dumps any_character succeeds prod false 10 clashing
    ≡ (record clashing { rows = (expire_overdue clashing.rows 10).0 }, true)
unfolding find_where expire_overdue update_where
clash_blocks_example =
    clash_blocks dumps any_character succeeds prod false 10 "db" "disk_cleanup" clashing
      {r = open_db} {q = snoozed_db} refl refl

abbrev held_by_b0 : LockInfo
held_by_b0 = record { vm_id = codes "web"; batch_id = "b0"; acquired_at = 0; ttl = 7200000000 }

abbrev busy : Work
busy = record approved_work {
  locks = (record { name = codes "web"; content = lock held_by_b0 }) ∷ [];
}

busy-IsHeld :
    IsHeld (sanitize_vm_id any_character (codes approved_cleanup.vm_id)) held_by_b0 busy.locks
unfolding sanitize_vm_id find_where same_name
busy-IsHeld = refl
