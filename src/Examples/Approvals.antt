-- ===== src/Examples/Approvals.antt =====
-- Two batches that go through errander/safety/approval_store.py.
use mathlib.Core.Option
use errander_ai.Common.{
  ℕ, ◌+◌, ◌≤◌, String, ◌≡◌, refl, Bool, true, false, Option, none, some, List, [], ◌∷◌, arith,
  count_where, find_where, update_where,
}
use errander_ai.Approval.{Row, pending, approved}
use errander_ai.Approval.Store.{ApprovalStore, NewRequest}
use errander_ai.Approval.Store.Run.{Op, create_request, decision, give_up, claim, step, run}
use errander_ai.Approval.Store.Keys.{HasUniqueKeys, row_of}
use errander_ai.Approval.Store.Decisions.{verdict, decisions, decision_final}
use errander_ai.Approval.Store.Claims.{
  claims, approves, count_ops, claimable, one_claim, claims_need_approval,
}
use errander_ai.Approval.Wait.{Round, wait_for_decision}
use errander_ai.Approval.Wait.Returns.{Settled, wait_for_decision-Settled}

abbrev empty : ApprovalStore
empty = record { rows = []; waiters = [] }

empty-HasUniqueKeys : HasUniqueKeys empty
unfolding count_where
empty-HasUniqueKeys = record { unique = λ id. omega arith }

abbrev patch_web : NewRequest
patch_web = record {
  batch_id = "b1";
  env_name = "prod";
  plan_id = "p1";
  plan_hash = "h1";
  report = "patch web-01";
  vm_plans_json = none;
  timeout_seconds = 1800;
  slack_message_ts = none;
}

abbrev by_ann : ℕ → Bool → Op
by_ann now approve = decision now "b1" approve (some "ui:ann") (some "admin") none

-- Two tabs, a timeout, a second gate and two executors race for one batch.
abbrev race : List Op
race =
    create_request 0 patch_web
    ∷ by_ann 5 true
    ∷ by_ann 6 false
    ∷ give_up 7 "b1"
    ∷ create_request 8 patch_web
    ∷ claim 9 "b1"
    ∷ claim 10 "b1"
    ∷ []

race_decided_once : decisions "b1" empty race ≡ 1
unfolding step count_where find_where update_where
race_decided_once = refl

race_claimed_once : count_ops (claims "b1") empty race ≡ 1
unfolding step count_where find_where update_where
race_claimed_once = refl

one_claim_example : count_ops (claims "b1") empty race ≤ 1
one_claim_example = one_claim "b1" empty race empty-HasUniqueKeys

claims_need_approval_example :
    count_ops (claims "b1") empty race + claimable (row_of (run empty race) "b1")
    ≤ count_ops (approves "b1") empty race + claimable (row_of empty "b1")
claims_need_approval_example = claims_need_approval "b1" empty race empty-HasUniqueKeys

abbrev approved_web : Row
approved_web = record {
  batch_id = "b1";
  env_name = "prod";
  plan_id = "p1";
  plan_hash = "h1";
  report = "patch web-01";
  vm_plans_json = none;
  posted_at = 0;
  expires_at = 1800000000;
  status = approved;
  slack_message_ts = none;
  decided_by = some "ui:ann";
  decided_by_group = some "admin";
  decided_at = some 5;
  approved_items_json = none;
  execution_started_at = none;
}

abbrev after_approval : ApprovalStore
after_approval = run empty (create_request 0 patch_web ∷ by_ann 5 true ∷ [])

approved_web_found : row_of after_approval "b1" ≡ some approved_web
unfolding run find_where update_where
approved_web_found = refl

decision_final_example :
    Option.map verdict (row_of (run after_approval race) "b1") ≡ some (verdict approved_web)
decision_final_example =
    decision_final race "b1" after_approval approved_web approved_web_found refl

-- Plans as numbers.
abbrev loads : String → Option (List ℕ)
loads text = some (7 ∷ [])

abbrev quiet_round : ℕ → Round
quiet_round now = record {
  now = now;
  before_mark = [];
  marked_at = now;
  before_reread = [];
  elsewhere = [];
}

abbrev pending_web : Row
pending_web = record approved_web {
  status = pending;
  decided_by = none;
  decided_by_group = none;
  decided_at = none;
}

abbrev after_create : ApprovalStore
after_create = run empty (create_request 0 patch_web ∷ [])

pending_web_found : row_of after_create "b1" ≡ some pending_web
unfolding run find_where update_where
pending_web_found = refl

abbrev rounds : List Round
rounds = quiet_round 1 ∷ quiet_round 1900000000 ∷ []

wait_for_decision-Settled_example :
    Settled loads "b1" (wait_for_decision loads "b1" 0 1800 rounds after_create)
wait_for_decision-Settled_example =
    wait_for_decision-Settled loads "b1" 0 1800 rounds after_create pending_web pending_web_found
      refl
