-- ===== src/Approval.antt =====
-- errander/safety/approval_store.py: the durable approval requests. The data are here; the statements
-- are in Approval/Store.antt and the waiting loop in Approval/Wait.antt.
pub mod Store
pub mod Wait
use errander_ai.Common.{
  ℕ, String, Bool, true, false, not, Option, none, some, List, str_eq, if◌then◌else◌,
}

-- The `STATUS_` constants.
pub data Status : Type 0 where
  pending approved rejected timeout : Status

abbrev pub is_pending : Status → Bool
is_pending pending = true
is_pending _ = false

abbrev pub is_approved : Status → Bool
is_approved approved = true
is_approved _ = false

-- One row of the table `approval_requests`. A time is the instant, in microseconds, that its ISO 8601
-- text in UTC stands for.
pub record Row : Type 0 where
  pub batch_id : String
  pub env_name : String
  pub plan_id : String
  pub plan_hash : String
  pub report : String
  pub vm_plans_json : Option String
  pub posted_at : ℕ
  pub expires_at : ℕ
  pub status : Status
  pub slack_message_ts : Option String
  pub decided_by : Option String
  pub decided_by_group : Option String
  pub decided_at : Option ℕ
  pub approved_items_json : Option String
  pub execution_started_at : Option ℕ

-- `Item` is what an entry of the two JSON columns is parsed to.
pub record ApprovalRequest (Item : Type 0) : Type 0 where
  pub batch_id : String
  pub env_name : String
  pub plan_id : String
  pub plan_hash : String
  pub report : String
  pub posted_at : ℕ
  pub expires_at : ℕ
  pub status : Status
  pub vm_plans : Option (List Item)
  pub slack_message_ts : Option String
  pub decided_by : Option String
  pub decided_by_group : Option String
  pub decided_at : Option ℕ
  pub approved_items : Option (List Item)
  pub execution_started_at : Option ℕ

-- `ApprovalRequest.is_decided` and the property `ApprovalRequest.approved`.
unfoldable pub is_decided : {Item : Type 0} → ApprovalRequest Item → Bool
is_decided r = not (is_pending r.status)

unfoldable pub approved? : {Item : Type 0} → ApprovalRequest Item → Option Bool
approved? r = if is_pending r.status then none else some (is_approved r.status)

-- `_json_list`: no list where the column is empty or does not hold one. `loads` is `json.loads`
-- with the test that the result is a list.
unfoldable pub json_list :
    {Item : Type 0} → (String → Option (List Item)) → Option String → Option (List Item)
json_list loads none = none
json_list loads (some text) = if str_eq text "" then none else loads text

-- `_row_to_request`.
unfoldable pub row_to_request :
    {Item : Type 0} → (String → Option (List Item)) → Row → ApprovalRequest Item
unfolding json_list
row_to_request loads row = record {
  batch_id = row.batch_id;
  env_name = row.env_name;
  plan_id = row.plan_id;
  plan_hash = row.plan_hash;
  report = row.report;
  posted_at = row.posted_at;
  expires_at = row.expires_at;
  status = row.status;
  vm_plans = json_list loads row.vm_plans_json;
  slack_message_ts = row.slack_message_ts;
  decided_by = row.decided_by;
  decided_by_group = row.decided_by_group;
  decided_at = row.decided_at;
  approved_items = json_list loads row.approved_items_json;
  execution_started_at = row.execution_started_at;
}
