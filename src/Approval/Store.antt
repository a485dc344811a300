-- ===== src/Approval/Store.antt =====
-- errander/safety/approval_store.py: the class `ApprovalRequestStore`, but for `wait_for_decision`.
-- A method gets the instant that it reads from the clock, `now`, and returns the new store.
pub mod Keys
pub mod Decisions
pub mod Claims
pub mod Run
use mathlib.Core.Option
use errander_ai.Common.{
  ℕ, suc, ◌+◌, ◌*◌, String, Bool, true, false, ◌&&◌, Option, none, some, List, [], ◌∷◌, ◌++◌, map,
  length, any, str_eq, leb, ◌==◌, if◌then◌else◌, select_where, find_where, count_where,
  update_where, order_by,
}
use errander_ai.Approval.{
  Status, pending, approved, rejected, timeout, is_pending, is_approved, Row, ApprovalRequest,
  row_to_request,
}

-- The table, and the in-process registry `_waiters` with the flag of each event.
pub record ApprovalStore : Type 0 where
  pub rows : List Row
  pub waiters : List (String × Bool)

-- The arguments of `create`, with `vm_plans` as the JSON text that is stored.
pub record NewRequest : Type 0 where
  pub batch_id : String
  pub env_name : String
  pub plan_id : String
  pub plan_hash : String
  pub report : String
  pub vm_plans_json : Option String
  pub timeout_seconds : ℕ
  pub slack_message_ts : Option String

abbrev pub has_id : String → Row → Bool
has_id id row = str_eq row.batch_id id

-- `timedelta(seconds=n)` in microseconds.
abbrev pub seconds : ℕ → ℕ
seconds n = n * 1000000

-- `_notify`.
unfoldable pub notify : String → List (String × Bool) → List (String × Bool)
notify id = map (λ w. if str_eq w.0 id then (w.0, true) else w)

-- The row that the INSERT of `create` adds; a column that the statement does not name is NULL.
unfoldable pub new_row : ℕ → NewRequest → Row
new_row now new = record {
  batch_id = new.batch_id;
  env_name = new.env_name;
  plan_id = new.plan_id;
  plan_hash = new.plan_hash;
  report = new.report;
  vm_plans_json = new.vm_plans_json;
  posted_at = now;
  expires_at = now + seconds new.timeout_seconds;
  status = pending;
  slack_message_ts = new.slack_message_ts;
  decided_by = none;
  decided_by_group = none;
  decided_at = none;
  approved_items_json = none;
  execution_started_at = none;
}

-- The DO UPDATE of `create`.
unfoldable pub refresh : ℕ → NewRequest → Row → Row
refresh now new row = record row {
  plan_id = new.plan_id;
  plan_hash = new.plan_hash;
  report = new.report;
  vm_plans_json = new.vm_plans_json;
  posted_at = now;
  expires_at = now + seconds new.timeout_seconds;
}

-- The statement of `create`: INSERT ... ON CONFLICT(batch_id) DO UPDATE ... WHERE status = 'pending'.
upsert_rows : ℕ → NewRequest → List Row → List Row
upsert_rows now new rows = elim (find_where (has_id new.batch_id) rows) [
  | none ↦ rows ++ new_row now new ∷ []
  | some _ ↦ update_where (λ r. has_id new.batch_id r && is_pending r.status) (refresh now new) rows
]

unfoldable pub upsert : ApprovalStore → ℕ → NewRequest → ApprovalStore
unfolding upsert_rows new_row refresh
upsert s now new = record s { rows = upsert_rows now new s.rows }

module _ {Item : Type 0} (loads : String → Option (List Item)) where
  unfoldable pub get : ApprovalStore → String → Option (ApprovalRequest Item)
  unfolding row_to_request
  get s id = Option.map (row_to_request loads) (find_where (has_id id) s.rows)

  -- `create` returns what it reads back in a transaction of its own; `dumps` is `json.dumps`, and
  -- `between` is what other tasks write after its INSERT and before the SELECT.
  unfoldable pub create :
      (List Item → String)
      → (ApprovalStore → ApprovalStore)
      → ApprovalStore
      → ℕ
      → NewRequest
      → Option (List Item)
      → ApprovalStore × Option (ApprovalRequest Item)
  unfolding upsert get
  create dumps between s now new vm_plans =
      let s' = between (upsert s now (record new { vm_plans_json = Option.map dumps vm_plans })) in
      (s', get s' new.batch_id)

  -- The requests of a queue, oldest first by the time that it is ordered by.
  unfoldable pub get_pending : ApprovalStore → List (ApprovalRequest Item)
  unfolding row_to_request
  get_pending s =
      map (row_to_request loads)
        (order_by (λ r. r.posted_at) (select_where (λ r. is_pending r.status) s.rows))

unfoldable pub set_slack_ts : ApprovalStore → String → String → ApprovalStore
set_slack_ts s id ts = record s {
  rows = update_where (has_id id) (λ r. record r { slack_message_ts = some ts }) s.rows;
}

abbrev pub pending_with : String → Row → Bool
pending_with id r = has_id id r && is_pending r.status

-- The SET clause of `decide`.
abbrev pub record_decision : ℕ → Bool → Option String → Option String → Option String → Row → Row
record_decision now approve by group items r = record r {
  status = if approve then approved else rejected;
  decided_by = by;
  decided_by_group = group;
  decided_at = some now;
  approved_items_json = items;
}

-- `items` is `approved_items` as the JSON text that is stored.
unfoldable pub decide :
    ApprovalStore
    → ℕ
    → String
    → Bool
    → Option String
    → Option String
    → Option String
    → ApprovalStore × Bool
unfolding notify
decide s now id approve by group items =
    let won = count_where (pending_with id) s.rows == 1 in
    (
      record {
        rows = update_where (pending_with id) (record_decision now approve by group items) s.rows;
        waiters = if won then notify id s.waiters else s.waiters;
      },
      won,
    )

abbrev pub record_timeout : ℕ → Row → Row
record_timeout now r = record r { status = timeout; decided_at = some now }

unfoldable pub mark_timeout : ApprovalStore → ℕ → String → ApprovalStore × Bool
unfolding notify
mark_timeout s now id =
    let won = count_where (pending_with id) s.rows == 1 in
    (
      record {
        rows = update_where (pending_with id) (record_timeout now) s.rows;
        waiters = if won then notify id s.waiters else s.waiters;
      },
      won,
    )

abbrev pub overdue : ℕ → Row → Bool
overdue now r = is_pending r.status && leb r.expires_at now

notify_all : List String → List (String × Bool) → List (String × Bool)
unfolding notify
notify_all [] waiters = waiters
notify_all (id ∷ ids) waiters = notify_all ids (notify id waiters)

-- RETURNING lists the batches of the rows that the statement changes.
unfoldable pub expire_overdue : ApprovalStore → ℕ → ApprovalStore × List String
unfolding notify_all
expire_overdue s now =
    let expired = map (λ r. r.batch_id) (select_where (overdue now) s.rows) in
    (
      record {
        rows = update_where (overdue now) (record_timeout now) s.rows;
        waiters = notify_all expired s.waiters;
      },
      expired,
    )

abbrev pub is_null : {A : Type 0} → Option A → Bool
is_null none = true
is_null (some _) = false

abbrev pub unclaimed : Row → Bool
unclaimed r = is_approved r.status && is_null r.execution_started_at

abbrev pub stamp_execution : ℕ → Row → Row
stamp_execution now r = record r { execution_started_at = some now }

unfoldable pub mark_execution_started : ApprovalStore → ℕ → String → ApprovalStore × Bool
mark_execution_started s now id =
    let claimable = λ (r : Row). has_id id r && unclaimed r in
    (
      record s { rows = update_where claimable (stamp_execution now) s.rows },
      count_where claimable s.rows == 1,
    )

unfoldable pub count_pending : ApprovalStore → ℕ
count_pending s = count_where (λ r. is_pending r.status) s.rows

-- `decided_at ASC`: an approved row always has the time of its decision.
abbrev decided_time : Row → ℕ
decided_time r = elim r.decided_at [ none ↦ 0 | some t ↦ t ]

unfoldable pub get_orphaned_approved :
    {Item : Type 0} → (String → Option (List Item)) → ApprovalStore → List (ApprovalRequest Item)
unfolding row_to_request
get_orphaned_approved loads s =
    map (row_to_request loads) (order_by decided_time (select_where unclaimed s.rows))

unfoldable pub has_waiter : ApprovalStore → String → Bool
has_waiter s id = any (λ w. str_eq w.0 id) s.waiters
