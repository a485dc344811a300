-- ===== src/Deferred.antt =====
-- errander/safety/deferred.py: the approved batches that wait for their maintenance window. A method
-- gets the instant that it reads from the clock, `now`, in microseconds.
pub mod Pending
pub mod Ready
use errander_ai.Common.{
  ℕ, ◌+◌, ◌*◌, String, Bool, true, false, not, ◌&&◌, Option, none, some, List, [], ◌∷◌, ◌++◌,
  str_eq, leb, if◌then◌else◌, select_where, find_where, count_where, update_where, order_by,
}

-- The texts of the column `status`.
pub data DeferredStatus : Type 0 where
  pending executing done expired : DeferredStatus

abbrev pub is_pending : DeferredStatus → Bool
is_pending pending = true
is_pending _ = false

-- `DeferredExecution`, a row of `deferred_executions`.
pub record DeferredExecution : Type 0 where
  pub batch_id : String
  pub env_name : String
  pub approved_at : ℕ
  pub approved_by : Option String
  pub window_start : ℕ
  pub expiry_at : ℕ
  pub status : DeferredStatus
  pub created_at : ℕ
  pub executed_at : Option ℕ
  pub plan_json : Option String
  pub plan_hash : Option String

-- The arguments of `save`.
pub record HandOff : Type 0 where
  pub batch_id : String
  pub env_name : String
  pub approved_by : Option String
  pub window_start : ℕ
  pub plan_json : Option String
  pub plan_hash : Option String

abbrev pub of_batch : String → DeferredExecution → Bool
of_batch id r = str_eq r.batch_id id

-- `_EXPIRY_DAYS`.
abbrev pub expiry_days : ℕ
expiry_days = 7

abbrev pub day_length : ℕ
day_length = 86400000000

unfoldable pub inserted : ℕ → HandOff → DeferredExecution
inserted now h = record {
  batch_id = h.batch_id;
  env_name = h.env_name;
  approved_at = now;
  approved_by = h.approved_by;
  window_start = h.window_start;
  expiry_at = h.window_start + expiry_days * day_length;
  status = pending;
  created_at = now;
  executed_at = none;
  plan_json = h.plan_json;
  plan_hash = h.plan_hash;
}

-- The DO UPDATE of `_UPSERT_SQL`, which keeps the environment and the time of creation.
unfoldable pub replaced : ℕ → HandOff → DeferredExecution → DeferredExecution
replaced now h r = record r {
  approved_at = now;
  approved_by = h.approved_by;
  window_start = h.window_start;
  expiry_at = h.window_start + expiry_days * day_length;
  status = pending;
  executed_at = none;
  plan_json = h.plan_json;
  plan_hash = h.plan_hash;
}

abbrev pub save_at :
    ℕ → HandOff → Option DeferredExecution → List DeferredExecution → List DeferredExecution
save_at now h none rows = rows ++ inserted now h ∷ []
save_at now h (some r) rows = update_where (of_batch h.batch_id) (replaced now h) rows

unfoldable pub save : ℕ → HandOff → List DeferredExecution → List DeferredExecution
save now h rows = save_at now h (find_where (of_batch h.batch_id) rows) rows

abbrev pub is_ready : String → ℕ → DeferredExecution → Bool
is_ready env now r = str_eq r.env_name env && (is_pending r.status && not (leb r.expiry_at now))

unfoldable pub get_pending : String → ℕ → List DeferredExecution → List DeferredExecution
get_pending env now rows = order_by (λ r. r.window_start) (select_where (is_ready env now) rows)

unfoldable pub mark_executing : String → List DeferredExecution → List DeferredExecution
mark_executing id = update_where (of_batch id) (λ r. record r { status = executing })

unfoldable pub mark_done : ℕ → String → List DeferredExecution → List DeferredExecution
mark_done now id =
    update_where (of_batch id) (λ r. record r { status = done; executed_at = some now })

abbrev pub is_old : ℕ → DeferredExecution → Bool
is_old now r = is_pending r.status && leb r.expiry_at now

-- `expire_old`, with the count that it returns.
unfoldable pub expire_old : ℕ → List DeferredExecution → List DeferredExecution × ℕ
expire_old now rows = (
  update_where (is_old now) (λ r. record r { status = expired }) rows,
  count_where (is_old now) rows,
)
