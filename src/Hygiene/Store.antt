-- ===== src/Hygiene/Store.antt =====
-- errander/safety/hygiene_store.py: the durable approval requests of docker_hygiene, one for each batch
-- and VM. A JSON column holds the value that its text stands for.
pub mod Sound
pub mod Settled
use errander_ai.Common.{
  ℕ, ◌+◌, ◌*◌, String, Bool, true, false, not, ◌&&◌, Option, none, some, List, [], ◌∷◌, ◌++◌, map,
  str_eq, leb, ◌==◌, if◌then◌else◌, select_where, find_where, count_where, update_where, order_by,
}
use errander_ai.Approval.{Status, pending, approved, rejected, timeout, is_pending}
use errander_ai.Hygiene.{Finding, Assessment, key_of, same_key, compute_assessment_hash}

-- `HygieneApprovalRow`.
pub record HygieneRow : Type 0 where
  pub batch_id : String
  pub vm_id : String
  pub assessment : Assessment
  pub signed_token : String
  pub posted_at : ℕ
  pub expires_at : ℕ
  pub status : Status
  pub decided_by : Option String
  pub snapshot_hash : Option String
  pub approved_items : Option (List (String × String))
  pub decided_at : Option ℕ

-- The table, and the events of `_waiters` by batch and VM.
pub record HygieneStore : Type 0 where
  pub rows : List HygieneRow
  pub waiters : List ((String × String) × Bool)

abbrev pub has_key : String × String → HygieneRow → Bool
has_key k r = same_key (r.batch_id, r.vm_id) k

-- `_notify`.
abbrev pub notify_key :
    String × String → List ((String × String) × Bool) → List ((String × String) × Bool)
notify_key k = map (λ w. if same_key w.0 k then (w.0, true) else w)

-- The columns that `create` writes; the others are NULL.
abbrev pub hygiene_row : ℕ → String × String → Assessment → ℕ → HygieneRow
hygiene_row now k assessment timeout_seconds = record {
  batch_id = k.0;
  vm_id = k.1;
  assessment = assessment;
  signed_token = "";
  posted_at = now;
  expires_at = now + timeout_seconds * 1000000;
  status = pending;
  decided_by = none;
  snapshot_hash = none;
  approved_items = none;
  decided_at = none;
}

-- The DO UPDATE of `create`.
abbrev pub refresh_hygiene : HygieneRow → HygieneRow → HygieneRow
refresh_hygiene new r = record r {
  assessment = new.assessment;
  signed_token = new.signed_token;
  posted_at = new.posted_at;
  expires_at = new.expires_at;
  status = new.status;
  decided_by = new.decided_by;
  snapshot_hash = new.snapshot_hash;
  approved_items = new.approved_items;
  decided_at = new.decided_at;
}

abbrev pub pending_key : String × String → HygieneRow → Bool
pending_key k r = has_key k r && is_pending r.status

-- INSERT ... ON CONFLICT (batch_id, vm_id) DO UPDATE ... WHERE status = 'pending'.
unfoldable pub create_hygiene : HygieneStore → ℕ → String × String → Assessment → ℕ → HygieneStore
create_hygiene s now k assessment timeout_seconds =
    let new = hygiene_row now k assessment timeout_seconds in
    record s {
      rows = elim (find_where (has_key k) s.rows) [
        | none ↦ s.rows ++ new ∷ []
        | some _ ↦ update_where (pending_key k) (refresh_hygiene new) s.rows
      ];
    }

-- The SET clause of `decide`.
abbrev pub set_decision :
    ℕ → Bool → String → Option String → Option (List (String × String)) → HygieneRow → HygieneRow
set_decision now approve by hash items r = record r {
  status = if approve then approved else rejected;
  decided_by = some by;
  snapshot_hash = hash;
  approved_items = items;
  decided_at = some now;
}

unfoldable pub decide_hygiene :
    HygieneStore
    → ℕ
    → String × String
    → Bool
    → String
    → Option String
    → Option (List (String × String))
    → HygieneStore × Bool
decide_hygiene s now k approve by hash items =
    let won = count_where (pending_key k) s.rows == 1 in
    (
      record {
        rows = update_where (pending_key k) (set_decision now approve by hash items) s.rows;
        waiters = if won then notify_key k s.waiters else s.waiters;
      },
      won,
    )

abbrev pub set_timeout : ℕ → HygieneRow → HygieneRow
set_timeout now r = record r { status = timeout; decided_at = some now }

unfoldable pub time_out_hygiene : HygieneStore → ℕ → String × String → HygieneStore × Bool
time_out_hygiene s now k =
    let won = count_where (pending_key k) s.rows == 1 in
    (
      record {
        rows = update_where (pending_key k) (set_timeout now) s.rows;
        waiters = if won then notify_key k s.waiters else s.waiters;
      },
      won,
    )

abbrev pub past_expiry : ℕ → HygieneRow → Bool
past_expiry now r = is_pending r.status && leb r.expires_at now

notify_keys :
    List (String × String) → List ((String × String) × Bool) → List ((String × String) × Bool)
notify_keys [] waiters = waiters
notify_keys (k ∷ ks) waiters = notify_keys ks (notify_key k waiters)

-- RETURNING lists the keys of the rows that the statement changes.
unfoldable pub sweep_hygiene : HygieneStore → ℕ → HygieneStore × List (String × String)
unfolding notify_keys
sweep_hygiene s now =
    let expired = map (λ r. (r.batch_id, r.vm_id)) (select_where (past_expiry now) s.rows) in
    (
      record {
        rows = update_where (past_expiry now) (set_timeout now) s.rows;
        waiters = notify_keys expired s.waiters;
      },
      expired,
    )

unfoldable pub get_hygiene : HygieneStore → String × String → Option HygieneRow
get_hygiene s k = find_where (has_key k) s.rows

unfoldable pub list_pending_hygiene : HygieneStore → List HygieneRow
list_pending_hygiene s =
    order_by (λ r. r.posted_at) (select_where (λ r. is_pending r.status) s.rows)

unfoldable pub count_pending_hygiene : HygieneStore → ℕ
count_pending_hygiene s = count_where (λ r. is_pending r.status) s.rows
