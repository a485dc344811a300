-- ===== src/Approval/Store/Decisions.antt =====
-- errander/safety/approval_store.py: who wins the race to decide a request, and that a decision is
-- final.
use mathlib.Core.Option
use errander_ai.Common.{
  ℕ, ◌+◌, ◌≤◌, inl, inr, String, ◌≡◌, refl, ap, ◌∙◌, Bool, true, false, ◌&&◌, Option, none, some,
  List, [], ◌∷◌, arith, str_eq, eq_iff, if◌then◌else◌, Option-cases, meets, count_where-keyed,
  find_where-meets, any, any-select_where, any-map,
}
use errander_ai.Approval.{Status, is_pending, Row}
use errander_ai.Approval.Store.{
  ApprovalStore, has_id, refresh, new_row, decide, mark_timeout, overdue, expire_overdue,
}
use errander_ai.Approval.Store.Run.{Op, create_request, decision, give_up, sweep, step, run}
use errander_ai.Approval.Store.Keys.{
  HasUniqueKeys, row_of, row_change, row_step, step-refines, step-HasUniqueKeys,
}

abbrev pub pending_row : Row → Bool
pending_row r = is_pending r.status

-- A decision wins exactly when the batch has a row that is still pending.
pub decide-won :
    (s : ApprovalStore) (now : ℕ) (id : String) (approve : Bool) (by group items : Option String)
    → HasUniqueKeys s
    → (decide s now id approve by group items).1 ≡ meets pending_row (row_of s id)
unfolding decide
decide-won s now id approve by group items h =
    rw (count_where-keyed (has_id id) pending_row s.rows (h.unique id)) (ground arith)

pub mark_timeout-won :
    (s : ApprovalStore) (now : ℕ) (id : String)
    → HasUniqueKeys s
    → (mark_timeout s now id).1 ≡ meets pending_row (row_of s id)
unfolding mark_timeout
mark_timeout-won s now id h =
    rw (count_where-keyed (has_id id) pending_row s.rows (h.unique id)) (ground arith)

-- A sweep reports a batch exactly when the row of the batch is pending and past its expiry.
pub expire_overdue-reports :
    (s : ApprovalStore) (now : ℕ) (id : String)
    → HasUniqueKeys s
    → any (λ i. str_eq i id) (expire_overdue s now).1 ≡ meets (overdue now) (row_of s id)
unfolding expire_overdue
expire_overdue-reports s now id h =
    rw (any-map, any-select_where, count_where-keyed (has_id id) (overdue now) s.rows (h.unique id))
      (ground arith)

-- Whether a write is told that it has decided the request of a batch.
abbrev pub decides : String → ApprovalStore → Op → Bool
decides id s (decision now i approve by group items) =
    str_eq i id && (decide s now i approve by group items).1
decides id s (give_up now i) = str_eq i id && (mark_timeout s now i).1
decides id s (sweep now) = any (λ i. str_eq i id) (expire_overdue s now).1
decides id s _ = false

-- The decisions that the writes of a run report for a batch.
abbrev pub decisions : String → ApprovalStore → List Op → ℕ
decisions id s [] = 0
decisions id s (op ∷ ops) =
    let rest = decisions id (step s op) ops in (if decides id s op then 1 else 0) + rest

-- How many decisions the batch may still get.
abbrev open_for : Option Row → ℕ
open_for none = 1
open_for (some r) = if is_pending r.status then 1 else 0

-- What `decides` says of a row of the batch.
abbrev reached : String → Option Row → Op → Bool
reached id o (decision now i approve by group items) = str_eq i id && meets pending_row o
reached id o (give_up now i) = str_eq i id && meets pending_row o
reached id o (sweep now) = meets (overdue now) o
reached id o _ = false

decides-reached :
    (id : String) (s : ApprovalStore) (op : Op)
    → HasUniqueKeys s
    → decides id s op ≡ reached id (row_of s id) op
decides-reached id s (decision now i approve by group items) h =
    ground (arith, decide-won s now i approve by group items h, eq_iff i id)
decides-reached id s (give_up now i) h = ground (arith, mark_timeout-won s now i h, eq_iff i id)
decides-reached id s (sweep now) h = expire_overdue-reports s now id h
decides-reached id s _ h = refl

-- A write decides a row at most once, and makes no row that is decided.
reached_spends :
    (id : String) (op : Op) (r : Row)
    → str_eq r.batch_id id ≡ true
    → (if reached id (some r) op then 1 else 0) + open_for (some (row_change op r))
      ≤ open_for (some r)
unfolding refresh
reached_spends id (create_request now new) r own = ground arith
reached_spends id (decision now i approve by group items) r own =
    ground (arith, eq_iff i id, eq_iff r.batch_id id, eq_iff r.batch_id i)
reached_spends id (give_up now i) r own =
    ground (arith, eq_iff i id, eq_iff r.batch_id id, eq_iff r.batch_id i)
reached_spends id _ r own = ground arith

absent_spends :
    (id : String) (op : Op)
    → (if reached id none op then 1 else 0) + open_for (row_step op id none) ≤ 1
unfolding new_row
absent_spends id (create_request now new) = ground arith
absent_spends id _ = ground arith

pub row_of-own :
    (s : ApprovalStore) (id : String) (r : Row) → row_of s id ≡ some r → str_eq r.batch_id id ≡ true
row_of-own s id r = find_where-meets (has_id id) s.rows r

decides_spends :
    (id : String) (s : ApprovalStore) (op : Op)
    → HasUniqueKeys s
    → (if decides id s op then 1 else 0) + open_for (row_of (step s op) id) ≤ open_for (row_of s id)
decides_spends id s op h =
    rw (decides-reached id s op h, step-refines s op id)
      (elim (Option-cases (row_of s id)) [
        | inl absent ↦ rw absent (absent_spends id op)
        | inr (r, found) ↦ rw found (reached_spends id op r (row_of-own s id r found))
      ])

decisions_spend :
    (id : String) (s : ApprovalStore) (ops : List Op)
    → HasUniqueKeys s
    → decisions id s ops + open_for (row_of (run s ops) id) ≤ open_for (row_of s id)
unfolding run
decisions_spend id s [] h = omega arith
decisions_spend id s (op ∷ ops) h = omega (
  arith,
  decides_spends id s op h,
  decisions_spend id (step s op) ops (step-HasUniqueKeys s op h),
)

open_for-le : (o : Option Row) → open_for o ≤ 1
open_for-le o = ground arith

-- Whatever tasks write to the store, in whatever order, at most one of them is told that it decided
-- the request of a batch.
pub one_decision :
    (id : String) (s : ApprovalStore) (ops : List Op) → HasUniqueKeys s → decisions id s ops ≤ 1
one_decision id s ops h = omega (arith, decisions_spend id s ops h, open_for-le (row_of s id))

-- The part of a row that a decision writes.
pub record Verdict : Type 0 where
  pub status : Status
  pub decided_by : Option String
  pub decided_by_group : Option String
  pub decided_at : Option ℕ
  pub approved_items_json : Option String
  pub plan_hash : String

abbrev pub verdict : Row → Verdict
verdict r = record {
  status = r.status;
  decided_by = r.decided_by;
  decided_by_group = r.decided_by_group;
  decided_at = r.decided_at;
  approved_items_json = r.approved_items_json;
  plan_hash = r.plan_hash;
}

row_change_final :
    (op : Op) (r : Row) → is_pending r.status ≡ false → verdict (row_change op r) ≡ verdict r
unfolding refresh
row_change_final (create_request now new) r d = ground arith
row_change_final _ r d = ground arith

verdict-run :
    (ops : List Op) (id : String) (s : ApprovalStore) (r : Row)
    → row_of s id ≡ some r
    → is_pending r.status ≡ false
    → (q : Row) × (row_of (run s ops) id ≡ some q) × (verdict q ≡ verdict r)
unfolding run
verdict-run [] id s r found d = (r, found, refl)
verdict-run (op ∷ ops) id s r found d =
    let kept = row_change_final op r d in
    let (q, there, same) =
      verdict-run ops id (step s op) (row_change op r) (step-refines s op id ∙ (rw found))
        (cc kept) in
    (q, there, same ∙ kept)

-- A decided row is there, and decided, after whatever is written.
pub decided-run :
    (ops : List Op) (id : String) (s : ApprovalStore) (r : Row)
    → row_of s id ≡ some r
    → is_pending r.status ≡ false
    → (q : Row) × (row_of (run s ops) id ≡ some q) × (is_pending q.status ≡ false)
decided-run ops id s r found d =
    let (q, there, same) = verdict-run ops id s r found d in
    (q, there, ap (λ (v : Verdict). is_pending v.status) same ∙ d)

-- A decision is final: whatever is written after it, a create for the same batch included, the row
-- keeps its status, who decided it and when, the approved items and the hash of the approved plan.
pub decision_final :
    (ops : List Op) (id : String) (s : ApprovalStore) (r : Row)
    → row_of s id ≡ some r
    → is_pending r.status ≡ false
    → Option.map verdict (row_of (run s ops) id) ≡ some (verdict r)
decision_final ops id s r found d =
    let (q, there, same) = verdict-run ops id s r found d in rw there (ap some same)
