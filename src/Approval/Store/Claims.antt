-- ===== src/Approval/Store/Claims.antt =====
-- errander/safety/approval_store.py: the claim of an approved request for execution, which keeps the
-- graph and the restart reconciler from executing one batch twice.
use errander_ai.Common.{
  ℕ, ◌+◌, ◌≤◌, inl, inr, String, ◌≡◌, refl, Bool, true, false, ◌&&◌, Option, none, some, List, [],
  ◌∷◌, arith, str_eq, eq_iff, if◌then◌else◌, Option-cases, meets, count_where-keyed,
}
use errander_ai.Approval.{Row}
use errander_ai.Approval.Store.{
  ApprovalStore, has_id, refresh, new_row, mark_execution_started, is_null, unclaimed,
}
use errander_ai.Approval.Store.Run.{Op, create_request, decision, claim, step, run}
use errander_ai.Approval.Store.Keys.{
  HasUniqueKeys, row_of, row_change, row_step, step-refines, step-HasUniqueKeys,
}
use errander_ai.Approval.Store.Decisions.{pending_row, row_of-own, decide-won, decides}

-- A claim wins exactly when the batch is approved and nobody has claimed it.
pub mark_execution_started-won :
    (s : ApprovalStore) (now : ℕ) (id : String)
    → HasUniqueKeys s
    → (mark_execution_started s now id).1 ≡ meets unclaimed (row_of s id)
unfolding mark_execution_started
mark_execution_started-won s now id h =
    rw (count_where-keyed (has_id id) unclaimed s.rows (h.unique id)) (ground arith)

-- Whether a write is told that it may execute a batch.
abbrev pub claims : String → ApprovalStore → Op → Bool
claims id s (claim now i) = str_eq i id && (mark_execution_started s now i).1
claims id s _ = false

-- Whether a write is told that it has approved a batch.
abbrev pub approves : String → ApprovalStore → Op → Bool
approves id s (decision now i approve by group items) =
    approve && decides id s (decision now i approve by group items)
approves id s _ = false

abbrev pub count_ops : (ApprovalStore → Op → Bool) → ApprovalStore → List Op → ℕ
count_ops test s [] = 0
count_ops test s (op ∷ ops) =
    let rest = count_ops test (step s op) ops in (if test s op then 1 else 0) + rest

-- How many claims of the batch can still win without a further approval.
abbrev pub claimable : Option Row → ℕ
claimable none = 0
claimable (some r) = if unclaimed r then 1 else 0

-- How many claims can still win at all.
abbrev pub unspent : Option Row → ℕ
unspent none = 1
unspent (some r) = if is_null r.execution_started_at then 1 else 0

-- The claim and the approval, as the row of the batch decides them.
abbrev wins_claim : String → Option Row → Op → Bool
wins_claim id o (claim now i) = str_eq i id && meets unclaimed o
wins_claim id o _ = false

abbrev wins_approval : String → Option Row → Op → Bool
wins_approval id o (decision now i approve by group items) =
    approve && (str_eq i id && meets pending_row o)
wins_approval id o _ = false

claims-wins :
    (id : String) (s : ApprovalStore) (op : Op)
    → HasUniqueKeys s
    → claims id s op ≡ wins_claim id (row_of s id) op
claims-wins id s (claim now i) h = ground (arith, mark_execution_started-won s now i h, eq_iff i id)
claims-wins id s _ h = refl

approves-wins :
    (id : String) (s : ApprovalStore) (op : Op)
    → HasUniqueKeys s
    → approves id s op ≡ wins_approval id (row_of s id) op
approves-wins id s (decision now i approve by group items) h =
    ground (arith, decide-won s now i approve by group items h, eq_iff i id)
approves-wins id s _ h = refl

row_spends :
    (id : String) (op : Op) (r : Row)
    → str_eq r.batch_id id ≡ true
    → (if wins_claim id (some r) op then 1 else 0) + unspent (some (row_change op r))
      ≤ unspent (some r)
unfolding refresh
row_spends id (create_request now new) r own = ground arith
row_spends id (claim now i) r own =
    ground (arith, eq_iff i id, eq_iff r.batch_id id, eq_iff r.batch_id i)
row_spends id _ r own = ground arith

row_backs :
    (id : String) (op : Op) (r : Row)
    → str_eq r.batch_id id ≡ true
    → (if wins_claim id (some r) op then 1 else 0) + claimable (some (row_change op r))
      ≤ (if wins_approval id (some r) op then 1 else 0) + claimable (some r)
unfolding refresh
row_backs id (create_request now new) r own = ground arith
row_backs id (claim now i) r own =
    ground (arith, eq_iff i id, eq_iff r.batch_id id, eq_iff r.batch_id i)
row_backs id (decision now i approve by group items) r own =
    ground (arith, eq_iff i id, eq_iff r.batch_id id, eq_iff r.batch_id i)
row_backs id _ r own = ground arith

absent_row :
    (id : String) (op : Op)
    → (unspent (row_step op id none) ≤ 1)
      × (claimable (row_step op id none) ≡ 0)
      × (wins_claim id none op ≡ false)
unfolding new_row
absent_row id (create_request now new) = ground arith
absent_row id (claim now i) = ground arith
absent_row id _ = ground arith

step_spends :
    (id : String) (s : ApprovalStore) (op : Op)
    → HasUniqueKeys s
    → (if claims id s op then 1 else 0) + unspent (row_of (step s op) id) ≤ unspent (row_of s id)
step_spends id s op h =
    rw (claims-wins id s op h, step-refines s op id)
      (elim (Option-cases (row_of s id)) [
        | inl absent ↦ rw absent (ground (arith, absent_row id op))
        | inr (r, found) ↦ rw found (row_spends id op r (row_of-own s id r found))
      ])

step_backs :
    (id : String) (s : ApprovalStore) (op : Op)
    → HasUniqueKeys s
    → (if claims id s op then 1 else 0) + claimable (row_of (step s op) id)
      ≤ (if approves id s op then 1 else 0) + claimable (row_of s id)
step_backs id s op h =
    rw (claims-wins id s op h, approves-wins id s op h, step-refines s op id)
      (elim (Option-cases (row_of s id)) [
        | inl absent ↦ rw absent (ground (arith, absent_row id op))
        | inr (r, found) ↦ rw found (row_backs id op r (row_of-own s id r found))
      ])

run_spends :
    (id : String) (s : ApprovalStore) (ops : List Op)
    → HasUniqueKeys s
    → count_ops (claims id) s ops + unspent (row_of (run s ops) id) ≤ unspent (row_of s id)
unfolding run
run_spends id s [] h = omega arith
run_spends id s (op ∷ ops) h =
    omega (arith, step_spends id s op h, run_spends id (step s op) ops (step-HasUniqueKeys s op h))

unspent-le : (o : Option Row) → unspent o ≤ 1
unspent-le o = ground arith

-- Whatever tasks write to the store, in whatever order, at most one of them is told that it may
-- execute a batch.
pub one_claim :
    (id : String) (s : ApprovalStore) (ops : List Op)
    → HasUniqueKeys s
    → count_ops (claims id) s ops ≤ 1
one_claim id s ops h = omega (arith, run_spends id s ops h, unspent-le (row_of s id))

-- In any run, the claims of a batch that win are at most as many as the approvals of the batch that
-- win, but for one more where the batch is approved and unclaimed at the start.
pub claims_need_approval :
    (id : String) (s : ApprovalStore) (ops : List Op)
    → HasUniqueKeys s
    → count_ops (claims id) s ops + claimable (row_of (run s ops) id)
      ≤ count_ops (approves id) s ops + claimable (row_of s id)
unfolding run
claims_need_approval id s [] h = omega arith
claims_need_approval id s (op ∷ ops) h = omega (
  arith,
  step_backs id s op h,
  claims_need_approval id (step s op) ops (step-HasUniqueKeys s op h),
)
