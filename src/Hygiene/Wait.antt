-- ===== src/Hygiene/Wait.antt =====
-- errander/safety/hygiene_store.py: the loop of `wait_for_decision`, and in
-- errander/safety/hygiene_approval.py the approval that a decided row stands for. The other tasks write
-- between the steps of the coroutine.
pub mod Answered
use errander_ai.Common.{
  ℕ, ◌+◌, ◌*◌, String, Bool, true, false, not, Option, none, some, List, [], ◌∷◌, leb,
  if◌then◌else◌, any, map, select_where, delete_where,
}
use errander_ai.Approval.{Status, timeout, is_pending}
use errander_ai.Hygiene.{key_of, same_key}
use errander_ai.Hygiene.Removal.{HygieneApproval, or_empty}
use errander_ai.Hygiene.Store.{HygieneRow, HygieneStore, get_hygiene, time_out_hygiene}
use errander_ai.Hygiene.Form.{HygieneOp, run_hygiene, is_picked}

-- A round: the clock at the deadline test, the writes before `mark_timeout`, its clock, the writes before
-- the row is read again, and those while the coroutine waits for its event or the poll interval.
pub record HygieneRound : Type 0 where
  pub now : ℕ
  pub before_mark : List HygieneOp
  pub marked_at : ℕ
  pub before_reread : List HygieneOp
  pub elsewhere : List HygieneOp

-- `nothing` is the None of a timeout; `waits` says that the rounds given have passed.
pub data HygieneWait : Type 0 where
  decided : HygieneRow → HygieneWait
  nothing : HygieneWait
  waits : HygieneWait

abbrev pub is_timeout : Status → Bool
is_timeout timeout = true
is_timeout _ = false

abbrev pub unless_timeout : Option HygieneRow → HygieneWait
unless_timeout none = nothing
unless_timeout (some row) = if is_timeout row.status then nothing else decided row

-- The three uses of `_waiters` by the coroutine.
abbrev pub register_key : String × String → HygieneStore → HygieneStore
register_key k s =
    if any (λ w. same_key w.0 k) s.waiters then s else record s { waiters = (k, false) ∷ s.waiters }

abbrev pub clear_key : String × String → HygieneStore → HygieneStore
clear_key k s = record s {
  waiters = map (λ w. if same_key w.0 k then (w.0, false) else w) s.waiters;
}

abbrev pub unregister_key : String × String → HygieneStore → HygieneStore
unregister_key k s = record s { waiters = delete_where (λ w. same_key w.0 k) s.waiters }

module _ (digest : List (String × String × String) → String) (k : String × String) where
  unfoldable pub after_deadline : HygieneRound → HygieneStore → HygieneWait × HygieneStore
  after_deadline round s =
      let marked =
        (time_out_hygiene (run_hygiene digest s round.before_mark) round.marked_at k).0 in
      let s' = run_hygiene digest marked round.before_reread in
      (unless_timeout (get_hygiene s' k), s')

  abbrev pub wait_row :
      ℕ
      → HygieneRound
      → HygieneStore
      → HygieneWait × HygieneStore
      → Option HygieneRow
      → HygieneWait × HygieneStore
  wait_row deadline round s later none = (nothing, s)
  wait_row deadline round s later (some row) =
      if not (is_pending row.status)
      then (unless_timeout (some row), s)
      else if leb deadline round.now
      then after_deadline round s
      else later

  unfoldable pub wait_hygiene_rounds :
      ℕ → List HygieneRound → HygieneStore → HygieneWait × HygieneStore
  wait_hygiene_rounds deadline [] s = (waits, s)
  wait_hygiene_rounds deadline (round ∷ rounds) s =
      let next = run_hygiene digest s round.elsewhere in
      wait_row deadline round s (wait_hygiene_rounds deadline rounds (clear_key k next))
        (get_hygiene s k)

  unfoldable pub wait_for_hygiene :
      ℕ → ℕ → List HygieneRound → HygieneStore → HygieneWait × HygieneStore
  unfolding wait_hygiene_rounds after_deadline run_hygiene get_hygiene time_out_hygiene
  wait_for_hygiene start timeout_seconds rounds s =
      let (result, s') =
        wait_hygiene_rounds (start + timeout_seconds * 1000000) rounds (register_key k s) in
      (result, unregister_key k s')

-- `approved_items()`.
abbrev pub or_no_items : Option (List (String × String)) → List (String × String)
or_no_items none = []
or_no_items (some items) = items

abbrev pub items_of : HygieneRow → List (String × String)
items_of row = or_no_items row.approved_items

-- `_row_to_approval`.
unfoldable pub row_to_approval : HygieneRow → HygieneApproval
row_to_approval row = record {
  approved_findings =
      select_where (λ f. is_picked (key_of f) (items_of row)) row.assessment.findings;
  snapshot_hash = or_empty row.snapshot_hash;
}
