-- ===== src/Approval/Wait.antt =====
-- errander/safety/approval_store.py: `ApprovalRequestStore.wait_for_decision`. The coroutine gives
-- control away at every `await`, so the writes of the other tasks stand between its own steps.
pub mod Returns
use errander_ai.Common.{
  ℕ, ◌+◌, String, Bool, true, false, Option, none, some, List, [], ◌∷◌, str_eq, leb, if◌then◌else◌,
  delete_where, any, map,
}
use errander_ai.Approval.{ApprovalRequest, is_decided}
use errander_ai.Approval.Store.{ApprovalStore, get, mark_timeout, seconds}
use errander_ai.Approval.Store.Run.{Op, run}

-- One round of the loop as the other tasks make it: the clock at the deadline test, the writes before
-- `mark_timeout`, the clock that this reads, the writes before the row is read again, and the writes
-- while the coroutine waits for its event or for the poll interval.
pub record Round : Type 0 where
  pub now : ℕ
  pub before_mark : List Op
  pub marked_at : ℕ
  pub before_reread : List Op
  pub elsewhere : List Op

-- `key_error` is the KeyError of a batch without a row, `assertion_error` the failed `assert`, and
-- `waiting` says that the rounds given have passed and the coroutine still waits.
pub data Wait (Item : Type 0) : Type 0 where
  returned : ApprovalRequest Item → Wait Item
  key_error : Wait Item
  assertion_error : Wait Item
  waiting : Wait Item

-- `self._waiters.setdefault(batch_id, asyncio.Event())`, `event.clear()` and `pop(batch_id, None)`.
abbrev pub register : String → ApprovalStore → ApprovalStore
register id s =
    if any (λ w. str_eq w.0 id) s.waiters then s else record s { waiters = (id, false) ∷ s.waiters }

abbrev pub clear_event : String → ApprovalStore → ApprovalStore
clear_event id s = record s {
  waiters = map (λ w. if str_eq w.0 id then (w.0, false) else w) s.waiters;
}

abbrev pub unregister : String → ApprovalStore → ApprovalStore
unregister id s = record s { waiters = delete_where (λ w. str_eq w.0 id) s.waiters }

module _ {Item : Type 0} (loads : String → Option (List Item)) (id : String) where
  -- `refreshed = await self.get(batch_id)`, which has to be there.
  unfoldable pub reread : ApprovalStore → Wait Item × ApprovalStore
  reread s =
      (elim (get loads s id) [ none ↦ assertion_error | some refreshed ↦ returned refreshed ], s)

  -- What the coroutine does once the deadline has passed.
  unfoldable pub time_out : Round → ApprovalStore → Wait Item × ApprovalStore
  time_out round s =
      let marked = (mark_timeout (run s round.before_mark) round.marked_at id).0 in
      reread (run marked round.before_reread)

  unfoldable pub wait_rounds : ℕ → List Round → ApprovalStore → Wait Item × ApprovalStore
  wait_rounds deadline [] s = (waiting, s)
  wait_rounds deadline (round ∷ rest) s =
      let later = wait_rounds deadline rest (clear_event id (run s round.elsewhere)) in
      elim (get loads s id) [
        | none ↦ (key_error, s)
        | some request ↦
            if is_decided request
            then (returned request, s)
            else if leb deadline round.now
            then time_out round s
            else later
      ]

  -- `start` is the instant at which the coroutine begins to wait.
  unfoldable pub wait_for_decision : ℕ → ℕ → List Round → ApprovalStore → Wait Item × ApprovalStore
  unfolding wait_rounds time_out reread get mark_timeout is_decided run
  wait_for_decision start timeout_seconds rounds s =
      let (result, s') = wait_rounds (start + seconds timeout_seconds) rounds (register id s) in
      (result, unregister id s')
