-- ===== src/Approval/Store/Run.antt =====
-- errander/safety/approval_store.py: the writes of the agent and of the web process in sequence.
use errander_ai.Common.{ℕ, String, Bool, Option, List, [], ◌∷◌}
use errander_ai.Approval.Store.{
  ApprovalStore, NewRequest, decide, expire_overdue, mark_execution_started, mark_timeout,
  set_slack_ts, upsert,
}

-- What the coroutines of the agent and of the web process do to the store: the methods that write.
pub data Op : Type 0 where
  create_request : ℕ → NewRequest → Op
  stamp_slack : String → String → Op
  decision : ℕ → String → Bool → Option String → Option String → Option String → Op
  give_up : ℕ → String → Op
  sweep : ℕ → Op
  claim : ℕ → String → Op

unfoldable pub step : ApprovalStore → Op → ApprovalStore
unfolding upsert set_slack_ts decide mark_timeout expire_overdue mark_execution_started
step s (create_request now new) = upsert s now new
step s (stamp_slack id ts) = set_slack_ts s id ts
step s (decision now id approve by group items) = (decide s now id approve by group items).0
step s (give_up now id) = (mark_timeout s now id).0
step s (sweep now) = (expire_overdue s now).0
step s (claim now id) = (mark_execution_started s now id).0

unfoldable pub run : ApprovalStore → List Op → ApprovalStore
unfolding step
run s [] = s
run s (op ∷ ops) = run (step s op) ops
