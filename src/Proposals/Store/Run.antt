-- ===== src/Proposals/Store/Run.antt =====
-- errander/safety/proposal_store.py: the writes of the probe, the operators and the reconciler in sequence.
use errander_ai.Common.{ℕ, String, Bool, Option, List, [], ◌∷◌}
use errander_ai.Proposals.{AgentProposal}
use errander_ai.Proposals.Store.{
  Result, Row, create_or_refresh, decide, expire_overdue, integrity_error, mark_execution_started,
  ok, set_execution_status, snooze, wake_snoozed,
}

-- What the probe, the operators and the reconciler do to the table.
pub data Op (E : Type 0) : Type 0 where
  file : ℕ → ℕ → AgentProposal E → Op E
  decision : ℕ → String → Bool → Option String → Option String → Op E
  postpone : ℕ → String → ℕ → Option String → Option String → Op E
  sweep : ℕ → Op E
  claim : ℕ → String → Op E
  outcome : ℕ → String → String → Op E
  rouse : ℕ → Op E

-- A statement that fails leaves the table as it was.
abbrev pub rows_after : {A : Type 0} → List Row → Result (List Row × A) → List Row
rows_after rows (ok (rows', _)) = rows'
rows_after rows integrity_error = rows

abbrev pub stored_rows : List Row → Result (List Row × Row × Bool) → List Row
stored_rows rows (ok (rows', _, _)) = rows'
stored_rows rows integrity_error = rows

unfoldable pub step : {E : Type 0} → (List E → String) → List Row → Op E → List Row
unfolding decide snooze expire_overdue mark_execution_started set_execution_status
step dumps rows (file now expiry_days p) =
    stored_rows rows (create_or_refresh dumps rows now expiry_days p)
step dumps rows (decision now id approve by group) = (decide rows now id approve by group).0
step dumps rows (postpone now id until by group) = (snooze rows now id until by group).0
step dumps rows (sweep now) = (expire_overdue rows now).0
step dumps rows (claim now id) = (mark_execution_started rows now id).0
step dumps rows (outcome now id status) = set_execution_status rows now id status
step dumps rows (rouse now) = rows_after rows (wake_snoozed rows now)

unfoldable pub run : {E : Type 0} → (List E → String) → List Row → List (Op E) → List Row
unfolding step
run dumps rows [] = rows
run dumps rows (op ∷ ops) = run dumps (step dumps rows op) ops
