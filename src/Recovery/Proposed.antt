-- ===== src/Recovery/Proposed.antt =====
-- errander/main.py: `_proposal_reconciler`, which executes the proposals that operators have approved,
-- with the tables and the lock directory that it works on.
pub mod Once
pub mod Passes
use errander_ai.Common.{
  ℕ, ◌*◌, String, Bool, true, false, not, ◌&&◌, ◌||◌, Option, none, some, List, [], ◌∷◌, ◌++◌,
  str_eq, if◌then◌else◌, find_where,
}
use errander_ai.Proposals.{codes}
use errander_ai.Proposals.Store.{
  Row, ok, integrity_error, expire_overdue, wake_snoozed, mark_execution_started,
  set_execution_status,
}
use errander_ai.Proposals.Store.Run.{Op, run}
use errander_ai.Proposals.Store.Reads.{get_approved_unclaimed}
use errander_ai.Batch.Gate.{WindowView}
use errander_ai.Lock.{undisturbed, File, acquire, release}

-- An action's name and whether it is enabled.
abbrev pub ActionConfigs : Type 0
ActionConfigs = List (String × Bool)

pub record TargetSchema : Type 0 where
  pub name : String
  pub actions : ActionConfigs

-- `EnvironmentSchema`, with what its window says at the present.
pub record EnvironmentSchema : Type 0 where
  pub targets : List TargetSchema
  pub actions : ActionConfigs
  pub window : Option WindowView

-- `dict.get` and the field `enabled`: an action that is missing is not enabled.
abbrev pub enabled_in : String → Option (String × Bool) → Bool
enabled_in name none = false
enabled_in name (some entry) = entry.1

abbrev pub config_of : String → ActionConfigs → Option (String × Bool)
config_of name = find_where (λ entry. str_eq entry.0 name)

-- `resolve_actions`: the entries of the target replace those of its environment.
unfoldable pub resolve_action : TargetSchema → ActionConfigs → String → Option (String × Bool)
resolve_action target env_actions name = elim (config_of name target.actions) [
  | some entry ↦ some entry
  | none ↦ config_of name env_actions
]

pub record Execution : Type 0 where
  pub proposal_id : String
  pub vm_id : String
  pub action_type : String

-- The table of the proposals, the lock directory, and the sub-graphs that were started.
pub record Work : Type 0 where
  pub rows : List Row
  pub locks : List File
  pub executed : List Execution

abbrev pub window_closed : Option WindowView → Bool
window_closed none = false
window_closed (some view) = not view.is_open

-- The final status of a sub-graph counts as a success; one that raises has failed.
abbrev pub is_ok : Option String → Bool
is_ok none = false
is_ok (some status) = str_eq status "success" || str_eq status "dry_run_ok"

-- What happens while a sub-graph runs: the writes of other tasks to the table, what other processes do
-- to the lock directory, and the status at its end, if it ends with one.
pub record SubgraphRun (E : Type 0) : Type 0 where
  pub writes : Row → List (Op E)
  pub to_locks : Row → List File → List File
  pub status : Row → Option String

-- The time to live of the lock, 300 seconds.
abbrev pub lock_ttl : ℕ
lock_ttl = 300 * 1000000

-- The unknown VM and the action that is no longer enabled: the proposal is claimed and has failed.
unfoldable pub fail_closed : ℕ → Work → Row → Work
fail_closed now w row =
    let (rows, won) = mark_execution_started w.rows now row.proposal_id in
    record w { rows = if won then set_execution_status rows now row.proposal_id "failed" else rows }

module _ {E : Type 0} (dumps : List E → String) (is_word : ℕ → Bool)
    (subgraph : SubgraphRun E) where
  abbrev pub freed : Row → List File → List File
  freed row locks = (release is_word (codes row.vm_id) row.proposal_id locks).0

  -- What is done under the lock, and its release.
  unfoldable pub execute_locked : ℕ → Work → Row → List File → Work
  execute_locked now w row locks =
      let (rows, won) = mark_execution_started w.rows now row.proposal_id in
      let after = run dumps rows (subgraph.writes row) in
      let text = if is_ok (subgraph.status row) then "success" else "failed" in
      if won
      then record {
        rows = set_execution_status after now row.proposal_id text;
        locks = freed row (subgraph.to_locks row locks);
        executed =
            w.executed
            ++ (record {
              proposal_id = row.proposal_id;
              vm_id = row.vm_id;
              action_type = row.action_type;
            })
              ∷ [];
      }
      else record w { rows = rows; locks = freed row locks }

  -- The lock, and what follows where it was got.
  unfoldable pub lock_and_execute : ℕ → Work → Row → Work
  lock_and_execute now w row =
      let (locks, got) =
        acquire is_word undisturbed (codes row.vm_id) row.proposal_id lock_ttl now w.locks in
      let executed = execute_locked now w row locks in
      if got then executed else record w { locks = locks }

  abbrev pub reconcile_target : ℕ → Work → Row → EnvironmentSchema → Option TargetSchema → Work
  reconcile_target now w row env none = fail_closed now w row
  reconcile_target now w row env (some target) =
      let executed = lock_and_execute now w row in
      if not (enabled_in row.action_type (resolve_action target env.actions row.action_type))
      then fail_closed now w row
      else if window_closed env.window
      then w
      else executed

  abbrev pub reconcile_env : ℕ → Work → Row → Option EnvironmentSchema → Work
  reconcile_env now w row none = fail_closed now w row
  reconcile_env now w row (some env) =
      reconcile_target now w row env (find_where (λ t. str_eq t.name row.vm_id) env.targets)

  module _ (environments : String → Option EnvironmentSchema) where
    -- One round of the loop.
    unfoldable pub reconcile_proposal : ℕ → Work → Row → Work
    reconcile_proposal now w row = reconcile_env now w row (environments row.env_name)

    unfoldable pub reconcile_proposals : ℕ → Work → List Row → Work
    reconcile_proposals now w [] = w
    reconcile_proposals now w (row ∷ rows) =
        reconcile_proposals now (reconcile_proposal now w row) rows

    -- `_proposal_reconciler`; `true` beside the result says that it raised.
    unfoldable pub proposal_reconciler : Bool → ℕ → Work → Work × Bool
    proposal_reconciler agent_dry_run now w =
        let swept = (expire_overdue w.rows now).0 in
        elim (wake_snoozed swept now) [
          | integrity_error ↦ (record w { rows = swept }, true)
          | ok (rows, woken) ↦
              let executed =
                reconcile_proposals now (record w { rows = rows }) (get_approved_unclaimed rows) in
              (if agent_dry_run then record w { rows = rows } else executed, false)
        ]
