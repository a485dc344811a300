-- ===== src/Hygiene/Run.antt =====
-- errander/agent/vm_graph.py: `_run_docker_hygiene`, which assesses a VM, asks for an approval, and runs the
-- sub-graph again with it.
pub mod Cleared
pub mod Approved
use errander_ai.Common.{
  ℕ, String, Bool, true, false, not, Option, none, some, List, [], if◌then◌else◌, ℤ,
}
use errander_ai.Vm.{ActionStatus, skipped, failed}
use errander_ai.Hygiene.{Assessment, is_nil, cleanup_candidates}
use errander_ai.Hygiene.Removal.{RemovalResult, HygieneApproval}
use errander_ai.Hygiene.Graph.{WrapperCall, Wrappers, HygieneState, docker_hygiene}
use errander_ai.Hygiene.Store.{HygieneStore, create_hygiene}
use errander_ai.Hygiene.Form.{HygieneOp, run_hygiene}
use errander_ai.Hygiene.Wait.{
  HygieneRound, HygieneWait, decided, nothing, waits, wait_for_hygiene, row_to_approval,
}

-- The result dict; `ended` is missing while the coroutine still waits.
pub record HygieneResult : Type 0 where
  pub status : ActionStatus
  pub removal_results : List RemovalResult

pub record HygieneRun : Type 0 where
  pub sent : List WrapperCall
  pub store : HygieneStore
  pub ended : Option HygieneResult

-- What surrounds a run: the key of its request, whether there is a manager, the writes of the other tasks
-- up to the registration, the clock at the registration and at the start of the wait, the timeout, and the
-- rounds of the wait.
pub record Surroundings : Type 0 where
  pub request_key : String × String
  pub has_manager : Bool
  pub before_register : List HygieneOp
  pub registered_at : ℕ
  pub waits_from : ℕ
  pub approval_timeout_seconds : ℕ
  pub rounds : List HygieneRound

-- `_format_hygiene_result`, and the result of an exception.
abbrev pub format_result : Option HygieneState → HygieneResult
format_result none = record { status = failed; removal_results = [] }
format_result (some s) = record { status = s.status; removal_results = s.removal_results }

abbrev pub ends : List WrapperCall → HygieneStore → HygieneResult → HygieneRun
ends sent store result = record { sent = sent; store = store; ended = some result }

abbrev pub no_removal : HygieneResult
no_removal = record { status = skipped; removal_results = [] }

module _ (digest : List (String × String × String) → String) (int : String → Option ℤ)
    (lower : String → String) (vm : Wrappers) (s : HygieneState) where
  -- The sub-graph with an approval, after what was sent before.
  abbrev pub run_approved : List WrapperCall → HygieneApproval → HygieneStore → HygieneRun
  run_approved sent approval store =
      let (after, state) =
        docker_hygiene digest int lower vm sent (record s { approval = some approval }) in
      ends after store (format_result state)

  -- What follows the wait.
  abbrev pub after_wait : List WrapperCall → HygieneWait × HygieneStore → HygieneRun
  after_wait sent (nothing, store) = ends sent store no_removal
  after_wait sent (waits, store) = record { sent = sent; store = store; ended = none }
  after_wait sent (decided row, store) =
      let approval = row_to_approval row in
      if is_nil approval.approved_findings
      then ends sent store no_removal
      else run_approved sent approval store

  abbrev pub ask : Surroundings → List WrapperCall → Assessment → HygieneStore → HygieneRun
  ask env sent a store =
      let others = run_hygiene digest store env.before_register in
      let asked = create_hygiene others env.registered_at env.request_key a 1800 in
      after_wait sent (
        wait_for_hygiene digest env.request_key env.waits_from env.approval_timeout_seconds
          env.rounds asked)

  -- What follows the first assessment.
  abbrev pub after_assessment :
      Surroundings → List WrapperCall → HygieneState → Option Assessment → HygieneStore → HygieneRun
  after_assessment env sent state none store = ends sent store (format_result (some state))
  after_assessment env sent state (some a) store =
      if is_nil (cleanup_candidates a)
      then ends sent store (format_result (some state))
      else if s.dry_run
      then ends sent store (format_result (some state))
      else if not env.has_manager
      then ends sent store no_removal
      else ask env sent a store

  abbrev pub after_first :
      Surroundings → List WrapperCall → Option HygieneState → HygieneStore → HygieneRun
  after_first env sent none store = ends sent store (format_result none)
  after_first env sent (some state) store = after_assessment env sent state state.assessment store

  -- `pre_approval` is the approval among the parameters of the action, if there is one.
  unfoldable pub run_docker_hygiene :
      Surroundings → Option HygieneApproval → HygieneStore → HygieneRun
  unfolding docker_hygiene cleanup_candidates row_to_approval wait_for_hygiene create_hygiene
      run_hygiene
  run_docker_hygiene env (some approval) store = run_approved [] approval store
  run_docker_hygiene env none store =
      let (sent, state) = docker_hygiene digest int lower vm [] (record s { approval = none }) in
      after_first env sent state store
