-- ===== src/Detector.antt =====
-- errander/agent/proposal_detector.py: from the signals of a probe to stored proposals. A percentage is
-- a natural number of hundredths; an evidence keeps what its texts are made of.
pub mod Detected
pub mod Filed
pub mod Returns
pub mod Filing
use errander_ai.Common.{
  ℕ, suc, ◌+◌, String, Bool, true, false, not, ◌&&◌, ◌||◌, Option, none, some, List, [], ◌∷◌, ◌++◌,
  map, str_eq, leb, ltb, if◌then◌else◌, any,
}
use errander_ai.Proposals.{ProposalKind, action, review, AgentProposal, is_action, is_valid, codes}
use errander_ai.Proposals.Store.{Row, Result, ok, integrity_error, create_or_refresh}
use errander_ai.Proposals.Store.Reads.{create_or_refresh_unless_suppressed}
use errander_ai.Vm.Validate.{starts_with}

pub record DiskAlert : Type 0 where
  pub mountpoint : String
  pub used_pct_end : ℕ
  pub delta_pct : ℕ

pub record DriftChange : Type 0 where
  pub kind : String
  pub scope_key : Option String
  pub unified_diff : String

pub record LoginSummary : Type 0 where
  pub total_count : ℕ
  pub top_source_ips : List String

pub data Evidence : Type 0 where
  disk_evidence : DiskAlert → Evidence
  drift_evidence : DriftChange → Evidence
  login_evidence : LoginSummary → Evidence

-- `ProbeVMResult` and `DigestReport`, as far as the detector reads them.
pub record ProbeResult : Type 0 where
  pub vm_id : String
  pub reachable : Bool
  pub disk_growth_alerts : List DiskAlert
  pub drift_changes : List DriftChange
  pub failed_login_summary : Option LoginSummary

pub record DigestReport : Type 0 where
  pub probe_id : String
  pub env_name : String
  pub vm_results : List ProbeResult

-- `FAILED_LOGIN_THRESHOLD`.
abbrev pub failed_login_threshold : ℕ
failed_login_threshold = 20

-- `_disk_confidence` says "high".
abbrev pub is_severe : DiskAlert → Bool
is_severe a = leb 9000 a.used_pct_end || leb 1500 a.delta_pct

abbrev pub confidence_of : List DiskAlert → String
confidence_of alerts = if any is_severe alerts then "high" else "medium"

abbrev pub under_var : DiskAlert → Bool
under_var a = starts_with (codes "/var") (codes a.mountpoint)

abbrev pub wanted : List DiskAlert → List String
wanted [] = []
wanted (a ∷ alerts) =
    "disk_cleanup" ∷ (if any under_var (a ∷ alerts) then "log_rotation" ∷ [] else [])

-- `AgentProposal(...)`: the ValidationError is none, and ends the detection.
abbrev pub construct :
    AgentProposal Evidence
    → Option (List (AgentProposal Evidence))
    → Option (List (AgentProposal Evidence))
construct p none = none
construct p (some ps) = if is_valid p then some (p ∷ ps) else none

abbrev pub joined :
    Option (List (AgentProposal Evidence))
    → Option (List (AgentProposal Evidence))
    → Option (List (AgentProposal Evidence))
joined none rest = none
joined (some ps) none = none
joined (some ps) (some qs) = some (ps ++ qs)

abbrev pub is_enabled : List String → String → Bool
is_enabled enabled name = any (λ a. str_eq a name) enabled

-- `uuid` is what `uuid4` draws for the proposal of a VM and what it is about.
module _ (uuid : String → String → String) (report : DigestReport) where
  abbrev pub draft :
      ProbeResult → ProposalKind → String → String → List Evidence → String → AgentProposal Evidence
  draft vm kind type signal evidence confidence = record {
    proposal_id = uuid vm.vm_id (if is_action kind then type else signal);
    env_name = report.env_name;
    vm_id = vm.vm_id;
    kind = kind;
    action_type = type;
    signal_kind = signal;
    origin = "probe_detector";
    probe_id = report.probe_id;
    evidence = evidence;
    confidence = confidence;
  }

  -- The loop over the wanted actions, in front of the other rules.
  unfoldable pub detect_growth :
      ProbeResult
      → List String
      → List String
      → Option (List (AgentProposal Evidence))
      → Option (List (AgentProposal Evidence))
  detect_growth vm enabled [] rest = rest
  detect_growth vm enabled (type ∷ types) rest =
      let others = detect_growth vm enabled types rest in
      if is_enabled enabled type
      then construct
          (draft vm action type "disk_growth" (map disk_evidence vm.disk_growth_alerts)
            (confidence_of vm.disk_growth_alerts))
          others
      else others

  unfoldable pub detect_drift :
      ProbeResult
      → List DriftChange
      → Option (List (AgentProposal Evidence))
      → Option (List (AgentProposal Evidence))
  detect_drift vm [] rest = rest
  detect_drift vm (c ∷ changes) rest =
      construct (draft vm review "" "drift" (map drift_evidence (c ∷ changes)) "high") rest

  unfoldable pub detect_logins :
      ProbeResult → Option LoginSummary → Option (List (AgentProposal Evidence))
  detect_logins vm none = some []
  detect_logins vm (some summary) =
      let filed =
        construct (draft vm review "" "failed_logins" (login_evidence summary ∷ []) "medium")
          (some []) in
      if ltb failed_login_threshold summary.total_count then filed else some []

  -- `_detect_for_vm`.
  unfoldable pub detect_for_vm : ProbeResult → List String → Option (List (AgentProposal Evidence))
  detect_for_vm vm enabled =
      detect_growth vm enabled (wanted vm.disk_growth_alerts)
        (detect_drift vm vm.drift_changes (detect_logins vm vm.failed_login_summary))

  -- `detect_proposals`; `enabled` is the dictionary by VM, with no action for a VM that it lacks.
  unfoldable pub detect_proposals :
      (String → List String) → List ProbeResult → Option (List (AgentProposal Evidence))
  detect_proposals enabled [] = some []
  detect_proposals enabled (vm ∷ vms) =
      let rest = detect_proposals enabled vms in
      let found = joined (detect_for_vm vm (enabled vm.vm_id)) rest in
      if vm.reachable then found else rest
