-- ===== src/Examples/Detections.antt =====
-- A probe of two machines, through errander/agent/proposal_detector.py.
use errander_ai.Common.{String, ◌≡◌, refl, true, false, some, List, [], ◌∷◌, All}
use errander_ai.Proposals.{AgentProposal, action, matches_identifier, codes}
use errander_ai.Detector.{Evidence, ProbeResult, DigestReport, detect_proposals}
use errander_ai.Detector.Filing.{Filing, file_proposals}
use errander_ai.Detector.Detected.{IsAllowed}
use errander_ai.Detector.Returns.{detect_proposals-IsAllowed}
use errander_ai.Detector.Filed.{Files, file_proposals-Files}

-- A full disk under /var, and a machine that did not answer.
abbrev growing : ProbeResult
growing = record {
  vm_id = "web";
  reachable = true;
  disk_growth_alerts =
      (record { mountpoint = "/var/log"; used_pct_end = 9300; delta_pct = 400 }) ∷ [];
  drift_changes = [];
  failed_login_summary = some (record { total_count = 21; top_source_ips = [] });
}

abbrev silent : ProbeResult
silent = record growing { vm_id = "db"; reachable = false }

abbrev probe : DigestReport
probe = record { probe_id = "p1"; env_name = "prod"; vm_results = growing ∷ silent ∷ [] }

abbrev only_cleanup : String → List String
only_cleanup vm = "disk_cleanup" ∷ []

abbrev by_key : String → String → String
by_key vm key = key

prod_named : matches_identifier (codes "prod") ≡ true
unfolding matches_identifier
prod_named = refl

vms_named : All (λ vm. matches_identifier (codes vm.vm_id) ≡ true) probe.vm_results
unfolding matches_identifier
vms_named = (refl, (refl, tt))

detect_proposals-IsAllowed_example :
    (ps : List (AgentProposal Evidence)) × (detect_proposals by_key probe only_cleanup
        probe.vm_results
      ≡ some ps)
    × All (IsAllowed only_cleanup) ps
detect_proposals-IsAllowed_example =
    detect_proposals-IsAllowed by_key probe prod_named only_cleanup probe.vm_results vms_named

abbrev defaults : Filing
defaults = record { now = 0; threshold = 2; window_days = 14; expiry_days = 7 }

abbrev no_evidence : List Evidence → String
no_evidence evidence = "[]"

abbrev cleanup_web : AgentProposal Evidence
cleanup_web = record {
  proposal_id = "u1";
  env_name = "prod";
  vm_id = "web";
  kind = action;
  action_type = "disk_cleanup";
  signal_kind = "disk_growth";
  origin = "probe_detector";
  probe_id = "p1";
  evidence = [];
  confidence = "high";
}

file_proposals-Files_example : Files 2 0 (
    file_proposals no_evidence defaults
      (cleanup_web ∷ (record cleanup_web { proposal_id = "u2" }) ∷ [])
      [])
file_proposals-Files_example =
    file_proposals-Files no_evidence defaults
      (cleanup_web ∷ (record cleanup_web { proposal_id = "u2" }) ∷ []) []
