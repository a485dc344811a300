-- ===== src/Detector/Returns.antt =====
-- errander/agent/proposal_detector.py: the detection does not raise.
use mathlib.Core.Path.{subst}
use errander_ai.Common.{
  String, ◌≡◌, refl, Bool, true, not, ◌&&◌, ◌||◌, Option, none, some, List, [], ◌∷◌, ◌++◌, map,
  arith, str_eq, ltb, if◌then◌else◌, if_holds, any, All,
}
use errander_ai.Proposals.{
  ProposalKind, action, review, AgentProposal, is_valid, is_action, codes, matches_identifier,
  is_proposable,
}
use errander_ai.Detector.{
  Evidence, ProbeResult, LoginSummary, DriftChange, DiskAlert, DigestReport, construct, joined,
  is_enabled, draft, detect_growth, detect_drift, detect_logins, detect_for_vm, detect_proposals,
  wanted, under_var, failed_login_threshold, disk_evidence, drift_evidence, login_evidence,
  confidence_of,
}
use errander_ai.Detector.Detected.{IsAllowed, AllAllowed, detect_proposals-AllAllowed}

abbrev Returns : Option (List (AgentProposal Evidence)) → Type 0
Returns r = (ps : List (AgentProposal Evidence)) × (r ≡ some ps)

construct-Returns :
    (p : AgentProposal Evidence) (rest : Option (List (AgentProposal Evidence)))
    → is_valid p ≡ true
    → Returns rest
    → Returns (construct p rest)
construct-Returns p rest valid (ps, found) = (p ∷ ps, rw (found, valid) refl)

joined-Returns :
    (ps qs : Option (List (AgentProposal Evidence)))
    → Returns ps
    → Returns qs
    → Returns (joined ps qs)
joined-Returns ps qs (xs, e) (ys, f) = (xs ++ ys, rw (e, f) refl)

-- The kinds of draft that the rules make pass the validation for names that do.
is_named : ProposalKind → String → String → Bool
is_named kind type signal =
    matches_identifier (codes signal)
    && ((str_eq type "" || is_proposable type)
        && (if is_action kind then not (str_eq type "") else str_eq type ""))

module _ (uuid : String → String → String) (report : DigestReport)
    (env_ok : matches_identifier (codes report.env_name) ≡ true) where
  draft-valid :
      (vm : ProbeResult) (kind : ProposalKind) (type signal confidence : String)
      (evidence : List Evidence)
      → matches_identifier (codes vm.vm_id) ≡ true
      → is_named kind type signal ≡ true
      → is_valid (draft uuid report vm kind type signal evidence confidence) ≡ true
  unfolding is_valid is_named
  draft-valid vm kind type signal confidence evidence vm_ok named =
      ground (arith, env_ok, vm_ok, named)

  growth_named : is_named action "disk_cleanup" "disk_growth" ≡ true
  unfolding is_named matches_identifier is_proposable
  growth_named = refl

  rotation_named : is_named action "log_rotation" "disk_growth" ≡ true
  unfolding is_named matches_identifier is_proposable
  rotation_named = refl

  drift_named : is_named review "" "drift" ≡ true
  unfolding is_named matches_identifier is_proposable
  drift_named = refl

  logins_named : is_named review "" "failed_logins" ≡ true
  unfolding is_named matches_identifier is_proposable
  logins_named = refl

  module _ (vm : ProbeResult) (enabled : List String)
      (vm_ok : matches_identifier (codes vm.vm_id) ≡ true) where
    detect_growth-Returns :
        (types : List String) (rest : Option (List (AgentProposal Evidence)))
        → All (λ type. is_named action type "disk_growth" ≡ true) types
        → Returns rest
        → Returns (detect_growth uuid report vm enabled types rest)
    unfolding detect_growth
    detect_growth-Returns [] rest named found = found
    detect_growth-Returns (type ∷ types) rest (here, named) found =
        let others = detect_growth-Returns types rest named found in
        let p =
          draft uuid report vm action type "disk_growth" (map disk_evidence vm.disk_growth_alerts)
            (confidence_of vm.disk_growth_alerts) in
        if_holds Returns (is_enabled enabled type)
          (λ _.
            construct-Returns p (detect_growth uuid report vm enabled types rest)
              (draft-valid vm action type "disk_growth" (confidence_of vm.disk_growth_alerts)
                (map disk_evidence vm.disk_growth_alerts) vm_ok here)
              others)
          (λ _. others)

    wanted-named :
        (alerts : List DiskAlert)
        → All (λ type. is_named action type "disk_growth" ≡ true) (wanted alerts)
    wanted-named [] = tt
    wanted-named (a ∷ alerts) = (
      growth_named,
      if_holds (All (λ type. is_named action type "disk_growth" ≡ true))
          (any under_var (a ∷ alerts)) (λ _. (rotation_named, tt)) (λ _. tt),
    )

    detect_drift-Returns :
        (changes : List DriftChange) (rest : Option (List (AgentProposal Evidence)))
        → Returns rest
        → Returns (detect_drift uuid report vm changes rest)
    unfolding detect_drift
    detect_drift-Returns [] rest found = found
    detect_drift-Returns (c ∷ changes) rest found =
        construct-Returns
          (draft uuid report vm review "" "drift" (map drift_evidence (c ∷ changes)) "high") rest
          (draft-valid vm review "" "drift" "high" (map drift_evidence (c ∷ changes)) vm_ok
            drift_named)
          found

    detect_logins-Returns :
        (summary : Option LoginSummary) → Returns (detect_logins uuid report vm summary)
    unfolding detect_logins
    detect_logins-Returns none = ([], refl)
    detect_logins-Returns (some summary) =
        if_holds Returns (ltb failed_login_threshold summary.total_count)
          (λ _.
            construct-Returns
              (draft uuid report vm review "" "failed_logins" (login_evidence summary ∷ [])
                "medium")
              (some [])
              (draft-valid vm review "" "failed_logins" "medium" (login_evidence summary ∷ []) vm_ok
                logins_named)
              ([], refl))
          (λ _. ([], refl))

    detect_for_vm-Returns : Returns (detect_for_vm uuid report vm enabled)
    unfolding detect_for_vm
    detect_for_vm-Returns =
        detect_growth-Returns (wanted vm.disk_growth_alerts) _ (wanted-named vm.disk_growth_alerts)
          (detect_drift-Returns vm.drift_changes _ (detect_logins-Returns vm.failed_login_summary))

  detect_proposals-Returns :
      (enabled : String → List String) (vms : List ProbeResult)
      → All (λ vm. matches_identifier (codes vm.vm_id) ≡ true) vms
      → Returns (detect_proposals uuid report enabled vms)
  unfolding detect_proposals
  detect_proposals-Returns enabled [] ok = ([], refl)
  detect_proposals-Returns enabled (vm ∷ vms) (vm_ok, ok) =
      let rest = detect_proposals-Returns enabled vms ok in
      if_holds Returns vm.reachable
        (λ _.
          joined-Returns (detect_for_vm uuid report vm (enabled vm.vm_id))
            (detect_proposals uuid report enabled vms)
            (detect_for_vm-Returns vm (enabled vm.vm_id) vm_ok) rest)
        (λ _. rest)

  -- If the names of the environment and of the VMs are identifiers, then the detection does not raise, and
  -- each of its proposals passes the validation and is for review only or for an action that is enabled
  -- on its VM.
  pub detect_proposals-IsAllowed :
      (enabled : String → List String) (vms : List ProbeResult)
      → All (λ vm. matches_identifier (codes vm.vm_id) ≡ true) vms
      → (ps : List (AgentProposal Evidence)) × (detect_proposals uuid report enabled vms ≡ some ps)
        × All (IsAllowed enabled) ps
  detect_proposals-IsAllowed enabled vms ok =
      let (ps, found) = detect_proposals-Returns enabled vms ok in
      let all : AllAllowed enabled (some ps) =
        subst (AllAllowed enabled) found (detect_proposals-AllAllowed enabled uuid report vms) in
      (ps, found, all)
