-- ===== src/Detector/Detected.antt =====
-- errander/agent/proposal_detector.py: what the detector may propose.
use errander_ai.Common.{
  String, ◌≡◌, refl, true, ◌⊎◌, Option, none, some, List, [], ◌∷◌, ◌++◌, ltb, if_holds, All, inl,
  inr,
}
use errander_ai.Proposals.{review, AgentProposal, is_valid}
use errander_ai.Detector.{
  Evidence, ProbeResult, LoginSummary, DriftChange, DigestReport, construct, joined, is_enabled,
  detect_growth, detect_drift, detect_logins, detect_for_vm, detect_proposals, wanted,
  failed_login_threshold,
}

-- A proposal that passes the validation, and is for review only or for an action that is enabled on its VM.
pub record IsAllowed (enabled : String → List String) (p : AgentProposal Evidence) : Type 0 where
  pub valid : is_valid p ≡ true
  pub allowed : (p.kind ≡ review) ⊎ (is_enabled (enabled p.vm_id) p.action_type ≡ true)

module _ (enabled : String → List String) where
  -- Where the detection does not raise, all of its proposals are allowed.
  abbrev pub AllAllowed : Option (List (AgentProposal Evidence)) → Type 0
  AllAllowed none = Unit
  AllAllowed (some ps) = All (IsAllowed enabled) ps

  construct-AllAllowed :
      (p : AgentProposal Evidence) (rest : Option (List (AgentProposal Evidence)))
      → (p.kind ≡ review) ⊎ (is_enabled (enabled p.vm_id) p.action_type ≡ true)
      → AllAllowed rest
      → AllAllowed (construct p rest)
  construct-AllAllowed p none allowed a = tt
  construct-AllAllowed p (some ps) allowed a =
      if_holds AllAllowed (is_valid p) (λ valid. (record { valid = valid; allowed = allowed }, a))
        (λ _. tt)

  All-append :
      (ps qs : List (AgentProposal Evidence))
      → All (IsAllowed enabled) ps
      → All (IsAllowed enabled) qs
      → All (IsAllowed enabled) (ps ++ qs)
  All-append [] qs a b = b
  All-append (p ∷ ps) qs (h, t) b = (h, All-append ps qs t b)

  joined-AllAllowed :
      (ps qs : Option (List (AgentProposal Evidence)))
      → AllAllowed ps
      → AllAllowed qs
      → AllAllowed (joined ps qs)
  joined-AllAllowed none qs a b = tt
  joined-AllAllowed (some ps) none a b = tt
  joined-AllAllowed (some ps) (some qs) a b = All-append ps qs a b

  module _ (uuid : String → String → String) (report : DigestReport) where
    detect_growth-AllAllowed :
        (vm : ProbeResult) (types : List String) (rest : Option (List (AgentProposal Evidence)))
        → AllAllowed rest
        → AllAllowed (detect_growth uuid report vm (enabled vm.vm_id) types rest)
    unfolding detect_growth
    detect_growth-AllAllowed vm [] rest a = a
    detect_growth-AllAllowed vm (type ∷ types) rest a =
        let others = detect_growth-AllAllowed vm types rest a in
        if_holds AllAllowed (is_enabled (enabled vm.vm_id) type)
          (λ on.
            construct-AllAllowed _ (detect_growth uuid report vm (enabled vm.vm_id) types rest)
              (inr on) others)
          (λ _. others)

    detect_drift-AllAllowed :
        (vm : ProbeResult) (changes : List DriftChange)
        (rest : Option (List (AgentProposal Evidence)))
        → AllAllowed rest
        → AllAllowed (detect_drift uuid report vm changes rest)
    unfolding detect_drift
    detect_drift-AllAllowed vm [] rest a = a
    detect_drift-AllAllowed vm (c ∷ changes) rest a = construct-AllAllowed _ rest (inl refl) a

    detect_logins-AllAllowed :
        (vm : ProbeResult) (summary : Option LoginSummary)
        → AllAllowed (detect_logins uuid report vm summary)
    unfolding detect_logins
    detect_logins-AllAllowed vm none = tt
    detect_logins-AllAllowed vm (some summary) =
        if_holds AllAllowed (ltb failed_login_threshold summary.total_count)
          (λ _. construct-AllAllowed _ (some []) (inl refl) tt) (λ _. tt)

    -- Every proposal that the detector makes passes the validation, and is for review only or for an action
    -- that the inventory enables on its VM; or the detection raises and makes none.
    pub detect_proposals-AllAllowed :
        (vms : List ProbeResult) → AllAllowed (detect_proposals uuid report enabled vms)
    unfolding detect_proposals detect_for_vm
    detect_proposals-AllAllowed [] = tt
    detect_proposals-AllAllowed (vm ∷ vms) =
        let rest = detect_proposals-AllAllowed vms in
        let own = detect_growth-AllAllowed vm (wanted vm.disk_growth_alerts) _ (
          detect_drift-AllAllowed vm vm.drift_changes _
            (detect_logins-AllAllowed vm vm.failed_login_summary)) in
        if_holds AllAllowed vm.reachable
          (λ _.
            joined-AllAllowed (detect_for_vm uuid report vm (enabled vm.vm_id))
              (detect_proposals uuid report enabled vms) own rest)
          (λ _. rest)
