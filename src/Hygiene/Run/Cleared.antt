-- ===== src/Hygiene/Run/Cleared.antt =====
-- errander/agent/vm_graph.py: what a run of docker_hygiene removes.
use errander_ai.Common.{
  String, ◌≡◌, refl, Bool, true, false, not, ◌⊎◌, inl, inr, Option, none, some, List, [], ◌∷◌, ◌++◌,
  arith, eq_iff, if_holds, Option-cases, All, All-append_one, ℤ,
}
use errander_ai.Vm.{ActionStatus}
use errander_ai.Hygiene.{Assessment, is_nil, compute_assessment_hash}
use errander_ai.Hygiene.Assess.{parse_assess_v2_output}
use errander_ai.Hygiene.Removal.{HygieneApproval, build_allowlist}
use errander_ai.Hygiene.Graph.{
  WrapperCall, assess_v2, remove_v2, WrapperReply, Wrappers, HygieneState, Outcome,
  validate_hygiene, is_skipped, assessed, has_drifted, execute_approval, after_assess,
  docker_hygiene,
}

abbrev pub is_assess : WrapperCall → Bool
is_assess assess_v2 = true
is_assess (remove_v2 text) = false

-- Only the assess wrapper was called.
abbrev pub OnlyAssesses : List WrapperCall → Type 0
OnlyAssesses sent = All (λ c. is_assess c ≡ true) sent

module _ (digest : List (String × String × String) → String) (int : String → Option ℤ)
    (lower : String → String) (vm : Wrappers) (s : HygieneState) where
  -- The last call removes what an approval lists, in a live run, after an assessment with its hash.
  pub record Removes (approval : HygieneApproval) (sent : List WrapperCall) : Type 0 where
    pub earlier : List WrapperCall
    pub reply : WrapperReply
    pub calls :
        sent
        ≡ (earlier ++ assess_v2 ∷ []) ++ remove_v2 (build_allowlist approval.approved_findings) ∷ []
    pub only_assesses : OnlyAssesses earlier
    pub replied : vm earlier assess_v2 ≡ some reply
    pub is_live : s.dry_run ≡ false
    pub is_fresh :
        compute_assessment_hash digest
          (parse_assess_v2_output int lower s.config s.vm_id reply.stdout)
        ≡ approval.snapshot_hash

  abbrev pub Sends : Option HygieneApproval → List WrapperCall → Type 0
  Sends none sent = OnlyAssesses sent
  Sends (some a) sent = OnlyAssesses sent ⊎ Removes a sent

  only : (o : Option HygieneApproval) (sent : List WrapperCall) → OnlyAssesses sent → Sends o sent
  only none sent a = a
  only (some approval) sent a = inl a

  -- The state of the sub-graph after an assessment that found something.
  abbrev found_state : Option HygieneApproval → ActionStatus → Assessment → HygieneState
  found_state o status a = record s {
    approval = o;
    status = status;
    assessment = some a;
    nothing_to_do = false;
  }

  module _ (sent : List WrapperCall) (assesses : OnlyAssesses sent) where
    more : OnlyAssesses (sent ++ assess_v2 ∷ [])
    more = All-append_one (λ c. is_assess c ≡ true) sent assess_v2 assesses refl

    execute-Sends :
        (o : Option HygieneApproval) (status : ActionStatus) (reply : WrapperReply)
        → vm sent assess_v2 ≡ some reply
        → let a = parse_assess_v2_output int lower s.config s.vm_id reply.stdout in
          Sends o
            (after_assess digest int lower vm (sent ++ assess_v2 ∷ []) (found_state o status a)).0
    unfolding execute_approval
    execute-Sends none status reply replied = more
    execute-Sends (some approval) status reply replied =
        let a = parse_assess_v2_output int lower s.config s.vm_id reply.stdout in
        let P = λ (x : Outcome). OnlyAssesses x.0 ⊎ Removes approval x.0 in
        if_holds P (is_nil approval.approved_findings) (λ _. inl more)
          (λ _.
            if_holds P (has_drifted digest approval (some a)) (λ _. inl more)
              (λ fresh.
                if_holds P s.dry_run (λ _. inl more)
                  (λ live. inr (record {
                    earlier = sent;
                    reply = reply;
                    calls = refl;
                    only_assesses = assesses;
                    replied = replied;
                    is_live = live;
                    is_fresh =
                        (eq_iff (compute_assessment_hash digest a) approval.snapshot_hash).0
                          (ground (arith, fresh));
                  }))))

    pub docker_hygiene-Sends :
        (o : Option HygieneApproval)
        → Sends o (docker_hygiene digest int lower vm sent (record s { approval = o })).0
    unfolding docker_hygiene assessed
    docker_hygiene-Sends o =
        let t = record s { approval = o } in
        let P = λ (x : Outcome). Sends o x.0 in
        let after = record t { status = validate_hygiene t } in
        if_holds P (is_skipped (validate_hygiene t)) (λ _. only o sent assesses)
          (λ _. elim (Option-cases (vm sent assess_v2)) [
            | inl e ↦ rw e (only o (sent ++ assess_v2 ∷ []) more)
            | inr (reply, e) ↦
                let a = parse_assess_v2_output int lower s.config s.vm_id reply.stdout in
                let Q = λ (x : HygieneState).
                  Sends o (after_assess digest int lower vm (sent ++ assess_v2 ∷ []) x).0 in
                rw e (
                  if_holds Q reply.is_success
                    (λ _.
                      if_holds Q (not a.reachable) (λ _. only o (sent ++ assess_v2 ∷ []) more)
                        (λ _.
                          if_holds Q (is_nil a.findings) (λ _. only o (sent ++ assess_v2 ∷ []) more)
                            (λ _. execute-Sends o (validate_hygiene t) reply e)))
                    (λ _. only o (sent ++ assess_v2 ∷ []) more))
          ])
