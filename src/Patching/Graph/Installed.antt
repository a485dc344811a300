-- ===== src/Patching/Graph/Installed.antt =====
-- errander/agent/subgraphs/patching.py: what a live execution and the verification after it establish.
use mathlib.Core.Path.{subst, ap₂}
use errander_ai.Common.{
  ◌≡◌, refl, sym, ap, ◌∙◌, Bool, true, false, not, ◌||◌, some, List, [], ◌∷◌, ◌++◌, if◌then◌else◌,
  if_holds, Bool-cases, ◌⊎◌, inl, inr, any, select_where,
}
use errander_ai.Vm.{success, failed}
use errander_ai.Patching.{
  PatchCall, installed_versions, install_pinned, PatchReply, PatchVm, ApprovedPackage, PatchState,
  parse_versions, all_safe, is_blank,
}
use errander_ai.Patching.Nodes.{done, fail_patch, names_of, is_empty_list}
use errander_ai.Patching.Execute.{
  pinned_of, expected_of, lacks_target, safe_pairs, execute_live, expected, misses, checked,
  queried, verify_patch,
}
use errander_ai.Patching.Graph.{is_failed_status}
use errander_ai.Patching.Graph.History.{
  changes_packages, Good, send-Good, Same, Recorded, Recorded-append, Follows,
}
use errander_ai.Patching.Graph.Ended.{Verified}

-- A live install is of an artifact in which each package has a target.
abbrev pub Installable : Bool → List ApprovedPackage → Type 0
Installable dry ps = (dry ≡ false) × (any lacks_target ps ≡ false)

-- A package that can be pinned has a name.
pinned-named :
    (ps : List ApprovedPackage)
    → is_empty_list (pinned_of ps) ≡ false
    → (is_empty_list ps ≡ false) × (is_empty_list (names_of ps) ≡ false)
unfolding select_where
pinned-named [] h = cc
pinned-named (p ∷ ps) h = elim (Bool-cases (is_blank p.name)) [
  | inl blank ↦ rw blank (refl, (pinned-named ps (rw blank at h)).1)
  | inr named ↦ rw named (refl, refl)
]

-- A live execution that installed the artifact.
pub record Succeeded (t : PatchState) : Type 0 where
  pub status : t.status ≡ success
  pub no_error : t.has_error ≡ false
  pub pinned : is_empty_list (pinned_of t.approved_packages) ≡ false

-- The last call was the install of the artifact.
abbrev pub JustInstalled : List ApprovedPackage → List PatchCall → Type 0
JustInstalled ps sent =
    (before : List PatchCall) × (sent ≡ before ++ install_pinned (pinned_of ps) ∷ [])

-- A live execution that ended, and the test of what is installed.
abbrev pub Installed : PatchVm → Bool → List ApprovedPackage → List PatchCall → PatchState → Type 0
Installed vm dry ps sent t =
    Same dry ps t
    × (dry ≡ false)
    × Recorded vm sent t.version_snapshot
    × ((Succeeded t × JustInstalled ps sent) ⊎ (is_failed_status t.status ≡ true))

abbrev pub Tested : PatchVm → Bool → List ApprovedPackage → List PatchCall → PatchState → Type 0
Tested vm dry ps sent t =
    (dry ≡ false)
    × Recorded vm sent t.version_snapshot
    × (((t.status ≡ success) × Verified vm ps sent)
        ⊎ ((is_failed_status t.status || t.has_error) ≡ true))

module _ (P : List PatchCall → PatchCall → Type 0)
    (reads : (sent : List PatchCall) (c : PatchCall) → changes_packages c ≡ false → P sent c)
    (vm : PatchVm) (dry : Bool) (ps : List ApprovedPackage)
    (installs : (sent : List PatchCall)
      → Installable dry ps
      → P sent (install_pinned (pinned_of ps))) where
  after_install :
      (sent : List PatchCall) (s : PatchState)
      → Same dry ps s
      → is_empty_list (pinned_of s.approved_packages) ≡ false
      → (ok : Bool)
      → let t = record s { status = if ok then success else failed; has_error = not ok } in
        (Succeeded t
          × JustInstalled ps (sent ++ install_pinned (pinned_of s.approved_packages) ∷ []))
        ⊎ (is_failed_status t.status ≡ true)
  after_install sent s q full true = inl (
    record { status = refl; no_error = refl; pinned = full },
    (sent, ap (λ x. sent ++ install_pinned (pinned_of x) ∷ []) q.1),
  )
  after_install sent s q full false = inr refl

  pub execute_live-Good :
      (sent : List PatchCall) (s : PatchState)
      → dry ≡ false
      → Follows P [] sent
      → Same dry ps s
      → Recorded vm sent s.version_snapshot
      → Good P (Installed vm dry ps) (execute_live vm sent s)
  unfolding execute_live
  execute_live-Good sent s live a q recorded =
      let G = Good P (Installed vm dry ps) in
      let pinned = pinned_of s.approved_packages in
      let failing : G (sent, some (fail_patch s)) = (a, (q, live, recorded, inr refl)) in
      if_holds G (is_empty_list s.approved_packages) (λ _. failing)
        (λ _.
          if_holds G (any lacks_target s.approved_packages) (λ _. failing)
            (λ all_targets.
              if_holds G (is_empty_list pinned) (λ _. failing)
                (λ full.
                  if_holds G (safe_pairs pinned)
                    (λ _.
                      send-Good P (Installed vm dry ps) vm sent (install_pinned pinned)
                        (λ sent' reply.
                          done
                            (record s {
                              status = if reply.is_success then success else failed;
                              has_error = not reply.is_success;
                            })
                            sent')
                        a
                        (subst (λ x. P sent (install_pinned (pinned_of x))) (sym q.1)
                          (installs sent (live, ap (any lacks_target) (sym q.1) ∙ all_targets)))
                        (λ reply e b. (
                          b,
                          (
                            q,
                            live,
                            Recorded-append vm sent s.version_snapshot (install_pinned pinned)
                                recorded,
                            after_install sent s q full reply.is_success,
                          ),
                        )))
                    (λ _. a))))

  verified :
      (sent before : List PatchCall) (t : PatchState) (reply : PatchReply)
      → sent ≡ before ++ install_pinned (pinned_of ps) ∷ []
      → Same dry ps t
      → vm sent (installed_versions (names_of t.approved_packages)) ≡ some reply
      → misses (expected t) (parse_versions reply.stdout) ≡ false
      → Verified vm ps (sent ++ installed_versions (names_of t.approved_packages) ∷ [])
  verified sent before t reply just q replied at_target =
      let names = names_of t.approved_packages in
      let same : installed_versions names ≡ installed_versions (names_of ps) =
        ap (λ x. installed_versions (names_of x)) q.1 in
      record {
        before = before;
        later = [];
        reply = reply;
        in_run = ap₂ (λ calls c. calls ++ c ∷ []) just same;
        replied = sym (ap₂ vm just same) ∙ replied;
        at_target =
            subst (λ x. misses (expected_of (pinned_of x) []) (parse_versions reply.stdout) ≡ false)
              q.1 at_target;
      }

  checked-Tested :
      (sent before : List PatchCall) (t : PatchState) (reply : PatchReply)
      → sent ≡ before ++ install_pinned (pinned_of ps) ∷ []
      → Same dry ps t
      → dry ≡ false
      → Recorded vm
          (sent ++ installed_versions (names_of t.approved_packages) ∷ [])
          t.version_snapshot
      → Succeeded t
      → is_empty_list t.approved_packages ≡ false
      → vm sent (installed_versions (names_of t.approved_packages)) ≡ some reply
      → Tested vm dry ps
          (sent ++ installed_versions (names_of t.approved_packages) ∷ [])
          (checked t (parse_versions reply.stdout))
  checked-Tested sent before t reply just q live recorded ok some_package replied =
      let T = Tested vm dry ps (sent ++ installed_versions (names_of t.approved_packages) ∷ []) in
      if_holds T (is_empty_list t.approved_packages) (λ h. cc (h, some_package))
        (λ _.
          if_holds T (misses (expected t) (parse_versions reply.stdout))
            (λ _. (live, recorded, inr refl))
            (λ at_target. (
              live,
              recorded,
              inl (ok.status, verified sent before t reply just q replied at_target),
            )))

  pub verify-Good :
      (sent : List PatchCall) (t : PatchState)
      → Follows P [] sent
      → Same dry ps t
      → dry ≡ false
      → Recorded vm sent t.version_snapshot
      → Succeeded t
      → JustInstalled ps sent
      → Good P (Tested vm dry ps) (verify_patch vm sent t)
  unfolding verify_patch
  verify-Good sent t a q live recorded ok (before, just) =
      let G = Good P (Tested vm dry ps) in
      let (some_package, some_name) = pinned-named t.approved_packages ok.pinned in
      let same : queried t ≡ names_of t.approved_packages = rw some_package refl in
      if_holds G (is_empty_list (queried t)) (λ h. cc (h, some_name, ap is_empty_list same))
        (λ _.
          if_holds G (all_safe (queried t))
            (λ _.
              send-Good P (Tested vm dry ps) vm sent (installed_versions (queried t))
                (λ sent' reply.
                  done
                    (if reply.is_success
                      then checked t (parse_versions reply.stdout)
                      else fail_patch t)
                    sent')
                a (reads _ (installed_versions (queried t)) refl)
                (λ reply e b.
                  let T = Tested vm dry ps (sent ++ installed_versions (queried t) ∷ []) in
                  (
                    b,
                    if_holds T reply.is_success
                        (λ _.
                          subst
                            (λ x.
                              Tested vm dry ps (sent ++ installed_versions x ∷ [])
                                (checked t (parse_versions reply.stdout)))
                            (sym same)
                            (checked-Tested sent before t reply just q live
                              (Recorded-append vm sent t.version_snapshot
                                (installed_versions (names_of t.approved_packages)) recorded)
                              ok some_package
                              (subst (λ x. vm sent (installed_versions x) ≡ some reply) same e)))
                        (λ _. (
                          live,
                          Recorded-append vm sent t.version_snapshot
                              (installed_versions (queried t)) recorded,
                          inr refl,
                        )),
                  )))
            (λ _. a))
