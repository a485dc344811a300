-- ===== src/Patching/Graph/Ended.antt =====
-- errander/agent/subgraphs/patching.py: how a run of patching ends, and its rollback.
use mathlib.Core.List.{append_assoc}
use errander_ai.Common.{
  String, ◌≡◌, refl, Bool, true, false, not, ◌||◌, some, List, [], ◌∷◌, ◌++◌, if◌then◌else◌,
  if_holds, ◌⊎◌, inl, inr, ap, ◌∙◌, map, select_where, strip,
}
use errander_ai.Vm.{ActionStatus, dry_run_ok, success, rolled_back, rollback_failed, blocked}
use errander_ai.Patching.{
  PatchCall, installed_versions, install_pinned, roll_back, PatchReply, PatchVm, ApprovedPackage,
  PatchState, parse_versions, all_safe, is_blank,
}
use errander_ai.Patching.Nodes.{done, names_of, is_empty_list}
use errander_ai.Patching.Execute.{
  pinned_of, expected_of, misses, restorable, is_restored, with_rollback, rollback_check, rollback,
}
use errander_ai.Patching.Graph.History.{
  changes_packages, Follows, Good, send-Good, Reported, Recorded,
}

-- The run has installed the artifact and has asked for the versions of its packages in the next call, and
-- the VM has answered with each of them at its target.
pub record Verified (vm : PatchVm) (ps : List ApprovedPackage) (sent : List PatchCall)
    : Type 0 where
  pub before : List PatchCall
  pub later : List PatchCall
  pub reply : PatchReply
  pub in_run :
      sent
      ≡ (before ++ install_pinned (pinned_of ps) ∷ []) ++ installed_versions (names_of ps) ∷ later
  pub replied :
      vm (before ++ install_pinned (pinned_of ps) ∷ []) (installed_versions (names_of ps))
      ≡ some reply
  pub at_target : misses (expected_of (pinned_of ps) []) (parse_versions reply.stdout) ≡ false

pub Verified-append :
    (vm : PatchVm) (ps : List ApprovedPackage) (sent : List PatchCall) (c : PatchCall)
    → Verified vm ps sent
    → Verified vm ps (sent ++ c ∷ [])
Verified-append vm ps sent c v = record {
  before = v.before;
  later = v.later ++ c ∷ [];
  reply = v.reply;
  in_run =
      ap (λ calls. calls ++ c ∷ []) v.in_run
      ∙ append_assoc (v.before ++ install_pinned (pinned_of ps) ∷ [])
          (installed_versions (names_of ps) ∷ v.later) (c ∷ []);
  replied = v.replied;
  at_target = v.at_target;
}

-- How a run ends that found something to do, by its status.
abbrev pub EndsAs : PatchVm → Bool → List ApprovedPackage → List PatchCall → ActionStatus → Type 0
EndsAs vm dry ps sent dry_run_ok = dry ≡ true
EndsAs vm dry ps sent success = (dry ≡ false) × Verified vm ps sent
EndsAs vm dry ps sent rolled_back = dry ≡ false
EndsAs vm dry ps sent rollback_failed = dry ≡ false
EndsAs vm dry ps sent blocked = Unit
EndsAs vm dry ps sent _ = ⊥

abbrev pub Ended : PatchVm → Bool → List ApprovedPackage → List PatchCall → PatchState → Type 0
Ended vm dry ps sent t = (t.nothing_to_do ≡ true) ⊎ EndsAs vm dry ps sent t.status

-- A rollback in a live run goes back to versions that the VM has reported before anything was changed.
abbrev pub RollsBack : PatchVm → Bool → List PatchCall → List (String × String) → Type 0
RollsBack vm dry sent specs =
    (dry ≡ false)
    × ((versions : List (String × String)) × Reported vm sent versions
        × (specs ≡ restorable versions))

reported :
    (vm : PatchVm) (sent : List PatchCall) (versions : List (String × String))
    → is_empty_list versions ≡ false
    → Recorded vm sent versions
    → Reported vm sent versions
reported vm sent versions full (inl empty) = cc (full, ap is_empty_list empty)
reported vm sent versions full (inr o) = o

module _ (P : List PatchCall → PatchCall → Type 0)
    (reads : (sent : List PatchCall) (c : PatchCall) → changes_packages c ≡ false → P sent c)
    (vm : PatchVm) (dry : Bool) (ps : List ApprovedPackage)
    (rolls : (sent : List PatchCall) (specs : List (String × String))
      → RollsBack vm dry sent specs
      → P sent (roll_back specs)) where
  rolled :
      (sent : List PatchCall) (s : PatchState) (ok : Bool)
      → dry ≡ false
      → Ended vm dry ps sent (with_rollback s ok)
  rolled sent s true live = inr live
  rolled sent s false live = inr live

  pub rollback-Good :
      (sent : List PatchCall) (s : PatchState)
      → dry ≡ false
      → Recorded vm sent s.version_snapshot
      → Follows P [] sent
      → Good P (Ended vm dry ps) (rollback vm sent s)
  unfolding rollback
  rollback-Good sent s live recorded a =
      let names =
        select_where (λ n. not (is_blank (strip n))) (map (λ p. p.0) s.version_snapshot) in
      let G = Good P (Ended vm dry ps) in
      if_holds G (is_empty_list s.version_snapshot) (λ _. (a, rolled sent s false live))
        (λ full.
          if_holds G (is_empty_list (restorable s.version_snapshot))
            (λ _. (a, rolled sent s false live))
            (λ _.
              send-Good P (Ended vm dry ps) vm sent (roll_back (restorable s.version_snapshot))
                (λ sent' reply.
                  if reply.is_success
                  then rollback_check vm sent' s
                  else (sent', some (with_rollback s false)))
                a
                (rolls sent (restorable s.version_snapshot) (
                  live,
                  (s.version_snapshot, reported vm sent s.version_snapshot full recorded, refl),
                ))
                (λ reply e b.
                  if_holds G reply.is_success
                    (λ _.
                      if_holds G (all_safe names)
                        (λ _.
                          send-Good P (Ended vm dry ps) vm
                            (sent ++ roll_back (restorable s.version_snapshot) ∷ [])
                            (installed_versions names)
                            (λ sent' r.
                              done
                                (with_rollback s (
                                  not r.is_success
                                  || is_restored s.version_snapshot (parse_versions r.stdout)))
                                sent')
                            b (reads _ (installed_versions names) refl)
                            (λ r e' c. (
                              c,
                              rolled
                                  ((sent ++ roll_back (restorable s.version_snapshot) ∷ [])
                                    ++ installed_versions names ∷ [])
                                  s
                                  (not r.is_success
                                    || is_restored s.version_snapshot (parse_versions r.stdout))
                                  live,
                            )))
                        (λ _. b))
                    (λ _. (
                      b,
                      rolled (sent ++ roll_back (restorable s.version_snapshot) ∷ []) s false live,
                    )))))
