-- ===== src/Patching/Graph/Reads.antt =====
-- errander/agent/subgraphs/patching.py: the nodes before the execution only read.
use errander_ai.Common.{
  String, ◌≡◌, inl, inr, refl, Bool, true, false, some, List, [], ◌∷◌, ◌++◌, if◌then◌else◌,
  if_holds,
}
use errander_ai.Vm.{blocked}
use errander_ai.Patching.{
  PatchCall, detect_lock, refresh_lists, list_upgradable, installed_versions, service_states,
  PatchReply, PatchVm, ApprovedPackage, PatchState, Checks, parse_upgradable, parse_versions,
  all_safe,
}
use errander_ai.Patching.Nodes.{
  and_then, send, done, fail_patch, is_locked_by, preflight_lock, validate_patch, names_of,
  to_install, with_pending, not_excluded, assess_fresh, assess_approved, is_empty_list,
  assess_patch, with_snapshot, snapshot, services_shown, service_health_pre,
}
use errander_ai.Patching.Execute.{execute_patch}
use errander_ai.Patching.Graph.{
  is_blocked_status, after_execute, after_snapshot, after_assess_patch, after_validate,
  after_preflight_lock, patching,
}
use errander_ai.Patching.Graph.History.{
  changes_packages, Follows, Good, send-Good, and_then-Good, Reported, Before, Before-append,
}

module _ (P : List PatchCall → PatchCall → Type 0)
    (reads : (sent : List PatchCall) (c : PatchCall) → changes_packages c ≡ false → P sent c)
    (vm : PatchVm) (dry : Bool) (ps : List ApprovedPackage) where
  abbrev Q : List PatchCall → PatchState → Type 0
  Q = Before vm dry ps

  more :
      (sent : List PatchCall) (t : PatchState) (c : PatchCall)
      → changes_packages c ≡ false
      → Q sent t
      → Q (sent ++ c ∷ []) t
  more sent t c reads q = Before-append vm dry ps sent t c reads q

  preflight-Good : (s : PatchState) → Q [] s → Good P Q (preflight_lock vm [] s)
  unfolding preflight_lock
  preflight-Good s q =
      send-Good P Q vm [] detect_lock
        (λ sent reply.
          done
            (if is_locked_by s.dry_run reply
              then record s { status = blocked; has_error = true }
              else s)
            sent)
        tt (reads _ detect_lock refl)
        (λ reply e a.
          let q' = more [] s detect_lock refl q in
          (a, if_holds (Q (detect_lock ∷ [])) (is_locked_by s.dry_run reply) (λ _. q') (λ _. q')))

  with_pending-Before :
      (sent : List PatchCall) (s : PatchState) (names : List String)
      → Q sent s
      → Q sent (with_pending s names)
  with_pending-Before sent s [] q = q
  with_pending-Before sent s (n ∷ ns) q = q

  with_snapshot-Before :
      (sent : List PatchCall) (s : PatchState) (d : List (String × String))
      → Reported vm sent d
      → Q sent s
      → Q sent (with_snapshot s d)
  with_snapshot-Before sent s [] reported q = q
  with_snapshot-Before sent s (v ∷ vs) reported (same, only, recorded) = (same, only, inr reported)

  assess_fresh-Good :
      (fnmatch : String → String → Bool) (sent : List PatchCall) (s : PatchState)
      → Follows P [] sent
      → Q sent s
      → Good P Q (assess_fresh fnmatch vm sent s)
  unfolding assess_fresh
  assess_fresh-Good fnmatch sent s a q =
      let listed = λ (reply : PatchReply).
        if reply.is_success
        then with_pending s (not_excluded fnmatch s (parse_upgradable reply.stdout s.os_family))
        else fail_patch s in
      send-Good P Q vm sent refresh_lists
        (λ sent' refresh.
          send vm sent' list_upgradable (λ sent'' reply. done (listed reply) sent''))
        a (reads _ refresh_lists refl)
        (λ refresh e b.
          send-Good P Q vm (sent ++ refresh_lists ∷ []) list_upgradable
            (λ sent'' reply. done (listed reply) sent'') b (reads _ list_upgradable refl)
            (λ reply e' c.
              let sent' = sent ++ refresh_lists ∷ [] in
              let sent'' = sent' ++ list_upgradable ∷ [] in
              let q' = more sent' s list_upgradable refl (more sent s refresh_lists refl q) in
              (
                c,
                if_holds (Q sent'') reply.is_success
                    (λ _.
                      with_pending-Before sent'' s
                        (not_excluded fnmatch s (parse_upgradable reply.stdout s.os_family)) q')
                    (λ _. q'),
              )))

  assess_approved-Good :
      (sent : List PatchCall) (s : PatchState)
      → Follows P [] sent
      → Q sent s
      → Good P Q (assess_approved vm sent s)
  unfolding assess_approved
  assess_approved-Good sent s a q =
      let names = names_of s.approved_packages in
      let queried = λ (reply : PatchReply).
        if reply.is_success
        then with_pending s (to_install s.approved_packages (parse_versions reply.stdout))
        else fail_patch s in
      if_holds (Good P Q) (all_safe names)
        (λ _.
          send-Good P Q vm sent (installed_versions names)
            (λ sent' reply. done (queried reply) sent') a (reads _ (installed_versions names) refl)
            (λ reply e b.
              let sent' = sent ++ installed_versions names ∷ [] in
              let q' = more sent s (installed_versions names) refl q in
              (
                b,
                if_holds (Q sent') reply.is_success
                    (λ _.
                      with_pending-Before sent' s
                        (to_install s.approved_packages (parse_versions reply.stdout)) q')
                    (λ _. q'),
              )))
        (λ _. a)

  pub assess-Good :
      (fnmatch : String → String → Bool) (sent : List PatchCall) (s : PatchState)
      → Follows P [] sent
      → Q sent s
      → Good P Q (assess_patch fnmatch vm sent s)
  unfolding assess_patch
  assess-Good fnmatch sent s a q =
      if_holds (Good P Q) (is_empty_list s.approved_packages)
        (λ _. assess_fresh-Good fnmatch sent s a q) (λ _. assess_approved-Good sent s a q)

  pub snapshot-Good :
      (sent : List PatchCall) (s : PatchState)
      → Follows P [] sent
      → Q sent s
      → Good P Q (snapshot vm sent s)
  unfolding snapshot
  snapshot-Good sent s a q =
      let taken = λ (reply : PatchReply).
        if reply.is_success then with_snapshot s (parse_versions reply.stdout) else fail_patch s in
      if_holds (Good P Q) (is_empty_list s.pending_updates) (λ _. (a, (q.0, q.1, inl refl)))
        (λ _.
          if_holds (Good P Q) (all_safe s.pending_updates)
            (λ _.
              send-Good P Q vm sent (installed_versions s.pending_updates)
                (λ sent' reply. done (taken reply) sent') a
                (reads _ (installed_versions s.pending_updates) refl)
                (λ reply e b.
                  let ask = installed_versions s.pending_updates in
                  let q' = more sent s ask refl q in
                  (
                    b,
                    if_holds (Q (sent ++ ask ∷ [])) reply.is_success
                        (λ _.
                          with_snapshot-Before (sent ++ ask ∷ []) s (parse_versions reply.stdout)
                            (record {
                              earlier = sent;
                              later = [];
                              in_run = refl;
                              names = s.pending_updates;
                              reply = reply;
                              only_reads = q.1;
                              replied = e;
                              shown = refl;
                            })
                            q')
                        (λ _. q'),
                  )))
            (λ _. a))

  pub service_pre-Good :
      (sent : List PatchCall) (s : PatchState)
      → Follows P [] sent
      → Q sent s
      → Good P Q (service_health_pre vm sent s)
  unfolding service_health_pre
  service_pre-Good sent s a q =
      if_holds (Good P Q) (is_empty_list s.critical_services) (λ _. (a, q))
        (λ _.
          send-Good P Q vm sent (service_states s.critical_services)
            (λ sent' reply.
              done (record s { service_pre_snapshot = services_shown reply s.critical_services })
                sent')
            a (reads _ (service_states s.critical_services) refl)
            (λ reply e b. (b, more sent s (service_states s.critical_services) refl q)))

  -- A run up to the execution, and what the execution leads to.
  module _ (R : List PatchCall → PatchState → Type 0) (checks : Checks)
      (fnmatch : String → String → Bool) where
    -- What the runs that do not reach the execution end with.
    pub record Early : Type 0 where
      pub locked :
          (sent : List PatchCall) (t : PatchState)
          → Q sent t
          → is_blocked_status t.status ≡ true
          → R sent t
      pub idle :
          (sent : List PatchCall) (t : PatchState) → Q sent t → t.nothing_to_do ≡ true → R sent t
      pub executed :
          (sent : List PatchCall) (t : PatchState)
          → Follows P [] sent
          → Q sent t
          → Good P R (and_then (execute_patch vm sent t) (after_execute checks fnmatch vm))

    after_snapshot-Good :
        Early
        → (sent : List PatchCall) (t : PatchState) → Follows P [] sent
        → Q sent t
        → Good P R (after_snapshot checks fnmatch vm sent t)
    after_snapshot-Good early sent t a q =
        and_then-Good P Q R
          (if checks.sre_service_check then service_health_pre vm sent t else (sent, some t))
          (λ sent' t'. and_then (execute_patch vm sent' t') (after_execute checks fnmatch vm))
          (if_holds (Good P Q) checks.sre_service_check (λ _. service_pre-Good sent t a q)
            (λ _. (a, q)))
          early.executed

    after_validate-Good :
        Early
        → (sent : List PatchCall) (t : PatchState) → Follows P [] sent
        → Q sent t
        → Good P R (after_validate checks fnmatch vm sent t)
    unfolding validate_patch
    after_validate-Good early sent t a q =
        and_then-Good P Q R (assess_patch fnmatch vm sent (validate_patch t))
          (after_assess_patch checks fnmatch vm) (assess-Good fnmatch sent (validate_patch t) a q)
          (λ sent' t' a' q'.
            if_holds (Good P R) t'.nothing_to_do (λ idle. (a', early.idle sent' t' q' idle))
              (λ _.
                and_then-Good P Q R (snapshot vm sent' t') (after_snapshot checks fnmatch vm)
                  (snapshot-Good sent' t' a' q') (after_snapshot-Good early)))

    pub patching-Good : Early → (s : PatchState) → Q [] s → Good P R (patching checks fnmatch vm s)
    unfolding patching
    patching-Good early s q =
        if_holds (Good P R) checks.sre_preflight_lock_check
          (λ _.
            and_then-Good P Q R (preflight_lock vm [] s) (after_preflight_lock checks fnmatch vm)
              (preflight-Good s q)
              (λ sent t a q'.
                if_holds (Good P R) (is_blocked_status t.status)
                  (λ locked. (a, early.locked sent t q' locked))
                  (λ _. after_validate-Good early sent t a q')))
          (λ _. after_validate-Good early [] s tt q)
