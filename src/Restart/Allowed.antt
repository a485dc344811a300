-- ===== src/Restart/Allowed.antt =====
-- errander/agent/subgraphs/service_restart.py: what is restarted, and when a restart counts as a success.
use errander_ai.Common.{
  ◌≡◌, refl, true, false, not, ◌||◌, ◌⊎◌, inl, inr, none, some, List, [], ◌∷◌, ◌++◌, arith, str_eq,
  if_holds, Option-cases, any, contains_text,
}
use errander_ai.Vm.{ActionStatus, status_pending, dry_run_ok, success, failed}
use errander_ai.Restart.{RestartContext, parse_restart_output, is_safe_unit}
use errander_ai.Restart.Graph.{
  RestartCall, check_wrapper, snapshot_only, restart, RestartReply, RestartTarget, RestartState,
  RestartRun, is_up, verify_restart, execute_restart, before_restart, snapshot_restart,
  service_restart,
}

-- What a run may send, and how often: the wrapper's check, then a snapshot of the unit, then one restart.
abbrev pub IsTrace : RestartState → List RestartCall → Type 0
IsTrace s sent =
    (sent ≡ [])
    ⊎ ((any (λ u. str_eq u s.unit_name) s.restartable_units ≡ true)
        × ((sent ≡ check_wrapper ∷ [])
            ⊎ ((is_safe_unit s.unit_name ≡ true)
                × ((sent ≡ check_wrapper ∷ snapshot_only s.unit_name ∷ [])
                    ⊎ ((s.dry_run ≡ false)
                        × (sent
                            ≡ check_wrapper
                              ∷ snapshot_only s.unit_name
                              ∷ restart s.unit_name
                              ∷ []))))))

-- A success is of a live run in which the wrapper has answered that the unit is active after the restart.
abbrev pub EndsUp : RestartTarget → RestartState → RestartState → ActionStatus → Type 0
EndsUp target s t success =
    (s.dry_run ≡ false)
    × ((reply : RestartReply) × (target (check_wrapper ∷ snapshot_only s.unit_name ∷ [])
            (restart s.unit_name)
          ≡ some reply)
        × (reply.is_success ≡ true)
        × (is_up (parse_restart_output reply.stdout).post_active ≡ true))
EndsUp target s t dry_run_ok = s.dry_run ≡ true
EndsUp target s t failed = Unit
EndsUp target s t _ = ⊥

module _ (target : RestartTarget) (s : RestartState) where
  abbrev pub AtRestartEnd : RestartRun → Type 0
  AtRestartEnd (sent, none) = IsTrace s sent
  AtRestartEnd (sent, some t) = IsTrace s sent × EndsUp target s t t.status

  module _ (allowed : any (λ u. str_eq u s.unit_name) s.restartable_units ≡ true) where
    checked_only : IsTrace s (check_wrapper ∷ [])
    checked_only = inr (allowed, inl refl)

    module _ (safe : is_safe_unit s.unit_name ≡ true) where
      snapped : IsTrace s (check_wrapper ∷ snapshot_only s.unit_name ∷ [])
      snapped = inr (allowed, inr (safe, inl refl))

      restarted :
          s.dry_run ≡ false
          → IsTrace s (check_wrapper ∷ snapshot_only s.unit_name ∷ restart s.unit_name ∷ [])
      restarted live = inr (allowed, inr (safe, inr (live, refl)))

      -- The execution, from a state that differs in its status and its texts.
      execute-AtRestartEnd :
          (context : RestartContext)
          → AtRestartEnd (
              execute_restart target
                (check_wrapper ∷ snapshot_only s.unit_name ∷ [])
                (record s { status = status_pending; context = context }))
      unfolding execute_restart verify_restart
      execute-AtRestartEnd context =
          let sent = check_wrapper ∷ snapshot_only s.unit_name ∷ [] in
          let c = restart s.unit_name in
          if_holds AtRestartEnd (not (is_safe_unit s.unit_name)) (λ unsafe. (snapped, tt))
            (λ _.
              if_holds AtRestartEnd s.dry_run (λ dry. (snapped, dry))
                (λ live. elim (Option-cases (target sent c)) [
                  | inl e ↦ rw e (restarted live)
                  | inr (reply, e) ↦
                      let now = parse_restart_output reply.stdout in
                      rw e (
                        if_holds AtRestartEnd reply.is_success
                          (λ ok.
                            if_holds (λ (t : RestartState). AtRestartEnd (sent ++ c ∷ [], some t))
                              (is_up now.post_active)
                              (λ up. (restarted live, (live, (reply, e, ok, up))))
                              (λ _. (restarted live, tt)))
                          (λ _. (restarted live, tt)))
                ]))

    unsafe-AtRestartEnd :
        (context : RestartContext)
        → is_safe_unit s.unit_name ≡ false
        → AtRestartEnd (
            execute_restart target
              (check_wrapper ∷ [])
              (record s { status = status_pending; context = context }))
    unfolding execute_restart
    unsafe-AtRestartEnd context unsafe = rw unsafe (checked_only, tt)

    snapshot-AtRestartEnd :
        AtRestartEnd
          (snapshot_restart target (check_wrapper ∷ []) (record s { status = status_pending }))
    unfolding snapshot_restart
    snapshot-AtRestartEnd =
        if_holds AtRestartEnd (not (is_safe_unit s.unit_name))
          (λ unsafe.
            unsafe-AtRestartEnd (record s.context { pre_status = ""; pre_journal = "" })
              (ground (arith, unsafe)))
          (λ safe.
            let safe' : is_safe_unit s.unit_name ≡ true = ground (arith, safe) in
            elim (Option-cases (target (check_wrapper ∷ []) (snapshot_only s.unit_name))) [
              | inl e ↦ rw e (snapped safe')
              | inr (reply, e) ↦
                  rw e (execute-AtRestartEnd safe' (before_restart target s.context reply))
            ])

  -- Whatever the target answers, a run sends at most the check of the wrapper, a snapshot and one restart,
  -- in this order. It sends something only if the unit is in the list of the environment, a snapshot or a
  -- restart only if its name is safe, and a restart only in a live run. It ends with success only in a live
  -- run in which the answer to the restart says that the unit is active, and otherwise as failed or as a
  -- dry run.
  pub service_restart-IsTrace : AtRestartEnd (service_restart target s)
  unfolding service_restart
  service_restart-IsTrace =
      if_holds AtRestartEnd (not (any (λ u. str_eq u s.unit_name) s.restartable_units))
        (λ _. (inl refl, tt))
        (λ listed.
          let allowed : any (λ u. str_eq u s.unit_name) s.restartable_units ≡ true =
            ground (arith, listed) in
          elim (Option-cases (target [] check_wrapper)) [
            | inl e ↦ rw e (checked_only allowed)
            | inr (reply, e) ↦ rw e (
                if_holds AtRestartEnd
                  (not reply.is_success || not (contains_text "ok" reply.stdout))
                  (λ _. (checked_only allowed, tt)) (λ _. snapshot-AtRestartEnd allowed))
          ])
