-- ===== src/Recovery/Proposed/Passes.antt =====
-- errander/main.py: whole passes of `_proposal_reconciler`, and any sequence of them with the writes of
-- other tasks between.
use errander_ai.Common.{
  ℕ, ◌+◌, ◌≤◌, String, ◌≡◌, refl, sym, ap, Bool, true, false, not, Option, none, some, List, [],
  ◌∷◌, arith, str_eq, if◌then◌else◌, if_holds, find_where,
}
use errander_ai.Proposals.{codes}
use errander_ai.Proposals.Store.{
  Row, Result, ok, integrity_error, open_at, expire_overdue, wake_snoozed,
}
use errander_ai.Proposals.Store.Run.{Op, sweep, rouse, step, run, rows_after}
use errander_ai.Proposals.Store.Reads.{get_approved_unclaimed}
use errander_ai.Proposals.Store.Claims.{HasUniqueIds, one_execution}
use errander_ai.Proposals.Store.Wake.{due_at, wake_snoozed_blocked}
use errander_ai.Lock.{undisturbed, LockInfo, is_expired, sanitize_vm_id}
use errander_ai.Lock.Files.{IsHeld}
use errander_ai.Lock.Exclusion.{acquire-held}
use errander_ai.Recovery.Proposed.{
  TargetSchema, EnvironmentSchema, enabled_in, resolve_action, Work, window_closed, SubgraphRun,
  lock_ttl, fail_closed, lock_and_execute, reconcile_target, reconcile_env, reconcile_proposal,
  reconcile_proposals, proposal_reconciler,
}
use errander_ai.Recovery.Proposed.Once.{
  executions, Works, Works-refl, Works-trans, reconcile_proposals-Works,
}

-- Nothing is executed and no lock is touched.
abbrev pub IsIdle : Work → Work → Type 0
IsIdle w v = (v.executed ≡ w.executed) × (v.locks ≡ w.locks)

module _ {E : Type 0} (dumps : List E → String) (is_word : ℕ → Bool) (subgraph : SubgraphRun E)
    (environments : String → Option EnvironmentSchema) where
  -- The end of `_proposal_reconciler`, by what waking has led to.
  after_waking : Bool → ℕ → Work → List Row → Result (List Row × List String) → Work × Bool
  after_waking agent_dry_run now w swept integrity_error = (record w { rows = swept }, true)
  after_waking agent_dry_run now w swept (ok (rows, woken)) =
      let executed =
        reconcile_proposals dumps is_word subgraph environments now (record w { rows = rows })
          (get_approved_unclaimed rows) in
      (if agent_dry_run then record w { rows = rows } else executed, false)

  swept_and_woken : ℕ → List Row → List Row
  swept_and_woken now rows = run dumps rows (sweep now ∷ rouse now ∷ [])

  swept_and_woken-after :
      (now : ℕ) (rows : List Row) (r : Result (List Row × List String))
      → wake_snoozed (expire_overdue rows now).0 now ≡ r
      → swept_and_woken now rows ≡ rows_after (expire_overdue rows now).0 r
  unfolding swept_and_woken run step
  swept_and_woken-after now rows r e = ap (λ x. rows_after (expire_overdue rows now).0 x) e

  after_waking-Works :
      (dry : Bool) (now : ℕ) (id : String) (w : Work) (r : Result (List Row × List String))
      → wake_snoozed (expire_overdue w.rows now).0 now ≡ r
      → Works dumps id w (after_waking dry now w (expire_overdue w.rows now).0 r).0
  unfolding after_waking swept_and_woken
  after_waking-Works dry now id w integrity_error e = record {
    writes = sweep now ∷ rouse now ∷ [];
    ran = sym (swept_and_woken-after now w.rows integrity_error e);
    paid = omega arith;
  }
  after_waking-Works dry now id w (ok (rows, woken)) e =
      let prepared : Works dumps id w (record w { rows = rows }) = record {
        writes = sweep now ∷ rouse now ∷ [];
        ran = sym (swept_and_woken-after now w.rows (ok (rows, woken)) e);
        paid = omega arith;
      } in
      let done =
        reconcile_proposals dumps is_word subgraph environments now (record w { rows = rows })
          (get_approved_unclaimed rows) in
      if_holds (Works dumps id w) dry (λ _. prepared)
        (λ _.
          Works-trans dumps id w (record w { rows = rows }) done prepared
            (reconcile_proposals-Works dumps is_word subgraph environments now id
              (record w { rows = rows }) (get_approved_unclaimed rows)))

  after_waking-dry :
      (now : ℕ) (w : Work) (r : Result (List Row × List String))
      → wake_snoozed (expire_overdue w.rows now).0 now ≡ r
      → (after_waking true now w (expire_overdue w.rows now).0 r).0
        ≡ record w { rows = swept_and_woken now w.rows }
  unfolding after_waking
  after_waking-dry now w integrity_error e =
      ap (λ rows. record w { rows = rows })
        (sym (swept_and_woken-after now w.rows integrity_error e))
  after_waking-dry now w (ok (rows, woken)) e =
      ap (λ rows. record w { rows = rows })
        (sym (swept_and_woken-after now w.rows (ok (rows, woken)) e))

  -- In the dry-run mode of the agent a pass expires and wakes proposals and does nothing else: it claims
  -- and executes none, and touches no lock.
  pub dry_pass :
      (now : ℕ) (w : Work)
      → (proposal_reconciler dumps is_word subgraph environments true now w).0
        ≡ record w { rows = run dumps w.rows (sweep now ∷ rouse now ∷ []) }
  unfolding proposal_reconciler after_waking
  dry_pass now w =
      unfold swept_and_woken in
      (after_waking-dry now w (wake_snoozed (expire_overdue w.rows now).0 now) refl)

  proposal_reconciler-Works :
      (dry : Bool) (now : ℕ) (id : String) (w : Work)
      → Works dumps id w (proposal_reconciler dumps is_word subgraph environments dry now w).0
  unfolding proposal_reconciler after_waking
  proposal_reconciler-Works dry now id w =
      after_waking-Works dry now id w (wake_snoozed (expire_overdue w.rows now).0 now) refl

  -- If one VM and action key has both an open proposal and a snoozed one that is due, after the sweep,
  -- then the pass ends with the IntegrityError: no approved proposal of any VM is executed.
  pub clash_blocks :
      (dry : Bool) (now : ℕ) (vm key : String) (w : Work) {r q : Row}
      → find_where (open_at vm key) (expire_overdue w.rows now).0 ≡ some r
      → find_where (due_at now vm key) (expire_overdue w.rows now).0 ≡ some q
      → proposal_reconciler dumps is_word subgraph environments dry now w
        ≡ (record w { rows = (expire_overdue w.rows now).0 }, true)
  unfolding proposal_reconciler after_waking
  clash_blocks dry now vm key w is_open is_due =
      ap (after_waking dry now w (expire_overdue w.rows now).0)
        (wake_snoozed_blocked now vm key (expire_overdue w.rows now).0 is_open is_due)

  fail_closed-idle :
      (now : ℕ) (w : Work) (row : Row)
      → ((fail_closed now w row).executed ≡ w.executed) × ((fail_closed now w row).locks ≡ w.locks)
  unfolding fail_closed
  fail_closed-idle now w row = (refl, refl)

  lock_and_execute-held :
      (now : ℕ) (w : Work) (row : Row) (info : LockInfo)
      → IsHeld (sanitize_vm_id is_word (codes row.vm_id)) info w.locks
      → is_expired info now ≡ false
      → lock_and_execute dumps is_word subgraph now w row ≡ w
  unfolding lock_and_execute
  lock_and_execute-held now w row info held live =
      rw
        (acquire-held is_word undisturbed (codes row.vm_id) row.proposal_id lock_ttl now info
          w.locks held live)
        refl

  target-held :
      (now : ℕ) (w : Work) (row : Row) (env : EnvironmentSchema) (target : Option TargetSchema)
      → lock_and_execute dumps is_word subgraph now w row ≡ w
      → IsIdle w (reconcile_target dumps is_word subgraph now w row env target)
  target-held now w row env none waits = fail_closed-idle now w row
  target-held now w row env (some target) waits =
      if_holds (IsIdle w)
        (not (enabled_in row.action_type (resolve_action target env.actions row.action_type)))
        (λ _. fail_closed-idle now w row)
        (λ _.
          if_holds (IsIdle w) (window_closed env.window) (λ _. (refl, refl))
            (λ _. (ap (λ v. v.executed) waits, ap (λ v. v.locks) waits)))

  env-held :
      (now : ℕ) (w : Work) (row : Row) (env : Option EnvironmentSchema)
      → lock_and_execute dumps is_word subgraph now w row ≡ w
      → IsIdle w (reconcile_env dumps is_word subgraph now w row env)
  env-held now w row none waits = fail_closed-idle now w row
  env-held now w row (some env) waits =
      target-held now w row env (find_where (λ t. str_eq t.name row.vm_id) env.targets) waits

  -- While another batch holds the lock of a VM, and its time to live has not passed, a round for a
  -- proposal of that VM executes nothing and leaves the lock directory as it is.
  pub locked_vm_waits :
      (now : ℕ) (w : Work) (row : Row) (info : LockInfo)
      → IsHeld (sanitize_vm_id is_word (codes row.vm_id)) info w.locks
      → is_expired info now ≡ false
      → IsIdle w (reconcile_proposal dumps is_word subgraph environments now w row)
  unfolding reconcile_proposal
  locked_vm_waits now w row info held live =
      env-held now w row (environments row.env_name)
        (lock_and_execute-held now w row info held live)

-- A pass of the reconciler, with its mode, its instant, the inventory and the sub-graphs; or what other
-- tasks write to the table.
pub data Tick (E : Type 0) : Type 0 where
  pass : Bool → ℕ → (String → Option EnvironmentSchema) → SubgraphRun E → Tick E
  others : List (Op E) → Tick E

module _ {E : Type 0} (dumps : List E → String) (is_word : ℕ → Bool) where
  unfoldable pub tick : Work → Tick E → Work
  tick w (pass dry now environments subgraph) =
      (proposal_reconciler dumps is_word subgraph environments dry now w).0
  tick w (others ops) = record w { rows = run dumps w.rows ops }

  unfoldable pub run_ticks : Work → List (Tick E) → Work
  run_ticks w [] = w
  run_ticks w (t ∷ ticks) = run_ticks (tick w t) ticks

  tick-Works : (id : String) (w : Work) (t : Tick E) → Works dumps id w (tick w t)
  unfolding tick
  tick-Works id w (pass dry now environments subgraph) =
      proposal_reconciler-Works dumps is_word subgraph environments dry now id w
  tick-Works id w (others ops) = record { writes = ops; ran = refl; paid = omega arith }

  run_ticks-Works :
      (id : String) (w : Work) (ticks : List (Tick E)) → Works dumps id w (run_ticks w ticks)
  unfolding run_ticks
  run_ticks-Works id w [] = Works-refl dumps id w
  run_ticks-Works id w (t ∷ ticks) =
      Works-trans dumps id w (tick w t) (run_ticks (tick w t) ticks) (tick-Works id w t)
        (run_ticks-Works id (tick w t) ticks)

  -- In any sequence of passes of the reconciler, with whatever other tasks write between and during
  -- them, a proposal is executed at most once, if the table has one row at most for it.
  pub run_ticks_execute_once :
      (id : String) (w : Work) (ticks : List (Tick E))
      → HasUniqueIds w.rows
      → executions id (run_ticks w ticks).executed ≤ executions id w.executed + 1
  run_ticks_execute_once id w ticks keys =
      let a = run_ticks-Works id w ticks in
      omega (arith, a.paid, one_execution dumps id w.rows a.writes keys)
