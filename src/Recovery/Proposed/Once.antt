-- ===== src/Recovery/Proposed/Once.antt =====
-- errander/main.py: `_proposal_reconciler`, and what an execution needs: a claim that was won and the
-- lock of the VM.
use errander_ai.Common.{
  ℕ, ◌+◌, ◌≤◌, String, ◌≡◌, refl, sym, ap, ◌∙◌, Bool, not, Option, none, some, List, [], ◌∷◌, ◌++◌,
  arith, str_eq, if◌then◌else◌, if_holds, find_where, count_where, count_where-append,
}
use errander_ai.Proposals.{codes}
use errander_ai.Proposals.Store.{Row, mark_execution_started, set_execution_status}
use errander_ai.Proposals.Store.Run.{Op, claim, outcome, step, run}
use errander_ai.Proposals.Store.Claims.{claims_won}
use errander_ai.Lock.{undisturbed, File, acquire}
use errander_ai.Recovery.Proposed.{
  TargetSchema, EnvironmentSchema, enabled_in, resolve_action, Execution, Work, window_closed,
  is_ok, SubgraphRun, lock_ttl, fail_closed, execute_locked, lock_and_execute, reconcile_target,
  reconcile_env, reconcile_proposal, reconcile_proposals,
}

-- How often a proposal was executed.
abbrev pub executions : String → List Execution → ℕ
executions id = count_where (λ e. str_eq e.proposal_id id)

module _ {E : Type 0} (dumps : List E → String) where
  run-append :
      (rows : List Row) (ops more : List (Op E))
      → run dumps rows (ops ++ more) ≡ run dumps (run dumps rows ops) more
  unfolding run
  run-append rows [] more = refl
  run-append rows (op ∷ ops) more = run-append (step dumps rows op) ops more

  claims_won-append :
      (id : String) (rows : List Row) (ops more : List (Op E))
      → claims_won dumps id rows (ops ++ more)
        ≡ claims_won dumps id rows ops + claims_won dumps id (run dumps rows ops) more
  unfolding run
  claims_won-append id rows [] more = omega arith
  claims_won-append id rows (op ∷ ops) more =
      omega (arith, claims_won-append id (step dumps rows op) ops more)

  -- The table has changed by writes, and every new execution of a proposal is paid for by a claim of it
  -- that was won.
  pub record Works (id : String) (w v : Work) : Type 0 where
    pub writes : List (Op E)
    pub ran : v.rows ≡ run dumps w.rows writes
    pub paid :
        executions id v.executed ≤ executions id w.executed + claims_won dumps id w.rows writes

  pub Works-refl : (id : String) (w : Work) → Works id w w
  Works-refl id w = record { writes = []; ran = unfold run in refl; paid = omega arith }

  pub Works-trans : (id : String) (w v u : Work) → Works id w v → Works id v u → Works id w u
  Works-trans id w v u a b =
      let split = claims_won-append id w.rows a.writes b.writes in
      let same : claims_won dumps id v.rows b.writes
          ≡ claims_won dumps id (run dumps w.rows a.writes) b.writes =
        ap (λ rows. claims_won dumps id rows b.writes) a.ran in
      record {
        writes = a.writes ++ b.writes;
        ran =
            b.ran
            ∙ (ap (λ rows. run dumps rows b.writes) a.ran
                ∙ sym (run-append w.rows a.writes b.writes));
        paid = omega (arith, a.paid, b.paid, split, same);
      }

  fail_closed-Works :
      (now : ℕ) (id : String) (w : Work) (row : Row) → Works id w (fail_closed now w row)
  unfolding fail_closed
  fail_closed-Works now id w row =
      let rows = (mark_execution_started w.rows now row.proposal_id).0 in
      if_holds (λ (r : List Row). Works id w (record w { rows = r }))
        (mark_execution_started w.rows now row.proposal_id).1
        (λ won. record {
          writes = claim now row.proposal_id ∷ outcome now row.proposal_id "failed" ∷ [];
          ran = unfold run step in refl;
          paid = omega arith;
        })
        (λ lost. record {
          writes = claim now row.proposal_id ∷ [];
          ran = unfold run step in refl;
          paid = omega arith;
        })

  -- The writes of an execution: the claim, what other tasks write, and the final status.
  run-execution :
      (now : ℕ) (rows : List Row) (id text : String) (ops : List (Op E))
      → set_execution_status (run dumps (mark_execution_started rows now id).0 ops) now id text
        ≡ run dumps rows (claim now id ∷ (ops ++ outcome now id text ∷ []))
  run-execution now rows id text ops =
      let claimed = (mark_execution_started rows now id).0 in
      let last : run dumps (run dumps claimed ops) (outcome now id text ∷ [])
          ≡ set_execution_status (run dumps claimed ops) now id text =
        unfold run step in refl in
      let first : run dumps rows (claim now id ∷ (ops ++ outcome now id text ∷ []))
          ≡ run dumps claimed (ops ++ outcome now id text ∷ []) =
        unfold run step in refl in
      sym last ∙ (sym (run-append claimed ops (outcome now id text ∷ [])) ∙ sym first)

  module _ (is_word : ℕ → Bool) (subgraph : SubgraphRun E) where
    execute_locked-Works :
        (now : ℕ) (id : String) (w : Work) (row : Row) (locks : List File)
        → Works id w (execute_locked dumps is_word subgraph now w row locks)
    unfolding execute_locked
    execute_locked-Works now id w row locks =
        let text : String = if is_ok (subgraph.status row) then "success" else "failed" in
        let e : Execution = record {
          proposal_id = row.proposal_id;
          vm_id = row.vm_id;
          action_type = row.action_type;
        } in
        let one_more : executions id (w.executed ++ e ∷ [])
            ≡ executions id w.executed + (if str_eq row.proposal_id id then 1 else 0) =
          count_where-append _ w.executed (e ∷ []) ∙ (unfold count_where in refl) in
        if_holds (Works id w) (mark_execution_started w.rows now row.proposal_id).1
          (λ won. record {
            writes =
                claim now row.proposal_id
                ∷ (subgraph.writes row ++ outcome now row.proposal_id text ∷ []);
            ran = run-execution now w.rows row.proposal_id text (subgraph.writes row);
            paid = ground (arith, one_more, won);
          })
          (λ lost. record {
            writes = claim now row.proposal_id ∷ [];
            ran = unfold run step in refl;
            paid = omega arith;
          })

    lock_and_execute-Works :
        (now : ℕ) (id : String) (w : Work) (row : Row)
        → Works id w (lock_and_execute dumps is_word subgraph now w row)
    unfolding lock_and_execute
    lock_and_execute-Works now id w row =
        let r =
          acquire is_word undisturbed (codes row.vm_id) row.proposal_id lock_ttl now w.locks in
        if_holds (Works id w) r.1 (λ _. execute_locked-Works now id w row r.0)
          (λ _. record { writes = []; ran = unfold run in refl; paid = omega arith })

    reconcile_target-Works :
        (now : ℕ) (id : String) (w : Work) (row : Row) (env : EnvironmentSchema)
        (target : Option TargetSchema)
        → Works id w (reconcile_target dumps is_word subgraph now w row env target)
    reconcile_target-Works now id w row env none = fail_closed-Works now id w row
    reconcile_target-Works now id w row env (some target) =
        if_holds (Works id w)
          (not (enabled_in row.action_type (resolve_action target env.actions row.action_type)))
          (λ _. fail_closed-Works now id w row)
          (λ _.
            if_holds (Works id w) (window_closed env.window) (λ _. Works-refl id w)
              (λ _. lock_and_execute-Works now id w row))

    module _ (environments : String → Option EnvironmentSchema) where
      reconcile_env-Works :
          (now : ℕ) (id : String) (w : Work) (row : Row) (env : Option EnvironmentSchema)
          → Works id w (reconcile_env dumps is_word subgraph now w row env)
      reconcile_env-Works now id w row none = fail_closed-Works now id w row
      reconcile_env-Works now id w row (some env) =
          reconcile_target-Works now id w row env
            (find_where (λ t. str_eq t.name row.vm_id) env.targets)

      pub reconcile_proposals-Works :
          (now : ℕ) (id : String) (w : Work) (rows : List Row)
          → Works id w (reconcile_proposals dumps is_word subgraph environments now w rows)
      unfolding reconcile_proposals reconcile_proposal
      reconcile_proposals-Works now id w [] = Works-refl id w
      reconcile_proposals-Works now id w (row ∷ rows) =
          let next = reconcile_proposal dumps is_word subgraph environments now w row in
          Works-trans id w next
            (reconcile_proposals dumps is_word subgraph environments now next rows)
            (reconcile_env-Works now id w row (environments row.env_name))
            (reconcile_proposals-Works now id next rows)
