-- ===== src/Proposals/Store/Steps.antt =====
-- errander/safety/proposal_store.py: what every write does to the row of one proposal, and the
-- lifecycle that results.
use mathlib.Core.Path.{subst}
use errander_ai.Common.{
  ℕ, ◌+◌, String, ◌≡◌, refl, sym, ◌∙◌, ◌⊎◌, inl, inr, Bool, ◌&&◌, Option, some, List, [], ◌∷◌,
  arith, Bool-cases, Option-cases, find_where, update_where, changed, find_where-update_where,
  find_where-append, fails-of_none,
}
use errander_ai.Proposals.{
  ProposalStatus, pending, approved, rejected, snoozed, expired, AgentProposal, action_key,
}
use errander_ai.Proposals.Store.Filing.{
  create_or_refresh-open, create_or_refresh-taken, create_or_refresh-fresh,
}
use errander_ai.Proposals.Store.{
  Row, has_id, open_at, days, refresh, pending_with, record_decision, record_snooze, overdue,
  record_expiry, unclaimed, stamp_execution, snooze_over, wake, has_duplicates, wake_snoozed,
}
use errander_ai.Proposals.Store.Run.{
  Op, file, decision, postpone, sweep, claim, outcome, rouse, step, run,
}

abbrev pub row_of : List Row → String → Option Row
row_of rows id = find_where (has_id id) rows

-- What a write makes of a row that is there, if the statement does not fail.
abbrev pub row_change : {E : Type 0} → (List E → String) → Op E → Row → Row
row_change dumps (file now expiry_days p) =
    changed (open_at p.vm_id (action_key p))
      (refresh now (now + days expiry_days) (dumps p.evidence) p)
row_change dumps (decision now id approve by group) =
    changed (pending_with id) (record_decision now approve by group)
row_change dumps (postpone now id until by group) =
    changed (pending_with id) (record_snooze now until by group)
row_change dumps (sweep now) = changed (overdue now) (record_expiry now)
row_change dumps (claim now id) = changed (λ r. has_id id r && unclaimed r) (stamp_execution now)
row_change dumps (outcome now id status) =
    changed (has_id id) (λ r. record r { execution_status = some status; updated_at = now })
row_change dumps (rouse now) = changed (snooze_over now) (wake now)

module _ {E : Type 0} (dumps : List E → String) (rows : List Row) (id : String) (r : Row)
    (found : row_of rows id ≡ some r) where
  update-row :
      (test : Row → Bool) (change : Row → Row)
      → ((q : Row) → has_id id (change q) ≡ has_id id q)
      → row_of (update_where test change rows) id ≡ some (changed test change r)
  update-row test change keeps =
      find_where-update_where (has_id id) test change rows keeps ∙ (rw found)

  file-row :
      (now expiry_days : ℕ) (p : AgentProposal E)
      → row_of (step dumps rows (file now expiry_days p)) id
        ≡ some (row_change dumps (file now expiry_days p) r)
  unfolding step
  file-row now expiry_days p =
      elim (Option-cases (find_where (open_at p.vm_id (action_key p)) rows)) [
        | inr (q, present) ↦
            rw (create_or_refresh-open dumps rows now expiry_days p q present)
              (update-row _ _ (unfold refresh in λ q. refl))
        | inl closed ↦ elim (Option-cases (find_where (has_id p.proposal_id) rows)) [
          | inr (q, taken) ↦
              rw (create_or_refresh-taken dumps rows now expiry_days p q closed taken)
                (found ∙ (rw (fails-of_none _ _ rows r closed found)))
          | inl fresh ↦
              rw (create_or_refresh-fresh dumps rows now expiry_days p closed fresh)
                (find_where-append _ rows _ ∙ (rw (found, fails-of_none _ _ rows r closed found)))
        ]
      ]

  rouse-row :
      (now : ℕ)
      → (row_of (step dumps rows (rouse now)) id ≡ some (row_change dumps (rouse now) r))
        ⊎ (row_of (step dumps rows (rouse now)) id ≡ some r)
  unfolding step wake_snoozed
  rouse-row now =
      elim (Bool-cases (has_duplicates (update_where (snooze_over now) (wake now) rows))) [
        | inl clash ↦ inr (rw clash found)
        | inr free ↦ inl (rw free (update-row _ _ (λ q. refl)))
      ]

  -- Every write turns the row of a proposal into what the write makes of a row, or leaves it alone;
  -- and it leaves it alone only where the write is a wake-up that fails.
  pub step-row :
      (op : Op E)
      → (row_of (step dumps rows op) id ≡ some (row_change dumps op r))
        ⊎ (row_of (step dumps rows op) id ≡ some r)
  unfolding step
  step-row (file now expiry_days p) = inl (file-row now expiry_days p)
  step-row (decision now i approve by group) = inl (update-row _ _ (λ q. refl))
  step-row (postpone now i until by group) = inl (update-row _ _ (λ q. refl))
  step-row (sweep now) = inl (update-row _ _ (λ q. refl))
  step-row (claim now i) = inl (update-row _ _ (λ q. refl))
  step-row (outcome now i status) = inl (update-row _ _ (λ q. refl))
  step-row (rouse now) = rouse-row now

-- The lifecycle of a proposal, as one write may move it.
pub data Moves : ProposalStatus → ProposalStatus → Type 0 where
  stays : (s : ProposalStatus) → Moves s s
  approves : Moves pending approved
  rejects : Moves pending rejected
  snoozes : Moves pending snoozed
  expires : Moves pending expired
  wakes : Moves snoozed pending

pub data Lives : ProposalStatus → ProposalStatus → Type 0 where
  here : (s : ProposalStatus) → Lives s s
  next : {s t u : ProposalStatus} → Moves s t → Lives t u → Lives s u

ruleset moves = (stays, approves, rejects, snoozes, expires, wakes)

row_change-Moves :
    {E : Type 0} (dumps : List E → String) (op : Op E) (r : Row)
    → Moves r.status (row_change dumps op r).status
unfolding refresh
row_change-Moves dumps (file now expiry_days p) r = grind (arith, moves)
row_change-Moves dumps _ r = grind (arith, moves)

step-Moves :
    {E : Type 0} (dumps : List E → String) (rows : List Row) (op : Op E) (id : String) (r : Row)
    → row_of rows id ≡ some r
    → (q : Row) × (row_of (step dumps rows op) id ≡ some q) × Moves r.status q.status
step-Moves dumps rows op id r found = elim (step-row dumps rows id r found op) [
  | inl e ↦ (row_change dumps op r, e, row_change-Moves dumps op r)
  | inr e ↦ (r, e, stays r.status)
]

-- Whatever is written to the table, no proposal is lost and each lives the lifecycle: it is decided,
-- snoozed or expired from the pending state only, and nothing but a wake-up of a snoozed proposal
-- comes back to it.
pub run-Lives :
    {E : Type 0} (dumps : List E → String) (ops : List (Op E)) (rows : List Row) (id : String)
    (r : Row)
    → row_of rows id ≡ some r
    → (q : Row) × (row_of (run dumps rows ops) id ≡ some q) × Lives r.status q.status
unfolding run
run-Lives dumps [] rows id r found = (r, found, here r.status)
run-Lives dumps (op ∷ ops) rows id r found =
    let (t, there, move) = step-Moves dumps rows op id r found in
    let (q, after, life) = run-Lives dumps ops (step dumps rows op) id t there in
    (q, after, next move life)

abbrev pub IsFinal : ProposalStatus → Type 0
IsFinal s = (s ≡ approved) ⊎ (s ≡ rejected) ⊎ (s ≡ expired)

final-Moves : {s t : ProposalStatus} → Moves s t → IsFinal s → t ≡ s
final-Moves (stays s) f = refl
final-Moves approves f = ground arith
final-Moves rejects f = ground arith
final-Moves snoozes f = ground arith
final-Moves expires f = ground arith
final-Moves wakes f = ground arith

-- A status that ends the lifecycle is never left.
pub final-Lives : {s t : ProposalStatus} → Lives s t → IsFinal s → t ≡ s
final-Lives (here s) f = refl
final-Lives (next {t = t} move life) f =
    let e = final-Moves move f in final-Lives life (subst IsFinal (sym e) f) ∙ e
