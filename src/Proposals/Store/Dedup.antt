-- ===== src/Proposals/Store/Dedup.antt =====
-- errander/safety/proposal_store.py: one open proposal at most for a VM and an action key.
use mathlib.Core.Path.{ap₂}
use errander_ai.Common.{
  ℕ, ◌≤◌, String, ◌≡◌, inl, inr, Bool, true, false, none, List, [], ◌∷◌, ◌++◌, arith, eq_iff,
  Bool-cases, Option-cases, find_where, count_where, update_where, count_where-append,
  count_where-of_none, count_where-update_where_le, any-of_count,
}
use errander_ai.Proposals.{is_pending, AgentProposal, action_key}
use errander_ai.Proposals.Store.{
  Row, has_id, open_at, new_row, refresh, snooze_over, wake, has_duplicates, wake_snoozed,
}
use errander_ai.Proposals.Store.Run.{
  Op, file, decision, postpone, sweep, claim, outcome, rouse, step, run,
}
use errander_ai.Proposals.Store.Filing.{
  create_or_refresh-open, create_or_refresh-taken, create_or_refresh-fresh, inserted,
}

-- `CREATE UNIQUE INDEX idx_agent_proposals_open ON agent_proposals (vm_id, action_key) WHERE status =
-- 'pending'`.
pub record IsDeduped (rows : List Row) : Type 0 where
  pub one_open : (vm key : String) → count_where (open_at vm key) rows ≤ 1

pub open_at-key :
    (vm key : String) (r : Row)
    → open_at vm key r ≡ true
    → (r.vm_id ≡ vm) × (r.action_key ≡ key) × (is_pending r.status ≡ true)
open_at-key vm key r h = ground (arith, eq_iff r.vm_id vm, eq_iff r.action_key key)

pub count_at :
    (r : Row) (rows : List Row) (vm key : String)
    → r.vm_id ≡ vm
    → r.action_key ≡ key
    → count_where (open_at r.vm_id r.action_key) rows ≡ count_where (open_at vm key) rows
count_at r rows vm key e f = ap₂ (λ v k. count_where (open_at v k) rows) e f

alone :
    (r : Row) (rows : List Row)
    → has_duplicates (r ∷ rows) ≡ false
    → is_pending r.status ≡ true
    → count_where (open_at r.vm_id r.action_key) rows ≡ 0
unfolding has_duplicates
alone r rows free open_row = ground (arith, any-of_count (open_at r.vm_id r.action_key) rows)

-- The check that the database makes is the index: no two open rows share a key.
pub has_duplicates_sound :
    (rows : List Row) (vm key : String)
    → has_duplicates rows ≡ false
    → count_where (open_at vm key) rows ≤ 1
unfolding has_duplicates count_where
has_duplicates_sound [] vm key free = omega arith
has_duplicates_sound (r ∷ rows) vm key free = elim (Bool-cases (open_at vm key r)) [
  | inr other ↦ rw other (has_duplicates_sound rows vm key (ground arith))
  | inl same ↦
      let (vm_eq, key_eq, is_open) = open_at-key vm key r same in
      rw same (omega (arith, alone r rows free is_open, count_at r rows vm key vm_eq key_eq))
]

-- A row of a key that has no open row.
insert-le :
    (r : Row) (rows : List Row) (vm key : String)
    → find_where (open_at r.vm_id r.action_key) rows ≡ none
    → count_where (open_at vm key) rows ≤ 1
    → count_where (open_at vm key) (rows ++ r ∷ []) ≤ 1
unfolding count_where
insert-le r rows vm key closed one = elim (Bool-cases (open_at vm key r)) [
  | inr other ↦ rw (count_where-append, other) (omega (arith, one))
  | inl same ↦
      let (vm_eq, key_eq, is_open) = open_at-key vm key r same in
      rw (count_where-append, same)
        (omega (arith, count_where-of_none _ rows closed, count_at r rows vm key vm_eq key_eq))
]

-- A write that turns no row into an open one keeps the index.
closes :
    (test : Row → Bool) (change : Row → Row) (rows : List Row)
    → ((r : Row) (vm key : String)
        → test r ≡ true
        → open_at vm key (change r) ≡ true
        → open_at vm key r ≡ true)
    → IsDeduped rows
    → IsDeduped (update_where test change rows)
closes test change rows closing d = record {
  one_open = λ vm key. omega (
    arith,
    count_where-update_where_le (open_at vm key) test change rows (λ r. closing r vm key),
    d.one_open vm key,
  );
}

module _ {E : Type 0} (dumps : List E → String) (rows : List Row) (d : IsDeduped rows) where
  file-IsDeduped :
      (now expiry_days : ℕ) (p : AgentProposal E)
      → IsDeduped (step dumps rows (file now expiry_days p))
  unfolding step
  file-IsDeduped now expiry_days p =
      elim (Option-cases (find_where (open_at p.vm_id (action_key p)) rows)) [
        | inr (q, present) ↦
            rw (create_or_refresh-open dumps rows now expiry_days p q present)
              (closes _ _ rows (unfold refresh in λ r vm key t o. o) d)
        | inl closed ↦ elim (Option-cases (find_where (has_id p.proposal_id) rows)) [
          | inr (q, taken) ↦
              rw (create_or_refresh-taken dumps rows now expiry_days p q closed taken) d
          | inl fresh ↦
              rw (create_or_refresh-fresh dumps rows now expiry_days p closed fresh) (record {
                one_open = λ vm key.
                    insert-le (inserted dumps rows now expiry_days p) rows vm key
                      (unfold new_row in closed) (d.one_open vm key);
              })
        ]
      ]

  rouse-IsDeduped : (now : ℕ) → IsDeduped (step dumps rows (rouse now))
  unfolding step wake_snoozed
  rouse-IsDeduped now =
      elim (Bool-cases (has_duplicates (update_where (snooze_over now) (wake now) rows))) [
        | inl clash ↦ rw clash d
        | inr free ↦ rw free (record { one_open = λ vm key. has_duplicates_sound _ vm key free })
      ]

  pub step-IsDeduped : (op : Op E) → IsDeduped (step dumps rows op)
  unfolding step
  step-IsDeduped (file now expiry_days p) = file-IsDeduped now expiry_days p
  step-IsDeduped (decision now i true by group) = closes _ _ rows (λ r vm key t o. ground arith) d
  step-IsDeduped (decision now i false by group) = closes _ _ rows (λ r vm key t o. ground arith) d
  step-IsDeduped (postpone now i until by group) = closes _ _ rows (λ r vm key t o. ground arith) d
  step-IsDeduped (sweep now) = closes _ _ rows (λ r vm key t o. ground arith) d
  step-IsDeduped (claim now i) = closes _ _ rows (λ r vm key t o. o) d
  step-IsDeduped (outcome now i status) = closes _ _ rows (λ r vm key t o. o) d
  step-IsDeduped (rouse now) = rouse-IsDeduped now

-- From a table that obeys the index, whatever is written, no two open proposals share a VM and an
-- action key.
pub run-IsDeduped :
    {E : Type 0} (dumps : List E → String) (ops : List (Op E)) (rows : List Row)
    → IsDeduped rows
    → IsDeduped (run dumps rows ops)
unfolding run
run-IsDeduped dumps [] rows d = d
run-IsDeduped dumps (op ∷ ops) rows d =
    run-IsDeduped dumps ops (step dumps rows op) (step-IsDeduped dumps rows d op)
