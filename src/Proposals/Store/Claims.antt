-- ===== src/Proposals/Store/Claims.antt =====
-- errander/safety/proposal_store.py: the claim of an approved action for execution.
use errander_ai.Common.{
  ℕ, ◌+◌, ◌≤◌, inl, inr, String, ◌≡◌, refl, Bool, true, false, ◌&&◌, Option, none, some, List, [],
  ◌∷◌, ◌++◌, arith, str_eq, eq_iff, if◌then◌else◌, Bool-cases, Option-cases, find_where,
  count_where, update_where, meets, count_where-keyed, at_most_one-update_where, count_where-append,
  count_where-of_none, find_where-update_where, find_where-meets,
}
use errander_ai.Proposals.{AgentProposal, action_key}
use errander_ai.Proposals.Store.{
  Row, has_id, open_at, new_row, refresh, mark_execution_started, is_null, unclaimed,
  stamp_execution, snooze_over, wake, has_duplicates, wake_snoozed,
}
use errander_ai.Proposals.Store.Run.{Op, file, claim, rouse, step}
use errander_ai.Proposals.Store.Filing.{
  create_or_refresh-open, create_or_refresh-taken, create_or_refresh-fresh, inserted,
}
use errander_ai.Proposals.Store.Steps.{row_of, row_change, step-row}

-- `proposal_id TEXT PRIMARY KEY`.
pub record HasUniqueIds (rows : List Row) : Type 0 where
  pub unique : (id : String) → count_where (has_id id) rows ≤ 1

insert-le :
    (r : Row) (rows : List Row) (id : String)
    → find_where (has_id r.proposal_id) rows ≡ none
    → count_where (has_id id) rows ≤ 1
    → count_where (has_id id) (rows ++ r ∷ []) ≤ 1
unfolding count_where
insert-le r rows id absent one =
    rw count_where-append
      (ground (arith, one, count_where-of_none _ rows absent, eq_iff r.proposal_id id))

module _ {E : Type 0} (dumps : List E → String) (rows : List Row) (h : HasUniqueIds rows) where
  updates :
      (test : Row → Bool) (change : Row → Row)
      → ((q : Row) (id : String) → has_id id (change q) ≡ has_id id q)
      → HasUniqueIds (update_where test change rows)
  updates test change keeps = record {
    unique = λ id. at_most_one-update_where _ test change rows (λ q. keeps q id) (h.unique id);
  }

  file-HasUniqueIds :
      (now expiry_days : ℕ) (p : AgentProposal E)
      → HasUniqueIds (step dumps rows (file now expiry_days p))
  unfolding step
  file-HasUniqueIds now expiry_days p =
      elim (Option-cases (find_where (open_at p.vm_id (action_key p)) rows)) [
        | inr (q, present) ↦
            rw (create_or_refresh-open dumps rows now expiry_days p q present)
              (updates _ _ (unfold refresh in λ q id. refl))
        | inl closed ↦ elim (Option-cases (find_where (has_id p.proposal_id) rows)) [
          | inr (q, taken) ↦
              rw (create_or_refresh-taken dumps rows now expiry_days p q closed taken) h
          | inl fresh ↦
              rw (create_or_refresh-fresh dumps rows now expiry_days p closed fresh) (record {
                unique = λ id.
                    insert-le (inserted dumps rows now expiry_days p) rows id
                      (unfold new_row in fresh) (h.unique id);
              })
        ]
      ]

  pub step-HasUniqueIds : (op : Op E) → HasUniqueIds (step dumps rows op)
  unfolding step wake_snoozed
  step-HasUniqueIds (file now expiry_days p) = file-HasUniqueIds now expiry_days p
  step-HasUniqueIds (rouse now) =
      elim (Bool-cases (has_duplicates (update_where (snooze_over now) (wake now) rows))) [
        | inl clash ↦ rw clash h
        | inr free ↦ rw free (updates _ _ (λ q id. refl))
      ]
  step-HasUniqueIds _ = updates _ _ (λ q id. refl)

-- A claim wins exactly when the proposal is an approved action that nobody has claimed.
pub mark_execution_started-won :
    (rows : List Row) (now : ℕ) (id : String)
    → HasUniqueIds rows
    → (mark_execution_started rows now id).1 ≡ meets unclaimed (row_of rows id)
unfolding mark_execution_started
mark_execution_started-won rows now id h =
    rw (count_where-keyed (has_id id) unclaimed rows (h.unique id)) (ground arith)

-- Whether a write is told that it may execute a proposal.
abbrev pub claims : {E : Type 0} → String → List Row → Op E → Bool
claims id rows (claim now i) = str_eq i id && (mark_execution_started rows now i).1
claims id rows _ = false

-- The claims of a run that win.
abbrev pub claims_won : {E : Type 0} → (List E → String) → String → List Row → List (Op E) → ℕ
claims_won dumps id rows [] = 0
claims_won dumps id rows (op ∷ ops) =
    let rest = claims_won dumps id (step dumps rows op) ops in
    (if claims id rows op then 1 else 0) + rest

-- How many claims can still win.
abbrev unspent : Option Row → ℕ
unspent none = 1
unspent (some r) = if is_null r.execution_started_at then 1 else 0

unspent-le : (o : Option Row) → unspent o ≤ 1
unspent-le o = ground arith

abbrev wins : {E : Type 0} → String → Option Row → Op E → Bool
wins id o (claim now i) = str_eq i id && meets unclaimed o
wins id o _ = false

claims-wins :
    {E : Type 0} (id : String) (rows : List Row) (op : Op E)
    → HasUniqueIds rows
    → claims id rows op ≡ wins id (row_of rows id) op
claims-wins id rows (claim now i) h =
    ground (arith, mark_execution_started-won rows now i h, eq_iff i id)
claims-wins id rows _ h = refl

row_spends :
    {E : Type 0} (dumps : List E → String) (id : String) (op : Op E) (r : Row)
    → str_eq r.proposal_id id ≡ true
    → (if wins id (some r) op then 1 else 0) + unspent (some (row_change dumps op r))
      ≤ unspent (some r)
unfolding refresh
row_spends dumps id (file now expiry_days p) r own = ground arith
row_spends dumps id (claim now i) r own =
    ground (arith, eq_iff i id, eq_iff r.proposal_id id, eq_iff r.proposal_id i)
row_spends dumps id _ r own = ground arith

wins_absent : {E : Type 0} (id : String) (op : Op E) → wins id none op ≡ false
wins_absent id (claim now i) = ground arith
wins_absent id _ = refl

step_spends :
    {E : Type 0} (dumps : List E → String) (id : String) (rows : List Row) (op : Op E) (r : Row)
    → row_of rows id ≡ some r
    → (if wins id (some r) op then 1 else 0) + unspent (row_of (step dumps rows op) id)
      ≤ unspent (some r)
unfolding step
step_spends dumps id rows (claim now i) r found =
    rw
      (
        find_where-update_where (has_id id) (λ q. has_id i q && unclaimed q) (stamp_execution now)
            rows (λ q. refl),
        found,
      )
      (row_spends dumps id (claim now i) r (find_where-meets (has_id id) rows r found))
step_spends dumps id rows op r found = elim (step-row dumps rows id r found op) [
  | inl e ↦ rw e (row_spends dumps id op r (find_where-meets (has_id id) rows r found))
  | inr e ↦ rw e (omega arith)
]

run_spends :
    {E : Type 0} (dumps : List E → String) (id : String) (rows : List Row) (ops : List (Op E))
    → HasUniqueIds rows
    → claims_won dumps id rows ops ≤ unspent (row_of rows id)
run_spends dumps id rows [] h = omega arith
run_spends dumps id rows (op ∷ ops) h =
    let rest = run_spends dumps id (step dumps rows op) ops (step-HasUniqueIds dumps rows h op) in
    rw (claims-wins id rows op h) (elim (Option-cases (row_of rows id)) [
      | inl absent ↦
          rw (absent, wins_absent id op)
            (omega (arith, rest, unspent-le (row_of (step dumps rows op) id)))
      | inr (r, found) ↦ rw found (omega (arith, rest, step_spends dumps id rows op r found))
    ])

-- Whatever is written to the table, in whatever order, at most one write is told that it may execute
-- a proposal.
pub one_execution :
    {E : Type 0} (dumps : List E → String) (id : String) (rows : List Row) (ops : List (Op E))
    → HasUniqueIds rows
    → claims_won dumps id rows ops ≤ 1
one_execution dumps id rows ops h =
    omega (arith, run_spends dumps id rows ops h, unspent-le (row_of rows id))
