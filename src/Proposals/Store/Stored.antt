-- ===== src/Proposals/Store/Stored.antt =====
-- errander/safety/proposal_store.py: what `create_or_refresh` leaves in the table.
use errander_ai.Common.{
  ℕ, inl, inr, String, ◌≡◌, refl, ◌∙◌, Bool, true, none, some, List, [], ◌∷◌, ◌++◌, arith, eq_refl,
  Option-cases, find_where, count_where, update_where, find_where-update_where, find_where-append,
  find_where-meets, count_where-update_where, count_where-append, count_where-of_none,
  count_where_pos, ◌==◌,
}
use errander_ai.Proposals.{AgentProposal, action_key}
use errander_ai.Proposals.Store.{
  Row, Result, ok, integrity_error, has_id, open_at, new_row, refresh, create_or_refresh,
}
use errander_ai.Proposals.Store.Filing.{
  refreshed, inserted, create_or_refresh-open, create_or_refresh-taken, create_or_refresh-fresh,
}
use errander_ai.Proposals.Store.Dedup.{IsDeduped}

-- The row that is returned is the one open row of its VM and action key in the new table.
abbrev pub Stores : String → String → Result (List Row × Row × Bool) → Type 0
Stores vm key (ok (rows, r, created)) =
    (find_where (open_at vm key) rows ≡ some r) × (count_where (open_at vm key) rows ≡ 1)
Stores vm key integrity_error = Unit

module _ {E : Type 0} (dumps : List E → String) (rows : List Row) (now expiry_days : ℕ)
    (p : AgentProposal E) where
  update-Stores :
      (q : Row)
      → find_where (open_at p.vm_id (action_key p)) rows ≡ some q
      → IsDeduped rows
      → Stores p.vm_id (action_key p) (
          ok (
            update_where
                (open_at p.vm_id (action_key p))
                (refreshed dumps rows now expiry_days p)
                rows,
            refreshed dumps rows now expiry_days p q,
            q.created_at == now,
          ))
  unfolding refresh
  update-Stores q present d = (
    find_where-update_where (open_at p.vm_id (action_key p)) _ _ rows (λ r. refl)
        ∙ (rw (present, find_where-meets _ rows q present)),
    count_where-update_where (open_at p.vm_id (action_key p)) _ _ rows (λ r. refl)
        ∙ (omega (arith, d.one_open p.vm_id (action_key p), count_where_pos _ rows q present)),
  )

  inserted_open : open_at p.vm_id (action_key p) (inserted dumps rows now expiry_days p) ≡ true
  unfolding new_row
  inserted_open = rw (eq_refl p.vm_id, eq_refl (action_key p))

  insert-Stores :
      find_where (open_at p.vm_id (action_key p)) rows ≡ none
      → Stores p.vm_id (action_key p) (
          ok (
            rows ++ inserted dumps rows now expiry_days p ∷ [],
            inserted dumps rows now expiry_days p,
            now == now,
          ))
  unfolding find_where count_where
  insert-Stores closed = (
    find_where-append _ rows _ ∙ (rw (closed, inserted_open)),
    count_where-append _ rows _
        ∙ (rw (count_where-of_none _ rows closed, inserted_open) (omega arith)),
  )

  -- However `create_or_refresh` goes, unless the database refuses the identifier, exactly one proposal
  -- of the VM and action key is open after it, and that is the one it returns.
  pub create_or_refresh-Stores :
      IsDeduped rows
      → Stores p.vm_id (action_key p) (create_or_refresh dumps rows now expiry_days p)
  create_or_refresh-Stores d =
      elim (Option-cases (find_where (open_at p.vm_id (action_key p)) rows)) [
        | inr (q, present) ↦
            rw (create_or_refresh-open dumps rows now expiry_days p q present)
              (update-Stores q present d)
        | inl closed ↦ elim (Option-cases (find_where (has_id p.proposal_id) rows)) [
          | inr (q, taken) ↦
              rw (create_or_refresh-taken dumps rows now expiry_days p q closed taken) tt
          | inl fresh ↦
              rw (create_or_refresh-fresh dumps rows now expiry_days p closed fresh)
                (insert-Stores closed)
        ]
      ]
