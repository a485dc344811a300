-- ===== src/Proposals/Store/Filing.antt =====
-- errander/safety/proposal_store.py: the three outcomes of `create_or_refresh`.
use errander_ai.Common.{
  ℕ, ◌+◌, String, ◌≡◌, Bool, none, some, List, [], ◌∷◌, ◌++◌, find_where, update_where, ◌==◌,
}
use errander_ai.Proposals.{AgentProposal, action_key}
use errander_ai.Proposals.Store.{
  Row, ok, integrity_error, has_id, open_at, days, new_row, refresh, create_or_refresh,
}

module _ {E : Type 0} (dumps : List E → String) (rows : List Row) (now expiry_days : ℕ)
    (p : AgentProposal E) where
  -- The clause of the open row of the proposal's key, the row as it is refreshed, the row if it is new.
  abbrev pub open_row : Row → Bool
  open_row = open_at p.vm_id (action_key p)

  abbrev pub refreshed : Row → Row
  refreshed = refresh now (now + days expiry_days) (dumps p.evidence) p

  abbrev pub inserted : Row
  inserted = new_row now (now + days expiry_days) (dumps p.evidence) p

  pub create_or_refresh-open :
      (q : Row)
      → find_where open_row rows ≡ some q
      → create_or_refresh dumps rows now expiry_days p
        ≡ ok (update_where open_row refreshed rows, refreshed q, q.created_at == now)
  unfolding create_or_refresh
  create_or_refresh-open q present = rw (present, create_or_refresh)

  pub create_or_refresh-taken :
      (q : Row)
      → find_where open_row rows ≡ none
      → find_where (has_id p.proposal_id) rows ≡ some q
      → create_or_refresh dumps rows now expiry_days p ≡ integrity_error
  unfolding create_or_refresh
  create_or_refresh-taken q closed taken = rw (closed, taken, create_or_refresh)

  pub create_or_refresh-fresh :
      find_where open_row rows ≡ none
      → find_where (has_id p.proposal_id) rows ≡ none
      → create_or_refresh dumps rows now expiry_days p
        ≡ ok (rows ++ inserted ∷ [], inserted, now == now)
  unfolding create_or_refresh
  create_or_refresh-fresh closed fresh = rw (closed, fresh, create_or_refresh)
