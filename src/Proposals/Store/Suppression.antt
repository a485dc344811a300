-- ===== src/Proposals/Store/Suppression.antt =====
-- errander/safety/proposal_store.py: the memory of rejections that keeps the agent from proposing the
-- same thing again and again.
use errander_ai.Common.{
  ℕ, ◌-◌, String, ◌≡◌, refl, Bool, true, false, ◌&&◌, ◌||◌, Option, none, some, List, [], ◌∷◌,
  arith, leb, any, select_where, find_where, update_where, ◌==◌,
}
use errander_ai.Proposals.{AgentProposal, action_key}
use errander_ai.Proposals.Store.{Row, ok, open_at, days}
use errander_ai.Proposals.Store.Reads.{
  rejected_at, max_time, max_decided_at, count_rejections, is_suppressed, get_open,
  create_or_refresh_unless_suppressed,
}
use errander_ai.Proposals.Store.Filing.{create_or_refresh-open, refreshed}

-- Whether a row was decided at an instant or after it.
abbrev pub decided_since : ℕ → Row → Bool
decided_since cutoff r = elim r.decided_at [ none ↦ false | some t ↦ leb cutoff t ]

abbrev reaches : ℕ → Option ℕ → Bool
reaches cutoff none = false
reaches cutoff (some t) = leb cutoff t

reaches-max_time :
    (cutoff : ℕ) (a b : Option ℕ)
    → reaches cutoff (max_time a b) ≡ (reaches cutoff a || reaches cutoff b)
reaches-max_time cutoff a b = ground arith

latest_reaches :
    (cutoff : ℕ) (test : Row → Bool) (rows : List Row)
    → reaches cutoff (max_decided_at (select_where test rows))
      ≡ any (λ r. test r && decided_since cutoff r) rows
unfolding max_decided_at select_where
latest_reaches cutoff test [] = refl
latest_reaches cutoff test (r ∷ rows) = ground (
  arith,
  latest_reaches cutoff test rows,
  reaches-max_time cutoff r.decided_at (max_decided_at (select_where test rows)),
)

-- A VM and an action key are suppressed exactly when they were rejected at least `threshold` times
-- and some rejection is not older than the window.
pub is_suppressed_lem :
    (rows : List Row) (now : ℕ) (vm key : String) (threshold window_days : ℕ)
    → is_suppressed rows now vm key threshold window_days ≡ (
        leb threshold (count_rejections rows vm key)
        && any (λ r. rejected_at vm key r && decided_since (now - days window_days) r) rows)
unfolding is_suppressed count_rejections
is_suppressed_lem rows now vm key threshold window_days =
    ground (arith, latest_reaches (now - days window_days) (rejected_at vm key) rows)

module _ {E : Type 0} (dumps : List E → String) (rows : List Row)
    (now threshold window_days expiry_days : ℕ) (p : AgentProposal E) where
  -- Suppression keeps a new proposal out and changes nothing in the table.
  suppressed_refused :
      find_where (open_at p.vm_id (action_key p)) rows ≡ none
      → is_suppressed rows now p.vm_id (action_key p) threshold window_days ≡ true
      → create_or_refresh_unless_suppressed dumps rows now threshold window_days expiry_days p
        ≡ ok (rows, none, false)
  unfolding create_or_refresh_unless_suppressed get_open
  suppressed_refused closed suppressed = rw (closed, suppressed)

  -- An open proposal is refreshed, however often its kind was rejected.
  pub open_refreshed :
      (q : Row)
      → find_where (open_at p.vm_id (action_key p)) rows ≡ some q
      → create_or_refresh_unless_suppressed dumps rows now threshold window_days expiry_days p
        ≡ ok (
          update_where
              (open_at p.vm_id (action_key p))
              (refreshed dumps rows now expiry_days p)
              rows,
          some (refreshed dumps rows now expiry_days p q),
          q.created_at == now,
        )
  unfolding create_or_refresh_unless_suppressed get_open
  open_refreshed q present =
      rw (create_or_refresh-open dumps rows now expiry_days p q present, present)
