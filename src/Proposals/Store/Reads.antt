-- ===== src/Proposals/Store/Reads.antt =====
-- errander/safety/proposal_store.py: the reads of `ProposalStore`, and the filing that they suppress.
use errander_ai.Common.{
  ℕ, ◌-◌, String, Bool, false, ◌&&◌, Option, none, some, List, [], ◌∷◌, leb, ltb, if◌then◌else◌,
  select_where, find_where, count_where, order_by,
}
use errander_ai.Proposals.{is_pending, is_rejected, AgentProposal, action_key}
use errander_ai.Proposals.Store.{
  Result, Row, create_or_refresh, days, has_id, has_key, integrity_error, is_null, ok, open_at,
  unclaimed,
}

-- Reads of the rows; `_row_to_proposal` then parses the columns.
unfoldable pub get : List Row → String → Option Row
get rows id = find_where (has_id id) rows

unfoldable pub get_open : List Row → String → String → Option Row
get_open rows vm key = find_where (open_at vm key) rows

unfoldable pub get_pending : List Row → List Row
get_pending rows = order_by (λ r. r.created_at) (select_where (λ r. is_pending r.status) rows)

abbrev decided_time : Row → ℕ
decided_time r = elim r.decided_at [ none ↦ 0 | some t ↦ t ]

unfoldable pub get_approved_unclaimed : List Row → List Row
get_approved_unclaimed rows = order_by decided_time (select_where unclaimed rows)

abbrev pub rejected_at : String → String → Row → Bool
rejected_at vm key r = has_key vm key r && is_rejected r.status

unfoldable pub count_rejections : List Row → String → String → ℕ
count_rejections rows vm key = count_where (rejected_at vm key) rows

-- MAX over a nullable column: NULLs do not count, and there is no maximum of none.
abbrev pub max_time : Option ℕ → Option ℕ → Option ℕ
max_time none t = t
max_time (some a) none = some a
max_time (some a) (some b) = some (if ltb a b then b else a)

unfoldable pub max_decided_at : List Row → Option ℕ
max_decided_at [] = none
max_decided_at (r ∷ rows) = max_time r.decided_at (max_decided_at rows)

unfoldable pub rejection_window_state : List Row → String → String → ℕ × Option ℕ
unfolding max_decided_at
rejection_window_state rows vm key =
    (count_where (rejected_at vm key) rows, max_decided_at (select_where (rejected_at vm key) rows))

-- The instant `window_days` before `now` is not before the epoch.
unfoldable pub is_suppressed : List Row → ℕ → String → String → ℕ → ℕ → Bool
unfolding rejection_window_state
is_suppressed rows now vm key threshold window_days =
    let (count, latest) = rejection_window_state rows vm key in
    elim latest [
      | none ↦ false
      | some t ↦ if ltb count threshold then false else leb (now - days window_days) t
    ]

-- `none` for the row says that the proposal is suppressed.
unfoldable pub create_or_refresh_unless_suppressed :
    {E : Type 0}
    → (List E → String)
    → List Row
    → ℕ
    → ℕ
    → ℕ
    → ℕ
    → AgentProposal E
    → Result (List Row × Option Row × Bool)
unfolding get_open is_suppressed
create_or_refresh_unless_suppressed dumps rows now threshold window_days expiry_days p =
    let stored : Result (List Row × Option Row × Bool) =
      elim (create_or_refresh dumps rows now expiry_days p) [
        | integrity_error ↦ integrity_error
        | ok (rows', r, created) ↦ ok (rows', some r, created)
      ] in
    if is_null (get_open rows p.vm_id (action_key p))
      && is_suppressed rows now p.vm_id (action_key p) threshold window_days
    then ok (rows, none, false)
    else stored
