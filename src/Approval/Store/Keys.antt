-- ===== src/Approval/Store/Keys.antt =====
-- errander/safety/approval_store.py: the primary key of the table, and what every statement does to
-- the row of one batch, whatever the other rows are.
use errander_ai.Common.{
  ℕ, ◌≤◌, inl, inr, String, ◌≡◌, refl, ◌∙◌, ◌&&◌, Option, none, some, List, [], ◌∷◌, ◌++◌, arith,
  str_eq, eq_iff, if◌then◌else◌, Option-cases, find_where, count_where, update_where, changed,
  find_where-meets, find_where-update_where, at_most_one-update_where, count_where-append,
  find_where-append, count_where-of_none,
}
use errander_ai.Approval.{Row}
use errander_ai.Approval.Store.{
  ApprovalStore, NewRequest, has_id, new_row, refresh, upsert_rows, upsert, pending_with,
  record_decision, record_timeout, overdue, unclaimed, stamp_execution,
}
use errander_ai.Approval.Store.Run.{
  Op, create_request, stamp_slack, decision, give_up, sweep, claim, step, run,
}

-- `batch_id TEXT PRIMARY KEY`.
pub record HasUniqueKeys (s : ApprovalStore) : Type 0 where
  pub unique : (id : String) → count_where (has_id id) s.rows ≤ 1

-- The row of a batch.
abbrev pub row_of : ApprovalStore → String → Option Row
row_of s id = find_where (has_id id) s.rows

-- What a write makes of the row of a batch that it finds. A decision reaches a pending row only, and
-- an execution claim an approved row that no executor has claimed.
abbrev pub row_change : Op → Row → Row
row_change (create_request now new) = changed (pending_with new.batch_id) (refresh now new)
row_change (stamp_slack i ts) = changed (has_id i) (λ r. record r { slack_message_ts = some ts })
row_change (decision now i approve by group items) =
    changed (pending_with i) (record_decision now approve by group items)
row_change (give_up now i) = changed (pending_with i) (record_timeout now)
row_change (sweep now) = changed (overdue now) (record_timeout now)
row_change (claim now i) = changed (λ r. has_id i r && unclaimed r) (stamp_execution now)

-- The specification of one batch: what a write does to its row, which no row of another batch can
-- influence. Only `create` makes a row, and nothing removes one.
abbrev pub row_step : Op → String → Option Row → Option Row
row_step op id (some r) = some (row_change op r)
row_step (create_request now new) id none =
    if str_eq new.batch_id id then some (new_row now new) else none
row_step _ id none = none

module _ (rows : List Row) (now : ℕ) (new : NewRequest) (id : String) where
  row_of-insert :
      find_where (has_id new.batch_id) rows ≡ none
      → find_where (has_id id) (rows ++ new_row now new ∷ [])
        ≡ row_step (create_request now new) id (find_where (has_id id) rows)
  unfolding find_where new_row
  row_of-insert absent = elim (Option-cases (find_where (has_id id) rows)) [
    | inl gone ↦ rw (find_where-append, gone) (ground arith)
    | inr (r, found) ↦
        rw (find_where-append, found)
          (ground (
            arith,
            absent,
            found,
            find_where-meets (has_id id) rows r found,
            eq_iff r.batch_id id,
            eq_iff r.batch_id new.batch_id,
          ))
  ]

  row_of-refresh :
      (q : Row)
      → find_where (has_id new.batch_id) rows ≡ some q
      → find_where (has_id id) (update_where (pending_with new.batch_id) (refresh now new) rows)
        ≡ row_step (create_request now new) id (find_where (has_id id) rows)
  unfolding refresh
  row_of-refresh q present = elim (Option-cases (find_where (has_id id) rows)) [
    | inl gone ↦
        rw
          (
            find_where-update_where (has_id id) (pending_with new.batch_id) (refresh now new) rows
                (λ r. refl),
            gone,
          )
          (ground (arith, present, gone, eq_iff new.batch_id id))
    | inr (r, found) ↦ rw (
      find_where-update_where (has_id id) (pending_with new.batch_id) (refresh now new) rows
          (λ r. refl),
      found,
    )
  ]

-- Every write does to the row of every batch what the specification of one batch says.
pub step-refines :
    (s : ApprovalStore) (op : Op) (id : String)
    → row_of (step s op) id ≡ row_step op id (row_of s id)
unfolding step upsert upsert_rows
step-refines s (create_request now new) id = elim (Option-cases (row_of s new.batch_id)) [
  | inl absent ↦ rw (absent, upsert_rows) (row_of-insert s.rows now new id absent)
  | inr (q, present) ↦ rw (present, upsert_rows) (row_of-refresh s.rows now new id q present)
]
step-refines s (stamp_slack i ts) id =
    find_where-update_where _ _ _ s.rows (λ r. refl) ∙ (ground arith)
step-refines s (decision now i approve by group items) id =
    find_where-update_where _ _ _ s.rows (λ r. refl) ∙ (ground arith)
step-refines s (give_up now i) id =
    find_where-update_where _ _ _ s.rows (λ r. refl) ∙ (ground arith)
step-refines s (sweep now) id = find_where-update_where _ _ _ s.rows (λ r. refl) ∙ (ground arith)
step-refines s (claim now i) id = find_where-update_where _ _ _ s.rows (λ r. refl) ∙ (ground arith)

unique-insert :
    (rows : List Row) (now : ℕ) (new : NewRequest) (id : String)
    → find_where (has_id new.batch_id) rows ≡ none
    → count_where (has_id id) rows ≤ 1
    → count_where (has_id id) (rows ++ new_row now new ∷ []) ≤ 1
unfolding count_where new_row
unique-insert rows now new id absent unique = rw count_where-append (
    ground (
      arith,
      unique,
      count_where-of_none (has_id new.batch_id) rows absent,
      eq_iff new.batch_id id,
    ))

-- Every write keeps one row at most for a batch.
pub step-HasUniqueKeys : (s : ApprovalStore) (op : Op) → HasUniqueKeys s → HasUniqueKeys (step s op)
unfolding step upsert upsert_rows refresh
step-HasUniqueKeys s (create_request now new) h = record {
  unique = λ id. elim (Option-cases (row_of s new.batch_id)) [
    | inl absent ↦ rw (absent, upsert_rows) (unique-insert s.rows now new id absent (h.unique id))
    | inr (q, present) ↦
        rw (present, upsert_rows) (at_most_one-update_where _ _ _ s.rows (λ r. refl) (h.unique id))
  ];
}
step-HasUniqueKeys s _ h = record {
  unique = λ id. at_most_one-update_where _ _ _ s.rows (λ r. refl) (h.unique id);
}

pub run-HasUniqueKeys :
    (s : ApprovalStore) (ops : List Op) → HasUniqueKeys s → HasUniqueKeys (run s ops)
unfolding run
run-HasUniqueKeys s [] h = h
run-HasUniqueKeys s (op ∷ ops) h = run-HasUniqueKeys (step s op) ops (step-HasUniqueKeys s op h)
