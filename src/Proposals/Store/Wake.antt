-- ===== src/Proposals/Store/Wake.antt =====
-- errander/safety/proposal_store.py: when `wake_snoozed` succeeds, and when the index stops it.
use errander_ai.Common.{
  ℕ, ◌+◌, ◌≤◌, String, ◌≡◌, refl, inl, inr, Bool, true, false, ◌&&◌, some, List, [], ◌∷◌, arith,
  eq_refl, Bool-cases, map, find_where, count_where, update_where, select_where, any-of_count,
  count_where_pos,
}
use errander_ai.Proposals.{is_pending}
use errander_ai.Proposals.Store.{
  Row, ok, integrity_error, has_key, open_at, snooze_over, wake, has_duplicates, wake_snoozed,
}
use errander_ai.Proposals.Store.Dedup.{has_duplicates_sound}

-- A snoozed row of the key whose snooze is over.
abbrev pub due_at : ℕ → String → String → Row → Bool
due_at now vm key r = has_key vm key r && snooze_over now r

abbrev pub woken : ℕ → List Row → List Row
woken now = update_where (snooze_over now) (wake now)

-- After a wake-up the open rows of a key are those that were open and those that were due.
count-woken :
    (now : ℕ) (vm key : String) (rows : List Row)
    → count_where (open_at vm key) (woken now rows)
      ≡ count_where (open_at vm key) rows + count_where (due_at now vm key) rows
unfolding count_where update_where
count-woken now vm key [] = omega arith
count-woken now vm key (r ∷ rows) = ground (arith, count-woken now vm key rows)

-- If one VM and action key has both an open proposal and a snoozed one whose snooze is over, then
-- waking raises: not one snoozed proposal of the table is woken, of whatever VM.
pub wake_snoozed_blocked :
    (now : ℕ) (vm key : String) (rows : List Row) {r q : Row}
    → find_where (open_at vm key) rows ≡ some r
    → find_where (due_at now vm key) rows ≡ some q
    → wake_snoozed rows now ≡ integrity_error
unfolding wake_snoozed
wake_snoozed_blocked now vm key rows {r} {q} is_open is_due =
    elim (Bool-cases (has_duplicates (woken now rows))) [
      | inl clash ↦ rw clash
      | inr free ↦ absurd (
          omega (
            arith,
            has_duplicates_sound (woken now rows) vm key free,
            count-woken now vm key rows,
            count_where_pos _ rows r is_open,
            count_where_pos _ rows q is_due,
          ))
    ]

open_at_self : (r : Row) → is_pending r.status ≡ true → open_at r.vm_id r.action_key r ≡ true
open_at_self r p = rw (eq_refl r.vm_id, eq_refl r.action_key, p)

has_duplicates_complete :
    (rows : List Row)
    → ((vm key : String) → count_where (open_at vm key) rows ≤ 1)
    → has_duplicates rows ≡ false
unfolding has_duplicates count_where
has_duplicates_complete [] one = refl
has_duplicates_complete (r ∷ rows) one =
    let rest = has_duplicates_complete rows (λ vm key. ground (arith, one vm key)) in
    ground (
      arith,
      rest,
      one r.vm_id r.action_key,
      open_at_self r,
      any-of_count (open_at r.vm_id r.action_key) rows,
    )

-- If no VM and action key has two proposals that are open or due, then waking succeeds: it returns
-- the due proposals to the pending state and reports them.
pub wake_snoozed_ok :
    (now : ℕ) (rows : List Row)
    → ((vm key : String)
        → count_where (open_at vm key) rows + count_where (due_at now vm key) rows ≤ 1)
    → wake_snoozed rows now
      ≡ ok (woken now rows, map (λ r. r.proposal_id) (select_where (snooze_over now) rows))
unfolding wake_snoozed
wake_snoozed_ok now rows one = rw (
    has_duplicates_complete (woken now rows)
      (λ vm key. omega (arith, count-woken now vm key rows, one vm key)))
