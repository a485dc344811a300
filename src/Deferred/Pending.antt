-- ===== src/Deferred/Pending.antt =====
-- errander/safety/deferred.py: what each statement does to the one batch that it names and to the
-- others, counted as the executions that a batch still has to come.
use errander_ai.Common.{
  ℕ, ◌+◌, ◌≤◌, String, ◌≡◌, refl, ap, false, Option, none, some, List, arith, str_eq, eq_iff,
  if◌then◌else◌, select_where, find_where, count_where, update_where, changed,
  find_where-update_where, find_where-append, find_where-meets, at_most_one-update_where,
  count_where-append, count_where-of_none, count_where-keyed, count_where-order_by,
  count_where-select_where, Option-cases, inl, inr,
}
use errander_ai.Deferred.{
  DeferredExecution, HandOff, executing, done, expired, is_pending, of_batch, inserted, replaced,
  save_at, save, is_ready, get_pending, mark_executing, mark_done, is_old, expire_old,
}

-- 1 if the batch has a pending record, else 0.
abbrev pub waiting : Option DeferredExecution → ℕ
waiting none = 0
waiting (some r) = if is_pending r.status then 1 else 0

pub waiting-le : (o : Option DeferredExecution) → waiting o ≤ 1
waiting-le o = ground arith

abbrev pub waiting_in : String → List DeferredExecution → ℕ
waiting_in id rows = waiting (find_where (of_batch id) rows)

-- An UPDATE of one batch that ends its wait.
waiting-closed :
    (other id : String) (change : DeferredExecution → DeferredExecution)
    (rows : List DeferredExecution)
    → ((r : DeferredExecution) → (change r).batch_id ≡ r.batch_id)
    → ((r : DeferredExecution) → is_pending (change r).status ≡ false)
    → waiting_in id (update_where (of_batch other) change rows)
      ≡ (if str_eq other id then 0 else waiting_in id rows)
waiting-closed other id change rows keeps closes =
    elim (Option-cases (find_where (of_batch id) rows)) [
      | inl absent ↦
          rw
            (
              find_where-update_where (of_batch id) (of_batch other) change rows
                  (λ r. ap (λ b. str_eq b id) (keeps r)),
              absent,
            )
            (ground arith)
      | inr (r, found) ↦
          rw
            (
              find_where-update_where (of_batch id) (of_batch other) change rows
                  (λ r. ap (λ b. str_eq b id) (keeps r)),
              found,
            )
            (ground (
              arith,
              closes r,
              find_where-meets (of_batch id) rows r found,
              eq_iff r.batch_id id,
              eq_iff r.batch_id other,
              eq_iff other id,
            ))
    ]

-- What `save` makes of the record of a batch: it waits, and the other batches are as they were.
saved_record : ℕ → HandOff → String → Option DeferredExecution → Option DeferredExecution
saved_record now h id none = if str_eq h.batch_id id then some (inserted now h) else none
saved_record now h id (some r) = some (changed (of_batch h.batch_id) (replaced now h) r)

find_where-save :
    (now : ℕ) (h : HandOff) (id : String) (rows : List DeferredExecution)
    (o q : Option DeferredExecution)
    → find_where (of_batch h.batch_id) rows ≡ o
    → find_where (of_batch id) rows ≡ q
    → find_where (of_batch id) (save_at now h o rows) ≡ saved_record now h id q
unfolding saved_record inserted replaced find_where
find_where-save now h id rows none none fresh absent = rw (find_where-append, absent) (ground arith)
find_where-save now h id rows none (some r) fresh found =
    rw (find_where-append, found)
      (ground (
        arith,
        fresh,
        found,
        find_where-meets (of_batch id) rows r found,
        eq_iff r.batch_id id,
        eq_iff r.batch_id h.batch_id,
      ))
find_where-save now h id rows (some p) none known absent =
    rw
      (
        find_where-update_where (of_batch id) (of_batch h.batch_id) (replaced now h) rows
            (λ r. refl),
        absent,
      )
      (ground (arith, known, absent, eq_iff h.batch_id id))
find_where-save now h id rows (some p) (some r) known found =
    rw
      (
        find_where-update_where (of_batch id) (of_batch h.batch_id) (replaced now h) rows
            (λ r. refl),
        found,
      )
      refl

pub waiting-save :
    (now : ℕ) (h : HandOff) (id : String) (rows : List DeferredExecution)
    → (waiting_in id rows ≤ waiting_in id (save now h rows))
      × (waiting_in id (save now h rows)
          ≤ waiting_in id rows + (if str_eq h.batch_id id then 1 else 0))
unfolding save inserted replaced saved_record
waiting-save now h id rows =
    let found =
      find_where-save now h id rows (find_where (of_batch h.batch_id) rows)
        (find_where (of_batch id) rows) refl refl in
    elim (Option-cases (find_where (of_batch id) rows)) [
      | inl absent ↦ ground (arith, found, absent)
      | inr (r, own) ↦ ground (
        arith,
        found,
        own,
        find_where-meets (of_batch id) rows r own,
        eq_iff r.batch_id id,
        eq_iff r.batch_id h.batch_id,
      )
    ]

pub waiting-mark_executing :
    (id other : String) (rows : List DeferredExecution)
    → waiting_in id (mark_executing other rows)
      ≡ (if str_eq other id then 0 else waiting_in id rows)
unfolding mark_executing
waiting-mark_executing id other rows =
    waiting-closed other id (λ r. record r { status = executing }) rows (λ r. refl) (λ r. refl)

pub waiting-mark_done :
    (now : ℕ) (id other : String) (rows : List DeferredExecution)
    → waiting_in id (mark_done now other rows) ≡ (if str_eq other id then 0 else waiting_in id rows)
unfolding mark_done
waiting-mark_done now id other rows =
    waiting-closed other id (λ r. record r { status = done; executed_at = some now }) rows
      (λ r. refl) (λ r. refl)

pub waiting-expire_old :
    (now : ℕ) (id : String) (rows : List DeferredExecution)
    → waiting_in id (expire_old now rows).0 ≤ waiting_in id rows
unfolding expire_old
waiting-expire_old now id rows = elim (Option-cases (find_where (of_batch id) rows)) [
  | inl absent ↦
      rw
        (
          find_where-update_where (of_batch id) (is_old now) (λ r. record r { status = expired })
              rows (λ r. refl),
          absent,
        )
        (omega arith)
  | inr (r, found) ↦
      rw
        (
          find_where-update_where (of_batch id) (is_old now) (λ r. record r { status = expired })
              rows (λ r. refl),
          found,
        )
        (ground arith)
]

-- A batch is among the pending records of an environment only while it waits, and once at most.
pub get_pending-waiting :
    (env : String) (now : ℕ) (id : String) (rows : List DeferredExecution)
    → count_where (of_batch id) rows ≤ 1
    → count_where (of_batch id) (get_pending env now rows) ≤ waiting_in id rows
unfolding get_pending
get_pending-waiting env now id rows unique =
    rw
      (
        count_where-order_by (λ r. r.window_start) (of_batch id)
            (select_where (is_ready env now) rows),
        count_where-select_where (is_ready env now) (of_batch id) rows,
        count_where-keyed (of_batch id) (is_ready env now) rows unique,
      )
      (elim (Option-cases (find_where (of_batch id) rows)) [
        | inl absent ↦ rw absent (omega arith)
        | inr (r, found) ↦ rw found (ground arith)
      ])

-- `batch_id TEXT PRIMARY KEY`: every statement keeps one record at most for a batch.
pub unique-save :
    (now : ℕ) (h : HandOff) (id : String) (rows : List DeferredExecution)
    → count_where (of_batch id) rows ≤ 1
    → count_where (of_batch id) (save now h rows) ≤ 1
unfolding save inserted replaced count_where
unique-save now h id rows unique = elim (Option-cases (find_where (of_batch h.batch_id) rows)) [
  | inl fresh ↦
      rw (fresh, count_where-append)
        (ground (
          arith,
          unique,
          count_where-of_none (of_batch h.batch_id) rows fresh,
          eq_iff h.batch_id id,
        ))
  | inr (r, known) ↦ rw known (at_most_one-update_where _ _ _ rows (λ q. refl) unique)
]

pub unique-mark_executing :
    (id other : String) (rows : List DeferredExecution)
    → count_where (of_batch id) rows ≤ 1
    → count_where (of_batch id) (mark_executing other rows) ≤ 1
unfolding mark_executing
unique-mark_executing id other rows unique = at_most_one-update_where _ _ _ rows (λ r. refl) unique

pub unique-mark_done :
    (now : ℕ) (id other : String) (rows : List DeferredExecution)
    → count_where (of_batch id) rows ≤ 1
    → count_where (of_batch id) (mark_done now other rows) ≤ 1
unfolding mark_done
unique-mark_done now id other rows unique = at_most_one-update_where _ _ _ rows (λ r. refl) unique

pub unique-expire_old :
    (now : ℕ) (id : String) (rows : List DeferredExecution)
    → count_where (of_batch id) rows ≤ 1
    → count_where (of_batch id) (expire_old now rows).0 ≤ 1
unfolding expire_old
unique-expire_old now id rows unique = at_most_one-update_where _ _ _ rows (λ r. refl) unique
