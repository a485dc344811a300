-- ===== src/Detector/Filed.antt =====
-- errander/agent/proposal_detector.py: the counts of `file_proposals`.
use mathlib.Core.Path.{subst}
use errander_ai.Common.{
  ℕ, suc, ◌+◌, ◌≤◌, Option-cases, ◌==◌, ◌&&◌, String, if◌then◌else◌, find_where, update_where, ◌≡◌,
  refl, sym, Bool, true, false, Option, none, some, List, [], ◌∷◌, ◌++◌, arith, if_holds, length,
  length-append, ◌⊎◌, inl, inr,
}
use errander_ai.Proposals.{AgentProposal, is_action, action_key}
use errander_ai.Proposals.Store.{
  Row, Result, ok, integrity_error, create_or_refresh, open_at, has_id, is_null,
}
use errander_ai.Proposals.Store.Reads.{create_or_refresh_unless_suppressed, get_open, is_suppressed}
use errander_ai.Proposals.Store.Filing.{
  create_or_refresh-open, create_or_refresh-taken, create_or_refresh-fresh,
}
use errander_ai.Detector.Filing.{
  Outcome, created, refreshed, suppressed, Filing, outcome_of, from_action, from_review,
  file_or_suppress_one, Counts, counted, file_all, file_proposals,
}

-- Each proposal is counted once, what is stored is what was created or refreshed, and each row that the
-- table has more than before is counted as created.
pub record Tallies (n before : ℕ) (rows : List Row) (c : Counts) : Type 0 where
  pub all_counted : c.created_count + c.refreshed_count + c.suppressed_count ≡ n
  pub all_stored : length c.stored_proposals ≡ c.created_count + c.refreshed_count
  pub all_new : length rows ≤ before + c.created_count

-- Either the loop ends at an IntegrityError, or it counts all of the proposals.
abbrev pub Files : ℕ → ℕ → List Row × Option Counts → Type 0
Files n before (rows, none) = Unit
Files n before (rows, some c) = Tallies n before rows c

-- What was counted fits what was stored, and how many rows there were before.
abbrev Agrees : ℕ → Result (List Row × Option Row × Outcome) → Type 0
Agrees before integrity_error = Unit
Agrees before (ok (rows, none, outcome)) = (outcome ≡ suppressed) × (length rows ≤ before)
Agrees before (ok (rows, some r, outcome)) =
    ((outcome ≡ created) × (length rows ≤ before + 1))
    ⊎ ((outcome ≡ refreshed) × (length rows ≤ before))

-- The table grows only by a row that is reported as created.
abbrev Grows : ℕ → Result (List Row × Row × Bool) → Type 0
Grows before integrity_error = Unit
Grows before (ok (rows, r, was_created)) = length rows ≤ before + (if was_created then 1 else 0)

abbrev GrowsUnless : ℕ → Result (List Row × Option Row × Bool) → Type 0
GrowsUnless before integrity_error = Unit
GrowsUnless before (ok (rows, none, was_created)) = length rows ≤ before
GrowsUnless before (ok (rows, some r, was_created)) =
    length rows ≤ before + (if was_created then 1 else 0)

outcome_of-Agrees :
    (before : ℕ) (rows : List Row) (r : Row) (b : Bool)
    → length rows ≤ before + (if b then 1 else 0)
    → Agrees before (ok (rows, some r, outcome_of b))
outcome_of-Agrees before rows r true h = inl (refl, h)
outcome_of-Agrees before rows r false h = inr (refl, omega (arith, h))

from_action-Agrees :
    (before : ℕ) (x : Result (List Row × Option Row × Bool))
    → GrowsUnless before x
    → Agrees before (from_action x)
from_action-Agrees before integrity_error h = tt
from_action-Agrees before (ok (rows, none, b)) h = (refl, h)
from_action-Agrees before (ok (rows, some r, b)) h = outcome_of-Agrees before rows r b h

from_review-Agrees :
    (before : ℕ) (x : Result (List Row × Row × Bool))
    → Grows before x
    → Agrees before (from_review x)
from_review-Agrees before integrity_error h = tt
from_review-Agrees before (ok (rows, r, b)) h = outcome_of-Agrees before rows r b h

length-update_where :
    (test : Row → Bool) (change : Row → Row) (rows : List Row)
    → length (update_where test change rows) ≡ length rows
unfolding update_where
length-update_where test change [] = refl
length-update_where test change (r ∷ rows) = omega (arith, length-update_where test change rows)

inserted-Grows :
    (rows : List Row) (now : ℕ) (r : Row)
    → length (rows ++ r ∷ []) ≤ length rows + (if now == now then 1 else 0)
inserted-Grows rows now r = ground (arith, length-append rows (r ∷ []))

stored-Grows :
    (before : ℕ) (x : Result (List Row × Row × Bool))
    → Grows before x
    → GrowsUnless before (elim x [
      | integrity_error ↦ integrity_error
      | ok (rows', r, was_created) ↦ ok (rows', some r, was_created)
    ])
stored-Grows before integrity_error h = tt
stored-Grows before (ok (rows, r, was_created)) h = h

module _ {E : Type 0} (dumps : List E → String) (now : ℕ) where
  -- The statement inserts a row whose two times agree, or it keeps the number of rows.
  create_or_refresh-Grows :
      (rows : List Row) (expiry_days : ℕ) (p : AgentProposal E)
      → Grows (length rows) (create_or_refresh dumps rows now expiry_days p)
  create_or_refresh-Grows rows expiry_days p =
      let at = open_at p.vm_id (action_key p) in
      let G = Grows (length rows) in
      elim (Option-cases (find_where at rows)) [
        | inr (r, found) ↦
            subst G (sym (create_or_refresh-open dumps rows now expiry_days p r found))
              (omega (arith, length-update_where at _ rows))
        | inl absent ↦ elim (Option-cases (find_where (has_id p.proposal_id) rows)) [
          | inr (r, taken) ↦
              subst G (sym (create_or_refresh-taken dumps rows now expiry_days p r absent taken)) tt
          | inl fresh ↦
              subst G (sym (create_or_refresh-fresh dumps rows now expiry_days p absent fresh))
                (inserted-Grows rows now _)
        ]
      ]

  unless_suppressed-Grows :
      (rows : List Row) (threshold window_days expiry_days : ℕ) (p : AgentProposal E)
      → GrowsUnless
          (length rows)
          (create_or_refresh_unless_suppressed dumps rows now threshold window_days expiry_days p)
  unfolding create_or_refresh_unless_suppressed
  unless_suppressed-Grows rows threshold window_days expiry_days p =
      if_holds (GrowsUnless (length rows))
        (is_null (get_open rows p.vm_id (action_key p))
          && is_suppressed rows now p.vm_id (action_key p) threshold window_days)
        (λ _. omega arith)
        (λ _.
          stored-Grows (length rows) (create_or_refresh dumps rows now expiry_days p)
            (create_or_refresh-Grows rows expiry_days p))

module _ {E : Type 0} (dumps : List E → String) (f : Filing) where
  file_or_suppress_one-Agrees :
      (rows : List Row) (p : AgentProposal E)
      → Agrees (length rows) (file_or_suppress_one dumps f rows p)
  unfolding file_or_suppress_one
  file_or_suppress_one-Agrees rows p =
      if_holds (Agrees (length rows)) (is_action p.kind)
        (λ _.
          from_action-Agrees (length rows)
            (create_or_refresh_unless_suppressed dumps rows f.now f.threshold f.window_days
              f.expiry_days p)
            (unless_suppressed-Grows dumps f.now rows f.threshold f.window_days f.expiry_days p))
        (λ _.
          from_review-Agrees (length rows) (create_or_refresh dumps rows f.now f.expiry_days p)
            (create_or_refresh-Grows dumps f.now rows f.expiry_days p))

  counted-Tallies :
      (n before : ℕ) (rows rows' : List Row) (stored : Option Row) (outcome : Outcome) (c : Counts)
      → Agrees (length rows) (ok (rows', stored, outcome))
      → Tallies n before rows c
      → Tallies (suc n) before rows' (counted stored outcome c)
  counted-Tallies n before rows rows' none created c e t = absurd (ground (arith, e.0))
  counted-Tallies n before rows rows' none refreshed c e t = absurd (ground (arith, e.0))
  counted-Tallies n before rows rows' none suppressed c e t = record {
    all_counted = omega (arith, t.all_counted);
    all_stored = t.all_stored;
    all_new = omega (arith, t.all_new, e.1);
  }
  counted-Tallies n before rows rows' (some r) suppressed c e t = absurd (ground (arith, e))
  counted-Tallies n before rows rows' (some r) created c e t =
      let grown : length rows' ≤ length rows + 1 = ground (arith, e) in
      record {
        all_counted = omega (arith, t.all_counted);
        all_stored = omega (arith, t.all_stored, length-append c.stored_proposals (r ∷ []));
        all_new = omega (arith, t.all_new, grown);
      }
  counted-Tallies n before rows rows' (some r) refreshed c e t =
      let kept : length rows' ≤ length rows = ground (arith, e) in
      record {
        all_counted = omega (arith, t.all_counted);
        all_stored = omega (arith, t.all_stored, length-append c.stored_proposals (r ∷ []));
        all_new = omega (arith, t.all_new, kept);
      }

  -- The rest of the loop, after the result of one proposal.
  abbrev file_rest :
      List (AgentProposal E)
      → List Row
      → Counts
      → Result (List Row × Option Row × Outcome)
      → List Row × Option Counts
  file_rest ps rows c integrity_error = (rows, none)
  file_rest ps rows c (ok (rows', stored, outcome)) =
      file_all dumps f ps rows' (counted stored outcome c)

  file_all-next :
      (p : AgentProposal E) (ps : List (AgentProposal E)) (rows : List Row) (c : Counts)
      → file_all dumps f (p ∷ ps) rows c ≡ file_rest ps rows c (file_or_suppress_one dumps f rows p)
  unfolding file_all
  file_all-next p ps rows c = elim (file_or_suppress_one dumps f rows p) [
    | integrity_error ↦ refl
    | ok (rows', stored, outcome) ↦ refl
  ]

  file_rest-Files :
      (n m before : ℕ) (ps : List (AgentProposal E)) (rows : List Row) (c : Counts)
      (x : Result (List Row × Option Row × Outcome))
      → ((rows' : List Row) (c' : Counts)
          → Tallies (suc n) before rows' c'
          → Files m before (file_all dumps f ps rows' c'))
      → Agrees (length rows) x
      → Tallies n before rows c
      → Files m before (file_rest ps rows c x)
  file_rest-Files n m before ps rows c integrity_error rest a t = tt
  file_rest-Files n m before ps rows c (ok (rows', stored, outcome)) rest a t =
      rest rows' (counted stored outcome c)
        (counted-Tallies n before rows rows' stored outcome c a t)

  file_all-Files :
      (n m before : ℕ) (ps : List (AgentProposal E)) (rows : List Row) (c : Counts)
      → m ≡ length ps + n
      → Tallies n before rows c
      → Files m before (file_all dumps f ps rows c)
  unfolding file_all
  file_all-Files n m before [] rows c size t = record {
    all_counted = omega (arith, t.all_counted, size);
    all_stored = t.all_stored;
    all_new = t.all_new;
  }
  file_all-Files n m before (p ∷ ps) rows c size t =
      let next =
        file_rest-Files n m before ps rows c (file_or_suppress_one dumps f rows p)
          (λ rows' c' t'. file_all-Files (suc n) m before ps rows' c' (omega (arith, size)) t')
          (file_or_suppress_one-Agrees rows p) t in
      subst (Files m before) (sym (file_all-next p ps rows c)) next

  -- Unless a statement fails with an IntegrityError, file_proposals counts each proposal once, as created,
  -- refreshed or suppressed, returns one stored row for each that is not suppressed, and counts as
  -- created each row that the table has more than before.
  pub file_proposals-Files :
      (ps : List (AgentProposal E)) (rows : List Row)
      → Files (length ps) (length rows) (file_proposals dumps f ps rows)
  unfolding file_proposals
  file_proposals-Files ps rows =
      file_all-Files 0 (length ps) (length rows) ps rows
        (record {
          created_count = 0;
          refreshed_count = 0;
          suppressed_count = 0;
          stored_proposals = [];
        })
        (omega arith)
        (record { all_counted = omega arith; all_stored = omega arith; all_new = omega arith })
