-- ===== src/Approval/Wait/Returns.antt =====
-- errander/safety/approval_store.py: what `wait_for_decision` returns, and that it returns.
use errander_ai.Common.{
  ℕ, ◌+◌, inl, inr, String, ◌≡◌, refl, ◌∙◌, Bool, true, false, not, Option, none, some, List, [],
  ◌∷◌, arith, str_eq, leb, if◌then◌else◌, Bool-cases, any, delete_where,
}
use errander_ai.Approval.{is_pending, Row, ApprovalRequest, is_decided, row_to_request}
use errander_ai.Approval.Store.{ApprovalStore, get, has_waiter, seconds}
use errander_ai.Approval.Store.Run.{Op, give_up, step, run}
use errander_ai.Approval.Store.Keys.{row_of, row_change, step-refines}
use errander_ai.Approval.Store.Decisions.{decided-run, row_of-own}
use errander_ai.Approval.Wait.{
  Round, Wait, returned, key_error, register, clear_event, reread, time_out, wait_rounds,
  wait_for_decision,
}

-- No write removes the row of a batch.
row_of-run :
    (ops : List Op) (id : String) (s : ApprovalStore) (r : Row)
    → row_of s id ≡ some r
    → (q : Row) × (row_of (run s ops) id ≡ some q)
unfolding run
row_of-run [] id s r found = (r, found)
row_of-run (op ∷ ops) id s r found =
    row_of-run ops id (step s op) (row_change op r) (step-refines s op id ∙ (rw found))

mark_timeout_settles :
    (id : String) (at : ℕ) (r : Row)
    → str_eq r.batch_id id ≡ true
    → is_pending (row_change (give_up at id) r).status ≡ false
mark_timeout_settles id at r own = ground arith

module _ {Item : Type 0} (loads : String → Option (List Item)) (id : String) where
  get-of_row :
      (s : ApprovalStore) (r : Row)
      → row_of s id ≡ some r
      → get loads s id ≡ some (row_to_request loads r)
  unfolding get
  get-of_row s r found = rw found

  is_decided-of_row : (r : Row) → is_decided (row_to_request loads r) ≡ not (is_pending r.status)
  unfolding is_decided row_to_request
  is_decided-of_row r = refl

  -- The request that is returned is decided, and is what the table then holds.
  abbrev pub Settled : Wait Item × ApprovalStore → Type 0
  Settled w =
      (r : ApprovalRequest Item) × (w.0 ≡ returned r)
      × (is_decided r ≡ true)
      × (get loads w.1 id ≡ some r)

  Settled-of_row :
      (s : ApprovalStore) (r : Row)
      → row_of s id ≡ some r
      → is_pending r.status ≡ false
      → Settled (returned (row_to_request loads r), s)
  Settled-of_row s r found d =
      (row_to_request loads r, refl, is_decided-of_row r ∙ (rw d), get-of_row s r found)

  reread-of_row :
      (s : ApprovalStore) (r : Row)
      → row_of s id ≡ some r
      → reread loads id s ≡ (returned (row_to_request loads r), s)
  unfolding reread
  reread-of_row s r found = rw (get-of_row s r found, reread)

  reread-Settled :
      (s : ApprovalStore) (r : Row)
      → row_of s id ≡ some r
      → is_pending r.status ≡ false
      → Settled (reread loads id s)
  reread-Settled s r found d = rw (reread-of_row s r found) (Settled-of_row s r found d)

  -- At the deadline the row is decided by `mark_timeout`, if nobody has been faster.
  time_out-Settled :
      (round : Round) (s : ApprovalStore) (r : Row)
      → row_of s id ≡ some r
      → Settled (time_out loads id round s)
  unfolding time_out step
  time_out-Settled round s r found =
      let (q, there) = row_of-run round.before_mark id s r found in
      let before = run s round.before_mark in
      let q' = row_change (give_up round.marked_at id) q in
      let s' = step before (give_up round.marked_at id) in
      let (f, here, done) =
        decided-run round.before_reread id s' q'
          (step-refines before (give_up round.marked_at id) id ∙ (rw there))
          (mark_timeout_settles id round.marked_at q (row_of-own before id q there)) in
      reread-Settled (run s' round.before_reread) f here done

  wait_round :
      (deadline : ℕ) (round : Round) (rest : List Round) (s : ApprovalStore) (r : Row)
      → row_of s id ≡ some r
      → wait_rounds loads id deadline (round ∷ rest) s ≡ (
          if is_pending r.status
          then (if leb deadline round.now
              then time_out loads id round s
              else wait_rounds loads id deadline rest (clear_event id (run s round.elsewhere)))
          else (returned (row_to_request loads r), s))
  unfolding wait_rounds
  wait_round deadline round rest s r found =
      rw (get-of_row s r found, wait_rounds) (ground (arith, is_decided-of_row r))

  wait_rounds-Settled :
      (deadline : ℕ) (rounds : List Round) (s : ApprovalStore) (r : Row)
      → row_of s id ≡ some r
      → any (λ (round : Round). leb deadline round.now) rounds ≡ true
      → Settled (wait_rounds loads id deadline rounds s)
  wait_rounds-Settled deadline [] s r found late = cc
  wait_rounds-Settled deadline (round ∷ rest) s r found late =
      let (q, there) = row_of-run round.elsewhere id s r found in
      let later =
        wait_rounds-Settled deadline rest (clear_event id (run s round.elsewhere)) q there in
      rw (wait_round deadline round rest s r found) (elim (Bool-cases (is_pending r.status)) [
        | inr decided ↦ rw decided (Settled-of_row s r found decided)
        | inl undecided ↦ elim (Bool-cases (leb deadline round.now)) [
          | inl over ↦ rw (undecided, over) (time_out-Settled round s r found)
          | inr early ↦ rw (undecided, early) (later (ground arith))
        ]
      ])

  row_of-register : (s : ApprovalStore) → row_of (register id s) id ≡ row_of s id
  row_of-register s = ground arith

  -- Once the clock of some round has reached the deadline, waiting for a request that has a row ends:
  -- it returns a request that is decided, and that is the one in the table at that time.
  pub wait_for_decision-Settled :
      (start timeout_seconds : ℕ) (rounds : List Round) (s : ApprovalStore) (r : Row)
      → row_of s id ≡ some r
      → any (λ (round : Round). leb (start + seconds timeout_seconds) round.now) rounds ≡ true
      → Settled (wait_for_decision loads id start timeout_seconds rounds s)
  unfolding wait_for_decision
  wait_for_decision-Settled start timeout_seconds rounds s r found late =
      wait_rounds-Settled (start + seconds timeout_seconds) rounds (register id s) r
        (row_of-register s ∙ found) late

  get-absent : (s : ApprovalStore) → row_of s id ≡ none → get loads s id ≡ none
  unfolding get
  get-absent s absent = rw absent

  wait_rounds_absent :
      (deadline : ℕ) (round : Round) (rest : List Round) (s : ApprovalStore)
      → row_of s id ≡ none
      → wait_rounds loads id deadline (round ∷ rest) s ≡ (key_error, s)
  unfolding wait_rounds
  wait_rounds_absent deadline round rest s absent = rw (get-absent s absent, wait_rounds)

  -- Waiting for a batch that has no row raises, whatever the deadline.
  pub wait_for_decision_absent :
      (start timeout_seconds : ℕ) (round : Round) (rest : List Round) (s : ApprovalStore)
      → row_of s id ≡ none
      → (wait_for_decision loads id start timeout_seconds (round ∷ rest) s).0 ≡ key_error
  unfolding wait_for_decision
  wait_for_decision_absent start timeout_seconds round rest s absent = rw (
      wait_rounds_absent (start + seconds timeout_seconds) round rest (register id s)
        (row_of-register s ∙ absent))

  any-delete_where :
      (waiters : List (String × Bool))
      → any (λ w. str_eq w.0 id) (delete_where (λ w. str_eq w.0 id) waiters) ≡ false
  unfolding delete_where
  any-delete_where [] = refl
  any-delete_where (w ∷ waiters) = ground (arith, any-delete_where waiters)

  -- However it ends, the coroutine leaves no entry in the registry of waiters.
  pub has_waiter-wait_for_decision :
      (start timeout_seconds : ℕ) (rounds : List Round) (s : ApprovalStore)
      → has_waiter (wait_for_decision loads id start timeout_seconds rounds s).1 id ≡ false
  unfolding wait_for_decision has_waiter
  has_waiter-wait_for_decision start timeout_seconds rounds s =
      any-delete_where
        (wait_rounds loads id (start + seconds timeout_seconds) rounds (register id s)).1.waiters
