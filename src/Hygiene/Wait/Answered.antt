-- ===== src/Hygiene/Wait/Answered.antt =====
-- errander/safety/hygiene_store.py: what `wait_for_decision` returns.
use errander_ai.Common.{
  ℕ, ◌+◌, ◌*◌, String, ◌≡◌, ◌≢◌, true, false, not, Option, none, some, List, [], ◌∷◌, arith, leb,
  if_holds, Option-cases, inl, inr, any,
}
use errander_ai.Approval.{is_pending}
use errander_ai.Hygiene.{same_key}
use errander_ai.Hygiene.Store.{HygieneRow, HygieneStore, get_hygiene, time_out_hygiene}
use errander_ai.Hygiene.Store.Sound.{Sound, time_out_hygiene-Sound}
use errander_ai.Hygiene.Form.{run_hygiene}
use errander_ai.Hygiene.Store.Settled.{Exists, time_out-settles}
use errander_ai.Hygiene.Form.Stays.{run_hygiene-settled, run_hygiene-Exists}
use errander_ai.Hygiene.Form.Selected.{run_hygiene-Sound}
use errander_ai.Hygiene.Wait.{
  HygieneRound, HygieneWait, decided, nothing, waits, is_timeout, unless_timeout, register_key,
  unregister_key, clear_key, after_deadline, wait_row, wait_hygiene_rounds, wait_for_hygiene,
}

module _ (digest : List (String × String × String) → String) (k : String × String) where
  -- A returned row is in the table, was decided, and did not time out.
  abbrev pub Answered : HygieneWait → HygieneStore → Type 0
  Answered (decided row) s =
      (get_hygiene s k ≡ some row)
      × (is_pending row.status ≡ false)
      × (is_timeout row.status ≡ false)
      × Sound s
  Answered nothing s = Sound s
  Answered waits s = Sound s

  abbrev pub Ends : HygieneWait × HygieneStore → Type 0
  Ends r = Answered r.0 r.1

  reread-Answered :
      (row : HygieneRow) (s : HygieneStore)
      → get_hygiene s k ≡ some row
      → is_pending row.status ≡ false
      → Sound s
      → Answered (unless_timeout (some row)) s
  reread-Answered row s found done v =
      if_holds (λ w. Answered w s) (is_timeout row.status) (λ _. v) (λ live. (found, done, live, v))

  after_deadline-Answered :
      (round : HygieneRound) (s : HygieneStore)
      → Exists s k
      → Sound s
      → Ends (after_deadline digest k round s)
  unfolding after_deadline
  after_deadline-Answered round s e v =
      let before = run_hygiene digest s round.before_mark in
      let marked = (time_out_hygiene before round.marked_at k).0 in
      let here = run_hygiene-Exists digest k s round.before_mark e in
      let (row, found, done) = time_out-settles before k here.0 here.1 round.marked_at in
      let v' =
        time_out_hygiene-Sound before round.marked_at k
          (run_hygiene-Sound digest s round.before_mark v) in
      let s' = run_hygiene digest marked round.before_reread in
      let found' = run_hygiene-settled digest k marked row round.before_reread found done in
      rw found' (
        reread-Answered row s' found' done (run_hygiene-Sound digest marked round.before_reread v'))

  wait_rounds-Answered :
      (deadline : ℕ) (rounds : List HygieneRound) (s : HygieneStore)
      → Sound s
      → Ends (wait_hygiene_rounds digest k deadline rounds s)
  unfolding wait_hygiene_rounds
  wait_rounds-Answered deadline [] s v = v
  wait_rounds-Answered deadline (round ∷ rounds) s v = elim (Option-cases (get_hygiene s k)) [
    | inl e ↦ rw e v
    | inr (row, e) ↦
        let next = clear_key k (run_hygiene digest s round.elsewhere) in
        let later =
          wait_rounds-Answered deadline rounds next
            (run_hygiene-Sound digest s round.elsewhere v) in
        rw e (
          if_holds Ends (not (is_pending row.status))
            (λ d. reread-Answered row s e (ground (arith, d)) v)
            (λ _.
              if_holds Ends (leb deadline round.now)
                (λ _. after_deadline-Answered round s (row, e) v) (λ _. later)))
  ]

  unregister-Answered :
      (w : HygieneWait) (s : HygieneStore) → Answered w s → Answered w (unregister_key k s)
  unfolding get_hygiene
  unregister-Answered (decided row) s a = a
  unregister-Answered nothing s a = a
  unregister-Answered waits s a = a

  pub wait_for_hygiene-Answered :
      (start timeout_seconds : ℕ) (rounds : List HygieneRound) (s : HygieneStore)
      → Sound s
      → Ends (wait_for_hygiene digest k start timeout_seconds rounds s)
  unfolding wait_for_hygiene get_hygiene
  wait_for_hygiene-Answered start timeout_seconds rounds s v =
      let deadline = start + timeout_seconds * 1000000 in
      let registered : Sound (register_key k s) =
        if_holds Sound (any (λ w. same_key w.0 k) s.waiters) (λ _. v) (λ _. v) in
      let r = wait_hygiene_rounds digest k deadline rounds (register_key k s) in
      unregister-Answered r.0 r.1
        (wait_rounds-Answered deadline rounds (register_key k s) registered)

  abbrev Returns : HygieneWait × HygieneStore → Type 0
  Returns r = r.0 ≢ waits

  unless_timeout-Returns : (o : Option HygieneRow) → unless_timeout o ≢ waits
  unless_timeout-Returns none = λ e. cc
  unless_timeout-Returns (some row) =
      if_holds (λ w. w ≢ waits) (is_timeout row.status) (λ _ e. cc) (λ _ e. cc)

  wait_row-Returns :
      (deadline : ℕ) (round : HygieneRound) (s : HygieneStore) (later : HygieneWait × HygieneStore)
      (o : Option HygieneRow)
      → (leb deadline round.now ≡ false → Returns later)
      → Returns (wait_row digest k deadline round s later o)
  unfolding after_deadline
  wait_row-Returns deadline round s later none r = λ e. cc
  wait_row-Returns deadline round s later (some row) r =
      if_holds Returns (not (is_pending row.status)) (λ _. unless_timeout-Returns (some row))
        (λ _.
          if_holds Returns (leb deadline round.now)
            (λ _.
              let before = run_hygiene digest s round.before_mark in
              let marked = (time_out_hygiene before round.marked_at k).0 in
              unless_timeout-Returns
                (get_hygiene (run_hygiene digest marked round.before_reread) k))
            r)

  rounds-Return :
      (deadline : ℕ) (rounds : List HygieneRound) (s : HygieneStore)
      → any (λ r. leb deadline r.now) rounds ≡ true
      → (wait_hygiene_rounds digest k deadline rounds s).0 ≢ waits
  unfolding wait_hygiene_rounds
  rounds-Return deadline [] s passed = λ e. cc
  rounds-Return deadline (round ∷ rounds) s passed =
      let next = clear_key k (run_hygiene digest s round.elsewhere) in
      wait_row-Returns deadline round s (wait_hygiene_rounds digest k deadline rounds next)
        (get_hygiene s k) (λ early. rounds-Return deadline rounds next (rw early at passed))

  -- The coroutine returns at the latest in the first round that looks at the clock after the deadline,
  -- whatever the other tasks write. A row that it returns is the one in the table, was decided, did not
  -- time out, and stands for items only if it was approved. The table has items only in approved rows
  -- and of the classes of the form at the start.
  pub wait_for_hygiene-Returns :
      (start timeout_seconds : ℕ) (rounds : List HygieneRound) (s : HygieneStore)
      → Sound s
      → any (λ r. leb (start + timeout_seconds * 1000000) r.now) rounds ≡ true
      → ((wait_for_hygiene digest k start timeout_seconds rounds s).0 ≢ waits)
        × Ends (wait_for_hygiene digest k start timeout_seconds rounds s)
  wait_for_hygiene-Returns start timeout_seconds rounds s v passed = (
    unfold wait_for_hygiene in
        rounds-Return (start + timeout_seconds * 1000000) rounds (register_key k s) passed,
    wait_for_hygiene-Answered start timeout_seconds rounds s v,
  )
