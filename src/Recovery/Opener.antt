-- ===== src/Recovery/Opener.antt =====
-- errander/main.py: `_window_opener`, and how often it executes a deferred batch.
use errander_ai.Common.{
  ℕ, ◌+◌, ◌≤◌, String, ◌≡◌, refl, sym, ap, ◌∙◌, true, false, Option, List, [], ◌∷◌, ◌++◌, map,
  arith, str_eq, if◌then◌else◌, if_holds, count_where, count_where-append, find_where, Bool-cases,
  inl, inr, append_nil, map-append_cons,
}
use errander_ai.Deferred.{
  DeferredExecution, HandOff, of_batch, save, get_pending, mark_executing, expire_old,
}
use errander_ai.Deferred.Pending.{
  waiting-le, waiting_in, waiting-save, waiting-mark_executing, waiting-mark_done,
  waiting-expire_old, get_pending-waiting, unique-expire_old,
}
use errander_ai.Deferred.Ready.{TakesUp, get_pending-TakesUp}
use errander_ai.Recovery.{
  Launch, Progress, BatchRun, save_all, launch_batch, launch_deferred, open_one, open_all,
  window_opener,
}

-- How often a batch was launched, and how often the running batches have put it off.
abbrev pub launches : {Item : Type 0} → String → List (Launch Item) → ℕ
launches id = count_where (λ l. str_eq l.batch_id id)

abbrev pub launched_ids : {Item : Type 0} → List (Launch Item) → List String
launched_ids = map (λ l. l.batch_id)

abbrev pub hand_offs_of : String → List HandOff → ℕ
hand_offs_of id = count_where (λ h. str_eq h.batch_id id)

pub save_all-waiting :
    (now : ℕ) (id : String) (hs : List HandOff) (rows : List DeferredExecution)
    → (waiting_in id rows ≤ waiting_in id (save_all now hs rows))
      × (waiting_in id (save_all now hs rows) ≤ waiting_in id rows + hand_offs_of id hs)
unfolding save_all count_where
save_all-waiting now id [] rows = (omega arith, omega arith)
save_all-waiting now id (h ∷ hs) rows =
    let (kept, added) = waiting-save now h id rows in
    let (keeps, adds) = save_all-waiting now id hs (save now h rows) in
    (omega (arith, kept, keeps), ground (arith, added, adds))

module _ {Item : Type 0} (loads : String → Option (List Item)) (batches : BatchRun Item) where
  -- What happens to a batch from one point of the job to the next: each of its launches uses up a wait,
  -- and each hand-off gives it one at most.
  pub record Spends (id : String) (p q : Progress Item) : Type 0 where
    pub balance :
        launches id q.launched + waiting_in id q.deferred + hand_offs_of id p.handed
        ≤ launches id p.launched + waiting_in id p.deferred + hand_offs_of id q.handed

  module _ (now : ℕ) (id : String) (p : Progress Item) (r : DeferredExecution) where
    next : Progress Item
    next = open_one loads batches now p r

    -- What a round does to the wait of a batch: the launch is counted, the batch that runs ends
    -- without a wait, and another one gets at most what the batch hands over.
    record Round : Type 0 where
      launch : launches id next.launched ≡ launches id p.launched + (if of_batch id r then 1 else 0)
      over : hand_offs_of id p.handed ≤ hand_offs_of id next.handed
      own_done : of_batch id r ≡ true → waiting_in id next.deferred ≡ 0
      kept : of_batch id r ≡ false → waiting_in id p.deferred ≤ waiting_in id next.deferred
      added :
          of_batch id r ≡ false
          → waiting_in id next.deferred + hand_offs_of id p.handed
            ≤ waiting_in id p.deferred + hand_offs_of id next.handed

    open_one-Round : Round
    unfolding next open_one launch_batch
    open_one-Round =
        let l : Launch Item = launch_deferred loads p.approvals r in
        let rows = mark_executing r.batch_id p.deferred in
        let hs = batches.hand_offs l (record p { deferred = rows }) in
        let (keeps, adds) = save_all-waiting now id hs rows in
        let closed = waiting-mark_done now id r.batch_id (save_all now hs rows) in
        let opened = waiting-mark_executing id r.batch_id p.deferred in
        let handed : hand_offs_of id (p.handed ++ hs)
            ≡ hand_offs_of id p.handed + hand_offs_of id hs =
          count_where-append _ p.handed hs in
        record {
          launch = count_where-append _ p.launched (l ∷ []) ∙ (unfold count_where in refl);
          over = omega (arith, handed);
          own_done = λ own. ground (arith, own, closed);
          kept = λ other. ground (arith, other, closed, opened, keeps);
          added = λ other. ground (arith, other, closed, opened, adds, handed);
        }

  Spends-refl : (id : String) (p : Progress Item) → Spends id p p
  Spends-refl id p = record { balance = omega arith }

  Round-Spends :
      (now : ℕ) (id : String) (p : Progress Item) (r : DeferredExecution)
      → (of_batch id r ≡ true → 1 ≤ waiting_in id p.deferred)
      → Spends id p (open_one loads batches now p r)
  unfolding next
  Round-Spends now id p r waits = ground (arith, open_one-Round now id p r, waits)

  pub Spends-trans :
      (id : String) (p q s : Progress Item) → Spends id p q → Spends id q s → Spends id p s
  Spends-trans id p q s a b = record { balance = omega (arith, a.balance, b.balance) }

  -- A batch that has run is not among the records that are left, and another one still waits.
  still_ready :
      (now : ℕ) (id : String) (p : Progress Item) (r : DeferredExecution)
      (rows : List DeferredExecution)
      → count_where (of_batch id) (r ∷ rows) ≤ waiting_in id p.deferred
      → count_where (of_batch id) rows ≤ waiting_in id (open_one loads batches now p r).deferred
  unfolding next count_where
  still_ready now id p r rows ready =
      ground
        (arith, open_one-Round now id p r, ready, waiting-le (find_where (of_batch id) p.deferred))

  open_all-Spends :
      (now : ℕ) (id : String) (p : Progress Item) (rows : List DeferredExecution)
      → count_where (of_batch id) rows ≤ waiting_in id p.deferred
      → Spends id p (open_all loads batches now p rows)
  unfolding open_all count_where
  open_all-Spends now id p [] ready = Spends-refl id p
  open_all-Spends now id p (r ∷ rows) ready =
      let next = open_one loads batches now p r in
      let here : Spends id p next = Round-Spends now id p r (ground (arith, ready)) in
      if_holds (Spends id p) next.raised (λ _. here)
        (λ _.
          Spends-trans id p next (open_all loads batches now next rows) here
            (open_all-Spends now id next rows (still_ready now id p r rows ready)))

  -- One run of `_window_opener` launches a batch at most as often as it had a pending record before or
  -- was put off anew by the batches that ran, and what is pending afterwards counts as well, if the
  -- table has one record at most for the batch.
  pub window_opener-Spends :
      (env : String) (now : ℕ) (id : String) (p : Progress Item)
      → count_where (of_batch id) p.deferred ≤ 1
      → Spends id p (window_opener loads batches env now p)
  unfolding window_opener
  window_opener-Spends env now id p unique =
      let rows = (expire_old now p.deferred).0 in
      let swept : Progress Item = record p { deferred = rows; raised = false } in
      Spends-trans id p swept (open_all loads batches now swept (get_pending env now rows))
        (record { balance = omega (arith, waiting-expire_old now id p.deferred) })
        (open_all-Spends now id swept (get_pending env now rows)
          (get_pending-waiting env now id rows (unique-expire_old now id p.deferred unique)))

  open_one-launched :
      (now : ℕ) (p : Progress Item) (r : DeferredExecution)
      → (open_one loads batches now p r).launched
        ≡ p.launched ++ launch_deferred loads p.approvals r ∷ []
  unfolding open_one launch_batch
  open_one-launched now p r = refl

  open_all-launched :
      (now : ℕ) (p : Progress Item) (rows : List DeferredExecution)
      → p.raised ≡ false
      → (open_all loads batches now p rows).raised ≡ false
      → launched_ids (open_all loads batches now p rows).launched
        ≡ launched_ids p.launched ++ map (λ r. r.batch_id) rows
  unfolding open_all
  open_all-launched now p [] before after = sym (append_nil (launched_ids p.launched))
  open_all-launched now p (r ∷ rows) before after =
      let next = open_one loads batches now p r in
      let rest = open_all loads batches now next rows in
      let more : launched_ids next.launched ++ map (λ d. d.batch_id) rows
          ≡ launched_ids p.launched ++ r.batch_id ∷ map (λ d. d.batch_id) rows =
        ap (λ ls. launched_ids ls ++ map (λ d. d.batch_id) rows) (open_one-launched now p r)
        ∙ map-append_cons (λ l. l.batch_id) p.launched (launch_deferred loads p.approvals r)
            (map (λ d. d.batch_id) rows) in
      elim (Bool-cases next.raised) [
        | inl stopped ↦ absurd (ground (arith, stopped, after))
        | inr on ↦
            ap (λ b. launched_ids (if b then next else rest).launched) on
            ∙ (open_all-launched now next rows on
                  (sym (ap (λ b. (if b then next else rest).raised) on) ∙ after)
                ∙ more)
      ]

  open_pending-launched :
      (env : String) (now : ℕ) (p : Progress Item)
      → (window_opener loads batches env now p).raised ≡ false
      → launched_ids (window_opener loads batches env now p).launched
        ≡ launched_ids p.launched
          ++ map (λ r. r.batch_id) (get_pending env now (expire_old now p.deferred).0)
  unfolding window_opener
  open_pending-launched env now p after =
      let rows = (expire_old now p.deferred).0 in
      open_all-launched now (record p { deferred = rows; raised = false })
        (get_pending env now rows) refl after

  -- If no batch raises, then one run of `_window_opener` launches the batches of a list of records, in
  -- this order: each record is of the environment, pending and not past its expiry; the records are in
  -- the order of their windows; and of each batch there are as many as the table has such records.
  pub window_opener-launched :
      (env : String) (now : ℕ) (p : Progress Item)
      → (window_opener loads batches env now p).raised ≡ false
      → (rows : List DeferredExecution) × (launched_ids
            (window_opener loads batches env now p).launched
          ≡ launched_ids p.launched ++ map (λ r. r.batch_id) rows)
        × TakesUp env now p.deferred rows
  window_opener-launched env now p after = (
    get_pending env now (expire_old now p.deferred).0,
    open_pending-launched env now p after,
    get_pending-TakesUp env now p.deferred,
  )
