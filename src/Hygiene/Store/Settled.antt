-- ===== src/Hygiene/Store/Settled.antt =====
-- errander/safety/hygiene_store.py: a request that is decided stays as it is.
use errander_ai.Common.{
  ℕ, String, ◌≡◌, refl, Bool, true, false, ◌&&◌, Option, none, some, List, [], ◌∷◌, ◌++◌,
  find_where, update_where, find_where-update_where, find_where-append, changed, find_where-meets,
  if_holds,
}
use errander_ai.Approval.{is_pending}
use errander_ai.Hygiene.{Assessment}
use errander_ai.Hygiene.Store.{
  HygieneRow, HygieneStore, has_key, hygiene_row, refresh_hygiene, pending_key, create_hygiene,
  set_decision, decide_hygiene, set_timeout, time_out_hygiene, past_expiry, sweep_hygiene,
  get_hygiene,
}

-- An UPDATE of pending rows that leaves the keys alone keeps the row that was found, if it is decided.
module _ (k : String × String) (test : HygieneRow → Bool) (change : HygieneRow → HygieneRow)
    (rows : List HygieneRow) (row : HygieneRow)
    (keeps : (r : HygieneRow) → has_key k (change r) ≡ has_key k r)
    (found : find_where (has_key k) rows ≡ some row) where
  pub update-settled :
      test row ≡ false → find_where (has_key k) (update_where test change rows) ≡ some row
  update-settled skip =
      rw (find_where-update_where (has_key k) test change rows keeps) (rw found (rw skip refl))

  pub update-found :
      find_where (has_key k) (update_where test change rows) ≡ some (changed test change row)
  update-found = rw (find_where-update_where (has_key k) test change rows keeps) (rw found refl)

append-found :
    (k : String × String) (rows more : List HygieneRow) (row : HygieneRow)
    → find_where (has_key k) rows ≡ some row
    → find_where (has_key k) (rows ++ more) ≡ some row
append-found k rows more row found = rw (find_where-append (has_key k) rows more) (rw found refl)

not_pending : (b c : Bool) → c ≡ false → (b && c) ≡ false
not_pending true c h = h
not_pending false c h = refl

other_conjunct : (b : Bool) {c : Bool} → b ≡ true → (b && c) ≡ false → c ≡ false
other_conjunct true h e = e
other_conjunct false h e = cc

abbrev pub Kept : HygieneStore → String × String → HygieneRow → Type 0
Kept s k row = get_hygiene s k ≡ some row

module _ (s : HygieneStore) (k : String × String) (row : HygieneRow) (found : Kept s k row) where
  module _ (decided : is_pending row.status ≡ false) where
    pub create-settled :
        (now : ℕ) (j : String × String) (a : Assessment) (timeout_seconds : ℕ)
        → Kept (create_hygiene s now j a timeout_seconds) k row
    unfolding create_hygiene get_hygiene
    create-settled now j a timeout_seconds =
        let new = hygiene_row now j a timeout_seconds in
        elim (find_where (has_key j) s.rows)
          as (λ o.
            find_where (has_key k) (elim o [
              | none ↦ s.rows ++ new ∷ []
              | some _ ↦ update_where (pending_key j) (refresh_hygiene new) s.rows
            ])
            ≡ some row) [
              | none ↦ append-found k s.rows (new ∷ []) row found
              | some _ ↦
                  update-settled k (pending_key j) (refresh_hygiene new) s.rows row (λ r. refl)
                    found (not_pending (has_key j row) (is_pending row.status) decided)
            ]

    pub decide-settled :
        (now : ℕ) (j : String × String) (approve : Bool) (by : String) (hash : Option String)
        (items : Option (List (String × String)))
        → Kept (decide_hygiene s now j approve by hash items).0 k row
    unfolding decide_hygiene get_hygiene
    decide-settled now j approve by hash items =
        update-settled k (pending_key j) (set_decision now approve by hash items) s.rows row
          (λ r. refl) found (not_pending (has_key j row) (is_pending row.status) decided)

    pub time_out-settled : (now : ℕ) (j : String × String) → Kept (time_out_hygiene s now j).0 k row
    unfolding time_out_hygiene get_hygiene
    time_out-settled now j =
        update-settled k (pending_key j) (set_timeout now) s.rows row (λ r. refl) found
          (not_pending (has_key j row) (is_pending row.status) decided)

    pub sweep-settled : (now : ℕ) → Kept (sweep_hygiene s now).0 k row
    unfolding sweep_hygiene get_hygiene
    sweep-settled now =
        update-settled k (past_expiry now) (set_timeout now) s.rows row (λ r. refl) found
          (rw decided refl)

  -- After `mark_timeout` the request is decided, one way or the other.
  pub time_out-settles :
      (now : ℕ)
      → (row' : HygieneRow) × Kept (time_out_hygiene s now k).0 k row'
        × (is_pending row'.status ≡ false)
  unfolding time_out_hygiene get_hygiene
  time_out-settles now = (
    changed (pending_key k) (set_timeout now) row,
    update-found k (pending_key k) (set_timeout now) s.rows row (λ r. refl) found,
    if_holds (λ (r : HygieneRow). is_pending r.status ≡ false) (pending_key k row) (λ _. refl)
        (λ e. other_conjunct (has_key k row) (find_where-meets (has_key k) s.rows row found) e),
  )

-- A request that is in the table stays in it.
abbrev pub Exists : HygieneStore → String × String → Type 0
Exists s k = (row : HygieneRow) × Kept s k row

module _ (s : HygieneStore) (k : String × String) (e : Exists s k) where
  pub create-Exists :
      (now : ℕ) (j : String × String) (a : Assessment) (timeout_seconds : ℕ)
      → Exists (create_hygiene s now j a timeout_seconds) k
  unfolding create_hygiene get_hygiene
  create-Exists now j a timeout_seconds =
      let new = hygiene_row now j a timeout_seconds in
      elim (find_where (has_key j) s.rows)
        as (λ o.
          (row : HygieneRow) × (find_where (has_key k) (elim o [
            | none ↦ s.rows ++ new ∷ []
            | some _ ↦ update_where (pending_key j) (refresh_hygiene new) s.rows
          ])
            ≡ some row)) [
              | none ↦ (e.0, append-found k s.rows (new ∷ []) e.0 e.1)
              | some _ ↦ (
                changed (pending_key j) (refresh_hygiene new) e.0,
                update-found k (pending_key j) (refresh_hygiene new) s.rows e.0 (λ r. refl) e.1,
              )
            ]

  pub decide-Exists :
      (now : ℕ) (j : String × String) (approve : Bool) (by : String) (hash : Option String)
      (items : Option (List (String × String)))
      → Exists (decide_hygiene s now j approve by hash items).0 k
  unfolding decide_hygiene get_hygiene
  decide-Exists now j approve by hash items =
      let set = set_decision now approve by hash items in
      (
        changed (pending_key j) set e.0,
        update-found k (pending_key j) set s.rows e.0 (λ r. refl) e.1,
      )

  pub time_out-Exists : (now : ℕ) (j : String × String) → Exists (time_out_hygiene s now j).0 k
  unfolding time_out_hygiene get_hygiene
  time_out-Exists now j = (
    changed (pending_key j) (set_timeout now) e.0,
    update-found k (pending_key j) (set_timeout now) s.rows e.0 (λ r. refl) e.1,
  )

  pub sweep-Exists : (now : ℕ) → Exists (sweep_hygiene s now).0 k
  unfolding sweep_hygiene get_hygiene
  sweep-Exists now = (
    changed (past_expiry now) (set_timeout now) e.0,
    update-found k (past_expiry now) (set_timeout now) s.rows e.0 (λ r. refl) e.1,
  )
