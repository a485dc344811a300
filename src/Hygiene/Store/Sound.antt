-- ===== src/Hygiene/Store/Sound.antt =====
-- errander/safety/hygiene_store.py: what the table promises while tasks write to it.
use mathlib.Core.Path.{subst}
use errander_ai.Common.{
  ℕ, String, ◌≡◌, refl, ap, Bool, true, false, ◌&&◌, ◌||◌, Option, none, some, List, [], ◌∷◌, ◌++◌,
  str_eq, if◌then◌else◌, if_holds, Bool-cases, inl, inr, All, All-append_one, find_where,
  update_where, leb,
}
use errander_ai.Approval.{Status, pending, approved, rejected, timeout, is_pending, is_approved}
use errander_ai.Hygiene.{Assessment}
use errander_ai.Hygiene.Store.{
  HygieneRow, HygieneStore, has_key, hygiene_row, refresh_hygiene, pending_key, create_hygiene,
  set_decision, decide_hygiene, set_timeout, time_out_hygiene, past_expiry, sweep_hygiene,
}

-- The classes that a form can approve.
abbrev pub is_selectable : String × String → Bool
is_selectable k =
    str_eq k.0 "image_dangling" || str_eq k.0 "image_unused" || str_eq k.0 "container_stopped"

-- A row has items only if it is approved, and they are images and containers.
abbrev pub HasItems : Status → Option (List (String × String)) → Type 0
HasItems status none = Unit
HasItems status (some items) = (is_approved status ≡ true) × All (λ k. is_selectable k ≡ true) items

abbrev pub SoundRow : HygieneRow → Type 0
SoundRow r = HasItems r.status r.approved_items

abbrev pub Sound : HygieneStore → Type 0
Sound s = All SoundRow s.rows

All-update_where {ℓ κ} :
    {Row : Type ℓ} (P : Row → Type κ) (test : Row → Bool) (change : Row → Row) (rows : List Row)
    → ((r : Row) → test r ≡ true → P r → P (change r))
    → All P rows
    → All P (update_where test change rows)
unfolding update_where
All-update_where P test change [] keeps a = tt
All-update_where P test change (r ∷ rows) keeps (h, t) =
    (if_holds P (test r) (λ e. keeps r e h) (λ _. h), All-update_where P test change rows keeps t)

or_else {ℓ} : {A : Type ℓ} → A → Option A → A
or_else a none = a
or_else a (some b) = b

pub find_where-All {ℓ κ} :
    {Row : Type ℓ} (P : Row → Type κ) (test : Row → Bool) (rows : List Row) (r : Row)
    → find_where test rows ≡ some r
    → All P rows
    → P r
unfolding find_where or_else
find_where-All P test [] r found a = cc
find_where-All P test (q ∷ rows) r found (h, t) = elim (Bool-cases (test q)) [
  | inl here ↦ subst P (ap (or_else q) (rw here at found)) h
  | inr on ↦ find_where-All P test rows r (rw on at found) t
]

pub create_hygiene-Sound :
    (s : HygieneStore) (now : ℕ) (k : String × String) (a : Assessment) (timeout_seconds : ℕ)
    → Sound s
    → Sound (create_hygiene s now k a timeout_seconds)
unfolding create_hygiene
create_hygiene-Sound s now k a timeout_seconds v =
    let new = hygiene_row now k a timeout_seconds in
    elim (find_where (has_key k) s.rows)
      as (λ o. All SoundRow (elim o [
        | none ↦ s.rows ++ new ∷ []
        | some _ ↦ update_where (pending_key k) (refresh_hygiene new) s.rows
      ])) [
        | none ↦ All-append_one SoundRow s.rows new v tt
        | some row ↦
            All-update_where SoundRow (pending_key k) (refresh_hygiene new) s.rows (λ r e h. tt) v
      ]

-- A pending row has no items, so that it can time out.
and_right : (b : Bool) {c : Bool} → (b && c) ≡ true → c ≡ true
and_right true h = h
and_right false h = cc

and_left : (b c : Bool) → (b && c) ≡ true → b ≡ true
and_left true c h = refl
and_left false c h = cc

no_items :
    (status : Status) (items : Option (List (String × String)))
    → is_pending status ≡ true
    → HasItems status items
    → HasItems timeout items
no_items status none p h = tt
no_items pending (some items) p h = cc
no_items approved (some items) p h = cc
no_items rejected (some items) p h = cc
no_items timeout (some items) p h = cc

set_timeout-SoundRow :
    (now : ℕ) (r : HygieneRow)
    → is_pending r.status ≡ true
    → SoundRow r
    → SoundRow (set_timeout now r)
set_timeout-SoundRow now r p h = no_items r.status r.approved_items p h

pub time_out_hygiene-Sound :
    (s : HygieneStore) (now : ℕ) (k : String × String)
    → Sound s
    → Sound (time_out_hygiene s now k).0
unfolding time_out_hygiene
time_out_hygiene-Sound s now k v =
    All-update_where SoundRow (pending_key k) (set_timeout now) s.rows
      (λ r e. set_timeout-SoundRow now r (and_right (has_key k r) e)) v

pub sweep_hygiene-Sound : (s : HygieneStore) (now : ℕ) → Sound s → Sound (sweep_hygiene s now).0
unfolding sweep_hygiene
sweep_hygiene-Sound s now v =
    All-update_where SoundRow (past_expiry now) (set_timeout now) s.rows
      (λ r e. set_timeout-SoundRow now r (and_left (is_pending r.status) (leb r.expires_at now) e))
      v

-- A decision that has items is an approval of images and containers.
pub decide_hygiene-Sound :
    (s : HygieneStore) (now : ℕ) (k : String × String) (approve : Bool) (by : String)
    (hash : Option String) (items : Option (List (String × String)))
    → HasItems (if approve then approved else rejected) items
    → Sound s
    → Sound (decide_hygiene s now k approve by hash items).0
unfolding decide_hygiene
decide_hygiene-Sound s now k approve by hash items h v =
    All-update_where SoundRow (pending_key k) (set_decision now approve by hash items) s.rows
      (λ r e _. h) v
