-- ===== src/Window/Opening.antt =====
-- errander/scheduling/windows.py: `next_window_open` finds the next opening, and the window is then open.
use mathlib.Core.Path.{subst, ap₂}
use errander_ai.Common.{
  ℕ, zero, suc, ◌+◌, ◌-◌, ◌*◌, ◌%◌, ◌≤◌, ◌<◌, String, ◌≡◌, ◌≢◌, refl, ap, ◌∙◌, true, false, not,
  inl, inr, Option, none, some, map, get_elem?, arith, leb, ◌==◌, any, sym, Option-cases,
  Bool-cases, if◌then◌else◌, if_holds,
}
use errander_ai.Window.{
  MaintenanceWindow, LocalTime, Zone, next_window_open, hour_length, all_days, day_name, or_sunday,
  in_days, hour, in_hours, is_within_window, check_window_from_config, earlier, candidate_start,
  opens_at, find_open, next_start,
}

-- An opening of the window after an instant.
pub record IsOpening (w : MaintenanceWindow) (now t : LocalTime) : Type 0 where
  pub at_start : t.micros ≡ w.start_hour * hour_length
  pub on_day : in_days (day_name t.day) w.days ≡ true
  pub is_later : earlier now t ≡ true

-- What the loop finds from a number of days ahead on.
record Finds (w : MaintenanceWindow) (now : LocalTime) (from : ℕ) (t : LocalTime) : Type 0 where
  ahead : ℕ
  is_start : t ≡ candidate_start w now ahead
  opens : opens_at w now t ≡ true
  none_before : (i : ℕ) → from ≤ i → i < ahead → opens_at w now (candidate_start w now i) ≡ false

OptionHolds : (LocalTime → Type 0) → Option LocalTime → Type 0
OptionHolds P none = Unit
OptionHolds P (some t) = P t

OptionHolds-some :
    (P : LocalTime → Type 0) {o : Option LocalTime} {t : LocalTime}
    → o ≡ some t
    → OptionHolds P o
    → P t
unfolding OptionHolds
OptionHolds-some P e holds = subst (λ o. OptionHolds P o) e holds

Finds-suc :
    (w : MaintenanceWindow) (now : LocalTime) (from : ℕ) (o : Option LocalTime)
    → opens_at w now (candidate_start w now from) ≡ false
    → OptionHolds (Finds w now (suc from)) o
    → OptionHolds (Finds w now from) o
unfolding OptionHolds
Finds-suc w now from none shut holds = tt
Finds-suc w now from (some t) shut f = record {
  ahead = f.ahead;
  is_start = f.is_start;
  opens = f.opens;
  none_before = λ i low high. elim (Bool-cases (from == i)) [
    | inl same ↦
        subst (λ n. opens_at w now (candidate_start w now n) ≡ false) (ground (arith, same)) shut
    | inr other ↦ f.none_before i (ground (arith, other, low)) high
  ];
}

find_open-Finds :
    (w : MaintenanceWindow) (now : LocalTime) (rounds from : ℕ)
    → OptionHolds (Finds w now from) (find_open w now rounds from)
unfolding find_open OptionHolds
find_open-Finds w now zero from = tt
find_open-Finds w now (suc rounds) from =
    let start = candidate_start w now from in
    if_holds (OptionHolds (Finds w now from)) (opens_at w now start)
      (λ opened. record {
        ahead = from;
        is_start = refl;
        opens = opened;
        none_before = λ i low high. absurd (omega (arith, low, high));
      })
      (λ shut.
        Finds-suc w now from (find_open w now rounds (suc from)) shut
          (find_open-Finds w now rounds (suc from)))

-- What the loop finds is an opening of the window: it is after the present, and at
-- the start hour of a day of the window.
pub next_start-IsOpening :
    (w : MaintenanceWindow) (now t : LocalTime) → next_start w now ≡ some t → IsOpening w now t
unfolding next_start
next_start-IsOpening w now t returns =
    let f = OptionHolds-some (Finds w now 0) returns (find_open-Finds w now 8 0) in
    record {
      at_start = ap (λ x. x.micros) f.is_start;
      on_day = ground (arith, f.opens);
      is_later = ground (arith, f.opens);
    }

-- No opening of the window after the present is on an earlier day than the one that the function
-- returns.
pub next_start_first :
    (w : MaintenanceWindow) (now t u : LocalTime)
    → next_start w now ≡ some t
    → IsOpening w now u
    → t.day ≤ u.day
unfolding next_start
next_start_first w now t u returns o =
    let f = OptionHolds-some (Finds w now 0) returns (find_open-Finds w now 8 0) in
    elim (Bool-cases (leb t.day u.day)) [
      | inl fine ↦ ground (arith, fine)
      | inr before ↦
          let i = u.day - now.day in
          let place : u ≡ candidate_start w now i =
            ap₂ (λ d m. record { day = d; micros = m }) (ground (arith, o.is_later)) o.at_start in
          let shut =
            f.none_before i (omega arith)
              (ground (arith, before, o.is_later, ap (λ x. x.day) f.is_start)) in
          absurd (ground (arith, o.on_day, o.is_later, ap (opens_at w now) place, shut))
    ]

find_open-some :
    (w : MaintenanceWindow) (now : LocalTime) (rounds from gap : ℕ)
    → gap < rounds
    → opens_at w now (candidate_start w now (from + gap)) ≡ true
    → (t : LocalTime) × (find_open w now rounds from ≡ some t)
unfolding find_open
find_open-some w now zero from gap h opened = absurd (omega (arith, h))
find_open-some w now (suc rounds) from zero h opened =
    let start = candidate_start w now from in
    let same : from + 0 ≡ from = omega arith in
    let here = subst (λ n. opens_at w now (candidate_start w now n) ≡ true) same opened in
    (start, ap (λ b. if b then some start else find_open w now rounds (suc from)) here)
find_open-some w now (suc rounds) from (suc gap) h opened =
    let start = candidate_start w now from in
    let rest = find_open w now rounds (suc from) in
    let same : from + suc gap ≡ suc from + gap = omega arith in
    elim (Bool-cases (opens_at w now start)) [
      | inl here ↦ (start, ap (λ b. if b then some start else rest) here)
      | inr shut ↦
          let (t, e) =
            find_open-some w now rounds (suc from) gap (omega (arith, h))
              (subst (λ n. opens_at w now (candidate_start w now n) ≡ true) same opened) in
          (t, ap (λ b. if b then some start else rest) shut ∙ e)
    ]

-- The days until a weekday comes, from tomorrow on.
abbrev days_until : ℕ → ℕ → ℕ
days_until day i = 1 + (i + 6 - day % 7) % 7

days_until_lem : (day i : ℕ) → i < 7 → (day + (0 + days_until day i)) % 7 ≡ i % 7
days_until_lem day i h = omega (arith, h)

-- The function returns an instant for every window with at least one day whose name is written in
-- lower case, so eight rounds of the loop are enough.
pub next_start-some :
    (w : MaintenanceWindow) (now : LocalTime) (i : ℕ)
    → i < 7
    → in_days (day_name i) w.days ≡ true
    → (t : LocalTime) × (next_start w now ≡ some t)
unfolding next_start
next_start-some w now i h allowed =
    let gap = days_until now.day i in
    let on_day : in_days (day_name (now.day + (0 + gap))) w.days ≡ true =
      ap (λ n. in_days (or_sunday (get_elem? all_days n)) w.days) (days_until_lem now.day i h)
      ∙ allowed in
    let after : earlier now (candidate_start w now (0 + gap)) ≡ true = ground arith in
    find_open-some w now 8 0 gap (omega arith) (ground (arith, on_day, after))

-- At the time that the loop finds the window is open, if the window passes its validation,
-- its days are written in lower case, and it does not end at the hour at which it starts.
start-is_within_window :
    (lower : String → String) (w : MaintenanceWindow) (now t : LocalTime)
    → map lower w.days ≡ w.days
    → any (λ d. not (in_days d all_days)) w.days ≡ false
    → w.start_hour ≢ w.end_hour
    → next_start w now ≡ some t
    → check_window_from_config lower t w ≡ some true
unfolding check_window_from_config is_within_window
start-is_within_window lower w now t lowered known differ returns =
    let o = next_start-IsOpening w now t returns in
    let at_hour : hour t ≡ w.start_hour = omega (arith, o.at_start) in
    let open_hours : in_hours (hour t) w.start_hour w.end_hour ≡ true =
      ground (arith, at_hour, differ) in
    rw (lowered, known, o.on_day, open_hours) refl

next_window_open-next_start :
    (zone : Zone) (w : MaintenanceWindow) (now u : ℕ)
    → next_window_open zone w now ≡ some u
    → (t : LocalTime) × (next_start w (zone.to_local now) ≡ some t) × (zone.to_instant t ≡ u)
unfolding next_window_open
next_window_open-next_start zone w now u returns =
    elim (Option-cases (next_start w (zone.to_local now))) [
      | inl nothing ↦ absurd (ground (arith, returns, nothing))
      | inr (t, found) ↦ (t, found, ground (arith, returns, found))
    ]

-- At the instant that `next_window_open` returns the window is open, if the window passes its
-- validation, its days are written in lower case, it does not end at the hour at which it starts, and
-- the timezone has the start hour on every day: what `astimezone` makes of it is read as the same time.
-- In an hour that a change of the clock skips this does not hold.
pub opening-is_within_window :
    (zone : Zone) (lower : String → String) (w : MaintenanceWindow) (now u : ℕ)
    → ((t : LocalTime)
        → t.micros ≡ w.start_hour * hour_length
        → zone.to_local (zone.to_instant t) ≡ t)
    → map lower w.days ≡ w.days
    → any (λ d. not (in_days d all_days)) w.days ≡ false
    → w.start_hour ≢ w.end_hour
    → next_window_open zone w now ≡ some u
    → check_window_from_config lower (zone.to_local u) w ≡ some true
opening-is_within_window zone lower w now u exists lowered known differ returns =
    let (t, found, same) = next_window_open-next_start zone w now u returns in
    let o = next_start-IsOpening w (zone.to_local now) t found in
    let shown : zone.to_local u ≡ t = ap zone.to_local (sym same) ∙ exists t o.at_start in
    rw shown (start-is_within_window lower w (zone.to_local now) t lowered known differ found)
