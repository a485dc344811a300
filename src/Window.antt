-- ===== src/Window.antt =====
-- errander/scheduling/windows.py: maintenance windows, on the wall clock of the window's timezone, with
-- the conversions between instants and the wall clock as a parameter.
pub mod Opening
use errander_ai.Common.{
  ℕ, zero, suc, ◌+◌, ◌*◌, ◌/◌, ◌%◌, String, Bool, true, false, not, ◌&&◌, ◌||◌, Option, none, some,
  List, [], ◌∷◌, map, str_eq, ltb, leb, ◌==◌, any, get_elem?, if◌then◌else◌,
}

-- `timezone` is left out: the conversions that it stands for are a `Zone`.
pub record MaintenanceWindow : Type 0 where
  pub days : List String
  pub start_hour : ℕ
  pub end_hour : ℕ

-- A day, counted from a Monday, and the microseconds since its midnight.
pub record LocalTime : Type 0 where
  pub day : ℕ
  pub micros : ℕ

-- `astimezone(tz)` of an instant, in microseconds, and `astimezone(UTC)` of a time on the wall clock of
-- the timezone: parts of Python's library. A change of the clock makes them no inverses.
pub record Zone : Type 0 where
  pub to_local : ℕ → LocalTime
  pub to_instant : LocalTime → ℕ

abbrev pub hour_length : ℕ
hour_length = 3600000000

-- `_DAYS`.
abbrev pub all_days : List String
all_days = "monday" ∷ "tuesday" ∷ "wednesday" ∷ "thursday" ∷ "friday" ∷ "saturday" ∷ "sunday" ∷ []

abbrev pub or_sunday : Option String → String
or_sunday none = "sunday"
or_sunday (some name) = name

-- `strftime("%A").lower()`.
abbrev pub day_name : ℕ → String
day_name day = or_sunday (get_elem? all_days (day % 7))

abbrev pub in_days : String → List String → Bool
in_days name days = any (λ d. str_eq d name) days

abbrev pub hour : LocalTime → ℕ
hour t = t.micros / hour_length

abbrev pub in_hours : ℕ → ℕ → ℕ → Bool
in_hours h start end =
    if ltb start end
    then leb start h && ltb h end
    else if ltb end start
    then leb start h || ltb h end
    else false

-- `is_within_window`, with `str.lower` as a parameter; `none` is the ValueError of an unknown day.
unfoldable pub is_within_window : (String → String) → LocalTime → List String → ℕ → ℕ → Option Bool
is_within_window lower now days start end =
    let normalized = map lower days in
    if any (λ d. not (in_days d all_days)) normalized
    then none
    else some (in_days (day_name now.day) normalized && in_hours (hour now) start end)

-- `check_window_from_config`.
unfoldable pub check_window_from_config :
    (String → String) → LocalTime → MaintenanceWindow → Option Bool
unfolding is_within_window
check_window_from_config lower now w = is_within_window lower now w.days w.start_hour w.end_hour

-- Two instants of one timezone compare by the wall clock.
abbrev pub earlier : LocalTime → LocalTime → Bool
earlier a b = ltb a.day b.day || (a.day == b.day && ltb a.micros b.micros)

abbrev pub candidate_start : MaintenanceWindow → LocalTime → ℕ → LocalTime
candidate_start w now days_ahead = record {
  day = now.day + days_ahead;
  micros = w.start_hour * hour_length;
}

abbrev pub opens_at : MaintenanceWindow → LocalTime → LocalTime → Bool
opens_at w now t = in_days (day_name t.day) w.days && earlier now t

-- The loop: `rounds` of it from `days_ahead` on.
unfoldable pub find_open : MaintenanceWindow → LocalTime → ℕ → ℕ → Option LocalTime
find_open w now zero days_ahead = none
find_open w now (suc rounds) days_ahead =
    let later = find_open w now rounds (suc days_ahead) in
    let start = candidate_start w now days_ahead in
    if opens_at w now start then some start else later

-- The loop of `next_window_open` over `range(0, 8)`.
unfoldable pub next_start : MaintenanceWindow → LocalTime → Option LocalTime
unfolding find_open
next_start w now = find_open w now 8 0

-- `next_window_open`; `none` is the RuntimeError.
unfoldable pub next_window_open : Zone → MaintenanceWindow → ℕ → Option ℕ
unfolding next_start
next_window_open zone w now = elim (next_start w (zone.to_local now)) [
  | none ↦ none
  | some start ↦ some (zone.to_instant start)
]
