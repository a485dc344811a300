-- ===== src/Examples/Windows.antt =====
-- A window on Tuesday nights of errander/scheduling/windows.py.
use mathlib.Core.Path.{ap₂}
use errander_ai.Common.{
  String, ◌+◌, ◌*◌, ◌/◌, ◌%◌, ◌≡◌, refl, true, false, none, some, [], ◌∷◌, arith,
}
use errander_ai.Window.{
  MaintenanceWindow, LocalTime, Zone, hour_length, next_window_open, next_start,
  check_window_from_config, next_start,
}
use errander_ai.Window.Opening.{IsOpening, opening-is_within_window}

abbrev tuesday_night : MaintenanceWindow
tuesday_night = record { days = "tuesday" ∷ []; start_hour = 23; end_hour = 3 }

-- A Wednesday at noon, and the Tuesday after it at 23:00.
abbrev wednesday : LocalTime
wednesday = record { day = 2; micros = 43200000000 }

abbrev tuesday : LocalTime
tuesday = record { day = 8; micros = 82800000000 }

abbrev tuesday_later : LocalTime
tuesday_later = record { day = 15; micros = 82800000000 }

abbrev as_is : String → String
as_is text = text

found : next_start tuesday_night wednesday ≡ some tuesday
unfolding next_start
found = refl

later-IsOpening : IsOpening tuesday_night wednesday tuesday_later
later-IsOpening = record { at_start = refl; on_day = refl; is_later = refl }

-- A timezone without changes of the clock, in which the instants count from a Monday.
abbrev steady : Zone
steady = record {
  to_local = λ n. record { day = n / 86400000000; micros = n % 86400000000 };
  to_instant = λ t. t.day * 86400000000 + t.micros;
}

steady-exists :
    (t : LocalTime) → t.micros ≡ 23 * hour_length → steady.to_local (steady.to_instant t) ≡ t
steady-exists t start =
    ap₂ (λ d m. record { day = d; micros = m }) (omega (arith, start)) (omega (arith, start))

found_opening : next_window_open steady tuesday_night 216000000000 ≡ some 774000000000
unfolding next_window_open next_start
found_opening = refl

opening-is_within_window_example :
    check_window_from_config as_is (steady.to_local 774000000000) tuesday_night ≡ some true
opening-is_within_window_example =
    opening-is_within_window steady as_is tuesday_night 216000000000 774000000000 steady-exists refl
      refl (λ e. absurd (omega (arith, e))) found_opening

-- A name in upper case passes the validation of the window, which then never opens.
never_opens : next_start (record tuesday_night { days = "Tuesday" ∷ [] }) wednesday ≡ none
unfolding next_start
never_opens = refl

-- After midnight a window of Tuesday nights is shut, since the day is then a Wednesday.
shut_after_midnight :
    check_window_from_config as_is (record { day = 9; micros = 3600000000 }) tuesday_night
    ≡ some false
unfolding check_window_from_config
shut_after_midnight = refl
