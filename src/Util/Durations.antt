-- ===== src/Util/Durations.antt =====
-- What `FormatSecondsAsString` says of a time.
use tless.Prelude.{ℕ, ◌+◌, ◌*◌, ◌≤◌, ◌<◌, arith, ◌⊎◌}
use tless.Util.{Duration, seconds, minutes, hours_minutes, days_hours, format_seconds}

-- The time that is printed, in seconds, and the size of its last unit.
abbrev pub printed : Duration → ℕ
printed (seconds s) = s
printed (minutes m) = m * 60
printed (hours_minutes h m) = h * 3600 + m * 60
printed (days_hours d h) = d * 86400 + h * 3600

abbrev pub unit : Duration → ℕ
unit (seconds s) = 1
unit (minutes m) = 60
unit (hours_minutes h m) = 60
unit (days_hours d h) = 3600

-- The larger number is at least 1 and below what makes one of the next unit, and the smaller one
-- is below what makes one of the larger. Seconds are below a minute, or at least 90 days.
abbrev pub IsProper : Duration → Type 0
IsProper (seconds s) = (s < 60) ⊎ (90 * 86400 ≤ s)
IsProper (minutes m) = (1 ≤ m) × (m < 60)
IsProper (hours_minutes h m) = (1 ≤ h) × (h < 24) × (m < 60)
IsProper (days_hours d h) = (1 ≤ d) × (d < 90) × (h < 24)

-- The printed time is the given one, rounded down to its last unit. It is in seconds below one
-- minute and from 90 days on; else in minutes below one hour, in hours and minutes below one day,
-- and in days and hours.
pub format_seconds_lem :
    (sec : ℕ)
    → (printed (format_seconds sec) ≤ sec)
      × (sec < printed (format_seconds sec) + unit (format_seconds sec))
      × IsProper (format_seconds sec)
unfolding format_seconds
format_seconds_lem sec = ground arith
