-- ===== src/Dashboard/Times/Durations.antt =====
-- What the shown durations and ages mean.
use bataudit.Prelude.{ℕ, ◌+◌, ◌*◌, ◌≤◌, ◌<◌, ◌≡◌, ◌⊎◌, arith}
use bataudit.Dashboard.Times.{Duration, seconds, minutes, hours, format_duration}

-- The milliseconds that a duration may stand for, and the ranges of its parts.
abbrev IsWithin : ℕ → Duration → Type 0
IsWithin ms (seconds s) = (s * 1000 ≤ ms + 500) × (ms < s * 1000 + 500) × (s ≤ 60)
IsWithin ms (minutes m s) =
    (m * 60000 + s * 1000 ≤ ms + 500)
    × (ms < m * 60000 + s * 1000 + 500)
    × (1 ≤ m)
    × (m < 60)
    × (s ≤ 60)
IsWithin ms (hours h m) =
    (h * 3600000 + m * 60000 ≤ ms) × (ms < h * 3600000 + m * 60000 + 60000) × (1 ≤ h) × (m < 60)

-- A shown duration is the true one to the nearest second below an hour, and to the minute begun
-- from there on. The minutes of a duration are below 60, and so are the hours' minutes; its seconds
-- may be shown as 60.
format_duration-IsWithin : (ms : ℕ) → IsWithin ms (format_duration ms)
unfolding format_duration
format_duration-IsWithin ms = ground arith

-- The last half second of every minute below an hour is shown with 60 seconds.
format_duration_sixty :
    (m ms : ℕ)
    → m < 60
    → m * 60000 + 59500 ≤ ms
    → ms < (m + 1) * 60000
    → (format_duration ms ≡ seconds 60) ⊎ (format_duration ms ≡ minutes m 60)
unfolding format_duration
format_duration_sixty m ms h l u = ground arith
