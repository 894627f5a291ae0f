-- ===== src/Dashboard/Times.antt =====
-- How durations and ages are shown. The texts are modelled by their parts.
pub mod Durations
use bataudit.Prelude.{ℕ, ◌+◌, ◌*◌, ◌/◌, ◌%◌, ltb, if◌then◌else◌, ◌==◌}

-- The texts `12s`, `3m 12s` and `1h 3m`.
pub data Duration : Type 0 where
  seconds : ℕ → Duration
  minutes : (m s : ℕ) → Duration
  hours : (h m : ℕ) → Duration

-- `formatDuration` of frontend/src/routes/app/_layout/sessions.tsx. A number of seconds may have a
-- fraction: it is given in thousandths. `Math.round` rounds a half up.
unfoldable pub format_duration : ℕ → Duration
format_duration ms =
    if ltb ms 60000
    then seconds ((ms + 500) / 1000)
    else if ltb ms 3600000
    then minutes (ms / 60000) ((ms % 60000 + 500) / 1000)
    else hours (ms / 3600000) (ms % 3600000 / 60000)

-- The texts of `timeAgo`: `—`, `just now`, and a number with a unit.
pub data Age : Type 0 where
  just_now : Age
  seconds_ago minutes_ago hours_ago days_ago : ℕ → Age
  -- The date itself.
  on_date : Age

-- `timeAgo` of frontend/src/routes/app/_layout/index.tsx, for a time that is not in the future, by
-- its distance in milliseconds.
unfoldable pub time_ago : ℕ → Age
time_ago diff =
    let s = diff / 1000 in
    let m = s / 60 in
    let h = m / 60 in
    let d = h / 24 in
    if ltb s 60
    then seconds_ago s
    else if ltb m 60
    then minutes_ago m
    else if ltb h 24
    then hours_ago h
    else if ltb d 7
    then days_ago d
    else on_date

-- `timeAgo` of frontend/src/routes/app/_layout/anomalies.tsx, likewise.
unfoldable pub alert_age : ℕ → Age
alert_age diff =
    let m = diff / 60000 in
    let h = m / 60 in
    if ltb m 1
    then just_now
    else if ltb m 60
    then minutes_ago m
    else if ltb h 24
    then hours_ago h
    else days_ago (h / 24)
