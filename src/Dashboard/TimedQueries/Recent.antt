-- ===== src/Dashboard/TimedQueries/Recent.antt =====
-- What the keys of these queries leave out.
use bataudit.Prelude.{ℕ, ◌+◌, ◌*◌, ◌/◌, ◌≤◌, ◌<◌, String, ◌≡◌, refl, Option, some, arith}
use bataudit.Dashboard.TimedQueries.{since, use_anomaly_alerts, Session, use_session_timeline}

-- The alerts that are asked for go back a day, and less than an hour more.
since_bounds :
    (offset now : ℕ)
    → 25 * 60 * 60 * 1000 ≤ now
    → (since offset now + 24 * 60 * 60 * 1000 ≤ now)
      × (now < since offset now + 25 * 60 * 60 * 1000)
since_bounds offset now h = (omega arith, omega arith)

since_same :
    (offset t u : ℕ)
    → 25 * 60 * 60 * 1000 ≤ t
    → 25 * 60 * 60 * 1000 ≤ u
    → (t + offset) / (60 * 60 * 1000) ≡ (u + offset) / (60 * 60 * 1000)
    → since offset t ≡ since offset u
since_same offset t u h k same = omega arith

-- Within an hour of the clock the key stays the same, and it determines the request.
use_anomaly_alerts_stable :
    (iso : ℕ → String) (offset t u : ℕ) (project_id environment : Option String)
    → 25 * 60 * 60 * 1000 ≤ t
    → 25 * 60 * 60 * 1000 ≤ u
    → (t + offset) / (60 * 60 * 1000) ≡ (u + offset) / (60 * 60 * 1000)
    → use_anomaly_alerts iso offset t project_id environment
      ≡ use_anomaly_alerts iso offset u project_id environment
unfolding use_anomaly_alerts
use_anomaly_alerts_stable iso offset t u project_id environment h k same =
    rw (since_same offset t u h k same)

-- The key of a session's events leaves out its end: a session that has gone on has the key that it
-- had before, and another request.
use_session_timeline_end :
    (session : Session) (later : String) (project_id : Option String) (now : ℕ)
    → ((use_session_timeline (record session { session_end = later }) project_id).query_key
        ≡ (use_session_timeline session project_id).query_key)
      × (((use_session_timeline (record session { session_end = later }) project_id).params
            now).end_date
          ≡ some later)
unfolding use_session_timeline
use_session_timeline_end session later project_id now = (refl, refl)
