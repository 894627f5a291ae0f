-- ===== src/Dashboard/Sessions/Opened.antt =====
-- The events of a session that is opened.
use mathlib.Core.List.{Memᴰ}
use bataudit.Prelude.{String, true, false, ◌≡◌, refl, Option, List, [], ◌∷◌, eq_iff}
use bataudit.Dashboard.Screen.{when}
use bataudit.Dashboard.Screen.Offers.{
  Offers, here, there, press, Offers-append_left, Offers-append_right, Offers-each, Offers-drop,
}
use bataudit.Dashboard.TimedQueries.{Session}
use bataudit.Dashboard.Sessions.{is_expanded, toggle_session, session_key}
use bataudit.Dashboard.Sessions.View.{
  SessionEvent, SessionRow, SessionDetail, Query, found, Texts, SessionsPage, Action, select_event,
  toggle, event_line, session_timeline, heading, filter_panel, look_up_card, session_card, content,
  view, act,
}

is_expanded-toggle :
    (prev : Option String) (session : Session)
    → is_expanded prev session ≡ false
    → is_expanded (toggle_session session prev) session ≡ true
unfolding toggle_session
is_expanded-toggle prev session h =
    rw h ((eq_iff (session_key session) (session_key session)).1 refl)

module _ (t : Texts) (timeline : Session → Query (List SessionEvent))
    (detail : Query SessionDetail) where
  timeline-Offers :
      (events : List SessionEvent) (e : SessionEvent)
      → Memᴰ e events
      → Offers (select_event e.id) (session_timeline t (found events))
  unfolding session_timeline
  timeline-Offers [] e m = elim m [ ]
  timeline-Offers (x ∷ xs) e m = there (Offers-each (event_line t) (x ∷ xs) e m (here (press refl)))

  card-Offers :
      (s : SessionsPage) (r : SessionRow) (events : List SessionEvent) (e : SessionEvent)
      → is_expanded s.expanded_key r.session ≡ true
      → timeline r.session ≡ found events
      → Memᴰ e events
      → Offers (select_event e.id) (session_card t s timeline r)
  card-Offers s r events e opened same m =
      rw (opened, same) (Offers-drop 9 _ (timeline-Offers events e m))

  content-Offers :
      {a : Action} (s : SessionsPage) (rows : List SessionRow) (r : SessionRow)
      → Memᴰ r rows
      → Offers a (session_card t s timeline r)
      → Offers a (content t s timeline (found rows))
  content-Offers s [] r m o = elim m [ ]
  content-Offers s (x ∷ xs) r m o = Offers-each (session_card t s timeline) (x ∷ xs) r m o

  row-Offers :
      {a : Action} (s : SessionsPage) (rows : List SessionRow) (r : SessionRow)
      → Memᴰ r rows
      → Offers a (session_card t s timeline r)
      → Offers a (view t timeline detail (found rows) s)
  unfolding view
  row-Offers s rows r m o = Offers-append_right (heading s) _ (
      Offers-append_right (when s.filter_open (filter_panel t s.search)) _ (
        Offers-append_right (look_up_card t s detail) _
          (Offers-append_left (content t s timeline (found rows)) _ (content-Offers s rows r m o))))

  -- Each session of the list can be opened, where it is not, and after that click each of the events
  -- that its query has found can be selected, whatever else is typed, filtered or looked up.
  view-toggle :
      (s : SessionsPage) (rows : List SessionRow) (r : SessionRow) (events : List SessionEvent)
      (e : SessionEvent)
      → Memᴰ r rows
      → is_expanded s.expanded_key r.session ≡ false
      → timeline r.session ≡ found events
      → Memᴰ e events
      → Offers (toggle r.session) (view t timeline detail (found rows) s)
        × Offers
            (select_event e.id)
            (view t timeline detail (found rows) (act t (toggle r.session) s))
  unfolding act
  view-toggle s rows r events e m shut same found_e =
      let s' = record s { expanded_key = toggle_session r.session s.expanded_key } in
      (
        row-Offers s rows r m (here (press refl)),
        row-Offers s' rows r m (
            card-Offers s' r events e (is_expanded-toggle s.expanded_key r.session shut) same
              found_e),
      )
