-- ===== src/Dashboard/Push/ServiceWorker.antt =====
-- frontend/public/sw.js: the service worker, which shows what is pushed and reacts to a click on it.
use bataudit.Prelude.{
  String, Bool, true, false, ◌&&◌, ◌≡◌, refl, Option, none, some, List, [], ◌∷◌, any, arith,
  if◌then◌else◌,
}
use bataudit.Prelude.Json.{Json, null, str, obj, field, end}
use bataudit.Web.Http.{optional_property}

-- `event.data`: what `json()` gives, `none` where it throws, and `text()`.
pub record PushData : Type 0 where
  pub json : Option Json
  pub text : String

pub record Notification : Type 0 where
  pub title : Json
  pub body : Json
  -- `data.url`
  pub url : Json
  pub require_interaction : Bool

-- `value ?? other`
abbrev pub or_text : Option Json → String → Json
or_text none other = str other
or_text (some null) other = str other
or_text (some j) other = j

abbrev pub notification_of : Json → Notification
notification_of pushed = record {
  title = or_text (optional_property "title" pushed) "BatAudit Alert";
  body = or_text (optional_property "body" pushed) "";
  url = or_text (optional_property "url" pushed) "/app/anomalies";
  require_interaction = true;
}

-- What is pushed, where it is no JSON.
abbrev pub plain : String → Json
plain body = obj (
    field "title" (str "BatAudit Alert")
      (field "body" (str body) (field "url" (str "/app/anomalies") end)))

pub data Shown : Type 0 where
  nothing : Shown
  -- Reading a property of `null` throws.
  threw : Shown
  shows : Notification → Shown

abbrev pub show_pushed : Json → Shown
show_pushed null = threw
show_pushed pushed = shows (notification_of pushed)

-- The handler of `push`.
unfoldable pub on_push : Option PushData → Shown
on_push none = nothing
on_push (some d) = elim d.json [
  | none ↦ show_pushed (plain d.text)
  | some pushed ↦ show_pushed pushed
]

-- A window of the browser: its URL, and whether it can be focused.
pub record WindowClient : Type 0 where
  pub url : String
  pub can_focus : Bool

pub data Reaction : Type 0 where
  focus : WindowClient → Reaction
  open_window : Json → Reaction
  no_reaction : Reaction

-- `event.notification.data?.url ?? '/app/anomalies'`
abbrev pub page : Notification → Json
page n = or_text (some n.url) "/app/anomalies"

-- `String.prototype.includes`, whose argument is made a text.
module _ (includes : String → Json → Bool) where
  abbrev pub fits : Json → WindowClient → Bool
  fits url c = includes c.url url && c.can_focus

  -- The handler of `notificationclick`, once the notification is closed, for the windows there are and
  -- whether windows can be opened.
  unfoldable pub on_click : Notification → List WindowClient → (can_open : Bool) → Reaction
  on_click n [] can_open = if can_open then open_window (page n) else no_reaction
  on_click n (c ∷ cs) can_open =
      let rest = on_click n cs can_open in if fits (page n) c then focus c else rest

  -- A click on what is shown focuses the first window that has its page, and opens one where
  -- there is none.
  on_click_opens :
      (n : Notification) (clients : List WindowClient)
      → any (fits (page n)) clients ≡ false
      → on_click n clients true ≡ open_window (page n)
  unfolding on_click
  on_click_opens n [] h = refl
  on_click_opens n (c ∷ cs) h = ground (arith, on_click_opens n cs)

-- A push that is no JSON is shown with its text, and leads to the alerts.
on_push_plain :
    (text : String)
    → on_push (some (record { json = none; text = text }))
      ≡ shows (record {
        title = str "BatAudit Alert";
        body = str text;
        url = str "/app/anomalies";
        require_interaction = true;
      })
unfolding on_push
on_push_plain text = refl
