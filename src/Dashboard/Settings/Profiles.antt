-- ===== src/Dashboard/Settings/Profiles.antt =====
-- frontend/src/routes/app/_layout/settings/wallboard.tsx: the profiles of wallboards.
use bataudit.Prelude.{ℕ, ◌*◌, ◌/◌, String, Bool, false, not, ltb, Option, none, some, if◌then◌else◌}
use bataudit.Prelude.Text.{truthy_text}
use bataudit.Prelude.Json.{Json, arr, Items, nil, cons}
use bataudit.Web.Platform.{Platform}
use bataudit.Web.Http.{Server, Browser, Error, ok, err, Api, ◌>>=◌, property, or_empty}
use bataudit.Web.Clients.WallboardCodes.{list_wb_tokens, generate_wb_code, revoke_wb_code}
use bataudit.Dashboard.Times.{Age, just_now, minutes_ago, hours_ago, days_ago}

pub data Status : Type 0 where
  active idle never : Status

-- `getStatus`, for the milliseconds since the last use, if there was one.
unfoldable pub get_status : Option ℕ → Status
get_status none = never
get_status (some diff) = if ltb diff (60 * 60 * 1000) then active else idle

-- `timeAgo`, likewise.
unfoldable pub time_ago : ℕ → Age
time_ago diff =
    let m = diff / 60000 in
    let h = m / 60 in
    if ltb m 1
    then just_now
    else if ltb m 60
    then minutes_ago m
    else if ltb h 24
    then hours_ago h
    else days_ago (h / 24)

pub record ProfilesPage : Type 0 where
  pub tokens : Items
  pub loading : Bool
  pub creating : Bool
  pub name : String
  pub error_text : String
  pub browser : Browser

-- The profiles of a reply, an array by its type.
abbrev pub items_of : Json → Items
items_of (arr xs) = xs
items_of _ = nil

module _ (p : Platform) (trim : String → String) (project : Option String) where
  -- `(await listWbTokens(…)).data`
  abbrev listed : Api (Option Json)
  listed = list_wb_tokens p project >>= property "data"

  unfoldable pub load : Server → ProfilesPage → ProfilesPage
  load net s =
      let (r, b) = listed net s.browser in
      elim r [
        | ok found ↦ record s { tokens = items_of (or_empty found); loading = false; browser = b }
        | err e ↦ record s { error_text = "Failed to load profiles"; loading = false; browser = b }
      ]

  unfoldable pub create : Server → ProfilesPage → ProfilesPage
  create net s =
      let (r, b) = generate_wb_code p project (some (trim s.name)) net s.browser in
      if not (truthy_text (trim s.name)) then s else elim r [
        | ok tok ↦ record s {
          tokens = cons tok s.tokens;
          name = "";
          error_text = "";
          creating = false;
          browser = b;
        }
        | err e ↦ record s {
          error_text = "Failed to create profile";
          creating = false;
          browser = b;
        }
      ]

  -- `handleRevoke` of a card, whose `onRevoke` loads the profiles again: the exception that is not
  -- caught, `revoking` at the end, and the page.
  unfoldable pub handle_revoke :
      (id : String) → Server → ProfilesPage → Option Error × (Bool × ProfilesPage)
  handle_revoke id net s =
      let (r, b) = revoke_wb_code p id net s.browser in
      elim r [
        | ok _ ↦ (none, (false, load net (record s { browser = b })))
        | err e ↦ (some e, (false, record s { browser = b }))
      ]
