-- ===== src/Dashboard/WidgetExamples.antt =====
-- The theorem of the widgets of the report studio at concrete inputs.
use mathlib.Core.List.Memᴰ.{head, tail}
use bataudit.Prelude.{String, ◌≡◌, refl, none, some, List, [], ◌∷◌, map, str_eq, if◌then◌else◌}
use bataudit.Prelude.Json.{Json, num}
use bataudit.Web.Http.{Error, Result, ok}
use bataudit.Web.Clients.Template.{Codes, QueryVars}
use bataudit.Web.Clients.Studio.{Widget, table}
use bataudit.Dashboard.WidgetData.{
  Query, Event, effect, settle, initial, shown, steps, step, start, result, query_of,
}
use bataudit.Dashboard.WidgetData.Current.{shown-steps_current}

-- The code units of one text.
abbrev codes : String → Codes
codes s =
    if str_eq s "{{from}}"
    then b'{' ∷ b'{' ∷ b'f' ∷ b'r' ∷ b'o' ∷ b'm' ∷ b'}' ∷ b'}' ∷ []
    else b'1' ∷ []

abbrev message : Error → String
message e = "Failed to fetch"

-- Each run gets another answer.
abbrev answer : Query → Result Json
answer q = ok (num q.run)

abbrev since : Codes → QueryVars
since day = record { project_id = none; from = some day; to = none }

abbrev first : Widget
first = record { id = "a"; title = "First"; sql = "{{from}}"; viz = table }

abbrev second : Widget
second = record { id = "b"; title = "Second"; sql = "1"; viz = table }

-- The query for the new day is settled before that for the old one.
abbrev old : Query
old = query_of codes message answer 1 (since (b'5' ∷ [])) first

abbrev new : Query
new = query_of codes message answer 2 (since (b'7' ∷ [])) first

abbrev history : List Event
history = effect (since (b'5' ∷ [])) (first ∷ []) ∷ []

shown-steps_current_example :
    shown "a"
      (steps codes message answer (map settle (new ∷ old ∷ [])) (
        step codes message answer
          (effect (since (b'7' ∷ [])) (first ∷ second ∷ []))
          (steps codes message answer history initial))).states
    ≡ some (result (num 2))
unfolding start
shown-steps_current_example =
    shown-steps_current codes message answer history (since (b'7' ∷ [])) (first ∷ second ∷ []) first
      (new ∷ old ∷ []) ((refl, tt), (tt, tt)) (head refl) (tail (head refl), (head refl, tt))
