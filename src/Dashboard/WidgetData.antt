-- ===== src/Dashboard/WidgetData.antt =====
-- The queries of the widgets of frontend/src/routes/app/_layout/studio.tsx: an effect that is run
-- again when the widgets or the variables change, and whose replies come at any time. A run has a
-- number; its closure's `active` is true as long as no later run or leaving of the page has called
-- its cleanup, that is, as long as the view has the number.
pub mod Current
use bataudit.Prelude.{
  ℕ, suc, ◌==◌, String, Option, none, some, List, [], ◌∷◌, ◌++◌, str_eq, if◌then◌else◌,
}
use bataudit.Prelude.Json.{Json}
use bataudit.Web.Http.{Error, error, Result, ok, err}
use bataudit.Web.Clients.Template.{Codes, QueryVars, apply_vars}
use bataudit.Web.Clients.Studio.{Widget}

-- The values of the state of a widget that are set.
pub data WidgetState : Type 0 where
  loading : WidgetState
  result : Json → WidgetState
  error_text : String → WidgetState

-- `Record<string, WidgetState>`
abbrev pub Data : Type 0
Data = List (String × WidgetState)

abbrev pub shown : String → Data → Option WidgetState
shown id [] = none
shown id ((k, v) ∷ d) = if str_eq k id then some v else shown id d

-- `{ ...d, [id]: v }`, for which the order of the keys is not used.
abbrev pub put : String → WidgetState → Data → Data
put id v d = (id, v) ∷ d

-- A query that a run has made for a widget.
pub record Query : Type 0 where
  pub run : ℕ
  pub id : String
  pub sql : Codes

pub record View : Type 0 where
  pub run : ℕ
  pub states : Data
  pub made : List Query

abbrev pub initial : View
initial = record { run = 0; states = []; made = [] }

-- What happens: the effect is run, a query is settled, the page is left.
pub data Event : Type 0 where
  effect : QueryVars → List Widget → Event
  settle : Query → Event
  leave : Event

-- The code units of a text, and the messages of the browser's own exceptions, are arguments; so is
-- the outcome of each query.
module _ (codes : String → Codes) (browsers : Error → String) (answer : Query → Result Json) where
  abbrev pub query_of : ℕ → QueryVars → Widget → Query
  query_of run vars w = record { run = run; id = w.id; sql = apply_vars (codes w.sql) vars }

  abbrev pub start_widget : QueryVars → Widget → View → View
  start_widget vars w s = record s {
    states = put w.id loading s.states;
    made = s.made ++ query_of s.run vars w ∷ [];
  }

  -- `widgets.forEach(…)`
  unfoldable pub start : QueryVars → List Widget → View → View
  start vars [] s = s
  start vars (w ∷ ws) s = start vars ws (start_widget vars w s)

  -- `e instanceof Error ? e.message : 'error'`, where every exception of the call is an `Error`.
  abbrev pub state_of : Result Json → WidgetState
  state_of (ok r) = result r
  state_of (err (error message)) = error_text message
  state_of (err e) = error_text (browsers e)

  -- `active && setData(…)`
  unfoldable pub settled : Query → View → View
  settled q s =
      if q.run == s.run then record s { states = put q.id (state_of (answer q)) s.states } else s

  abbrev pub step : Event → View → View
  step (effect vars ws) s = start vars ws (record s { run = suc s.run })
  step (settle q) s = settled q s
  step leave s = record s { run = suc s.run }

  abbrev pub steps : List Event → View → View
  steps [] s = s
  steps (e ∷ es) s = steps es (step e s)
