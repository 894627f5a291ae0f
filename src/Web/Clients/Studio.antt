-- ===== src/Web/Clients/Studio.antt =====
-- frontend/src/http/studio.ts: queries and saved reports. `applyVars` is in Web.Clients.Template.
use bataudit.Prelude.{ℕ, String, Bool, true, false, Option, some, List, [], ◌∷◌}
use bataudit.Prelude.Text.{◌<>◌}
use bataudit.Prelude.Json.{Json, str, num, arr, obj, object, Items, nil, cons}
use bataudit.Web.Platform.{Platform}
use bataudit.Web.Http.{
  get, post, put, delete, Api, ◌>>=◌, ◌>>◌, pure, raise, is_ok, read_json, optional_property,
  or_empty, error_or,
}
use bataudit.Web.Api.{fetch_with_auth}
use bataudit.Web.Clients.Requests.{plain, with_body, project_query, checked, checked_done}
use mathlib.Core.Option

pub data VizType : Type 0 where
  line pie table : VizType

pub record Widget : Type 0 where
  pub id : String
  pub title : String
  pub sql : String
  pub viz : VizType

pub record GridItem : Type 0 where
  pub i : String
  pub x : ℕ
  pub y : ℕ
  pub w : ℕ
  pub h : ℕ

abbrev pub viz_text : VizType → String
viz_text line = "line"
viz_text pie = "pie"
viz_text table = "table"

abbrev pub widget_json : Widget → Json
widget_json w = obj (
    object (
      ("id", some (str w.id))
      ∷ ("title", some (str w.title))
      ∷ ("sql", some (str w.sql))
      ∷ ("viz", some (str (viz_text w.viz)))
      ∷ []))

abbrev pub grid_item_json : GridItem → Json
grid_item_json g = obj (
    object (
      ("i", some (str g.i))
      ∷ ("x", some (num g.x))
      ∷ ("y", some (num g.y))
      ∷ ("w", some (num g.w))
      ∷ ("h", some (num g.h))
      ∷ []))

abbrev pub items : {A : Type 0} → (A → Json) → List A → Items
items f [] = nil
items f (x ∷ xs) = cons (f x) (items f xs)

-- `json?.error`, thrown before the value is returned.
abbrev pub refuse_query : Bool → Json → Api (Unit {0})
refuse_query true json = pure tt
refuse_query false json = raise (error_or (optional_property "error" json) "Query failed")

module _ (p : Platform) where
  unfoldable pub run_query : String → Api Json
  run_query sql = do
    res ←
        fetch_with_auth
          (with_body post (p.base <> "/v1/audit/query") (("sql", some (str sql)) ∷ []))
    json ← read_json res
    refuse_query (is_ok res) json
    pure json

  -- The status of the reply is not looked at.
  unfoldable pub list_reports : Option String → Api Json
  list_reports project_id = do
    res ← fetch_with_auth (plain get (p.base <> "/v1/reports" <> project_query p project_id))
    json ← read_json res
    pure (or_empty (optional_property "data" json))

  unfoldable pub get_report : String → Api Json
  get_report id = do
    res ← fetch_with_auth (plain get (p.base <> "/v1/reports/" <> id))
    checked "Report not found" res

  unfoldable pub create_report : Option String → String → List Widget → List GridItem → Api Json
  create_report project_id name widgets layout = do
    res ← fetch_with_auth (
        with_body post (p.base <> "/v1/reports") (
          ("project_id", Option.map str project_id)
          ∷ ("name", some (str name))
          ∷ ("widgets", some (arr (items widget_json widgets)))
          ∷ ("layout", some (arr (items grid_item_json layout)))
          ∷ []))
    checked "Failed to create report" res

  unfoldable pub update_report : String → String → List Widget → List GridItem → Api (Option Json)
  update_report id name widgets layout = do
    res ← fetch_with_auth (
        with_body put (p.base <> "/v1/reports/" <> id) (
          ("name", some (str name))
          ∷ ("widgets", some (arr (items widget_json widgets)))
          ∷ ("layout", some (arr (items grid_item_json layout)))
          ∷ []))
    checked_done "Failed to save report" res

  unfoldable pub delete_report : String → Api (Option Json)
  delete_report id = do
    res ← fetch_with_auth (plain delete (p.base <> "/v1/reports/" <> id))
    checked_done "Failed to delete report" res
