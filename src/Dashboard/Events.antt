-- ===== src/Dashboard/Events.antt =====
-- frontend/src/routes/app/components: what is shown of an event, and of the health of the server.
pub mod Hidden
pub mod Card
use bataudit.Prelude.{
  ℕ, String, Bool, true, false, not, ◌&&◌, ◌||◌, Option, none, some, List, [], ◌∷◌, ◌++◌, ◌==◌,
  str_eq, if◌then◌else◌,
}
use bataudit.Prelude.Text.{◌<>◌, truthy, truthy_text}
use bataudit.Prelude.Json.{Json, str}
use bataudit.Web.Wallboard.{truthy_json}
use bataudit.Dashboard.Screen.{Screen, text, button, when}

pub record AuditDetail : Type 0 where
  pub id : String
  pub method : String
  pub path : String
  pub status_code : ℕ
  pub response_time : ℕ
  pub identifier : String
  pub user_email : String
  pub user_name : String
  pub user_roles : Option Json
  pub user_type : String
  pub tenant_id : String
  pub ip : String
  pub user_agent : String
  pub request_id : String
  pub query_params : Option Json
  pub path_params : Option Json
  pub request_body : Option Json
  pub response_body : Option Json
  pub error_message : String
  pub service_name : String
  pub environment : String
  pub timestamp : String
  pub project_id : String

-- The texts of numbers, of times and of values, which the platform makes.
pub record Texts : Type 0 where
  pub number : ℕ → String
  -- `new Date(timestamp).toLocaleString()`
  pub local_time : String → String
  -- `JSON.stringify(value, null, 2)`
  pub stringify : Json → String

pub data Action : Type 0 where
  close toggle_revealed reveal : Action

-- `Field` of a text
abbrev pub field : String → String → Screen Action
field label value = when (truthy_text value) (text label ∷ text value ∷ [])

-- The text of a value.
abbrev pub json_text : Texts → Json → String
json_text t (str s) = s
json_text t value = t.stringify value

abbrev pub value_text : Texts → Option Json → String
value_text t none = ""
value_text t (some value) = json_text t value

-- Whether a value is shown at all.
abbrev pub has_content : Texts → Option Json → Bool
has_content t value =
    truthy_json value
    && not (
        str_eq (value_text t value) "null"
        || str_eq (value_text t value) "{}"
        || str_eq (value_text t value) "[]")

unfoldable pub json_field : Texts → String → Option Json → Screen Action
json_field t label value = when (has_content t value) (text label ∷ text (value_text t value) ∷ [])

unfoldable pub sensitive_json_field :
    Texts → (revealed : Bool) → String → Option Json → Screen Action
sensitive_json_field t revealed label value = when (has_content t value) (
    text label
    ∷ button true (if revealed then "Hide" else "Show") toggle_revealed
    ∷ (if revealed then text (value_text t value) else button true "Hidden — click to show" reveal)
    ∷ [])

abbrev pub request_fields : Texts → AuditDetail → Screen Action
request_fields t e =
    field "ID" e.id
    ++ (field "Request ID" e.request_id
        ++ (field "Service" e.service_name
            ++ (field "Environment" e.environment
                ++ (field "Method" e.method
                    ++ (field "Path" e.path
                        ++ (text "Status Code"
                            ∷ text (t.number e.status_code)
                            ∷ (when (not (e.response_time == 0)) (
                                  text "Response Time"
                                  ∷ text (t.number e.response_time <> "ms")
                                  ∷ [])
                                ++ (field "Timestamp" (t.local_time e.timestamp)
                                    ++ field "IP" e.ip))))))))

abbrev pub user_fields : AuditDetail → Screen Action
user_fields e =
    field "Identifier" e.identifier
    ++ (field "User Email" e.user_email
        ++ (field "User Name" e.user_name
            ++ (field "User Type" e.user_type ++ field "Tenant ID" e.tenant_id)))

abbrev pub body_fields : Texts → (revealed : Bool) → AuditDetail → Screen Action
body_fields t revealed e =
    field "User Agent" e.user_agent
    ++ (field "Error Message" e.error_message
        ++ (json_field t "User Roles" e.user_roles
            ++ (json_field t "Query Params" e.query_params
                ++ (json_field t "Path Params" e.path_params
                    ++ (json_field t "Request Body" e.request_body
                        ++ sensitive_json_field t revealed "Response Body" e.response_body)))))

-- The event that the query reports, if there is one.
abbrev pub detail_body : Texts → (revealed : Bool) → Option AuditDetail → Screen Action
detail_body t revealed none = text "Event not found." ∷ []
detail_body t revealed (some e) = request_fields t e ++ (user_fields e ++ body_fields t revealed e)

-- `EventDetailModal`, with the id that is selected.
unfoldable pub event_detail_modal :
    Texts
    → (revealed : Bool) → Option String
    → (is_loading : Bool) → Option AuditDetail
    → Screen Action
event_detail_modal t revealed event_id is_loading event =
    if not (truthy event_id)
    then []
    else text "Event Detail"
      ∷ button true "" close
      ∷ (if is_loading then text "Loading..." ∷ [] else detail_body t revealed event)

-- What the buttons do with the selection and with what is revealed; a closed window is unmounted.
unfoldable pub act : Action → Option String × Bool → Option String × Bool
act close (event_id, revealed) = (none, false)
act toggle_revealed (event_id, revealed) = (event_id, not revealed)
act reveal (event_id, revealed) = (event_id, true)

-- `onKey`
abbrev pub on_key : (key : String) → Option String × Bool → Option String × Bool
on_key key s = if str_eq key "Escape" then act close s else s
