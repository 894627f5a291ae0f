-- ===== src/Web/Clients/Requests.antt =====
-- How the functions of frontend/src/http build their requests and read the replies.
use bataudit.Prelude.{ℕ, String, Option, none, some, List, [], ◌∷◌, if◌then◌else◌, ◌==◌}
use bataudit.Prelude.Text.{◌<>◌, truthy_text}
use bataudit.Prelude.Json.{Json, obj, object}
use bataudit.Web.Platform.{Platform}
use bataudit.Web.Http.{
  Method, Request, Response, Api, ◌>>=◌, ◌>>◌, pure, read_json, property, or_empty, ensure, is_ok,
}

abbrev pub Search : Type 0
Search = List (String × String)

-- `if (x) search.set(key, x)`, for a key that is new.
abbrev pub given : String → Option String → Search
given k none = []
given k (some v) = if truthy_text v then (k, v) ∷ [] else []

-- The same of a number: 0 is left out.
abbrev pub given_number : Platform → String → Option ℕ → Search
given_number p k none = []
given_number p k (some n) = if n == 0 then [] else (k, p.text_of_number n) ∷ []

-- `search.size > 0 ? '?' + search.toString() : ''`
abbrev pub query_of : Platform → Search → String
query_of p [] = ""
query_of p (kv ∷ search) = "?" <> p.params_to_string (kv ∷ search)

abbrev pub content_type : List (String × String)
content_type = ("Content-Type", "application/json") ∷ []

abbrev pub plain : Method → String → Request
plain method url = record { method = method; url = url; headers = []; body = none }

-- A request whose body is `JSON.stringify` of an object literal.
abbrev pub with_body : Method → String → List (String × Option Json) → Request
with_body method url fields = record {
  method = method;
  url = url;
  headers = content_type;
  body = some (obj (object fields));
}

-- `projectId ? '?project_id=' + encodeURIComponent(projectId) : ''`
abbrev pub project_query : Platform → Option String → String
project_query p none = ""
project_query p (some id) =
    if truthy_text id then "?project_id=" <> p.encode_uri_component id else ""

-- `(await res.json()).data ?? []`
abbrev pub read_data : Response → Api Json
read_data res = do json ← read_json res; found ← property "data" json; pure (or_empty found)

-- A reply that must be successful, and its value.
abbrev pub checked : String → Response → Api Json
checked message res = do ensure (is_ok res) message; read_json res

abbrev pub checked_data : String → Response → Api Json
checked_data message res = do ensure (is_ok res) message; read_data res

-- The value of a call that yields none.
abbrev pub checked_done : String → Response → Api (Option Json)
checked_done message res = do ensure (is_ok res) message; pure none
