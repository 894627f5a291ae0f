-- ===== src/Sdk/Browser/Fetch.antt =====
-- sdks/browser/src/interceptors/fetch.ts: the function that takes the place of `fetch`.
-- The URL parser and the case mappings of the platform are arguments, and so are the values that
-- the clock, the id generator and the original `fetch` yield. Of `init`, only the properties that
-- the code reads are modelled.
pub mod Traffic
use Prim.Native.Nat.{◌-◌}
use text.Mathlib.Text.{starts_with}
use bataudit.Prelude.{
  ℕ, String, Bool, not, Option, none, some, List, [], ◌∷◌, ◌++◌, map, keep, str_eq, if◌then◌else◌,
  ◌or_else◌, ◌==◌,
}
use bataudit.Sdk.Network.{Reply, answered, failed}
use bataudit.Sdk.Browser.Types.{AuditEvent, Observed}
use bataudit.Sdk.Browser.Client.{
  BatAuditBrowserClient, ParsedUrl, generate_request_id, build_event, extract_path,
}

abbrev pub Pairs : Type 0
Pairs = List (String × String)

-- `init.headers`: a `Headers` object, whose names are in lower case, a plain object, or a list.
pub data HeadersInit : Type 0 where
  headers plain pairs : Pairs → HeadersInit

pub record RequestInit : Type 0 where
  pub method : Option String
  pub headers_init : Option HeadersInit

-- The first argument of `fetch`: a text, a `URL` with its `href`, or a `Request`.
pub data Input : Type 0 where
  a_text a_url : String → Input
  a_request : (url method : String) → Pairs → Input

pub record Platform : Type 0 where
  pub parse_url : String → Option ParsedUrl
  pub to_upper : String → String
  pub to_lower : String → String

abbrev pub lookup : String → Pairs → Option String
lookup k [] = none
lookup k ((j, v) ∷ r) = if str_eq j k then some v else lookup k r

-- `headers.set(name, value)`, for a name in lower case.
abbrev pub set_header : String → String → Pairs → Pairs
set_header k v hs = keep (λ h. not (str_eq h.0 k)) hs ++ (k, v) ∷ []

abbrev pub input_url : Input → String
input_url (a_text url) = url
input_url (a_url url) = url
input_url (a_request url method hs) = url

abbrev pub input_method : Input → String
input_method (a_request url method hs) = method
input_method _ = "GET"

abbrev pub init_headers : Option RequestInit → Option HeadersInit
init_headers none = none
init_headers (some init) = init.headers_init

abbrev pub init_method : Option RequestInit → Option String
init_method none = none
init_method (some init) = init.method

-- `existingId`: `Headers.get` ignores the case of the name, a property access does not.
unfoldable pub existing_id : Option HeadersInit → Option String
existing_id (some (headers hs)) = lookup "x-request-id" hs
existing_id (some (plain hs)) = lookup "X-Request-ID" hs
existing_id _ = none

-- `new Headers(init?.headers)`, of headers whose names are valid and differ: that it throws, joins the values of one
-- name, or trims a value is not modelled.
unfoldable pub new_headers : (String → String) → Option HeadersInit → Pairs
new_headers to_lower none = []
new_headers to_lower (some (headers hs)) = hs
new_headers to_lower (some (plain hs)) = map (λ h. (to_lower h.0, h.1)) hs
new_headers to_lower (some (pairs hs)) = map (λ h. (to_lower h.0, h.1)) hs

-- `statusCode || undefined`, where `statusCode` stays 0 if the request was rejected.
unfoldable pub status_code_of : Reply → Option ℕ
status_code_of (answered status) = if status == 0 then none else some status
status_code_of failed = none

pub data Action : Type 0 where
  -- A call of the original `fetch`.
  call_original : Input → Option RequestInit → Action
  send : AuditEvent → Action

-- The values that one call reads from its surroundings.
pub record Surroundings : Type 0 where
  pub uuid : String
  pub started : ℕ
  pub ended : ℕ
  pub timestamp : String
  pub user_agent : Option String
  pub reply : Reply

module _ (platform : Platform) (c : BatAuditBrowserClient) (writer_origin : String) where
  -- The event of the `finally` block.
  unfoldable pub observed_event : Input → Option RequestInit → String → Surroundings → AuditEvent
  unfolding build_event extract_path status_code_of
  observed_event input init request_id s = build_event c (record {
    method = platform.to_upper (init_method init or_else input_method input);
    path = extract_path platform.parse_url (input_url input);
    status_code = status_code_of s.reply;
    response_time = some (s.ended - s.started);
    user_agent = s.user_agent;
    request_id = some request_id;
    timestamp = s.timestamp;
  })

  -- `batAuditFetch`: what the caller gets, and what was done.
  unfoldable pub bat_audit_fetch : Input → Option RequestInit → Surroundings → Reply × List Action
  unfolding observed_event existing_id new_headers
  bat_audit_fetch input init s =
      let request_id = existing_id (init_headers init) or_else generate_request_id s.uuid in
      let hs =
        set_header "x-request-id" request_id (new_headers platform.to_lower (init_headers init)) in
      let init' : RequestInit = record {
        method = init_method init;
        headers_init = some (headers hs);
      } in
      (
        s.reply,
        if starts_with (input_url input) writer_origin
            then call_original input init ∷ []
            else call_original input (some init')
              ∷ send (observed_event input init request_id s)
              ∷ [],
      )

-- The value of `writerOrigin`, which is read once: `none` where `new URL` throws.
abbrev pub writer_origin_of : Platform → BatAuditBrowserClient → Option String
writer_origin_of platform c = elim (platform.parse_url c.writer_url) [
  | none ↦ none
  | some u ↦ some u.origin
]
