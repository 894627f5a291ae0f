-- ===== src/Sdk/Browser/Client.antt =====
-- sdks/browser/src/client.ts. Its set of pending promises is `Sdk.Pending`.
use mathlib.Core.Option
use bataudit.Prelude.{
  ℕ, zero, suc, ◌+◌, String, not, ◌&&◌, Option, none, some, List, [], ◌∷◌, length, get_elem?, ltb,
  if◌then◌else◌, ◌or_else◌,
}
use bataudit.Prelude.Text.{◌<>◌, before}
use bataudit.Sdk.Network.{Reply, answered, failed, is_ok, Effect, post, sleep}
use bataudit.Sdk.Node.Types.{Environment, prod}
use bataudit.Sdk.Browser.Types.{
  BatAuditBrowserConfig, BatAuditUserData, AuditEvent, Observed, browser,
}

abbrev pub retry_delays_ms : List ℕ
retry_delays_ms = 100 ∷ 200 ∷ 400 ∷ []

-- The fields `config` and `user`. The spread lets an `environment` given as `undefined` overwrite
-- the default.
pub record BatAuditBrowserClient : Type 0 where
  pub api_key : String
  pub service_name : String
  pub writer_url : String
  pub environment : Option Environment
  pub user : BatAuditUserData

abbrev pub anonymous : BatAuditUserData
anonymous = record {
  identifier = "anonymous";
  user_email = none;
  user_name = none;
  user_roles = none;
  user_type = none;
  tenant_id = none;
}

unfoldable pub new : BatAuditBrowserConfig → BatAuditBrowserClient
new config = record {
  api_key = config.api_key;
  service_name = config.service_name;
  writer_url = config.writer_url;
  environment = config.environment or_else some prod;
  user = anonymous;
}

unfoldable pub set_user : BatAuditUserData → BatAuditBrowserClient → BatAuditBrowserClient
set_user info c = record c { user = info }

unfoldable pub clear_user : BatAuditBrowserClient → BatAuditBrowserClient
clear_user c = record c { user = anonymous }

-- `crypto.randomUUID` is the argument.
abbrev pub generate_request_id : String → String
generate_request_id uuid = "bat-" <> uuid

unfoldable pub build_event : BatAuditBrowserClient → Observed → AuditEvent
build_event c partial = record {
  method = partial.method;
  path = partial.path;
  status_code = partial.status_code;
  response_time = partial.response_time;
  identifier = c.user.identifier;
  user_email = c.user.user_email;
  user_name = c.user.user_name;
  user_roles = c.user.user_roles;
  user_type = c.user.user_type;
  tenant_id = c.user.tenant_id;
  user_agent = partial.user_agent;
  request_id = partial.request_id;
  service_name = c.service_name;
  environment = c.environment;
  source = browser;
  timestamp = partial.timestamp;
}

-- The URL that `_sendWithRetry` posts to.
abbrev pub audit_url : BatAuditBrowserClient → String
audit_url c = c.writer_url <> "/v1/audit"

-- `_sendWithRetry`, with the reply that the network gives to each attempt. The first argument is
-- fuel; `none` means that it ran out.
unfoldable pub send_with_retry :
    ℕ → BatAuditBrowserClient → (ℕ → Reply) → AuditEvent → ℕ → Option (List (Effect AuditEvent))
send_with_retry zero c net event attempt = none
send_with_retry (suc fuel) c net event attempt =
    let again =
      Option.map (λ rest. sleep (get_elem? retry_delays_ms attempt or_else 0) ∷ rest)
        (send_with_retry fuel c net event (attempt + 1)) in
    let left = ltb attempt (length retry_delays_ms) in
    Option.map
      (λ rest. post (record { url = audit_url c; api_key = c.api_key; body = event }) ∷ rest)
      (elim (net attempt) [
        | answered status ↦ if not (is_ok status) && left then again else some []
        | failed ↦ if left then again else some []
      ])

-- What `new URL(url)` yields, as far as the code reads it.
pub record ParsedUrl : Type 0 where
  pub origin : String
  pub pathname : String

-- `extractPath`; the URL parser of the platform is the argument, `none` where it throws.
unfoldable pub extract_path : (String → Option ParsedUrl) → String → String
unfolding before
extract_path parse_url url = elim (parse_url url) [
  | some u ↦ u.pathname
  | none ↦ before b'#' (before b'?' url)
]
