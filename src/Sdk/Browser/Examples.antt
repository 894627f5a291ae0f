-- ===== src/Sdk/Browser/Examples.antt =====
-- The theorems of the browser SDK at concrete inputs.
use text.Mathlib.Text.{starts_with}
use bataudit.Prelude.{
  suc, String, ◌≡◌, refl, none, some, Option, [], ◌∷◌, length, ◌or_else◌, str_eq, if◌then◌else◌,
}
use bataudit.Sdk.Network.{answered}
use bataudit.Sdk.Browser.Types.{BatAuditBrowserConfig, AuditEvent as PageEvent}
use bataudit.Sdk.Browser.Client.{audit_url, generate_request_id, new as new_client}
use bataudit.Sdk.Browser.Fetch.{
  Pairs, Platform, RequestInit, headers, plain, a_text, Surroundings, call_original,
  send as send_event, bat_audit_fetch, lookup, existing_id, init_headers, init_method,
}
use bataudit.Sdk.Browser.Fetch.Traffic.{bat_audit_fetch-audit_url, bat_audit_fetch-correlates}
use bataudit.Sdk.Browser.Xhr.{fresh}
use bataudit.Sdk.Browser.Xhr.Listeners.{Round, events, used, audited, events-used}
use bataudit.Sdk.Browser.Init.{Globals, native, patched, BatAuditBrowserInstance, init, unpatch}
use bataudit.Sdk.Browser.Init.Unpatch.{unpatch-init}

abbrev platform : Platform
platform = record {
  parse_url = λ url.
      if starts_with url "https://audit.example"
      then some (record { origin = "https://audit.example"; pathname = "/" })
      else none;
  to_upper = λ s. s;
  to_lower = λ s. if str_eq s "X-Request-ID" then "x-request-id" else s;
}

abbrev page_config : BatAuditBrowserConfig
page_config = record {
  api_key = "key";
  service_name = "site";
  writer_url = "https://audit.example";
  environment = none;
}

abbrev origin : String
origin = "https://audit.example"

abbrev around : Surroundings
around = record {
  uuid = "u-1";
  started = 100;
  ended = 130;
  timestamp = "2024-05-01T00:00:00Z";
  user_agent = some "Firefox";
  reply = answered 200;
}

bat_audit_fetch-audit_url_example :
    bat_audit_fetch platform
      (new_client page_config)
      origin
      (a_text (audit_url (new_client page_config)))
      none
      around
    ≡ (answered 200, call_original (a_text (audit_url (new_client page_config))) none ∷ [])
unfolding new_client
bat_audit_fetch-audit_url_example =
    bat_audit_fetch-audit_url platform (new_client page_config) origin none around refl

abbrev own_id : Option RequestInit
own_id = some (record {
  method = some "PUT";
  headers_init = some (plain (("X-Request-ID", "r-1") ∷ ("Accept", "text/html") ∷ []));
})

bat_audit_fetch-correlates_example :
    let (reply, actions) =
      bat_audit_fetch platform
        (new_client page_config)
        origin
        (a_text "/api/orders")
        own_id
        around in
    let id = existing_id (init_headers own_id) or_else generate_request_id "u-1" in
    (reply ≡ answered 200)
    × ((hs : Pairs) × (e : PageEvent) × (actions
          ≡ call_original
              (a_text "/api/orders")
              (some (record { method = init_method own_id; headers_init = some (headers hs) }))
            ∷ send_event e
            ∷ [])
        × (lookup "x-request-id" hs ≡ some id)
        × (e.request_id ≡ some id))
bat_audit_fetch-correlates_example =
    bat_audit_fetch-correlates platform (new_client page_config) origin (a_text "/api/orders")
      own_id around refl

abbrev poll : Round
poll = record {
  method = "GET";
  url = "/api/poll";
  uuid = "u-1";
  started = 100;
  status = 200;
  ended = 130;
  timestamp = "2024-05-01T00:00:00Z";
  user_agent = none;
}

events-used_example :
    length (
      events platform
        (new_client page_config)
        origin
        poll
        (used platform (new_client page_config) origin (poll ∷ poll ∷ []) fresh))
    ≡ suc (audited platform (new_client page_config) origin (poll ∷ poll ∷ []))
events-used_example =
    events-used platform (new_client page_config) origin (poll ∷ poll ∷ []) poll refl

abbrev natives : Globals
natives = record { fetch = native; xhr_open = native; xhr_send = native }

abbrev installed : Globals → Globals
installed g = record {
  fetch = patched (new_client page_config) origin g.fetch;
  xhr_open = patched (new_client page_config) origin g.xhr_open;
  xhr_send = patched (new_client page_config) origin g.xhr_send;
}

abbrev instance_over : Globals → BatAuditBrowserInstance
instance_over g = record {
  client = new_client page_config;
  original_fetch = g.fetch;
  original_xhr = (g.xhr_open, g.xhr_send);
}

unpatch-init_example : unpatch (instance_over natives) (installed natives) ≡ natives
unfolding init
unpatch-init_example =
    unpatch-init platform page_config natives (installed natives) (instance_over natives) refl
