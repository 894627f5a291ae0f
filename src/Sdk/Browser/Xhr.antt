-- ===== src/Sdk/Browser/Xhr.antt =====
-- sdks/browser/src/interceptors/xhr.ts: the two methods that take the place of `open` and `send`
-- of `XMLHttpRequest`, and the listener of `loadend`.
pub mod Listeners
use Prim.Native.Nat.{◌-◌}
use text.Mathlib.Text.{starts_with}
use bataudit.Prelude.{
  ℕ, suc, ◌+◌, String, Bool, true, false, Option, none, some, List, [], ◌∷◌, ◌++◌, if◌then◌else◌,
  replicate, ◌or_else◌, ◌==◌,
}
use bataudit.Sdk.Browser.Types.{AuditEvent}
use bataudit.Sdk.Browser.Client.{
  BatAuditBrowserClient, generate_request_id, build_event, extract_path,
}
use bataudit.Sdk.Browser.Fetch.{Platform}

-- The properties that the interceptor adds to an object, `undefined` at first, and the number of
-- its listeners of `loadend`: a listener stays until the object goes.
pub record InstrumentedXhr : Type 0 where
  pub bat_method : Option String
  pub bat_url : Option String
  pub bat_skip : Option Bool
  pub bat_request_id : Option String
  pub bat_start_time : Option ℕ
  pub listeners : ℕ

abbrev pub fresh : InstrumentedXhr
fresh = record {
  bat_method = none;
  bat_url = none;
  bat_skip = none;
  bat_request_id = none;
  bat_start_time = none;
  listeners = 0;
}

-- What is passed on to the browser, and the events that are sent.
pub data Action : Type 0 where
  original_open : (method url : String) → Action
  set_request_header : (name value : String) → Action
  original_send : Action
  send : AuditEvent → Action

module _ (platform : Platform) (c : BatAuditBrowserClient) (writer_origin : String) where
  unfoldable pub open_xhr : (method url : String) → InstrumentedXhr → InstrumentedXhr × List Action
  open_xhr method url x = (
    record x {
      bat_method = some (platform.to_upper method);
      bat_url = some url;
      bat_skip = some (starts_with url writer_origin);
    },
    original_open method url ∷ [],
  )

  unfoldable pub send_xhr :
      (uuid : String) (now : ℕ) → InstrumentedXhr → InstrumentedXhr × List Action
  send_xhr uuid now x = if x.bat_skip or_else false then (x, original_send ∷ []) else (
    record x {
      bat_request_id = some (generate_request_id uuid);
      bat_start_time = some now;
      listeners = suc x.listeners;
    },
    set_request_header "X-Request-ID" (generate_request_id uuid) ∷ original_send ∷ [],
  )

  -- The event that one listener builds from the object as it is when the request ends. The status
  -- is 0 for a request that failed.
  unfoldable pub loadend_event :
      (status now : ℕ) → (timestamp : String) → Option String → InstrumentedXhr → AuditEvent
  unfolding build_event extract_path
  loadend_event status now timestamp user_agent x = build_event c (record {
    method = x.bat_method or_else "GET";
    path = extract_path platform.parse_url (x.bat_url or_else "");
    status_code = if status == 0 then none else some status;
    response_time = some (now - (x.bat_start_time or_else now));
    user_agent = user_agent;
    request_id = x.bat_request_id;
    timestamp = timestamp;
  })

  -- `loadend`: every listener of the object runs.
  unfoldable pub loadend :
      (status now : ℕ) → (timestamp : String) → Option String → InstrumentedXhr → List Action
  unfolding loadend_event
  loadend status now timestamp user_agent x =
      replicate x.listeners (send (loadend_event status now timestamp user_agent x))
