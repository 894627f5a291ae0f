-- ===== src/Sdk/Node/Client.antt =====
-- sdks/node/src/client.ts: the class `BatAuditClient`. Its set of pending promises is `Sdk.Pending`.
pub mod Delivery
use mathlib.Core.Option
use bataudit.Prelude.{
  ℕ, zero, suc, ◌+◌, String, Bool, true, false, not, ◌&&◌, Option, none, some, List, [], ◌∷◌,
  length, get_elem?, ltb, if◌then◌else◌, ◌or_else◌,
}
use bataudit.Prelude.Text.{◌<>◌}
use bataudit.Sdk.Network.{Reply, answered, failed, is_ok, Post, Effect, post, sleep}
use bataudit.Sdk.Node.Types.{Environment, prod, BatAuditConfig, AuditEvent}

abbrev pub retry_delays_ms : List ℕ
retry_delays_ms = 100 ∷ 200 ∷ 400 ∷ []

-- The field `config`. The spread lets a property given as `undefined` overwrite its default.
pub record Config : Type 0 where
  pub api_key : String
  pub service_name : String
  pub writer_url : String
  pub environment : Option Environment
  pub capture_body : Option Bool
  pub capture_response_body : Option Bool

unfoldable pub new : BatAuditConfig → Config
new config = record {
  api_key = config.api_key;
  service_name = config.service_name;
  writer_url = config.writer_url;
  environment = config.environment or_else some prod;
  capture_body = config.capture_body or_else some false;
  capture_response_body = config.capture_response_body or_else some false;
}

-- `crypto.randomUUID` is the argument.
abbrev pub generate_request_id : String → String
generate_request_id uuid = "bat-" <> uuid

unfoldable pub post_event : Config → AuditEvent → Post AuditEvent
post_event c event = record { url = c.writer_url <> "/v1/audit"; api_key = c.api_key; body = event }

-- Whether the attempt is followed by another: the conditions of the `try` and the `catch` block.
unfoldable pub retries : Reply → ℕ → Bool
retries (answered status) attempt = not (is_ok status) && ltb attempt (length retry_delays_ms)
retries failed attempt = ltb attempt (length retry_delays_ms)

-- `_sendWithRetry`, with the reply that the network gives to each attempt, of an event that `JSON.stringify` takes:
-- an attempt whose `JSON.stringify` throws is no post, and is not modelled. The first argument is fuel; `none` means that
-- it ran out.
unfoldable pub send_with_retry :
    ℕ → Config → (ℕ → Reply) → AuditEvent → ℕ → Option (List (Effect AuditEvent))
unfolding post_event retries
send_with_retry zero c net event attempt = none
send_with_retry (suc fuel) c net event attempt =
    let again =
      Option.map (λ rest. sleep (get_elem? retry_delays_ms attempt or_else 0) ∷ rest)
        (send_with_retry fuel c net event (attempt + 1)) in
    Option.map (λ rest. post (post_event c event) ∷ rest)
      (if retries (net attempt) attempt then again else some [])
