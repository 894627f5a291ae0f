-- ===== src/Sdk/Agreement.antt =====
-- `_sendWithRetry` of sdks/node/src/client.ts beside that of sdks/browser/src/client.ts.
use bataudit.Prelude.{ℕ, zero, suc, ◌+◌, ◌≡◌, refl, Option, none, some, List, map, arith}
use bataudit.Sdk.Network.{Reply, Effect, post, sleep}
use bataudit.Sdk.Node.Types.{AuditEvent}
use bataudit.Sdk.Node.Client.{Config, send_with_retry}
use bataudit.Sdk.Browser.Types.{AuditEvent as PageEvent}
use bataudit.Sdk.Browser.Client.{BatAuditBrowserClient, send_with_retry as page_send_with_retry}

-- An effect without the event that it carries.
abbrev pub outline : {E : Type 0} → Effect E → Effect (Unit {0})
outline (post p) = post (record { url = p.url; api_key = p.api_key; body = tt })
outline (sleep ms) = sleep ms

abbrev pub outlines : {E : Type 0} → Option (List (Effect E)) → Option (List (Effect (Unit {0})))
outlines none = none
outlines (some es) = some (map outline es)

module _ (n : Config) (b : BatAuditBrowserClient) (net : ℕ → Reply) (event : AuditEvent)
    (page_event : PageEvent) (url : n.writer_url ≡ b.writer_url) (key : n.api_key ≡ b.api_key) where
  -- Where the two clients have the same writer and API key, they post to the same URL with the
  -- same key, as often, and pause as long, whatever the network answers and the events are.
  send_with_retry-agree :
      (fuel attempt : ℕ)
      → outlines (send_with_retry fuel n net event attempt)
        ≡ outlines (page_send_with_retry fuel b net page_event attempt)
  unfolding send_with_retry page_send_with_retry
  send_with_retry-agree zero attempt = refl
  send_with_retry-agree (suc fuel) attempt =
      ground (arith, send_with_retry-agree fuel (attempt + 1))
