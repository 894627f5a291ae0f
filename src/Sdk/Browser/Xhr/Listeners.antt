-- ===== src/Sdk/Browser/Xhr/Listeners.antt =====
-- How often a request is reported.
use text.Mathlib.Text.{starts_with}
use bataudit.Prelude.{
  ℕ, suc, ◌+◌, String, ◌≡◌, false, Option, List, [], ◌∷◌, arith, length, length-replicate,
  if◌then◌else◌,
}
use bataudit.Sdk.Browser.Client.{BatAuditBrowserClient}
use bataudit.Sdk.Browser.Fetch.{Platform}
use bataudit.Sdk.Browser.Xhr.{
  InstrumentedXhr, fresh, Action, open_xhr, send_xhr, loadend, loadend_event,
}

-- One request of an object: its arguments, and what the browser reports at its end.
pub record Round : Type 0 where
  pub method : String
  pub url : String
  pub uuid : String
  pub started : ℕ
  pub status : ℕ
  pub ended : ℕ
  pub timestamp : String
  pub user_agent : Option String

module _ (platform : Platform) (c : BatAuditBrowserClient) (origin : String) where
  -- The object after `open` and `send`.
  pub sent : Round → InstrumentedXhr → InstrumentedXhr
  sent r x =
      (send_xhr platform c origin r.uuid r.started
        (open_xhr platform c origin r.method r.url x).0).0

  -- The events that the end of the request sends.
  pub events : Round → InstrumentedXhr → List Action
  events r x = loadend platform c origin r.status r.ended r.timestamp r.user_agent (sent r x)

  -- The object after several requests, one after the other.
  pub used : List Round → InstrumentedXhr → InstrumentedXhr
  used [] x = x
  used (r ∷ rs) x = used rs (sent r x)

  abbrev pub audited : List Round → ℕ
  audited [] = 0
  audited (r ∷ rs) = if starts_with r.url origin then audited rs else suc (audited rs)

  sent-listeners :
      (r : Round) (x : InstrumentedXhr)
      → (sent r x).listeners ≡ (if starts_with r.url origin then x.listeners else suc x.listeners)
  unfolding sent open_xhr send_xhr
  sent-listeners r x = ground arith

  used-listeners :
      (rs : List Round) (x : InstrumentedXhr) → (used rs x).listeners ≡ audited rs + x.listeners
  unfolding used
  used-listeners [] x = omega arith
  used-listeners (r ∷ rs) x = ground (arith, used-listeners rs (sent r x), sent-listeners r x)

  -- A request is reported once for each audited request that the same object has made, itself
  -- included: an object that is used again reports its requests several times.
  pub events-used :
      (rs : List Round) (r : Round)
      → starts_with r.url origin ≡ false
      → length (events r (used rs fresh)) ≡ suc (audited rs)
  unfolding events loadend
  events-used rs r h = ground (
    arith,
    length-replicate (sent r (used rs fresh)).listeners (
        Action.send (
          loadend_event platform c origin r.status r.ended r.timestamp r.user_agent
            (sent r (used rs fresh)))),
    sent-listeners r (used rs fresh),
    used-listeners rs fresh,
  )
