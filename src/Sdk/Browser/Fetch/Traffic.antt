-- ===== src/Sdk/Browser/Fetch/Traffic.antt =====
-- Which calls of the patched `fetch` are reported, and with which id.
use text.Mathlib.Text.{starts_with}
use text.Mathlib.TextBridge.{IsPrefix}
use text.Mathlib.TextEquality.{starts_with_iff}
use text.Mathlib.TextLemmas.{append_assoc}
use text.Mathlib.TextPositions.{eq_refl}
use bataudit.Prelude.{
  String, ◌≡◌, refl, true, false, Option, none, some, [], ◌∷◌, ap, ◌∙◌, sym, str_eq, ◌or_else◌,
  Bool-cases, inl, inr,
}
use bataudit.Prelude.Text.{◌<>◌}
use bataudit.Sdk.Browser.Types.{AuditEvent}
use bataudit.Sdk.Browser.Client.{BatAuditBrowserClient, audit_url, generate_request_id}
use bataudit.Sdk.Browser.Fetch.{
  Pairs, headers, Input, a_text, RequestInit, Platform, Surroundings, call_original, send, lookup,
  set_header, input_url, existing_id, init_headers, init_method, new_headers, a_request,
  observed_event, bat_audit_fetch,
}

IsPrefix-append : (s t u : String) → IsPrefix s t → IsPrefix s (t <> u)
IsPrefix-append s t u (r, e) = (r <> u, sym (append_assoc s r u) ∙ ap (λ x. x <> u) e)

lookup-set_header : (k v : String) (hs : Pairs) → lookup k (set_header k v hs) ≡ some v
lookup-set_header k v [] = rw eq_refl
lookup-set_header k v ((j, w) ∷ hs) = elim (Bool-cases (str_eq j k)) [
  | inl same ↦ rw same (lookup-set_header k v hs)
  | inr other ↦ rw (other, other) (lookup-set_header k v hs)
]

module _ (platform : Platform) (c : BatAuditBrowserClient) (origin : String) where
  -- If the writer's URL, as it was configured, begins with its origin, then the patched `fetch`
  -- passes the SDK's own posts on as they are and reports nothing of them.
  pub bat_audit_fetch-audit_url :
      (init : Option RequestInit) (s : Surroundings)
      → starts_with c.writer_url origin ≡ true
      → bat_audit_fetch platform c origin (a_text (audit_url c)) init s
        ≡ (s.reply, call_original (a_text (audit_url c)) init ∷ [])
  unfolding bat_audit_fetch
  bat_audit_fetch-audit_url init s h =
      let own =
        (starts_with_iff (audit_url c) origin).1
          (IsPrefix-append origin c.writer_url "/v1/audit" ((starts_with_iff _ _).0 h)) in
      rw own

  -- Any other request is reported once, whether it succeeds or is rejected; the caller gets the
  -- reply of the original `fetch`, and the id in the event is the one in the outgoing headers,
  -- which is the caller's own where the code finds one.
  pub bat_audit_fetch-correlates :
      (input : Input) (init : Option RequestInit) (s : Surroundings)
      → starts_with (input_url input) origin ≡ false
      → let (reply, actions) = bat_audit_fetch platform c origin input init s in
        let id = existing_id (init_headers init) or_else generate_request_id s.uuid in
        (reply ≡ s.reply)
        × ((hs : Pairs) × (e : AuditEvent) × (actions
              ≡ call_original input
                  (some (record { method = init_method init; headers_init = some (headers hs) }))
                ∷ send e
                ∷ [])
            × (lookup "x-request-id" hs ≡ some id)
            × (e.request_id ≡ some id))
  unfolding bat_audit_fetch
  bat_audit_fetch-correlates input init s h =
      let id = existing_id (init_headers init) or_else generate_request_id s.uuid in
      let hs = new_headers platform.to_lower (init_headers init) in
      (
        refl,
        (
          set_header "x-request-id" id hs,
          observed_event platform c origin input init id s,
          rw h,
          lookup-set_header "x-request-id" id hs,
          refl,
        ),
      )

-- A call with a `Request` and no `init.headers` goes out with an `init` whose only header is the
-- id. `fetch` takes the headers of `init` in place of the request's own.
bat_audit_fetch-own_headers :
    (platform : Platform) (c : BatAuditBrowserClient) (origin url method : String) (own : Pairs)
    (s : Surroundings)
    → starts_with url origin ≡ false
    → (e : AuditEvent) × ((bat_audit_fetch platform c origin (a_request url method own) none s).1
        ≡ call_original (a_request url method own) (
            some (record {
              method = none;
              headers_init = some (headers (("x-request-id", generate_request_id s.uuid) ∷ []));
            }))
          ∷ send e
          ∷ [])
unfolding bat_audit_fetch
bat_audit_fetch-own_headers platform c origin url method own s h = (
  observed_event platform c origin (a_request url method own) none (generate_request_id s.uuid) s,
  rw h,
)
