-- ===== src/Dashboard/Push/Kept.antt =====
-- What is stored for a project is left by the calls of the server.
use Prim.Native.String.{len, slice}
use mathlib.Core.Bool.{true≢false}
use text.Mathlib.TextPositions.{slice-append_left}
use bataudit.Prelude.{
  ap, sym, ◌∙◌, Bool-cases, inl, inr, [], ◌∷◌, String, false, ◌≡◌, refl, some, str_eq, eq_iff,
  arith,
}
use bataudit.Prelude.Text.{◌<>◌}
use bataudit.Prelude.Json.{Json, str}
use bataudit.Web.Platform.{Platform}
use bataudit.Web.Storage.{get_item, get_item-remove_item}
use bataudit.Web.Http.{
  post, delete, Request, Response, Server, Browser, Result, Api, ◌>>=◌, property, then_do, fetch,
}
use bataudit.Web.Auth.{token_key, user_key, clear_auth}
use bataudit.Web.Api.{log_out, fetch_with_auth}
use bataudit.Web.Clients.Notifications.{subscribe_push, unsubscribe_push}
use bataudit.Web.Clients.Requests.{checked, checked_done, with_body}
use bataudit.Dashboard.Push.{channel_key}

-- The action leaves what is stored under the key.
abbrev pub Keeps : {A : Type 0} → String → Api A → Type 0
Keeps k m = (net : Server) (b : Browser) → get_item k (m net b).1.storage ≡ get_item k b.storage

Keeps-fetch :
    (k : String) (r : Request)
    → str_eq token_key k ≡ false
    → str_eq user_key k ≡ false
    → Keeps k (fetch_with_auth r)
unfolding fetch_with_auth log_out clear_auth fetch
Keeps-fetch k r t u net b = grind (arith, get_item-remove_item, t, u)

-- A text that begins otherwise is another text.
other_prefix : (s t u : String) → str_eq (slice u 0 (len s)) s ≡ false → str_eq u (s <> t) ≡ false
other_prefix s t u h = elim (Bool-cases (str_eq u (s <> t))) [
  | inl same ↦ absurd (
      true≢false (
        sym (
          (eq_iff (slice u 0 (len s)) s).1
            (ap (λ v. slice v 0 (len s)) ((eq_iff u (s <> t)).0 same) ∙ slice-append_left s t))
        ∙ h))
  | inr other ↦ other
]

Keeps-channel : (project : String) (r : Request) → Keeps (channel_key project) (fetch_with_auth r)
Keeps-channel project r =
    Keeps-fetch (channel_key project) r (other_prefix "bat_push_channel_id:" project token_key refl)
      (other_prefix "bat_push_channel_id:" project user_key refl)

-- What is done with a reply changes no storage.
storage-read_id :
    (net : Server) (message : String) (r : Result Response × Browser)
    → (then_do (property "id") net (then_do (checked message) net r)).1.storage ≡ (r.1).storage
storage-read_id net message r = ground arith

storage-checked_done :
    (net : Server) (message : String) (r : Result Response × Browser)
    → (then_do (checked_done message) net r).1.storage ≡ (r.1).storage
storage-checked_done net message r = ground arith

pub Keeps-subscribe :
    (p : Platform) (project : String) (sub : Json)
    → Keeps (channel_key project) (subscribe_push p project sub >>= property "id")
unfolding subscribe_push
Keeps-subscribe p project sub net b =
    let request =
      with_body post (p.base <> "/v1/notifications/push/subscribe")
        (("project_id", some (str project)) ∷ ("subscription", some sub) ∷ []) in
    ap (get_item (channel_key project))
      (storage-read_id net "Failed to subscribe" (fetch_with_auth request net b))
    ∙ Keeps-channel project request net b

pub Keeps-unsubscribe :
    (p : Platform) (kept project channel : String)
    → Keeps (channel_key kept) (unsubscribe_push p project channel)
unfolding unsubscribe_push
Keeps-unsubscribe p kept project channel net b =
    let request =
      with_body delete (p.base <> "/v1/notifications/push/subscribe")
        (("project_id", some (str project)) ∷ ("channel_id", some (str channel)) ∷ []) in
    ap (get_item (channel_key kept))
      (storage-checked_done net "Failed to unsubscribe" (fetch_with_auth request net b))
    ∙ Keeps-channel kept request net b
