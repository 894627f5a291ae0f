-- ===== src/Web/Clients/Notifications.antt =====
-- frontend/src/http/notifications.ts: push subscriptions and webhooks.
use mathlib.Core.Option
use bataudit.Prelude.{String, Option, some, [], ◌∷◌}
use bataudit.Prelude.Text.{◌<>◌}
use bataudit.Prelude.Json.{Json, str}
use bataudit.Web.Platform.{Platform}
use bataudit.Web.Http.{get, post, delete, Api, ◌>>=◌, property}
use bataudit.Web.Api.{fetch_with_auth}
use bataudit.Web.Clients.Requests.{plain, with_body, checked, checked_done}

module _ (p : Platform) where
  unfoldable pub get_vapid_public_key : Api (Option Json)
  get_vapid_public_key = do
    res ← fetch_with_auth (plain get (p.base <> "/v1/notifications/push/vapid-public-key"))
    json ← checked "Failed to fetch VAPID key" res
    property "public_key" json

  -- The subscription as `toJSON` gives it.
  unfoldable pub subscribe_push : String → Json → Api Json
  subscribe_push project_id subscription = do
    res ← fetch_with_auth (
        with_body post (p.base <> "/v1/notifications/push/subscribe")
          (("project_id", some (str project_id)) ∷ ("subscription", some subscription) ∷ []))
    checked "Failed to subscribe" res

  unfoldable pub unsubscribe_push : (project_id channel_id : String) → Api (Option Json)
  unsubscribe_push project_id channel_id = do
    res ← fetch_with_auth (
        with_body delete (p.base <> "/v1/notifications/push/subscribe")
          (("project_id", some (str project_id)) ∷ ("channel_id", some (str channel_id)) ∷ []))
    checked_done "Failed to unsubscribe" res

  abbrev webhooks_url : String
  webhooks_url = p.base <> "/v1/notifications/webhooks"

  unfoldable pub list_webhooks : String → Api Json
  list_webhooks project_id = do
    res ←
        fetch_with_auth
          (plain get (webhooks_url <> "?project_id=" <> p.encode_uri_component project_id))
    checked "Failed to list webhooks" res

  unfoldable pub create_webhook : (project_id url : String) → Option String → Api Json
  create_webhook project_id url secret = do
    res ← fetch_with_auth (
        with_body post webhooks_url (
          ("project_id", some (str project_id))
          ∷ ("url", some (str url))
          ∷ ("secret", Option.map str secret)
          ∷ []))
    checked "Failed to create webhook" res

  unfoldable pub delete_webhook : (project_id webhook_id : String) → Api (Option Json)
  delete_webhook project_id webhook_id = do
    res ← fetch_with_auth (
        plain delete (
          webhooks_url <> "/" <> webhook_id <> "?project_id=" <> p.encode_uri_component project_id))
    checked_done "Failed to delete webhook" res

  unfoldable pub test_webhook : (project_id webhook_id : String) → Api Json
  test_webhook project_id webhook_id = do
    res ← fetch_with_auth (
        plain post (
          webhooks_url
          <> "/"
          <> webhook_id
          <> "/test?project_id="
          <> p.encode_uri_component project_id))
    checked "Webhook test failed" res

  unfoldable pub list_deliveries : String → Api Json
  list_deliveries webhook_id = do
    res ← fetch_with_auth (plain get (webhooks_url <> "/" <> webhook_id <> "/deliveries"))
    checked "Failed to list deliveries" res
