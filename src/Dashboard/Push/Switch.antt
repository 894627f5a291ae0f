-- ===== src/Dashboard/Push/Switch.antt =====
-- The section when another project is selected: it is the same component, with its state.
use bataudit.Prelude.{String, true, false, ◌≡◌, ap, ◌∙◌, Option, none, some, str_eq, arith}
use bataudit.Prelude.Text.{truthy_text}
use bataudit.Prelude.Json.{Json}
use bataudit.Web.Platform.{Platform}
use bataudit.Web.Storage.{get_item, get_item-remove_item}
use bataudit.Web.Http.{Server, Browser, Error, Result}
use bataudit.Web.Clients.Notifications.{unsubscribe_push}
use bataudit.Dashboard.Push.{
  active, Answers, Section, channel_key, detect, unsubscribed, handle_disable, click,
}
use bataudit.Dashboard.Push.Kept.{Keeps-unsubscribe}

unsubscribed-other :
    (p : Platform) (string_of : Error → String) (text_of : Option Json → String) (answers : Answers)
    (old new : String) (r : Result (Option Json) × Browser) (s : Section)
    → str_eq (channel_key new) (channel_key old) ≡ false
    → get_item (channel_key old) (unsubscribed p string_of text_of answers new r s).browser.storage
      ≡ get_item (channel_key old) (r.1).storage
unfolding unsubscribed
unsubscribed-other p string_of text_of answers old new r s h =
    grind (arith, get_item-remove_item, h)

detect_nothing :
    (answers : Answers) (project : String) (s : Section)
    → get_item (channel_key project) s.browser.storage ≡ none
    → detect answers project s ≡ s
unfolding detect
detect_nothing answers project s nothing = ground arith

module _ (p : Platform) (string_of : Error → String) (text_of : Option Json → String)
    (answers : Answers) (project channel : String) (vapid_key : Option String) (net : Server)
    (s : Section) where
  click_active :
      s.push_status ≡ active
      → s.channel_id ≡ some channel
      → truthy_text channel ≡ true
      → click p string_of text_of answers project vapid_key net s
        ≡ unsubscribed p string_of text_of answers project
            (unsubscribe_push p project channel net s.browser)
            s
  unfolding click handle_disable
  click_active on held filled = ground arith

-- Where the section is active for a project and another one is selected, for which nothing is
-- stored, it stays active with the channel of the first; its button then asks the server to remove
-- that channel from the second project, and leaves what is stored for the first.
pub switch_stale :
    (p : Platform) (string_of : Error → String) (text_of : Option Json → String) (answers : Answers)
    (old new channel : String) (vapid_key : Option String) (net : Server) (s : Section)
    → s.push_status ≡ active
    → s.channel_id ≡ some channel
    → truthy_text channel ≡ true
    → get_item (channel_key new) s.browser.storage ≡ none
    → str_eq (channel_key new) (channel_key old) ≡ false
    → let after = click p string_of text_of answers new vapid_key net (detect answers new s) in
      (detect answers new s ≡ s)
      × (after
          ≡ unsubscribed p string_of text_of answers new
              (unsubscribe_push p new channel net s.browser)
              s)
      × (get_item (channel_key old) after.browser.storage
          ≡ get_item (channel_key old) s.browser.storage)
switch_stale p string_of text_of answers old new channel vapid_key net s on held filled nothing
      other =
    let same = detect_nothing answers new s nothing in
    let asked =
      ap (click p string_of text_of answers new vapid_key net) same
      ∙ click_active p string_of text_of answers new channel vapid_key net s on held filled in
    (
      same,
      asked,
      ap (λ (t : Section). get_item (channel_key old) t.browser.storage) asked
          ∙ unsubscribed-other p string_of text_of answers old new
              (unsubscribe_push p new channel net s.browser) s other
          ∙ Keeps-unsubscribe p old new channel net s.browser,
    )
