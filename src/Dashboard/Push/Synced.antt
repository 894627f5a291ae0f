-- ===== src/Dashboard/Push/Synced.antt =====
-- The status, the channel and what is stored agree.
use bataudit.Prelude.{
  Option-cases, inl, inr, is_some, String, true, ◌≡◌, ◌≢◌, refl, Option, none, eq_iff, arith,
}
use bataudit.Prelude.Json.{Json}
use bataudit.Web.Platform.{Platform}
use bataudit.Web.Storage.{get_item, get_item-set_item}
use bataudit.Web.Http.{Server, Browser, Error, Result, ok, err}
use bataudit.Dashboard.Push.{
  PushStatus, active, Worker, Answers, Section, initial, channel_key, detect, activated, enable,
  handle_enable, unsubscribed, handle_disable, click,
}
use bataudit.Dashboard.Push.Kept.{Keeps-unsubscribe}

abbrev Agree : PushStatus → (channel stored : Option String) → Type 0
Agree active channel stored = (stored ≡ channel) × (is_some channel ≡ true)
Agree _ channel stored = channel ≡ none

-- What is stored for the project is the channel where the section is active, and there is no
-- channel where it is not.
abbrev pub IsSynced : String → Section → Type 0
IsSynced project s =
    Agree s.push_status s.channel_id (get_item (channel_key project) s.browser.storage)

module _ (p : Platform) (string_of : Error → String) (text_of : Option Json → String)
    (project : String) where
  -- What can happen after the section has been shown for a project. Other code leaves what is stored
  -- for the project, and the subscription may go away at any time.
  pub data Step : Section → Section → Type 0 where
    clicks :
        (answers : Answers) (vapid_key : Option String) (net : Server) (s : Section)
        → Step s (click p string_of text_of answers project vapid_key net s)
    elsewhere :
        (worker : Worker) (browser : Browser) (s : Section)
        → get_item (channel_key project) browser.storage
          ≡ get_item (channel_key project) s.browser.storage
        → Step s (record s { worker = worker; browser = browser })

  pub data Reach (s : Section) : Section → Type 0 where
    here : Reach s s
    next : {t u : Section} → Reach s t → Step t u → Reach s u

  activated-IsSynced :
      (r : Result (Option Json) × Browser) (s : Section)
      → s.channel_id ≡ none
      → IsSynced project (activated p string_of text_of project r s)
  unfolding activated
  activated-IsSynced (err e, b) s h = h
  activated-IsSynced (ok id, b) s h = (
    rw (get_item-set_item (channel_key project) (channel_key project) (text_of id) b.storage)
        (grind (arith, eq_iff)),
    refl,
  )

  enable-IsSynced :
      (answers : Answers) (vapid_key : Option String) (net : Server) (s : Section)
      → s.channel_id ≡ none
      → s.push_status ≢ active
      → IsSynced project (handle_enable p string_of text_of answers project vapid_key net s)
  unfolding enable
  enable-IsSynced answers vapid_key net s h i = grind (arith, activated-IsSynced)

  unsubscribed-IsSynced :
      (answers : Answers) (r : Result (Option Json) × Browser) (s : Section)
      → s.push_status ≡ active
      → get_item (channel_key project) (r.1).storage
        ≡ get_item (channel_key project) s.browser.storage
      → IsSynced project s
      → IsSynced project (unsubscribed p string_of text_of answers project r s)
  unfolding unsubscribed
  unsubscribed-IsSynced answers r s h k i = ground arith

  click-IsSynced :
      (answers : Answers) (vapid_key : Option String) (net : Server) (s : Section)
      → IsSynced project s
      → IsSynced project (click p string_of text_of answers project vapid_key net s)
  unfolding click handle_disable
  click-IsSynced answers vapid_key net s h =
      grind (arith, enable-IsSynced, unsubscribed-IsSynced, Keeps-unsubscribe p project)

  Step-IsSynced : {s t : Section} → Step s t → IsSynced project s → IsSynced project t
  Step-IsSynced (clicks answers vapid_key net s) h = click-IsSynced answers vapid_key net s h
  Step-IsSynced (elsewhere worker browser s kept) h = ground arith

  Reach-IsSynced : {s t : Section} → Reach s t → IsSynced project s → IsSynced project t
  Reach-IsSynced here h = h
  Reach-IsSynced (next r step) h = Step-IsSynced step (Reach-IsSynced r h)

detect-IsSynced :
    (answers : Answers) (project : String) (worker : Worker) (b : Browser)
    → IsSynced project (detect answers project (initial worker b))
unfolding detect get_item
detect-IsSynced answers project worker b =
    elim (Option-cases (get_item (channel_key project) b.storage)) [
      | inl e ↦ rw e refl
      | inr (x, e) ↦ rw e (ground (arith, e))
    ]

-- From the moment that the section is shown for a project, whatever is stored then, and through
-- any clicks, with any answers of the browser and the server, and with anything that other code
-- does to the rest of the storage and to the subscription: where the section is active, it holds a
-- channel, and that channel is what is stored for the project; where it is not active, it holds
-- none.
pub push-IsSynced :
    (p : Platform) (string_of : Error → String) (text_of : Option Json → String) (project : String)
    (answers : Answers) (worker : Worker) (b : Browser) (s : Section)
    → Reach p string_of text_of project (detect answers project (initial worker b)) s
    → IsSynced project s
push-IsSynced p string_of text_of project answers worker b s reach =
    Reach-IsSynced p string_of text_of project reach (detect-IsSynced answers project worker b)
