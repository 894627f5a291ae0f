-- ===== src/Dashboard/Push.antt =====
-- `PushSection` of frontend/src/routes/app/_layout/settings/notifications.tsx: the push
-- subscription of this browser to the alerts of a project. A handler is run to its end; what the
-- browser answers to its calls is an argument.
pub mod ServiceWorker
pub mod Kept
pub mod Synced
pub mod Switch
use bataudit.Prelude.{
  ℕ, ◌-◌, ◌%◌, String, Bool, true, false, not, ◌&&◌, ◌==◌, Option, none, some, [], ◌∷◌, str_eq,
  if◌then◌else◌,
}
use bataudit.Prelude.Text.{◌<>◌, truthy, truthy_text}
use bataudit.Prelude.Json.{Json}
use bataudit.Web.Platform.{Platform}
use bataudit.Web.Storage.{Storage, get_item, set_item, remove_item}
use bataudit.Web.Http.{Server, Browser, Error, Result, ok, err, Api, ◌>>=◌, property}
use bataudit.Web.Clients.Notifications.{subscribe_push, unsubscribe_push}
use bataudit.Dashboard.PushKey.{base64_of}

pub data PushStatus : Type 0 where
  idle active error : PushStatus

-- What the browser has: the two interfaces, a registration of `/sw.js`, and its subscription.
pub record Worker : Type 0 where
  pub has_service_worker : Bool
  pub has_push_manager : Bool
  pub registered : Bool
  pub subscribed : Bool

-- How the browser answers the calls of a handler, with the exception where one rejects.
pub record Answers : Type 0 where
  pub register : Result Unit
  pub request_permission : Result String
  -- Of the key in base64, decoded: the subscription.
  pub subscribe : String → Result Json
  -- `getRegistration` and `getSubscription`
  pub look_up : Result Unit
  pub unsubscribe : Result Unit

-- The state of the component, and of what it changes.
pub record Section : Type 0 where
  pub push_status : PushStatus
  pub channel_id : Option String
  pub error_msg : String
  pub worker : Worker
  pub browser : Browser

abbrev pub initial : Worker → Browser → Section
initial worker browser = record {
  push_status = idle;
  channel_id = none;
  error_msg = "";
  worker = worker;
  browser = browser;
}

abbrev pub channel_key : String → String
channel_key project = "bat_push_channel_id:" <> project

abbrev pub change_storage : (Storage → Storage) → Section → Section
change_storage f s = record s { browser = record s.browser { storage = f s.browser.storage } }

-- `setErrorMsg(String(e))`
abbrev pub caught : (Error → String) → Error → Section → Section
caught string_of e s = record s { error_msg = string_of e }

-- The effect, which is run when the component is shown and when its project changes.
unfoldable pub detect : Answers → (project : String) → Section → Section
detect answers project s = elim (get_item (channel_key project) s.browser.storage) [
  | none ↦ s
  | some stored ↦
      if not (truthy_text stored)
      then s
      else if not s.worker.has_service_worker
      then s
      else elim answers.look_up [
        | err e ↦ s
        | ok _ ↦
            if s.worker.registered && s.worker.subscribed
            then record s { channel_id = some stored; push_status = active }
            else change_storage (remove_item (channel_key project)) s
      ]
]

module _ (p : Platform) (string_of : Error → String) (text_of : Option Json → String) where
  -- The call of the server has ended: `channel.id` is kept, as the text that it is by its type.
  unfoldable pub activated : (project : String) → Result (Option Json) × Browser → Section → Section
  activated project (err e, b) s = record (caught string_of e (record s { browser = b })) {
    push_status = error;
  }
  activated project (ok id, b) s =
      record (change_storage (set_item (channel_key project) (text_of id))
        (record s { browser = b })) { channel_id = some (text_of id); push_status = active }

  abbrev failed : Error → Section → Section
  failed e s = record (caught string_of e s) { push_status = error }

  -- `try { … }` of `handleEnable`, after the interfaces have been found.
  unfoldable pub enable :
      Answers → (project : String) → (vapid_key : Option String) → Server → Section → Section
  enable answers project vapid_key net s = elim answers.register [
    | err e ↦ failed e s
    | ok _ ↦ elim answers.request_permission [
      | err e ↦ failed e (record s { worker = record s.worker { registered = true } })
      | ok perm ↦
          let r = record s { worker = record s.worker { registered = true } } in
          if not (str_eq perm "granted")
          then record r { error_msg = "Notification permission denied." }
          else elim vapid_key [
            | none ↦ record r { error_msg = "VAPID key not available." }
            | some key ↦
                if not (truthy_text key)
                then record r { error_msg = "VAPID key not available." }
                else elim (answers.subscribe (base64_of key)) [
                  | err e ↦ failed e r
                  | ok sub ↦
                      activated project
                        ((subscribe_push p project sub >>= property "id") net r.browser)
                        (record r { worker = record r.worker { subscribed = true } })
                ]
          ]
    ]
  ]

  abbrev pub handle_enable :
      Answers → (project : String) → (vapid_key : Option String) → Server → Section → Section
  handle_enable answers project vapid_key net s =
      let r = record s { error_msg = "" } in
      if not (s.worker.has_service_worker && s.worker.has_push_manager)
      then record r { error_msg = "Push notifications are not supported in this browser." }
      else enable answers project vapid_key net r

  -- `handleDisable` after the call of the server.
  unfoldable pub unsubscribed :
      Answers → (project : String) → Result (Option Json) × Browser → Section → Section
  unsubscribed answers project (err e, b) s = caught string_of e (record s { browser = b })
  unsubscribed answers project (ok _, b) s =
      let r = record s { browser = b } in
      let cleared = record (change_storage (remove_item (channel_key project)) r) {
        push_status = idle;
        channel_id = none;
      } in
      elim answers.look_up [
        | err e ↦ caught string_of e r
        | ok _ ↦
            if not (s.worker.registered && s.worker.subscribed)
            then cleared
            else elim answers.unsubscribe [
              | err e ↦ caught string_of e r
              | ok _ ↦ record cleared { worker = record s.worker { subscribed = false } }
            ]
      ]

  unfoldable pub handle_disable : Answers → (project : String) → Server → Section → Section
  handle_disable answers project net s = elim s.channel_id [
    | none ↦ s
    | some channel ↦
        if not (truthy_text channel)
        then s
        else unsubscribed answers project (unsubscribe_push p project channel net s.browser) s
  ]

  -- The one button that is shown, for the status.
  unfoldable pub click :
      Answers → (project : String) → (vapid_key : Option String) → Server → Section → Section
  click answers project vapid_key net s = elim s.push_status [
    | active ↦ handle_disable answers project net s
    | _ ↦ handle_enable answers project vapid_key net s
  ]
