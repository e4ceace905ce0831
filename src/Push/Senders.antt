-- ===== src/Push/Senders.antt =====
-- The senders of src/push.rs. What the crates web-push, a2 and serde_json make of their arguments is a
-- parameter.
use anony_mail.Base.{ℕ, Bool, true, Option, none, some, Result, ok, err}
use anony_mail.Base.Text.{Str}
use anony_mail.Config.{Config}
use anony_mail.Model.{Uuid, Bytes, PushSubscription}
use anony_mail.Push.{PushOutcome, delivered, gone, transient_failure, PushPayload, alert, Sender}

pub data WebPushError : Type 0 where
  endpoint_not_found endpoint_not_valid other_error : WebPushError

-- The VAPID key, a message signed and built, and what becomes of a request by its number.
pub record WebPushCrate : Type 0 where
  pub to_vec : PushPayload → Option Bytes
  pub from_base64_no_sub : Str → Option Bytes
  pub sign : Bytes → Str → Str → Str → Str → Option Bytes
  pub build : Str → Str → Str → Bytes → Bytes → Option Bytes
  pub send : ℕ → Bytes → Result (Unit {0}) WebPushError

pub record WebPushSender : Type 0 where
  pub signature_builder : Bytes
  pub subject : Str

module _ (crate : WebPushCrate) where
  abbrev web_push_sender : Config → Option Bytes → Option WebPushSender
  web_push_sender config none = none
  web_push_sender config (some builder) =
      some (record { signature_builder = builder; subject = config.vapid_subject })

  -- `WebPushSender::from_config`
  unfoldable pub web_push_from_config : Config → Option WebPushSender
  web_push_from_config config = elim config.vapid_private_key [
    | none ↦ none
    | some private_key ↦ web_push_sender config (crate.from_base64_no_sub private_key)
  ]

  abbrev pub web_push_outcome : Result (Unit {0}) WebPushError → PushOutcome
  web_push_outcome (ok u) = delivered
  web_push_outcome (err endpoint_not_found) = gone
  web_push_outcome (err endpoint_not_valid) = gone
  web_push_outcome (err other_error) = transient_failure

  abbrev send_built : ℕ → Option Bytes → PushOutcome
  send_built n none = gone
  send_built n (some message) = web_push_outcome (crate.send n message)

  abbrev send_signed : ℕ → PushSubscription → Bytes → Option Bytes → PushOutcome
  send_signed n sub payload none = gone
  send_signed n sub payload (some signature) =
      send_built n (crate.build sub.endpoint sub.p256dh sub.auth signature payload)

  abbrev send_encoded : ℕ → WebPushSender → PushSubscription → Option Bytes → PushOutcome
  send_encoded n sender sub none = transient_failure
  send_encoded n sender sub (some payload) =
      send_signed n sub payload
        (crate.sign sender.signature_builder sub.endpoint sub.p256dh sub.auth sender.subject)

  -- `WebPushSender::send`
  unfoldable pub web_push_send : WebPushSender → Sender
  web_push_send sender n sub payload = send_encoded n sender sub (crate.to_vec payload)

pub data ApnsReason : Type 0 where
  unregistered bad_device_token other_reason : ApnsReason

-- `a2::Error`: a response with its reason, if it has one, or another failure.
pub data ApnsError : Type 0 where
  response_error : Option ApnsReason → ApnsError
  other_failure : ApnsError

pub record NotificationOptions : Type 0 where
  pub apns_topic : Str
  pub is_alert : Bool
  pub apns_collapse_id : Option Str

-- The client for a key, a key identifier, a team and a choice of endpoint; a collapse identifier of a
-- text; a notification with its custom data; and what becomes of a request by its number.
pub record ApnsCrate : Type 0 where
  pub token : Str → Str → Str → Bool → Option ℕ
  pub collapse_id : Str → Option Str
  pub build : Str → Str → Str → NotificationOptions → PushPayload → Option Bytes
  pub send : ℕ → ℕ → Bytes → Result (Unit {0}) ApnsError

pub record ApnsSender : Type 0 where
  pub client : ℕ
  pub topic : Str

module _ (crate : ApnsCrate) (show : Uuid → Str) where
  abbrev apns_sender : Str → Option ℕ → Option ApnsSender
  apns_sender topic none = none
  apns_sender topic (some client) = some (record { client = client; topic = topic })

  -- With the four settings at hand.
  abbrev apns_of : Bool → Option Str → Option Str → Option Str → Option Str → Option ApnsSender
  apns_of sandbox (some key) (some key_id) (some team_id) (some topic) =
      apns_sender topic (crate.token key key_id team_id sandbox)
  apns_of sandbox none key_id team_id topic = none
  apns_of sandbox (some key) none team_id topic = none
  apns_of sandbox (some key) (some key_id) none topic = none
  apns_of sandbox (some key) (some key_id) (some team_id) none = none

  -- `ApnsSender::from_config`
  unfoldable pub apns_from_config : Config → Option ApnsSender
  apns_from_config config =
      apns_of config.apns_sandbox config.apns_private_key config.apns_key_id config.apns_team_id
        config.apns_topic

  unfoldable pub apns_notification_options : Str → Str → NotificationOptions
  apns_notification_options topic collapse = record {
    apns_topic = topic;
    is_alert = true;
    apns_collapse_id = crate.collapse_id collapse;
  }

  abbrev pub apns_outcome : Result (Unit {0}) ApnsError → PushOutcome
  apns_outcome (ok u) = delivered
  apns_outcome (err (response_error (some unregistered))) = gone
  apns_outcome (err (response_error (some bad_device_token))) = gone
  apns_outcome (err (response_error (some other_reason))) = transient_failure
  apns_outcome (err (response_error none)) = transient_failure
  apns_outcome (err other_failure) = transient_failure

  abbrev send_notification : ℕ → ApnsSender → Option Bytes → PushOutcome
  send_notification n sender none = transient_failure
  send_notification n sender (some notification) =
      apns_outcome (crate.send n sender.client notification)

  -- `ApnsSender::send`
  unfoldable pub apns_send : ApnsSender → Sender
  unfolding apns_notification_options
  apns_send sender n sub payload =
      let (title, body) = alert payload in
      send_notification n sender (
        crate.build title body sub.endpoint
          (apns_notification_options sender.topic (show payload.id)) payload)
