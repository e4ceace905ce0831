-- ===== src/Api/Push.antt =====
-- src/api/push.rs: the registration of push subscriptions, over any `Store`.
use anony_mail.Base.{
  not, ◌||◌, Option, none, some, [], ◌++◌, ltb, if◌then◌else◌, Result, any, ok, err,
}
use anony_mail.Base.Text.{
  Str, text, is_empty, is_whitespace, to_ascii_lowercase, trim, trimmed, starts_with, len, decimal,
}
use anony_mail.Config.{Config, push_configured, apns_configured}
use anony_mail.Model.{Uuid, PushSubscription}
use anony_mail.Model.Kinds.{SubscriptionKind, web_push, apns}
use anony_mail.Store.{Store, StoreError, unique_violation, subscription_limit, backend_failure}
use anony_mail.Api.{
  ApiError, not_found, bad_request, too_many_requests, service_unavailable, internal,
}
use anony_mail.Api.Addresses.Manage.{owner_only}
use anony_mail.Api.Handler.{
  Surroundings, Headers, Handler, ◌>>=◌, ◌>>◌, return, throw, require, some_or, from_result,
  calling, writing,
}

pub record SubscriptionKeys : Type 0 where
  pub p256dh : Str
  pub auth : Str

pub record SubscribeRequest : Type 0 where
  pub kind : Option SubscriptionKind
  pub endpoint : Option Str
  pub keys : Option SubscriptionKeys
  pub device_token : Option Str

pub record UnsubscribeRequest : Type 0 where
  pub endpoint : Option Str
  pub device_token : Option Str

-- What is to be stored of a request.
pub record Target : Type 0 where
  pub kind : SubscriptionKind
  pub endpoint : Str
  pub p256dh : Str
  pub auth : Str

unfoldable pub inferred_kind :
    Option SubscriptionKind → Option Str → Option Str → Result SubscriptionKind ApiError
inferred_kind (some k) endpoint device_token = ok k
inferred_kind none (some e) none = ok web_push
inferred_kind none none (some d) = ok apns
inferred_kind none (some e) (some d) =
    err (bad_request (text "provide either endpoint+keys (webpush) or device_token (apns)"))
inferred_kind none none none =
    err (bad_request (text "provide either endpoint+keys (webpush) or device_token (apns)"))

abbrev pub with_keys : Str → Option SubscriptionKeys → Result Target ApiError
with_keys endpoint none =
    err (bad_request (text "webpush subscriptions require keys: { p256dh, auth }"))
with_keys endpoint (some keys) =
    let p256dh = trim keys.p256dh in
    let auth = trim keys.auth in
    if is_empty p256dh || ltb 256 (len p256dh) || is_empty auth || ltb 128 (len auth)
    then err (
        bad_request (
          text
            "keys.p256dh and keys.auth must be the base64url values from the browser subscription"))
    else ok (record { kind = web_push; endpoint = endpoint; p256dh = p256dh; auth = auth })

unfoldable pub web_target : Option SubscriptionKeys → Option Str → Result Target ApiError
web_target keys none = err (bad_request (text "webpush subscriptions require endpoint"))
web_target keys (some endpoint) =
    if not (starts_with endpoint (text "https://"))
    then err (bad_request (text "endpoint must be an https:// push-service URL"))
    else if ltb 2048 (len endpoint)
    then err (bad_request (text "endpoint too long"))
    else with_keys endpoint keys

unfoldable pub apns_target : Option Str → Result Target ApiError
apns_target none = err (bad_request (text "apns subscriptions require device_token"))
apns_target (some token) =
    if ltb 200 (len token) || any is_whitespace token
    then err (
        bad_request
          (text "device_token must be the hex token from didRegisterForRemoteNotifications"))
    else ok (record { kind = apns; endpoint = token; p256dh = []; auth = [] })

unfoldable pub target_of :
    SubscribeRequest → Result SubscriptionKind ApiError → Result Target ApiError
unfolding web_target apns_target
target_of req (err e) = err e
target_of req (ok web_push) = web_target req.keys (trimmed req.endpoint)
target_of req (ok apns) = apns_target (trimmed req.device_token)

unfoldable pub validate_subscription : SubscribeRequest → Result Target ApiError
unfolding target_of inferred_kind
validate_subscription req = target_of req (inferred_kind req.kind req.endpoint req.device_token)

unfoldable pub channel : Config → SubscriptionKind → Result (Unit {0}) ApiError
channel config web_push =
    if not (push_configured config)
    then err (service_unavailable (text "web push not configured"))
    else ok tt
channel config apns =
    if not (apns_configured config)
    then err (service_unavailable (text "apns not configured"))
    else ok tt

abbrev pub identifier_of : UnsubscribeRequest → Option Str
identifier_of req = trimmed (elim req.endpoint [ some e ↦ some e | none ↦ req.device_token ])

module _ (sur : Surroundings) (store : Store) where
  unfoldable pub registered :
      Result PushSubscription StoreError → Handler store.State (Uuid × SubscriptionKind)
  registered (ok sub) = return (sub.id, sub.kind)
  registered (err (subscription_limit limit)) = throw (
      too_many_requests
        (text "push subscription limit reached (" ++ decimal limit ++ text " per mailbox)"))
  registered (err (unique_violation m)) = throw internal
  registered (err backend_failure) = throw internal

  -- `POST /api/addresses/{address}/subscriptions` with a body.
  unfoldable pub subscribe :
      Headers → Str → SubscribeRequest → Handler store.State (Uuid × SubscriptionKind)
  subscribe headers raw req = do
    target ← from_result (validate_subscription req)
    from_result (channel sur.config target.kind)
    let address = to_ascii_lowercase raw
    owner_only sur store headers address
    made ← calling (λ db.
        store.add_subscription db address target.kind target.endpoint target.p256dh target.auth
          sur.config.max_subscriptions_per_mailbox)
    registered made

  -- `DELETE /api/addresses/{address}/subscriptions` with a body.
  unfoldable pub unsubscribe : Headers → Str → UnsubscribeRequest → Handler store.State (Unit {0})
  unsubscribe headers raw req = do
    identifier ←
        some_or (identifier_of req)
          (bad_request (text "body must be: { endpoint } or { device_token }"))
    let address = to_ascii_lowercase raw
    owner_only sur store headers address
    found ← writing (λ db. store.delete_subscription db address identifier)
    require found (not_found (text "subscription not found"))
