-- ===== src/Store/Memory/Subscriptions.antt =====
-- The push subscriptions of src/store/memory.rs.
use anony_mail.Base.{
  ℕ, Bool, not, ◌&&◌, ◌==◌, nat_eq, str_eq, none, some, List, [], ◌∷◌, ◌++◌, length, retain, find,
  Result, ok, err, ltb, leb, if◌then◌else◌,
}
use anony_mail.Base.Text.{Str}
use anony_mail.Model.{Time, Uuid, PushSubscription}
use anony_mail.Model.Kinds.{SubscriptionKind}
use anony_mail.Store.{StoreError, subscription_limit}
use anony_mail.Store.Memory.{Inner}

unfoldable pub is_subscription : Str → Str → PushSubscription → Bool
is_subscription address endpoint s = s.mailbox_address == address && s.endpoint == endpoint

unfoldable pub subscribed_to : Str → PushSubscription → Bool
subscribed_to address s = s.mailbox_address == address

unfoldable pub refreshed : SubscriptionKind → Str → Str → PushSubscription → PushSubscription
refreshed kind p256dh auth s = record s { kind = kind; p256dh = p256dh; auth = auth }

-- The write through `iter_mut().find(..)`.
unfoldable pub refresh :
    (PushSubscription → Bool)
    → (PushSubscription → PushSubscription)
    → List PushSubscription
    → List PushSubscription
refresh p change [] = []
refresh p change (s ∷ ss) = if p s then change s ∷ ss else s ∷ refresh p change ss

unfoldable pub add_subscription :
    Uuid
    → Time
    → Inner
    → Str
    → SubscriptionKind
    → Str
    → Str
    → Str
    → ℕ
    → Result PushSubscription StoreError × Inner
unfolding is_subscription subscribed_to refreshed refresh
add_subscription new_id now inner address kind endpoint p256dh auth max_per_mailbox =
    let sub : PushSubscription = record {
      id = new_id;
      mailbox_address = address;
      kind = kind;
      endpoint = endpoint;
      p256dh = p256dh;
      auth = auth;
      created_at = now;
    } in
    let count = length (retain (subscribed_to address) inner.subscriptions) in
    elim (find (is_subscription address endpoint) inner.subscriptions) [
      | some existing ↦ (
        ok (refreshed kind p256dh auth existing),
        record inner {
          subscriptions =
              refresh (is_subscription address endpoint) (refreshed kind p256dh auth)
                inner.subscriptions;
        },
      )
      | none ↦
          if ltb 0 max_per_mailbox && leb max_per_mailbox count
          then (err (subscription_limit max_per_mailbox), inner)
          else (ok sub, record inner { subscriptions = inner.subscriptions ++ sub ∷ [] })
    ]

unfoldable pub list_subscriptions : Inner → Str → List PushSubscription
unfolding subscribed_to
list_subscriptions inner address = retain (subscribed_to address) inner.subscriptions

unfoldable pub delete_subscription : Inner → Str → Str → Bool × Inner
unfolding is_subscription
delete_subscription inner address endpoint =
    let rest = retain (λ s. not (is_subscription address endpoint s)) inner.subscriptions in
    (not (length rest == length inner.subscriptions), record inner { subscriptions = rest })
