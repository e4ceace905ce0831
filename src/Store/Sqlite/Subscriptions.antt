-- ===== src/Store/Sqlite/Subscriptions.antt =====
-- The push subscriptions of src/store/sqlite.rs.
use anony_mail.Base.{
  ℕ, Bool, ◌&&◌, Option, none, some, List, ltb, leb, if◌then◌else◌, ◌==◌, Result, retain, find, ok,
  err, nat_eq, str_eq,
}
use anony_mail.Base.Results.{◌>>=◌, map_err, collect}
use anony_mail.Base.Sort.{sort_by}
use anony_mail.Base.Table.{update_where, delete_where, rows_where}
use anony_mail.Base.Text.{Str}
use anony_mail.Model.{Time, Uuid, PushSubscription}
use anony_mail.Model.Kinds.{SubscriptionKind, UnknownWord, kind_as_str, kind_from_str}
use anony_mail.Store.{StoreError, subscription_limit, backend_failure}
use anony_mail.Store.Sqlite.{
  UuidCodec, Db, PushSubscriptionRow, parse_uuid, is_subscription, insert_subscription, commit,
}

unfoldable pub subscription_from :
    UuidCodec → PushSubscriptionRow → Result PushSubscription StoreError
unfolding parse_uuid
subscription_from uuid r = do
  id ← parse_uuid uuid r.id
  kind ← map_err (λ (e : UnknownWord). backend_failure) (kind_from_str r.kind)
  ok (record {
    id = id;
    mailbox_address = r.mailbox_address;
    kind = kind;
    endpoint = r.endpoint;
    p256dh = r.p256dh;
    auth = r.auth;
    created_at = r.created_at;
  })

unfoldable pub subscribed_to : Str → PushSubscriptionRow → Bool
subscribed_to address s = s.mailbox_address == address

unfoldable pub refresh :
    UuidCodec
    → SubscriptionKind
    → Str
    → Str
    → PushSubscriptionRow
    → Db
    → Result PushSubscription StoreError × Db
unfolding subscription_from update_where kind_as_str
refresh uuid kind p256dh auth row db = (
  do
    sub ← subscription_from uuid row
    ok (record sub { kind = kind; p256dh = p256dh; auth = auth }),
  record db {
    push_subscriptions =
        update_where (λ s. s.id == row.id)
          (λ s. record s { kind = kind_as_str kind; p256dh = p256dh; auth = auth })
          db.push_subscriptions;
  },
)

unfoldable pub insert_new :
    UuidCodec → PushSubscription → Db → Result (PushSubscription × Db) StoreError
unfolding insert_subscription kind_as_str
insert_new uuid sub db = do
  db' ←
      insert_subscription
        (record {
          id = uuid.to_string sub.id;
          mailbox_address = sub.mailbox_address;
          kind = kind_as_str sub.kind;
          endpoint = sub.endpoint;
          p256dh = sub.p256dh;
          auth = sub.auth;
          created_at = sub.created_at;
        })
        db
  ok (sub, db')

-- At the row with the endpoint, if there is one. The refresh is committed before its row is
-- converted for the answer.
unfoldable pub add_or_refresh :
    UuidCodec
    → ℕ
    → PushSubscription
    → Db
    → Option PushSubscriptionRow
    → Result PushSubscription StoreError × Db
unfolding subscribed_to rows_where refresh insert_new
add_or_refresh uuid max_per_mailbox sub db (some row) =
    refresh uuid sub.kind sub.p256dh sub.auth row db
add_or_refresh uuid max_per_mailbox sub db none =
    if ltb 0 max_per_mailbox
      && leb max_per_mailbox (rows_where (subscribed_to sub.mailbox_address) db.push_subscriptions)
    then (err (subscription_limit max_per_mailbox), db)
    else commit db (insert_new uuid sub db)

unfoldable pub add_subscription :
    UuidCodec
    → Uuid
    → Time
    → Db
    → Str
    → SubscriptionKind
    → Str
    → Str
    → Str
    → ℕ
    → Result PushSubscription StoreError × Db
unfolding is_subscription add_or_refresh
add_subscription uuid id created_at db address kind endpoint p256dh auth max_per_mailbox =
    let sub : PushSubscription = record {
      id = id;
      mailbox_address = address;
      kind = kind;
      endpoint = endpoint;
      p256dh = p256dh;
      auth = auth;
      created_at = created_at;
    } in
    add_or_refresh uuid max_per_mailbox sub db
      (find (is_subscription address endpoint) db.push_subscriptions)

-- ORDER BY created_at
unfoldable pub by_creation : PushSubscriptionRow → PushSubscriptionRow → Bool
by_creation a b = ltb a.created_at b.created_at

unfoldable pub list_subscriptions : UuidCodec → Db → Str → Result (List PushSubscription) StoreError
unfolding subscribed_to by_creation subscription_from
list_subscriptions uuid db address =
    collect (subscription_from uuid)
      (sort_by by_creation (retain (subscribed_to address) db.push_subscriptions))

unfoldable pub delete_subscription : Db → Str → Str → Bool × Db
unfolding is_subscription delete_where rows_where
delete_subscription db address endpoint = (
  ltb 0 (rows_where (is_subscription address endpoint) db.push_subscriptions),
  record db {
    push_subscriptions = delete_where (is_subscription address endpoint) db.push_subscriptions;
  },
)
