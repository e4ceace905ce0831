-- ===== src/Store/Sqlite/Sound.antt =====
-- Every operation of src/store/sqlite.rs keeps the constraints of the schema.
pub mod Calls
use anony_mail.Base.{
  ℕ, ◌+◌, ◌≡◌, refl, inl, inr, Bool, true, false, not, Option, none, some, List, [], ◌∷◌, ltb,
  if◌then◌else◌, ◌==◌, Bool-cases, Result, find, ok, err, nat_eq, str_eq,
}
use anony_mail.Base.Table.{update_where}
use anony_mail.Base.Table.Keys.{
  Distinct-append, Distinct-delete_where, Distinct-update_where, All-delete_where, All-update_where,
  find-none,
}
use anony_mail.Base.Results.{Gives, >>=-Gives}
use anony_mail.Base.Text.{Str}
use anony_mail.Model.{Time, Uuid, NewAttachment, NewMessage, PushSubscription}
use anony_mail.Model.Kinds.{kind_as_str, SubscriptionKind}
use anony_mail.Store.{StoreError, MailboxQuotas, subscription_limit}
use anony_mail.Store.Steps.{
  Call, create_mailbox, extend_mailbox, delete_mailbox, rotate_owner_token, save_message,
  delete_message, mark_seen, delete_all_messages, purge_expired, add_subscription,
  delete_subscription, create_custom_domain, delete_custom_domain, record_custom_domain_check,
  upsert_attested_device, advance_attested_device_counter, prune_attested_devices, run_maintenance,
  call, Reachable, Reachable-ind,
}
use anony_mail.Store.Sqlite.{
  UuidCodec, Db, empty_db, PushSubscriptionRow, AttestedDeviceRow, has_mailbox, commit,
  insert_message, insert_attachment,
}
use anony_mail.Store.Sqlite.Integrity.{
  IsSound, subscription_id, domain_of, key_of, delete_messages-IsSound, delete_mailboxes-IsSound,
  update_mailboxes-IsSound, update_messages-IsSound, subscriptions-IsSound, claims-IsSound,
  devices-IsSound,
}
use anony_mail.Store.Sqlite.Insertions.{
  insert_mailbox-IsSound, insert_message-IsSound, insert_attachment-IsSound,
  insert_subscription-IsSound, insert_custom_domain-IsSound,
}
use anony_mail.Store.Sqlite.Mailboxes
use anony_mail.Store.Sqlite.Messages
use anony_mail.Store.Sqlite.Inbox
use anony_mail.Store.Sqlite.Subscriptions
use anony_mail.Store.Sqlite.Claims
use anony_mail.Store.Sqlite.Devices
use anony_mail.Store.Sqlite.Devices.{of_key}
use anony_mail.Store.Sqlite.Backend.{SqliteStore, sqlite_store, new, with_quotas}

-- What a step of a transaction returns with the tables, where they keep the constraints.
abbrev pub Kept : {A : Type 0} → A × Db → Type 0
Kept p = IsSound p.1

-- A transaction keeps the constraints, whether it is committed or not.
pub commit-IsSound :
    {A : Type 0} (db : Db) (r : Result (A × Db) StoreError)
    → IsSound db
    → Gives Kept r
    → IsSound (commit db r).1
commit-IsSound db (ok p) w v = v
commit-IsSound db (err e) w v = w

pub insert_attachments-IsSound :
    (uuid : UuidCodec) (new_v4 : ℕ → Uuid) (i : ℕ) (message_id : Str) (atts : List NewAttachment)
    (db : Db)
    → IsSound db
    → Gives Kept (Messages.insert_attachments uuid new_v4 i message_id atts db)
unfolding Messages.insert_attachments
insert_attachments-IsSound uuid new_v4 i message_id [] db w = w
insert_attachments-IsSound uuid new_v4 i message_id (att ∷ atts) db w =
    let row = Messages.attachment_row uuid (new_v4 i) message_id att in
    >>=-Gives IsSound Kept (insert_attachment row db) _ (insert_attachment-IsSound row db w)
      λ db' w'.
        >>=-Gives Kept Kept (Messages.insert_attachments uuid new_v4 (i + 1) message_id atts db') _
          (insert_attachments-IsSound uuid new_v4 (i + 1) message_id atts db' w') (λ p v. v)

enforce-IsSound :
    (quotas : MailboxQuotas) (address id : Str) (db : Db)
    → IsSound db
    → IsSound (
        Messages.enforce_max_bytes quotas address id
          (Messages.enforce_max_messages quotas address db))
unfolding Messages.enforce_max_bytes Messages.enforce_max_messages
enforce-IsSound quotas address id db w = bytes (counted w)
  where
    counted : IsSound db → IsSound (Messages.enforce_max_messages quotas address db)
    counted w = elim (Bool-cases (ltb 0 quotas.max_messages)) [
      | inl t ↦ rw t (delete_messages-IsSound _ db w)
      | inr n ↦ rw n w
    ]

    bytes : {db' : Db} → IsSound db' → IsSound (Messages.enforce_max_bytes quotas address id db')
    bytes {db'} w = elim (Bool-cases (ltb 0 quotas.max_bytes)) [
      | inl t ↦ rw t (delete_messages-IsSound _ db' w)
      | inr n ↦ rw n w
    ]

pub save_message-IsSound :
    (uuid : UuidCodec) (quotas : MailboxQuotas) (new_v4 : ℕ → Uuid) (now : Time) (db : Db)
    (address : Str) (message : NewMessage)
    → IsSound db
    → IsSound (Messages.save_message uuid quotas new_v4 now db address message).1
unfolding Messages.save_message
save_message-IsSound uuid quotas new_v4 now db address message w =
    let id = uuid.to_string (new_v4 0) in
    let row = Messages.message_row id now address message in
    commit-IsSound db _ w (
      >>=-Gives IsSound Kept (insert_message row db) _ (insert_message-IsSound row db w) λ db' w'.
        >>=-Gives Kept Kept (Messages.insert_attachments uuid new_v4 1 id message.attachments db') _
          (insert_attachments-IsSound uuid new_v4 1 id message.attachments db' w')
          (λ p v. enforce-IsSound quotas address id p.1 v))

refresh-IsSound :
    (uuid : UuidCodec) (kind : SubscriptionKind) (p256dh auth : Str) (row : PushSubscriptionRow)
    (db : Db)
    → IsSound db
    → IsSound (Subscriptions.refresh uuid kind p256dh auth row db).1
unfolding Subscriptions.refresh
refresh-IsSound uuid kind p256dh auth row db w =
    let met = λ (s : PushSubscriptionRow). s.id == row.id in
    let change = λ (s : PushSubscriptionRow). record s {
      kind = kind_as_str kind;
      p256dh = p256dh;
      auth = auth;
    } in
    subscriptions-IsSound (update_where met change db.push_subscriptions) db
      (Distinct-update_where subscription_id met change db.push_subscriptions (λ r. refl)
        w.subscription_keys)
      (All-update_where (λ (s : PushSubscriptionRow). has_mailbox db s.mailbox_address ≡ true) met
        change db.push_subscriptions (λ s h. h) w.subscription_owners)
      w

insert_new-IsSound :
    (uuid : UuidCodec) (sub : PushSubscription) (db : Db)
    → IsSound db
    → Gives Kept (Subscriptions.insert_new uuid sub db)
unfolding Subscriptions.insert_new
insert_new-IsSound uuid sub db w =
    >>=-Gives IsSound Kept _ _ (insert_subscription-IsSound _ db w) (λ db' v. v)

-- The last branch of `add_subscription`.
added-IsSound :
    (full : Bool) (n : ℕ) (uuid : UuidCodec) (sub : PushSubscription) (db : Db)
    → IsSound db
    → IsSound
        (if full
          then (err (subscription_limit n), db)
          else commit db (Subscriptions.insert_new uuid sub db)).1
added-IsSound true n uuid sub db w = w
added-IsSound false n uuid sub db w = commit-IsSound db _ w (insert_new-IsSound uuid sub db w)

pub add_or_refresh-IsSound :
    (uuid : UuidCodec) (cap : ℕ) (sub : PushSubscription) (db : Db)
    (found : Option PushSubscriptionRow)
    → IsSound db
    → IsSound (Subscriptions.add_or_refresh uuid cap sub db found).1
unfolding Subscriptions.add_or_refresh
add_or_refresh-IsSound uuid cap sub db none w = added-IsSound _ cap uuid sub db w
add_or_refresh-IsSound uuid cap sub db (some row) w =
    refresh-IsSound uuid sub.kind sub.p256dh sub.auth row db w

pub upsert-IsSound :
    (db : Db) (row : AttestedDeviceRow) (found : Option AttestedDeviceRow)
    → find (of_key row.key_id) db.attested_devices ≡ found
    → IsSound db
    → IsSound (Devices.upsert db row found).1
unfolding Devices.upsert
upsert-IsSound db row none e w =
    devices-IsSound _ db
      (Distinct-append key_of db.attested_devices row
        (find-none (of_key row.key_id) db.attested_devices e) w.device_keys)
      w
upsert-IsSound db row (some r) e w =
    devices-IsSound _ db
      (Distinct-update_where key_of _ _ db.attested_devices (λ r. refl) w.device_keys) w
