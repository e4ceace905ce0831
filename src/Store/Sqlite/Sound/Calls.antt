-- ===== src/Store/Sqlite/Sound/Calls.antt =====
-- Every operation of src/store/sqlite.rs keeps the constraints of the schema.
use anony_mail.Base.{ℕ, refl, List, nat_eq, str_eq}
use anony_mail.Base.Table.Keys.{Distinct-delete_where, Distinct-update_where, All-delete_where}
use anony_mail.Base.Results.{>>=-Gives}
use anony_mail.Model.{Time, Uuid, CustomDomain}
use anony_mail.Store.{MailboxQuotas}
use anony_mail.Store.Steps.{
  Call, create_mailbox, extend_mailbox, delete_mailbox, rotate_owner_token, save_message,
  delete_message, mark_seen, delete_all_messages, purge_expired, add_subscription,
  delete_subscription, create_custom_domain, delete_custom_domain, record_custom_domain_check,
  upsert_attested_device, advance_attested_device_counter, prune_attested_devices, run_maintenance,
  call, Reachable, Reachable-ind,
}
use anony_mail.Store.Sqlite.{UuidCodec, Db, empty_db}
use anony_mail.Store.Sqlite.Integrity.{
  IsSound, subscription_id, domain_of, key_of, delete_messages-IsSound, delete_mailboxes-IsSound,
  update_mailboxes-IsSound, update_messages-IsSound, subscriptions-IsSound, claims-IsSound,
  devices-IsSound,
}
use anony_mail.Store.Sqlite.Insertions.{insert_mailbox-IsSound, insert_custom_domain-IsSound}
use anony_mail.Store.Sqlite.Mailboxes
use anony_mail.Store.Sqlite.Inbox
use anony_mail.Store.Sqlite.Subscriptions
use anony_mail.Store.Sqlite.Claims
use anony_mail.Store.Sqlite.Devices
use anony_mail.Store.Sqlite.Devices.{of_key}
use anony_mail.Store.Sqlite.Backend.{SqliteStore, sqlite_store, new, with_quotas}
use anony_mail.Store.Sqlite.Sound.{
  Kept, commit-IsSound, save_message-IsSound, add_or_refresh-IsSound, upsert-IsSound,
}

-- Whatever a call answers, it leaves tables that satisfy the constraints.
call-IsSound :
    (uuid : UuidCodec) (c : Call) (s : SqliteStore)
    → IsSound s.db
    → IsSound (call (sqlite_store uuid) c s).db
unfolding call Subscriptions.add_subscription Mailboxes.create_mailbox Mailboxes.extend_mailbox
    Mailboxes.delete_mailbox Mailboxes.rotate_owner_token Mailboxes.purge_expired
    Inbox.delete_message Inbox.mark_seen Inbox.delete_all_messages Subscriptions.delete_subscription
    Claims.create_custom_domain Claims.delete_custom_domain Claims.record_custom_domain_check
    Devices.upsert_attested_device Devices.advance_attested_device_counter
    Devices.prune_attested_devices
call-IsSound uuid (create_mailbox address domain expires_at owner device) s w =
    commit-IsSound s.db _ w
      (>>=-Gives IsSound Kept _ _ (insert_mailbox-IsSound _ s.db w) (λ db' v. v))
call-IsSound uuid (extend_mailbox address t) s w = update_mailboxes-IsSound _ _ s.db (λ r. refl) w
call-IsSound uuid (delete_mailbox address) s w = delete_mailboxes-IsSound _ s.db w
call-IsSound uuid (rotate_owner_token address h) s w =
    update_mailboxes-IsSound _ _ s.db (λ r. refl) w
call-IsSound uuid (save_message address message) s w =
    save_message-IsSound uuid s.quotas _ _ s.db address message w
call-IsSound uuid (delete_message address id) s w = delete_messages-IsSound _ s.db w
call-IsSound uuid (mark_seen address id) s w =
    update_messages-IsSound _ _ s.db (λ r. refl) (λ r. refl) w
call-IsSound uuid (delete_all_messages address) s w = delete_messages-IsSound _ s.db w
call-IsSound uuid (purge_expired t) s w = delete_mailboxes-IsSound _ s.db w
call-IsSound uuid (add_subscription address kind endpoint p256dh auth cap) s w =
    add_or_refresh-IsSound uuid cap _ s.db _ w
call-IsSound uuid (delete_subscription address endpoint) s w =
    subscriptions-IsSound _ s.db
      (Distinct-delete_where subscription_id _ s.db.push_subscriptions w.subscription_keys)
      (All-delete_where _ _ _ s.db.push_subscriptions (λ r h n. h) w.subscription_owners) w
call-IsSound uuid (create_custom_domain domain hash token) s w =
    commit-IsSound s.db _ w
      (>>=-Gives IsSound Kept _ _ (insert_custom_domain-IsSound _ s.db w) (λ db' v. v))
call-IsSound uuid (delete_custom_domain domain) s w =
    claims-IsSound _ s.db (Distinct-delete_where domain_of _ s.db.custom_domains w.claim_keys) w
call-IsSound uuid (record_custom_domain_check domain status verified_at t) s w =
    claims-IsSound _ s.db
      (Distinct-update_where domain_of _ _ s.db.custom_domains (λ r. refl) w.claim_keys) w
call-IsSound uuid (upsert_attested_device key_id public_key t) s w = upsert-IsSound s.db _ _ refl w
call-IsSound uuid (advance_attested_device_counter key_id counter t) s w =
    devices-IsSound _ s.db
      (Distinct-update_where key_of _ _ s.db.attested_devices (λ r. refl) w.device_keys) w
call-IsSound uuid (prune_attested_devices t) s w =
    devices-IsSound _ s.db (Distinct-delete_where key_of _ s.db.attested_devices w.device_keys) w
call-IsSound uuid run_maintenance s w = w

empty-IsSound : IsSound empty_db
empty-IsSound = record {
  mailbox_keys = tt;
  message_keys = tt;
  attachment_keys = tt;
  subscription_keys = tt;
  claim_keys = tt;
  device_keys = tt;
  message_owners = tt;
  subscription_owners = tt;
  attachment_owners = tt;
}

-- From the empty database, with any quotas, clock and identifiers, whatever operations are called
-- and whether they succeed or not: the keys of the tables stay unique, each message and each
-- subscription belongs to a mailbox that is there, and each attachment to a message that is there.
pub Reachable-IsSound :
    (uuid : UuidCodec) (quotas : MailboxQuotas) (clock : ℕ → Time) (random : ℕ → Uuid)
    (arrange : Db → List CustomDomain → List CustomDomain) (s : SqliteStore)
    → Reachable (sqlite_store uuid) (with_quotas (new clock random arrange) quotas) s
    → IsSound s.db
Reachable-IsSound uuid quotas clock random arrange s r =
    Reachable-ind (sqlite_store uuid) (λ s. IsSound s.db) (call-IsSound uuid) empty-IsSound r
