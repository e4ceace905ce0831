-- ===== src/Agreement/Answers.antt =====
-- The `MemoryStore` of src/store/memory.rs and the `SqliteStore` of src/store/sqlite.rs answer the
-- same about mailboxes, claims and devices, after the same calls.
pub mod Calls
pub mod Replies
use anony_mail.Base.{not, some}
use anony_mail.Base.Text.{Str}
use anony_mail.Model.{Time, Uuid}
use anony_mail.Store.{Store, MailboxQuotas}
use anony_mail.Store.Steps
use anony_mail.Store.Steps.{Call}
use anony_mail.Store.Memory.Backend as Memory
use anony_mail.Store.Memory.Backend.{MemoryStore, memory_store}
use anony_mail.Store.Sqlite.{UuidCodec, delete_messages}
use anony_mail.Store.Sqlite.Backend as Sqlite
use anony_mail.Store.Sqlite.Backend.{SqliteStore, sqlite_store}
use anony_mail.Store.Memory.Messages as MemoryMessages
use anony_mail.Store.Sqlite.Messages as SqliteMessages
use anony_mail.Store.Sqlite.Inbox as SqliteInbox
use anony_mail.Store.Memory.Subscriptions as MemorySubscriptions
use anony_mail.Store.Sqlite.Subscriptions as SqliteSubscriptions
use mathlib.Core.Path.{subst}
use anony_mail.Store.Memory.Mailboxes as MemoryMailboxes
use anony_mail.Store.Sqlite.Mailboxes as SqliteMailboxes
use anony_mail.Store.Memory.Claims as MemoryClaims
use anony_mail.Store.Sqlite.Claims as SqliteClaims
use anony_mail.Agreement.{
  Agrees, Answer, mailbox, claim, claims, device, flag, number, other, of, SameAnswer,
}
use anony_mail.Agreement.Mailboxes.{
  get_mailbox_same, mailbox_is_active_same, count_same, create_mailbox_agrees,
}
use anony_mail.Agreement.Mailboxes.Changes.{
  extend_mailbox_agrees, rotate_owner_token_agrees, delete_mailbox_agrees,
}
use anony_mail.Agreement.Mailboxes.Sweep.{purge_expired_agrees}
use anony_mail.Agreement.Claims.{
  get_custom_domain_same, custom_domain_is_verified_same, list_custom_domains_to_recheck_same,
}
use anony_mail.Agreement.Claims.Changes.{
  create_custom_domain_agrees, delete_custom_domain_agrees, record_custom_domain_check_agrees,
}
use anony_mail.Agreement.Devices.{get_attested_device_same, upsert_attested_device_agrees}
use anony_mail.Agreement.Devices.Counter.{
  advance_attested_device_counter_agrees, prune_attested_devices_agrees,
}
use anony_mail.Agreement.Untouched.{
  carried, save_message-Untouched, add_subscription-Untouched, same_maps, same_tables,
}
use anony_mail.Agreement.Untouched.Tables.{save_message-UntouchedDb, add_or_refresh-UntouchedDb}

-- What is asked of a store: a question that only reads, or what a call returns.
pub data Question : Type 0 where
  get_mailbox : Str → Question
  mailbox_is_active : Str → Time → Question
  count_active_mailboxes_by_device : Str → Time → Question
  get_custom_domain : Str → Question
  custom_domain_is_verified : Str → Question
  list_custom_domains_to_recheck : Time → Question
  get_attested_device : Str → Question
  result_of : Call → Question

-- The calls on messages and subscriptions are not compared by what they return.
unfoldable pub returned : (store : Store) → Call → store.State → Answer
returned store (Call.create_mailbox address domain t owner dev) s =
    of (λ m. mailbox (some m)) (store.create_mailbox s address domain t owner dev).0
returned store (Call.extend_mailbox address t) s = of mailbox (store.extend_mailbox s address t).0
returned store (Call.delete_mailbox address) s = of flag (store.delete_mailbox s address).0
returned store (Call.rotate_owner_token address h) s =
    of flag (store.rotate_owner_token s address h).0
returned store (Call.purge_expired t) s = of number (store.purge_expired s t).0
returned store (Call.create_custom_domain domain hash token) s =
    of (λ d. claim (some d)) (store.create_custom_domain s domain hash token).0
returned store (Call.delete_custom_domain domain) s =
    of flag (store.delete_custom_domain s domain).0
returned store (Call.record_custom_domain_check domain status verified_at t) s =
    of flag (store.record_custom_domain_check s domain status verified_at t).0
returned store (Call.upsert_attested_device key_id public_key t) s =
    of (λ d. device (some d)) (store.upsert_attested_device s key_id public_key t).0
returned store (Call.advance_attested_device_counter key_id counter t) s =
    of flag (store.advance_attested_device_counter s key_id counter t).0
returned store (Call.prune_attested_devices t) s = of number (store.prune_attested_devices s t).0
returned store (Call.save_message address message) s = other
returned store (Call.delete_message address id) s = other
returned store (Call.mark_seen address id) s = other
returned store (Call.delete_all_messages address) s = other
returned store (Call.add_subscription address kind endpoint p256dh auth cap) s = other
returned store (Call.delete_subscription address endpoint) s = other
returned store Call.run_maintenance s = other

unfoldable pub answer : (store : Store) → Question → store.State → Answer
unfolding returned
answer store (get_mailbox address) s = of mailbox (store.get_mailbox s address)
answer store (mailbox_is_active address t) s = of flag (store.mailbox_is_active s address t)
answer store (count_active_mailboxes_by_device h t) s =
    of number (store.count_active_mailboxes_by_device s h t)
answer store (get_custom_domain domain) s = of claim (store.get_custom_domain s domain)
answer store (custom_domain_is_verified domain) s =
    of flag (store.custom_domain_is_verified s domain)
answer store (list_custom_domains_to_recheck t) s =
    of claims (store.list_custom_domains_to_recheck s t)
answer store (get_attested_device key_id) s = of device (store.get_attested_device s key_id)
answer store (result_of c) s = returned store c s
