-- ===== src/Store/Sqlite/Backend.antt =====
-- `SqliteStore` of src/store/sqlite.rs as an implementation of the `Store` interface. The clock and
-- the random source are sequences of readings, with the count of those taken so far; a call takes its
-- reading and its identifiers whether it comes to use them or not. `arrange` is the order in which
-- the engine gives the rows of a query without ORDER BY.
use anony_mail.Base.{ℕ, ◌+◌, List, Result, length, ok}
use anony_mail.Model.{Time, Uuid, CustomDomain}
use anony_mail.Store.{Store, MailboxQuotas, StoreError, unlimited}
use anony_mail.Store.Sqlite.{UuidCodec, Db, empty_db}
use anony_mail.Store.Sqlite.Mailboxes
use anony_mail.Store.Sqlite.Messages
use anony_mail.Store.Sqlite.Inbox
use anony_mail.Store.Sqlite.Subscriptions
use anony_mail.Store.Sqlite.Claims
use anony_mail.Store.Sqlite.Devices

pub record SqliteStore : Type 0 where
  pub db : Db
  pub quotas : MailboxQuotas
  pub clock : ℕ → Time
  pub random : ℕ → Uuid
  pub ticks : ℕ
  pub draws : ℕ
  pub arrange : Db → List CustomDomain → List CustomDomain

-- `SqliteStore::new(pool)` on a pool of connections to a database that the migrations made.
abbrev pub new :
    (ℕ → Time) → (ℕ → Uuid) → (Db → List CustomDomain → List CustomDomain) → SqliteStore
new clock random arrange = record {
  db = empty_db;
  quotas = unlimited;
  clock = clock;
  random = random;
  ticks = 0;
  draws = 0;
  arrange = arrange;
}

abbrev pub with_quotas : SqliteStore → MailboxQuotas → SqliteStore
with_quotas s quotas = record s { quotas = quotas }

abbrev pub now : SqliteStore → Time
now s = s.clock s.ticks

abbrev pub next_id : SqliteStore → ℕ → Uuid
next_id s i = s.random (s.draws + i)

-- The store after an operation that read the clock `t` times and drew `d` identifiers.
abbrev pub after : {A : Type 0} → SqliteStore → ℕ → ℕ → A × Db → A × SqliteStore
after s t d (a, db') = (a, record s { db = db'; ticks = s.ticks + t; draws = s.draws + d })

abbrev pub done : {A : Type 0} → SqliteStore → A × Db → Result A StoreError × SqliteStore
done s (a, db') = (ok a, record s { db = db' })

abbrev pub sqlite_store : UuidCodec → Store
sqlite_store uuid = record {
  State = SqliteStore;
  create_mailbox = λ s address domain expires_at owner device.
      after s 1 0 (Mailboxes.create_mailbox s.db address domain expires_at owner device (now s));
  get_mailbox = λ s address. ok (Mailboxes.get_mailbox s.db address);
  mailbox_is_active = λ s address t. ok (Mailboxes.mailbox_is_active s.db address t);
  extend_mailbox = λ s address t. done s (Mailboxes.extend_mailbox s.db address t);
  delete_mailbox = λ s address. done s (Mailboxes.delete_mailbox s.db address);
  rotate_owner_token = λ s address h. done s (Mailboxes.rotate_owner_token s.db address h);
  save_message = λ s address message.
      after s 1 (length message.attachments + 1)
        (Messages.save_message uuid s.quotas (next_id s) (now s) s.db address message);
  list_messages = λ s address limit since. Inbox.list_messages uuid s.db address limit since;
  get_message = λ s address id. Inbox.get_message uuid s.db address id;
  get_raw_message = λ s address id. ok (Inbox.get_raw_message uuid s.db address id);
  get_attachment = λ s address id att. ok (Inbox.get_attachment uuid s.db address id att);
  delete_message = λ s address id. done s (Inbox.delete_message uuid s.db address id);
  mark_seen = λ s address id. done s (Inbox.mark_seen uuid s.db address id);
  delete_all_messages = λ s address. done s (Inbox.delete_all_messages s.db address);
  purge_expired = λ s t. done s (Mailboxes.purge_expired s.db t);
  add_subscription = λ s address kind endpoint p256dh auth cap. after s 1 1 (
      Subscriptions.add_subscription uuid (next_id s 0) (now s) s.db address kind endpoint p256dh
        auth cap);
  list_subscriptions = λ s address. Subscriptions.list_subscriptions uuid s.db address;
  delete_subscription =
      λ s address endpoint. done s (Subscriptions.delete_subscription s.db address endpoint);
  create_custom_domain = λ s domain hash token.
      after s 1 0 (Claims.create_custom_domain (now s) s.db domain hash token);
  get_custom_domain = λ s domain. Claims.get_custom_domain s.db domain;
  delete_custom_domain = λ s domain. done s (Claims.delete_custom_domain s.db domain);
  custom_domain_is_verified = λ s domain. ok (Claims.custom_domain_is_verified s.db domain);
  record_custom_domain_check = λ s domain status verified_at t.
      done s (Claims.record_custom_domain_check s.db domain status verified_at t);
  list_custom_domains_to_recheck =
      λ s cutoff. Claims.list_custom_domains_to_recheck (s.arrange s.db) s.db cutoff;
  upsert_attested_device =
      λ s key_id public_key t. done s (Devices.upsert_attested_device s.db key_id public_key t);
  get_attested_device = λ s key_id. ok (Devices.get_attested_device s.db key_id);
  advance_attested_device_counter =
      λ s key_id counter t. done s (Devices.advance_attested_device_counter s.db key_id counter t);
  prune_attested_devices = λ s t. done s (Devices.prune_attested_devices s.db t);
  count_active_mailboxes_by_device =
      λ s hash t. ok (Mailboxes.count_active_mailboxes_by_device s.db hash t);
  run_maintenance = λ s. (ok tt, s);
  ping = λ s. ok tt;
}
