-- ===== src/Store/Memory/Backend.antt =====
-- `MemoryStore` of src/store/memory.rs as an implementation of the `Store` interface. The clock
-- and the random source are sequences of readings, with the count of those taken so far; `arrange` is
-- the order in which the map of claims gives its values.
use anony_mail.Base.{ℕ, ◌+◌, List, Result, length, ok}
use anony_mail.Model.{Time, Uuid, CustomDomain}
use anony_mail.Store.{Store, MailboxQuotas, StoreError}
use anony_mail.Store.Memory.{Inner, empty_inner}
use anony_mail.Store.Memory.Mailboxes
use anony_mail.Store.Memory.Messages
use anony_mail.Store.Memory.Subscriptions
use anony_mail.Store.Memory.Claims
use anony_mail.Store.Memory.Devices

pub record MemoryStore : Type 0 where
  pub inner : Inner
  pub quotas : MailboxQuotas
  pub clock : ℕ → Time
  pub random : ℕ → Uuid
  pub ticks : ℕ
  pub draws : ℕ
  pub arrange : Inner → List CustomDomain → List CustomDomain

-- `MemoryStore::new().with_quotas(quotas)`
abbrev pub with_quotas :
    MailboxQuotas
    → (ℕ → Time)
    → (ℕ → Uuid)
    → (Inner → List CustomDomain → List CustomDomain)
    → MemoryStore
with_quotas quotas clock random arrange = record {
  inner = empty_inner;
  quotas = quotas;
  clock = clock;
  random = random;
  ticks = 0;
  draws = 0;
  arrange = arrange;
}

abbrev pub now : MemoryStore → Time
now s = s.clock s.ticks

abbrev pub next_id : MemoryStore → ℕ → Uuid
next_id s i = s.random (s.draws + i)

-- The store after an operation that read the clock `t` times and drew `d` identifiers.
abbrev pub after : {A : Type 0} → MemoryStore → ℕ → ℕ → A × Inner → A × MemoryStore
after s t d (a, inner') = (a, record s { inner = inner'; ticks = s.ticks + t; draws = s.draws + d })

abbrev pub done : {A : Type 0} → MemoryStore → A × Inner → Result A StoreError × MemoryStore
done s (a, inner') = (ok a, record s { inner = inner' })

abbrev pub memory_store : Store
memory_store = record {
  State = MemoryStore;
  create_mailbox = λ s address domain expires_at owner device.
      after s 1 0 (Mailboxes.create_mailbox s.inner address domain expires_at owner device (now s));
  get_mailbox = λ s address. ok (Mailboxes.get_mailbox s.inner address);
  mailbox_is_active = λ s address t. ok (Mailboxes.mailbox_is_active s.inner address t);
  extend_mailbox = λ s address t. done s (Mailboxes.extend_mailbox s.inner address t);
  delete_mailbox = λ s address. done s (Mailboxes.delete_mailbox s.inner address);
  rotate_owner_token = λ s address h. done s (Mailboxes.rotate_owner_token s.inner address h);
  save_message = λ s address message.
      let (stored, inner') =
        Messages.save_message s.quotas (next_id s) (now s) s.inner address message in
      after s 1 (length message.attachments + 1) (ok stored, inner');
  list_messages = λ s address limit since. ok (Messages.list_messages s.inner address limit since);
  get_message = λ s address id. ok (Messages.get_message s.inner address id);
  get_raw_message = λ s address id. ok (Messages.get_raw_message s.inner address id);
  get_attachment = λ s address id att. ok (Messages.get_attachment s.inner address id att);
  delete_message = λ s address id. done s (Messages.delete_message s.inner address id);
  mark_seen = λ s address id. done s (Messages.mark_seen s.inner address id);
  delete_all_messages = λ s address. done s (Messages.delete_all_messages s.inner address);
  purge_expired = λ s t. done s (Mailboxes.purge_expired s.inner t);
  add_subscription = λ s address kind endpoint p256dh auth cap. after s 1 1 (
      Subscriptions.add_subscription (next_id s 0) (now s) s.inner address kind endpoint p256dh auth
        cap);
  list_subscriptions = λ s address. ok (Subscriptions.list_subscriptions s.inner address);
  delete_subscription =
      λ s address endpoint. done s (Subscriptions.delete_subscription s.inner address endpoint);
  create_custom_domain = λ s domain hash token.
      after s 1 0 (Claims.create_custom_domain (now s) s.inner domain hash token);
  get_custom_domain = λ s domain. ok (Claims.get_custom_domain s.inner domain);
  delete_custom_domain = λ s domain. done s (Claims.delete_custom_domain s.inner domain);
  custom_domain_is_verified = λ s domain. ok (Claims.custom_domain_is_verified s.inner domain);
  record_custom_domain_check = λ s domain status verified_at t.
      done s (Claims.record_custom_domain_check s.inner domain status verified_at t);
  list_custom_domains_to_recheck =
      λ s cutoff. ok (Claims.list_custom_domains_to_recheck (s.arrange s.inner) s.inner cutoff);
  upsert_attested_device =
      λ s key_id public_key t. done s (Devices.upsert_attested_device s.inner key_id public_key t);
  get_attested_device = λ s key_id. ok (Devices.get_attested_device s.inner key_id);
  advance_attested_device_counter = λ s key_id counter t.
      done s (Devices.advance_attested_device_counter s.inner key_id counter t);
  prune_attested_devices = λ s t. done s (Devices.prune_attested_devices s.inner t);
  count_active_mailboxes_by_device =
      λ s hash t. ok (Mailboxes.count_active_mailboxes_by_device s.inner hash t);
  run_maintenance = λ s. (ok tt, s);
  ping = λ s. ok tt;
}
