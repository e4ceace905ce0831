-- ===== src/Agreement/Answers/Calls.antt =====
-- What one call answers from the `MemoryStore` of src/store/memory.rs and from the `SqliteStore` of
-- src/store/sqlite.rs, in states that correspond.
use anony_mail.Base.{ℕ, ◌+◌, ◌≡◌, refl, ap, ◌∙◌, some, List}
use mathlib.Core.List.{Perm}
use anony_mail.Model.{Time, CustomDomain}
use anony_mail.Store.Steps
use anony_mail.Store.Steps.{Call}
use anony_mail.Store.Memory.Backend as Memory
use anony_mail.Store.Memory.Backend.{MemoryStore, memory_store}
use anony_mail.Store.Memory.{Inner}
use anony_mail.Store.Sqlite.{UuidCodec, Db, delete_messages}
use anony_mail.Store.Sqlite.Backend as Sqlite
use anony_mail.Store.Sqlite.Backend.{SqliteStore, sqlite_store}
use anony_mail.Store.Memory.Messages as MemoryMessages
use anony_mail.Store.Sqlite.Inbox as SqliteInbox
use anony_mail.Store.Memory.Subscriptions as MemorySubscriptions
use anony_mail.Store.Sqlite.Subscriptions as SqliteSubscriptions
use mathlib.Core.Path.{subst}
use anony_mail.Store.Memory.Mailboxes as MemoryMailboxes
use anony_mail.Store.Sqlite.Mailboxes as SqliteMailboxes
use anony_mail.Store.Memory.Claims as MemoryClaims
use anony_mail.Store.Sqlite.Claims as SqliteClaims
use anony_mail.Agreement.{Agrees, mailbox, claim, device, flag, number, SameAnswer}
use anony_mail.Agreement.Mailboxes.{create_mailbox_agrees}
use anony_mail.Agreement.Mailboxes.Changes.{
  extend_mailbox_agrees, rotate_owner_token_agrees, delete_mailbox_agrees,
}
use anony_mail.Agreement.Mailboxes.Sweep.{purge_expired_agrees}
use anony_mail.Agreement.Claims.Changes.{
  create_custom_domain_agrees, delete_custom_domain_agrees, record_custom_domain_check_agrees,
}
use anony_mail.Agreement.Devices.{upsert_attested_device_agrees}
use anony_mail.Agreement.Devices.Counter.{
  advance_attested_device_counter_agrees, prune_attested_devices_agrees,
}
use anony_mail.Agreement.Untouched.{
  Untouched, UntouchedDb, carried, save_message-Untouched, add_subscription-Untouched, same_maps,
  same_tables,
}
use anony_mail.Agreement.Untouched.Tables.{save_message-UntouchedDb, add_or_refresh-UntouchedDb}
use anony_mail.Agreement.Answers.{returned}

-- States of the two stores that correspond.
pub record Paired (m : MemoryStore) (s : SqliteStore) : Type 0 where
  pub agrees : Agrees m.inner s.db
  pub clock : m.clock ≡ s.clock
  pub ticks : m.ticks ≡ s.ticks
  pub arranged : (inner : Inner) (cs : List CustomDomain) → Perm (m.arrange inner cs) cs
  pub arranged_rows : (db : Db) (cs : List CustomDomain) → Perm (s.arrange db cs) cs

same_clock :
    {m : MemoryStore} {s : SqliteStore} {inner' : Inner} {db' : Db}
    → Paired m s
    → Agrees inner' db'
    → Paired (record m { inner = inner' }) (record s { db = db' })
same_clock w a = record {
  agrees = a;
  clock = w.clock;
  ticks = w.ticks;
  arranged = w.arranged;
  arranged_rows = w.arranged_rows;
}

-- After calls that read the clock once; identifiers may be drawn.
ticked :
    {m : MemoryStore} {s : SqliteStore} {inner' : Inner} {db' : Db} {draws draws' : ℕ}
    → Paired m s
    → Agrees inner' db'
    → Paired
        (record m { inner = inner'; ticks = m.ticks + 1; draws = draws })
        (record s { db = db'; ticks = s.ticks + 1; draws = draws' })
ticked w a = record {
  agrees = a;
  clock = w.clock;
  ticks = ap (λ n. n + 1) w.ticks;
  arranged = w.arranged;
  arranged_rows = w.arranged_rows;
}

-- After calls that only the tables of mail and of subscriptions see.
mail_only :
    {m : MemoryStore} {s : SqliteStore} {inner' : Inner} {db' : Db}
    → Paired m s
    → Untouched m.inner inner'
    → UntouchedDb s.db db'
    → Paired (record m { inner = inner' }) (record s { db = db' })
mail_only w u v = same_clock w (carried w.agrees u v)

module _ (uuid : UuidCodec) where
  -- A call answers the same, and the states after it correspond.
  unfoldable pub Replies : Call → MemoryStore → SqliteStore → Type 0
  Replies c m s =
      (returned memory_store c m ≡ returned (sqlite_store uuid) c s)
      × Paired (Steps.call memory_store c m) (Steps.call (sqlite_store uuid) c s)

  now_same : (m : MemoryStore) (s : SqliteStore) → Paired m s → Memory.now m ≡ Sqlite.now s
  now_same m s w = ap (λ (f : ℕ → Time). f m.ticks) w.clock ∙ ap s.clock w.ticks

  pub replies : (c : Call) (m : MemoryStore) (s : SqliteStore) → Paired m s → Replies c m s
  unfolding Replies returned Steps.call MemoryMessages.delete_message SqliteInbox.delete_message
      MemoryMessages.mark_seen SqliteInbox.mark_seen MemoryMessages.delete_all_messages
      SqliteInbox.delete_all_messages MemorySubscriptions.delete_subscription
      SqliteSubscriptions.delete_subscription SqliteSubscriptions.add_subscription delete_messages
  replies (Call.create_mailbox address domain t owner dev) m s w =
      let p =
        subst
          (λ (now : Time).
            SameAnswer (λ m. mailbox (some m))
              (MemoryMailboxes.create_mailbox m.inner address domain t owner dev (Memory.now m))
              (SqliteMailboxes.create_mailbox s.db address domain t owner dev now))
          (now_same m s w)
          (create_mailbox_agrees w.agrees address domain t owner dev (Memory.now m)) in
      (p.0, ticked w p.1)
  replies (Call.extend_mailbox address t) m s w =
      let p = extend_mailbox_agrees w.agrees address t in (ap mailbox p.0, same_clock w p.1)
  replies (Call.delete_mailbox address) m s w =
      let p = delete_mailbox_agrees w.agrees address in (ap flag p.0, same_clock w p.1)
  replies (Call.rotate_owner_token address h) m s w =
      let p = rotate_owner_token_agrees w.agrees address h in (ap flag p.0, same_clock w p.1)
  replies (Call.purge_expired t) m s w =
      let p = purge_expired_agrees w.agrees t in (ap number p.0, same_clock w p.1)
  replies (Call.create_custom_domain domain hash token) m s w =
      let p =
        subst
          (λ (now : Time).
            SameAnswer (λ d. claim (some d))
              (MemoryClaims.create_custom_domain (Memory.now m) m.inner domain hash token)
              (SqliteClaims.create_custom_domain now s.db domain hash token))
          (now_same m s w)
          (create_custom_domain_agrees w.agrees (Memory.now m) domain hash token) in
      (p.0, ticked w p.1)
  replies (Call.delete_custom_domain domain) m s w =
      let p = delete_custom_domain_agrees w.agrees domain in (ap flag p.0, same_clock w p.1)
  replies (Call.record_custom_domain_check domain status verified_at t) m s w =
      let p = record_custom_domain_check_agrees w.agrees domain status verified_at t in
      (ap flag p.0, same_clock w p.1)
  replies (Call.upsert_attested_device key_id public_key t) m s w =
      let p = upsert_attested_device_agrees w.agrees key_id public_key t in
      (ap (λ d. device (some d)) p.0, same_clock w p.1)
  replies (Call.advance_attested_device_counter key_id counter t) m s w =
      let p = advance_attested_device_counter_agrees w.agrees key_id counter t in
      (ap flag p.0, same_clock w p.1)
  replies (Call.prune_attested_devices t) m s w =
      let p = prune_attested_devices_agrees w.agrees t in (ap number p.0, same_clock w p.1)
  replies (Call.save_message address message) m s w = (
    refl,
    ticked w (
        carried w.agrees
          (save_message-Untouched m.quotas (Memory.next_id m) (Memory.now m) m.inner address
            message)
          (save_message-UntouchedDb uuid s.quotas (Sqlite.next_id s) (Sqlite.now s) s.db address
            message)),
  )
  replies (Call.delete_message address id) m s w =
      (refl, mail_only w (same_maps refl refl refl) (same_tables refl refl refl))
  replies (Call.mark_seen address id) m s w =
      (refl, mail_only w (same_maps refl refl refl) (same_tables refl refl refl))
  replies (Call.delete_all_messages address) m s w =
      (refl, mail_only w (same_maps refl refl refl) (same_tables refl refl refl))
  replies (Call.add_subscription address kind endpoint p256dh auth cap) m s w = (
    refl,
    ticked w (
        carried w.agrees
          (add_subscription-Untouched (Memory.next_id m 0) (Memory.now m) m.inner address kind
            endpoint p256dh auth cap)
          (add_or_refresh-UntouchedDb uuid cap _ s.db _)),
  )
  replies (Call.delete_subscription address endpoint) m s w =
      (refl, mail_only w (same_maps refl refl refl) (same_tables refl refl refl))
  replies Call.run_maintenance m s w = (refl, w)
