-- ===== src/Agreement/Untouched.antt =====
-- The operations on messages and subscriptions leave the mailboxes, claims and devices of
-- src/store/memory.rs and src/store/sqlite.rs as they are.
pub mod Tables
use anony_mail.Base.{
  ℕ, ◌≡◌, refl, sym, ap, ◌∙◌, Bool, true, false, not, ◌&&◌, List, map, arith, if◌then◌else◌, ◌==◌,
  retain, contains, nat_eq, str_eq,
}
use mathlib.Core.Path.{subst}
use anony_mail.Base.Assoc.{Keyed, values}
use anony_mail.Base.Results.{Gives, >>=-Gives}
use anony_mail.Base.Text.{Str, text, is_empty}
use anony_mail.Model.{Time, Uuid, NewAttachment, NewMessage, PushSubscription}
use anony_mail.Model.Kinds.{SubscriptionKind}
use anony_mail.Store.{
  StoreError, MailboxQuotas, subscription_limit, unique_violation, backend_failure,
}
use anony_mail.Store.Memory.{Inner, Entry}
use anony_mail.Store.Memory.Quota.{enforce_quotas, to_drop, newest_first}
use anony_mail.Store.Memory.Messages as Memory
use anony_mail.Store.Memory.Subscriptions as Subscriptions
use anony_mail.Store.Sqlite.{
  UuidCodec, Db, MessageRow, AttachmentRow, PushSubscriptionRow, commit, delete_messages,
  insert_message, insert_attachment, insert_subscription, has_message, has_mailbox, has_attachment,
  has_subscription,
}
use anony_mail.Store.Sqlite.Messages as Sqlite
use anony_mail.Store.Sqlite.Subscriptions as SqliteSubscriptions
use anony_mail.Agreement.{Agrees, mailbox_row, claim_row, device_row, address_of, domain_of, key_of}

pub record Untouched (inner inner' : Inner) : Type 0 where
  pub mailboxes : inner'.mailboxes ≡ inner.mailboxes
  pub claims : inner'.custom_domains ≡ inner.custom_domains
  pub devices : inner'.attested_devices ≡ inner.attested_devices

pub record UntouchedDb (db db' : Db) : Type 0 where
  pub mailboxes : db'.mailboxes ≡ db.mailboxes
  pub claims : db'.custom_domains ≡ db.custom_domains
  pub devices : db'.attested_devices ≡ db.attested_devices

pub same_maps :
    {inner inner' : Inner}
    → inner'.mailboxes ≡ inner.mailboxes
    → inner'.custom_domains ≡ inner.custom_domains
    → inner'.attested_devices ≡ inner.attested_devices
    → Untouched inner inner'
same_maps a b c = record { mailboxes = a; claims = b; devices = c }

pub same_tables :
    {db db' : Db}
    → db'.mailboxes ≡ db.mailboxes
    → db'.custom_domains ≡ db.custom_domains
    → db'.attested_devices ≡ db.attested_devices
    → UntouchedDb db db'
same_tables a b c = record { mailboxes = a; claims = b; devices = c }

pub carried :
    {inner inner' : Inner} {db db' : Db}
    → Agrees inner db
    → Untouched inner inner'
    → UntouchedDb db db'
    → Agrees inner' db'
carried w u v = record {
  mailboxes = v.mailboxes ∙ w.mailboxes ∙ ap (λ m. map mailbox_row (values m)) (sym u.mailboxes);
  claims = v.claims ∙ w.claims ∙ ap (λ m. map claim_row (values m)) (sym u.claims);
  devices = v.devices ∙ w.devices ∙ ap (λ m. map device_row (values m)) (sym u.devices);
  mailboxes_keyed = subst (Keyed address_of) (sym u.mailboxes) w.mailboxes_keyed;
  claims_keyed = subst (Keyed domain_of) (sym u.claims) w.claims_keyed;
  devices_keyed = subst (Keyed key_of) (sym u.devices) w.devices_keyed;
}

same : (inner : Inner) → Untouched inner inner
same inner = record { mailboxes = refl; claims = refl; devices = refl }

pub same_db : (db : Db) → UntouchedDb db db
same_db db = record { mailboxes = refl; claims = refl; devices = refl }

pub trans_db : {a b c : Db} → UntouchedDb a b → UntouchedDb b c → UntouchedDb a c
trans_db u v = record {
  mailboxes = v.mailboxes ∙ u.mailboxes;
  claims = v.claims ∙ u.claims;
  devices = v.devices ∙ u.devices;
}

-- The in-memory store.
quotas-Untouched :
    (a b : Bool) (messages : List Entry) (inner inner' : Inner)
    → Untouched inner inner'
    → Untouched inner
        (if a then inner' else if b then inner' else record inner' { messages = messages })
quotas-Untouched true b messages inner inner' u = u
quotas-Untouched false true messages inner inner' u = u
quotas-Untouched false false messages inner inner' u = record {
  mailboxes = u.mailboxes;
  claims = u.claims;
  devices = u.devices;
}

enforce_quotas-Untouched :
    (inner : Inner) (address : Str) (id : Uuid) (quotas : MailboxQuotas)
    → Untouched inner (enforce_quotas inner address id quotas)
unfolding enforce_quotas
enforce_quotas-Untouched inner address id quotas =
    let ids = to_drop quotas id (newest_first inner address) in
    quotas-Untouched (quotas.max_messages == 0 && quotas.max_bytes == 0) (is_empty ids)
      (retain (λ (e : Entry). not (contains ids e.message.id)) inner.messages) inner inner
      (same inner)

pub save_message-Untouched :
    (quotas : MailboxQuotas) (new_v4 : ℕ → Uuid) (now : Time) (inner : Inner) (address : Str)
    (message : NewMessage)
    → Untouched inner (Memory.save_message quotas new_v4 now inner address message).1
unfolding Memory.save_message
save_message-Untouched quotas new_v4 now inner address message =
    let u =
      enforce_quotas-Untouched _ address (Memory.new_entry new_v4 now address message).message.id
        quotas in
    record { mailboxes = u.mailboxes; claims = u.claims; devices = u.devices }

pub add_subscription-Untouched :
    (id : Uuid) (now : Time) (inner : Inner) (address : Str) (kind : SubscriptionKind)
    (endpoint p256dh auth : Str) (cap : ℕ)
    → Untouched inner
        (Subscriptions.add_subscription id now inner address kind endpoint p256dh auth cap).1
unfolding Subscriptions.add_subscription
add_subscription-Untouched id now inner address kind endpoint p256dh auth cap = record {
  mailboxes = ground arith;
  claims = ground arith;
  devices = ground arith;
}
