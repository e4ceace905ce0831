-- ===== src/Store/Sqlite/Integrity.antt =====
-- The constraints of the schema of src/store/sqlite.rs, as the tables have them: keys are unique, and
-- a row that refers to another refers to one that is there.
use anony_mail.Base.{◌≡◌, refl, ◌∙◌, Bool, true, List, ◌==◌, any, All, nat_eq, str_eq}
use anony_mail.Base.Table.{update_where}
use anony_mail.Base.Table.Keys.{
  Distinct, Distinct-delete_where, Distinct-update_where, All-imp, All-delete_where,
  All-update_where, any-update_where, any-delete_where,
}
use anony_mail.Base.Text.{Str}
use anony_mail.Store.Sqlite.{
  Db, MailboxRow, MessageRow, AttachmentRow, PushSubscriptionRow, CustomDomainRow,
  AttestedDeviceRow, has_mailbox, has_message, is_gone, delete_messages, delete_mailboxes,
}

-- The keys of the tables.
abbrev pub address_of : MailboxRow → Str
address_of r = r.address

abbrev pub message_id : MessageRow → Str
message_id r = r.id

abbrev pub attachment_id : AttachmentRow → Str
attachment_id r = r.id

abbrev pub subscription_id : PushSubscriptionRow → Str
subscription_id r = r.id

abbrev pub domain_of : CustomDomainRow → Str
domain_of r = r.domain

abbrev pub key_of : AttestedDeviceRow → Str
key_of r = r.key_id

-- PRIMARY KEY and REFERENCES, table by table.
pub record IsSound (db : Db) : Type 0 where
  pub mailbox_keys : Distinct address_of db.mailboxes
  pub message_keys : Distinct message_id db.messages
  pub attachment_keys : Distinct attachment_id db.attachments
  pub subscription_keys : Distinct subscription_id db.push_subscriptions
  pub claim_keys : Distinct domain_of db.custom_domains
  pub device_keys : Distinct key_of db.attested_devices
  pub message_owners : All (λ m. has_mailbox db m.mailbox_address ≡ true) db.messages
  pub subscription_owners : All (λ s. has_mailbox db s.mailbox_address ≡ true) db.push_subscriptions
  pub attachment_owners : All (λ a. has_message db a.message_id ≡ true) db.attachments

pub delete_messages-IsSound :
    (p : MessageRow → Bool) (db : Db) → IsSound db → IsSound (delete_messages p db)
unfolding delete_messages has_mailbox has_message
delete_messages-IsSound p db w = record {
  mailbox_keys = w.mailbox_keys;
  message_keys = Distinct-delete_where message_id p db.messages w.message_keys;
  attachment_keys = Distinct-delete_where attachment_id _ db.attachments w.attachment_keys;
  subscription_keys = w.subscription_keys;
  claim_keys = w.claim_keys;
  device_keys = w.device_keys;
  message_owners = All-delete_where _ _ p db.messages (λ m h n. h) w.message_owners;
  subscription_owners = w.subscription_owners;
  attachment_owners =
      All-delete_where _ _ _ db.attachments
        (λ a h n. any-delete_where (λ m. m.id == a.message_id) p db.messages h n)
        w.attachment_owners;
}

pub delete_mailboxes-IsSound :
    (p : MailboxRow → Bool) (db : Db) → IsSound db → IsSound (delete_mailboxes p db)
unfolding delete_mailboxes has_mailbox has_message is_gone delete_messages
delete_mailboxes-IsSound p db w =
    let v = delete_messages-IsSound (λ m. is_gone p db.mailboxes m.mailbox_address) db w in
    record {
      mailbox_keys = Distinct-delete_where address_of p db.mailboxes w.mailbox_keys;
      message_keys = v.message_keys;
      attachment_keys = v.attachment_keys;
      subscription_keys =
          Distinct-delete_where subscription_id _ db.push_subscriptions w.subscription_keys;
      claim_keys = w.claim_keys;
      device_keys = w.device_keys;
      message_owners =
          All-delete_where _ _ _ db.messages
            (λ m h n. any-delete_where (λ b. b.address == m.mailbox_address) p db.mailboxes h n)
            w.message_owners;
      subscription_owners =
          All-delete_where _ _ _ db.push_subscriptions
            (λ s h n. any-delete_where (λ b. b.address == s.mailbox_address) p db.mailboxes h n)
            w.subscription_owners;
      attachment_owners = v.attachment_owners;
    }

-- An update that leaves the addresses alone.
pub update_mailboxes-IsSound :
    (p : MailboxRow → Bool) (f : MailboxRow → MailboxRow) (db : Db)
    → ((r : MailboxRow) → (f r).address ≡ r.address)
    → IsSound db
    → IsSound (record db { mailboxes = update_where p f db.mailboxes })
unfolding has_mailbox has_message
update_mailboxes-IsSound p f db k w = record {
  mailbox_keys = Distinct-update_where address_of p f db.mailboxes k w.mailbox_keys;
  message_keys = w.message_keys;
  attachment_keys = w.attachment_keys;
  subscription_keys = w.subscription_keys;
  claim_keys = w.claim_keys;
  device_keys = w.device_keys;
  message_owners = All-imp _ _ db.messages (λ m h. still m.mailbox_address h) w.message_owners;
  subscription_owners =
      All-imp _ _ db.push_subscriptions (λ s h. still s.mailbox_address h) w.subscription_owners;
  attachment_owners = w.attachment_owners;
}
  where
    still :
        (a : Str)
        → any (λ (b : MailboxRow). b.address == a) db.mailboxes ≡ true
        → any (λ (b : MailboxRow). b.address == a) (update_where p f db.mailboxes) ≡ true
    still a h = any-update_where (λ b. b.address == a) p f db.mailboxes (λ r. rw (k r) refl) ∙ h

-- An update that leaves the identifiers and the mailboxes alone.
pub update_messages-IsSound :
    (p : MessageRow → Bool) (f : MessageRow → MessageRow) (db : Db)
    → ((r : MessageRow) → (f r).id ≡ r.id)
    → ((r : MessageRow) → (f r).mailbox_address ≡ r.mailbox_address)
    → IsSound db
    → IsSound (record db { messages = update_where p f db.messages })
unfolding has_mailbox has_message
update_messages-IsSound p f db k l w = record {
  mailbox_keys = w.mailbox_keys;
  message_keys = Distinct-update_where message_id p f db.messages k w.message_keys;
  attachment_keys = w.attachment_keys;
  subscription_keys = w.subscription_keys;
  claim_keys = w.claim_keys;
  device_keys = w.device_keys;
  message_owners = All-update_where _ p f db.messages (λ m h. rw (l m) h) w.message_owners;
  subscription_owners = w.subscription_owners;
  attachment_owners = All-imp _ _ db.attachments (λ a h. still a.message_id h) w.attachment_owners;
}
  where
    still :
        (i : Str)
        → any (λ (m : MessageRow). m.id == i) db.messages ≡ true
        → any (λ (m : MessageRow). m.id == i) (update_where p f db.messages) ≡ true
    still i h = any-update_where (λ m. m.id == i) p f db.messages (λ r. rw (k r) refl) ∙ h

-- Tables that no other refers to change alone.
pub subscriptions-IsSound :
    (rows : List PushSubscriptionRow) (db : Db)
    → Distinct subscription_id rows
    → All (λ s. has_mailbox db s.mailbox_address ≡ true) rows
    → IsSound db
    → IsSound (record db { push_subscriptions = rows })
unfolding has_mailbox has_message
subscriptions-IsSound rows db d o w = record {
  mailbox_keys = w.mailbox_keys;
  message_keys = w.message_keys;
  attachment_keys = w.attachment_keys;
  subscription_keys = d;
  claim_keys = w.claim_keys;
  device_keys = w.device_keys;
  message_owners = w.message_owners;
  subscription_owners = o;
  attachment_owners = w.attachment_owners;
}

pub claims-IsSound :
    (rows : List CustomDomainRow) (db : Db)
    → Distinct domain_of rows
    → IsSound db
    → IsSound (record db { custom_domains = rows })
unfolding has_mailbox has_message
claims-IsSound rows db d w = record {
  mailbox_keys = w.mailbox_keys;
  message_keys = w.message_keys;
  attachment_keys = w.attachment_keys;
  subscription_keys = w.subscription_keys;
  claim_keys = d;
  device_keys = w.device_keys;
  message_owners = w.message_owners;
  subscription_owners = w.subscription_owners;
  attachment_owners = w.attachment_owners;
}

pub devices-IsSound :
    (rows : List AttestedDeviceRow) (db : Db)
    → Distinct key_of rows
    → IsSound db
    → IsSound (record db { attested_devices = rows })
unfolding has_mailbox has_message
devices-IsSound rows db d w = record {
  mailbox_keys = w.mailbox_keys;
  message_keys = w.message_keys;
  attachment_keys = w.attachment_keys;
  subscription_keys = w.subscription_keys;
  claim_keys = w.claim_keys;
  device_keys = d;
  message_owners = w.message_owners;
  subscription_owners = w.subscription_owners;
  attachment_owners = w.attachment_owners;
}
