-- ===== src/Store/Sqlite.antt =====
-- src/store/sqlite.rs with the schema of migrations/sqlite: the tables, the constraints that the
-- engine checks on an insertion, and the rows that a deletion takes along. A statement runs alone,
-- as SQLite has one writer. A time column holds its `DateTime<Utc>`, whose texts are in the order
-- of the times; an id column holds the text of the UUID.
pub mod Mailboxes
pub mod Messages
pub mod Inbox
pub mod Subscriptions
pub mod Claims
pub mod Devices
pub mod Backend
pub mod Integrity
pub mod Insertions
pub mod Sound
pub mod QuotaBounds
pub mod Saved
use anony_mail.Base.{
  Bool, true, false, ◌&&◌, ◌||◌, Option, none, some, List, [], ◌∷◌, ◌++◌, ltb, if◌then◌else◌, ◌==◌,
  Result, all, any, ok, err, nat_eq, str_eq,
}
use anony_mail.Base.Int.{ℤ}
use anony_mail.Base.Results.{map_err}
use anony_mail.Base.Table.{delete_where}
use anony_mail.Base.Text.{Str, text}
use anony_mail.Model.{Time, Uuid, Bytes, Mailbox, AttestedDevice, PushSubscription, CustomDomain}
use anony_mail.Model.Kinds.{kind_from_str, status_from_str}
use anony_mail.Store.{StoreError, unique_violation, backend_failure}

-- The `uuid` crate: the hyphenated text of an identifier, and the parser.
pub record UuidCodec : Type 0 where
  pub to_string : Uuid → Str
  pub parse_str : Str → Option Uuid

pub record MailboxRow : Type 0 where
  pub address : Str
  pub domain : Str
  pub created_at : Time
  pub expires_at : Time
  pub owner_token_hash : Option Str
  pub creator_device_hash : Option Str

-- The row of the table; the queries read all columns but `raw_content`, or that one alone.
pub record MessageRow : Type 0 where
  pub id : Str
  pub mailbox_address : Str
  pub mail_from : Str
  pub subject : Option Str
  pub message_date : Option Time
  pub text_body : Option Str
  pub html_body : Option Str
  pub raw_size : ℤ
  pub received_at : Time
  pub seen : Bool
  pub raw_content : Option Bytes

-- The row of the table; the metadata are its columns but `message_id` and `content`.
pub record AttachmentRow : Type 0 where
  pub id : Str
  pub message_id : Str
  pub filename : Option Str
  pub content_type : Str
  pub size : ℤ
  pub content : Bytes

pub record PushSubscriptionRow : Type 0 where
  pub id : Str
  pub mailbox_address : Str
  pub kind : Str
  pub endpoint : Str
  pub p256dh : Str
  pub auth : Str
  pub created_at : Time

pub record CustomDomainRow : Type 0 where
  pub domain : Str
  pub claim_token_hash : Str
  pub txt_token : Str
  pub status : Str
  pub created_at : Time
  pub verified_at : Option Time
  pub last_checked_at : Option Time

pub record AttestedDeviceRow : Type 0 where
  pub key_id : Str
  pub public_key : Bytes
  pub counter : ℤ
  pub created_at : Time
  pub last_seen_at : Time

pub record Db : Type 0 where
  pub mailboxes : List MailboxRow
  pub messages : List MessageRow
  pub attachments : List AttachmentRow
  pub push_subscriptions : List PushSubscriptionRow
  pub custom_domains : List CustomDomainRow
  pub attested_devices : List AttestedDeviceRow

abbrev pub empty_db : Db
empty_db = record {
  mailboxes = [];
  messages = [];
  attachments = [];
  push_subscriptions = [];
  custom_domains = [];
  attested_devices = [];
}

-- The conversions of rows.
unfoldable pub parse_uuid : UuidCodec → Str → Result Uuid StoreError
parse_uuid uuid s = elim (uuid.parse_str s) [ some id ↦ ok id | none ↦ err backend_failure ]

unfoldable pub mailbox_from : MailboxRow → Mailbox
mailbox_from r = record {
  address = r.address;
  domain = r.domain;
  created_at = r.created_at;
  expires_at = r.expires_at;
  owner_token_hash = r.owner_token_hash;
  creator_device_hash = r.creator_device_hash;
}

unfoldable pub device_from : AttestedDeviceRow → AttestedDevice
device_from r = record {
  key_id = r.key_id;
  public_key = r.public_key;
  counter = r.counter;
  created_at = r.created_at;
  last_seen_at = r.last_seen_at;
}

-- The comparison of texts under SQLite's collation BINARY.
unfoldable pub text_ltb : Str → Str → Bool
text_ltb s [] = false
text_ltb [] (d ∷ t) = true
text_ltb (c ∷ s) (d ∷ t) = ltb c d || c == d && text_ltb s t

-- ON DELETE CASCADE of attachments.message_id
unfoldable pub delete_messages : (MessageRow → Bool) → Db → Db
unfolding delete_where
delete_messages p db = record db {
  messages = delete_where p db.messages;
  attachments =
      delete_where (λ a. any (λ m. p m && m.id == a.message_id) db.messages) db.attachments;
}

-- The addresses of the mailboxes that a deletion meets.
unfoldable pub is_gone : (MailboxRow → Bool) → List MailboxRow → Str → Bool
is_gone p mailboxes address = any (λ b. p b && b.address == address) mailboxes

-- ON DELETE CASCADE of messages.mailbox_address and push_subscriptions.mailbox_address
unfoldable pub delete_mailboxes : (MailboxRow → Bool) → Db → Db
unfolding delete_where delete_messages is_gone
delete_mailboxes p db =
    let db' = delete_messages (λ m. is_gone p db.mailboxes m.mailbox_address) db in
    record db' {
      mailboxes = delete_where p db.mailboxes;
      push_subscriptions =
          delete_where (λ s. is_gone p db.mailboxes s.mailbox_address) db.push_subscriptions;
    }

unfoldable pub has_mailbox : Db → Str → Bool
has_mailbox db address = any (λ b. b.address == address) db.mailboxes

unfoldable pub insert_mailbox : MailboxRow → Db → Result Db StoreError
unfolding has_mailbox
insert_mailbox row db =
    if has_mailbox db row.address
    then err (unique_violation (text "UNIQUE constraint failed: mailboxes.address"))
    else ok (record db { mailboxes = db.mailboxes ++ row ∷ [] })

unfoldable pub has_message : Db → Str → Bool
has_message db id = any (λ m. m.id == id) db.messages

unfoldable pub insert_message : MessageRow → Db → Result Db StoreError
unfolding has_mailbox has_message
insert_message row db =
    if has_message db row.id
    then err (unique_violation (text "UNIQUE constraint failed: messages.id"))
    else if has_mailbox db row.mailbox_address
    then ok (record db { messages = db.messages ++ row ∷ [] })
    else err backend_failure

unfoldable pub has_attachment : Db → Str → Bool
has_attachment db id = any (λ a. a.id == id) db.attachments

unfoldable pub insert_attachment : AttachmentRow → Db → Result Db StoreError
unfolding has_attachment has_message
insert_attachment row db =
    if has_attachment db row.id
    then err (unique_violation (text "UNIQUE constraint failed: attachments.id"))
    else if has_message db row.message_id
    then ok (record db { attachments = db.attachments ++ row ∷ [] })
    else err backend_failure

unfoldable pub is_subscription : Str → Str → PushSubscriptionRow → Bool
is_subscription address endpoint s = s.mailbox_address == address && s.endpoint == endpoint

unfoldable pub has_subscription : Db → PushSubscriptionRow → Bool
unfolding is_subscription
has_subscription db row =
    any (λ s. s.id == row.id || is_subscription row.mailbox_address row.endpoint s)
      db.push_subscriptions

unfoldable pub insert_subscription : PushSubscriptionRow → Db → Result Db StoreError
unfolding has_mailbox has_subscription
insert_subscription row db =
    if has_subscription db row
    then err (unique_violation (text "UNIQUE constraint failed: push_subscriptions"))
    else if has_mailbox db row.mailbox_address
    then ok (record db { push_subscriptions = db.push_subscriptions ++ row ∷ [] })
    else err backend_failure

unfoldable pub insert_custom_domain : CustomDomainRow → Db → Result Db StoreError
insert_custom_domain row db =
    if any (λ d. d.domain == row.domain) db.custom_domains
    then err (unique_violation (text "UNIQUE constraint failed: custom_domains.domain"))
    else ok (record db { custom_domains = db.custom_domains ++ row ∷ [] })

-- A statement or a transaction that fails leaves the tables as they were.
abbrev pub commit : {A : Type 0} → Db → Result (A × Db) StoreError → Result A StoreError × Db
commit db (ok (a, db')) = (ok a, db')
commit db (err e) = (err e, db)
