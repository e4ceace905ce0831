-- ===== src/Model.antt =====
-- src/model.rs: the records that the stores keep and that the front ends pass round.
-- A `DateTime<Utc>` or `Instant` is the count of nanoseconds since a fixed moment before every
-- time of a run; a `Uuid` is its 128-bit number; text is a list of code points.
pub mod Kinds
use anony_mail.Base.{ℕ, ◌*◌, Bool, Option, List}
use anony_mail.Base.Int.{ℤ}
use anony_mail.Base.Text.{Str}
use Kinds.{SubscriptionKind, CustomDomainStatus}

abbrev pub Time : Type 0
Time = ℕ

abbrev pub Uuid : Type 0
Uuid = ℕ

abbrev pub Bytes : Type 0
Bytes = List ℕ

abbrev pub seconds : ℕ → ℕ
seconds n = n * 1000000000

abbrev pub hours : ℕ → ℕ
hours n = seconds (n * 3600)

-- A disposable inbox.
pub record Mailbox : Type 0 where
  pub address : Str
  pub domain : Str
  pub created_at : Time
  pub expires_at : Time
  pub owner_token_hash : Option Str
  pub creator_device_hash : Option Str

pub record MessageSummary : Type 0 where
  pub id : Uuid
  pub mail_from : Str
  pub subject : Option Str
  pub received_at : Time
  pub has_attachments : Bool
  pub seen : Bool

pub record AttachmentMeta : Type 0 where
  pub id : Uuid
  pub filename : Option Str
  pub content_type : Str
  pub size : ℤ

pub record StoredMessage : Type 0 where
  pub id : Uuid
  pub mailbox_address : Str
  pub mail_from : Str
  pub subject : Option Str
  pub message_date : Option Time
  pub text_body : Option Str
  pub html_body : Option Str
  pub raw_size : ℤ
  pub received_at : Time
  pub seen : Bool
  pub attachments : List AttachmentMeta

pub record Attachment : Type 0 where
  pub filename : Option Str
  pub content_type : Str
  pub content : Bytes

pub record NewAttachment : Type 0 where
  pub filename : Option Str
  pub content_type : Str
  pub content : Bytes

pub record NewMessage : Type 0 where
  pub mail_from : Str
  pub subject : Option Str
  pub message_date : Option Time
  pub text_body : Option Str
  pub html_body : Option Str
  pub raw_size : ℤ
  pub raw_content : Option Bytes
  pub attachments : List NewAttachment

-- A custom domain claim.
pub record CustomDomain : Type 0 where
  pub domain : Str
  pub status : CustomDomainStatus
  pub claim_token_hash : Str
  pub txt_token : Str
  pub created_at : Time
  pub verified_at : Option Time
  pub last_checked_at : Option Time

-- A device that completed App Attest registration.
pub record AttestedDevice : Type 0 where
  pub key_id : Str
  pub public_key : Bytes
  pub counter : ℤ
  pub created_at : Time
  pub last_seen_at : Time

pub record PushSubscription : Type 0 where
  pub id : Uuid
  pub mailbox_address : Str
  pub kind : SubscriptionKind
  pub endpoint : Str
  pub p256dh : Str
  pub auth : Str
  pub created_at : Time
