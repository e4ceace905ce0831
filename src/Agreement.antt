-- ===== src/Agreement.antt =====
-- The two stores of src/store/memory.rs and src/store/sqlite.rs side by side: when the maps of the
-- one hold what the tables of the other do, for mailboxes, claims and devices.
pub mod Mailboxes
pub mod Claims
pub mod Devices
pub mod Untouched
pub mod Answers
use anony_mail.Base.{ℕ, ◌≡◌, Bool, Option, List, map, Result, ok, err, nat_eq, str_eq}
use mathlib.Core.Option
use anony_mail.Base.Assoc.{Keyed, values}
use anony_mail.Base.Text.{Str}
use anony_mail.Model.{Mailbox, CustomDomain, AttestedDevice}
use anony_mail.Model.Kinds.{status_as_str}
use anony_mail.Store.{StoreError}
use anony_mail.Smtp.Recipient.{is_unique_violation}
use anony_mail.Store.Memory.{Inner}
use anony_mail.Store.Sqlite.{Db, MailboxRow, CustomDomainRow, AttestedDeviceRow}

abbrev pub mailbox_row : Mailbox → MailboxRow
mailbox_row m = record {
  address = m.address;
  domain = m.domain;
  created_at = m.created_at;
  expires_at = m.expires_at;
  owner_token_hash = m.owner_token_hash;
  creator_device_hash = m.creator_device_hash;
}

abbrev pub claim_row : CustomDomain → CustomDomainRow
claim_row d = record {
  domain = d.domain;
  claim_token_hash = d.claim_token_hash;
  txt_token = d.txt_token;
  status = status_as_str d.status;
  created_at = d.created_at;
  verified_at = d.verified_at;
  last_checked_at = d.last_checked_at;
}

abbrev pub device_row : AttestedDevice → AttestedDeviceRow
device_row d = record {
  key_id = d.key_id;
  public_key = d.public_key;
  counter = d.counter;
  created_at = d.created_at;
  last_seen_at = d.last_seen_at;
}

-- The keys of the maps.
abbrev pub address_of : Mailbox → Str
address_of m = m.address

abbrev pub domain_of : CustomDomain → Str
domain_of d = d.domain

abbrev pub key_of : AttestedDevice → Str
key_of d = d.key_id

-- The tables hold the values of the maps, in their order.
pub record Agrees (inner : Inner) (db : Db) : Type 0 where
  pub mailboxes : db.mailboxes ≡ map mailbox_row (values inner.mailboxes)
  pub claims : db.custom_domains ≡ map claim_row (values inner.custom_domains)
  pub devices : db.attested_devices ≡ map device_row (values inner.attested_devices)
  pub mailboxes_keyed : Keyed address_of inner.mailboxes
  pub claims_keyed : Keyed domain_of inner.custom_domains
  pub devices_keyed : Keyed key_of inner.attested_devices

-- What a caller sees of an answer. Of a failure that is whether it is a unique violation; the texts
-- differ.
pub data Answer : Type 0 where
  mailbox : Option Mailbox → Answer
  claim : Option CustomDomain → Answer
  claims : List CustomDomain → Answer
  device : Option AttestedDevice → Answer
  flag : Bool → Answer
  number : ℕ → Answer
  failed : Bool → Answer
  other : Answer

abbrev pub of {ℓ} : {A : Type ℓ} → (A → Answer) → Result A StoreError → Answer
of f (ok a) = f a
of f (err e) = failed (is_unique_violation e)

-- Two operations answer the same, and the states that they leave agree.
abbrev pub Same : {A : Type 0} → A × Inner → A × Db → Type 0
Same (a, inner) (b, db) = (a ≡ b) × Agrees inner db

-- So do two that may fail.
abbrev pub SameAnswer :
    {A : Type 0} → (A → Answer) → Result A StoreError × Inner → Result A StoreError × Db → Type 0
SameAnswer f (a, inner) (b, db) = (of f a ≡ of f b) × Agrees inner db
