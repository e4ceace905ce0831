-- ===== src/Store.antt =====
-- src/store/mod.rs: the persistence interface that the SMTP session, the HTTP handlers and the
-- background tasks are written against.
pub mod Memory
pub mod Sqlite
pub mod Steps
use anony_mail.Base.{ℕ, Bool, Option, List, Result, Eq, ◌==◌, nat_eq, ◌&&◌}
use anony_mail.Base.Int.{ℤ}
use anony_mail.Base.Text.{Str}
use anony_mail.Model.{
  Time, Uuid, Bytes, Mailbox, MessageSummary, StoredMessage, Attachment, NewMessage, CustomDomain,
  AttestedDevice, PushSubscription,
}
use anony_mail.Model.Kinds.{SubscriptionKind, CustomDomainStatus}

-- The markers that callers downcast to, and any other failure of a backend.
pub data StoreError : Type 0 where
  unique_violation : Str → StoreError
  subscription_limit : ℕ → StoreError
  backend_failure : StoreError

-- A cap of 0 is no cap.
pub record MailboxQuotas : Type 0 where
  pub max_messages : ℕ
  pub max_bytes : ℕ

abbrev pub unlimited : MailboxQuotas
unlimited = record { max_messages = 0; max_bytes = 0 }

-- An operation that only reads has no new state. What a call reads of the clock and of the random
-- source is the business of the implementation's `State`.
pub record Store : Type 1 where
  pub State : Type 0
  pub create_mailbox :
      State → Str → Str → Time → Option Str → Option Str → Result Mailbox StoreError × State
  pub get_mailbox : State → Str → Result (Option Mailbox) StoreError
  pub mailbox_is_active : State → Str → Time → Result Bool StoreError
  pub extend_mailbox : State → Str → Time → Result (Option Mailbox) StoreError × State
  pub delete_mailbox : State → Str → Result Bool StoreError × State
  pub rotate_owner_token : State → Str → Str → Result Bool StoreError × State
  pub save_message : State → Str → NewMessage → Result StoredMessage StoreError × State
  pub list_messages : State → Str → ℕ → Option Uuid → Result (List MessageSummary) StoreError
  pub get_message : State → Str → Uuid → Result (Option StoredMessage) StoreError
  pub get_raw_message : State → Str → Uuid → Result (Option Bytes) StoreError
  pub get_attachment : State → Str → Uuid → Uuid → Result (Option Attachment) StoreError
  pub delete_message : State → Str → Uuid → Result Bool StoreError × State
  pub mark_seen : State → Str → Uuid → Result Bool StoreError × State
  pub delete_all_messages : State → Str → Result ℕ StoreError × State
  pub purge_expired : State → Time → Result ℕ StoreError × State
  pub add_subscription :
      State
      → Str
      → SubscriptionKind
      → Str
      → Str
      → Str
      → ℕ
      → Result PushSubscription StoreError × State
  pub list_subscriptions : State → Str → Result (List PushSubscription) StoreError
  pub delete_subscription : State → Str → Str → Result Bool StoreError × State
  pub create_custom_domain : State → Str → Str → Str → Result CustomDomain StoreError × State
  pub get_custom_domain : State → Str → Result (Option CustomDomain) StoreError
  pub delete_custom_domain : State → Str → Result Bool StoreError × State
  pub custom_domain_is_verified : State → Str → Result Bool StoreError
  pub record_custom_domain_check :
      State → Str → CustomDomainStatus → Option Time → Time → Result Bool StoreError × State
  pub list_custom_domains_to_recheck : State → Time → Result (List CustomDomain) StoreError
  pub upsert_attested_device : State → Str → Bytes → Time → Result AttestedDevice StoreError × State
  pub get_attested_device : State → Str → Result (Option AttestedDevice) StoreError
  pub advance_attested_device_counter : State → Str → ℤ → Time → Result Bool StoreError × State
  pub prune_attested_devices : State → Time → Result ℕ StoreError × State
  pub count_active_mailboxes_by_device : State → Str → Time → Result ℕ StoreError
  pub run_maintenance : State → Result (Unit {0}) StoreError × State
  pub ping : State → Result (Unit {0}) StoreError
