-- ===== src/Store/Memory.antt =====
-- src/store/memory.rs: the state of the in-memory store. Each operation holds the mutex from its
-- first read to its last write, so it is one function on the state; the children have them.
pub mod Mailboxes
pub mod Quota
pub mod Messages
pub mod Subscriptions
pub mod Claims
pub mod Devices
pub mod Backend
pub mod QuotaBounds
pub mod Spared
pub mod SaveLaws
pub mod LateMail
pub mod Listing
pub mod Replay
pub mod Lifecycle
pub mod Purge
pub mod SubscriptionCap
use anony_mail.Base.{ℕ, Option, List, []}
use anony_mail.Base.Assoc.{Map}
use anony_mail.Base.Text.{Str}
use anony_mail.Model.{
  Uuid, Bytes, Mailbox, StoredMessage, CustomDomain, AttestedDevice, PushSubscription,
}

pub record Entry : Type 0 where
  pub message : StoredMessage
  pub contents : List (Uuid × Bytes)
  pub raw : Option Bytes

pub record Inner : Type 0 where
  pub mailboxes : Map Str Mailbox
  pub messages : List Entry
  pub subscriptions : List PushSubscription
  pub custom_domains : Map Str CustomDomain
  pub attested_devices : Map Str AttestedDevice

abbrev pub empty_inner : Inner
empty_inner = record {
  mailboxes = [];
  messages = [];
  subscriptions = [];
  custom_domains = [];
  attested_devices = [];
}
