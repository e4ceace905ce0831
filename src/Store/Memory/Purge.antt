-- ===== src/Store/Memory/Purge.antt =====
-- What leaves src/store/memory.rs with a mailbox: the cascade of a deletion and of the sweep.
use anony_mail.Base.{
  ◌≡◌, refl, ap, ◌∙◌, Bool, true, false, not, Option, none, List, [], ◌∷◌, arith, leb,
  if◌then◌else◌, ◌==◌, ==_iff, is_some_and, retain, contains, nat_eq, str_eq,
}
use anony_mail.Base.Assoc.{get, remove, get-remove, contains-values}
use anony_mail.Store.Memory.Lifecycle.{IsKeyed}
use anony_mail.Base.Text.{Str}
use anony_mail.Model.{Time, Mailbox, PushSubscription}
use anony_mail.Store.Memory.{Inner, Entry}
use anony_mail.Store.Memory.Mailboxes.{
  get_mailbox, delete_mailbox, purge_expired, expired_addresses, remove_all,
}
use anony_mail.Store.Memory.Quota.{in_mailbox}
use anony_mail.Store.Memory.QuotaBounds.{inbox}
use anony_mail.Store.Memory.Subscriptions.{list_subscriptions}

-- What is left of an address: its mailbox, its messages and its subscriptions.
pub record Holds (inner : Inner) (a : Str) (mb : Option Mailbox) (msgs : List Entry)
    (subs : List PushSubscription) : Type 0 where
  pub mailbox : get_mailbox inner a ≡ mb
  pub messages : inbox inner a ≡ msgs
  pub subscriptions : list_subscriptions inner a ≡ subs

-- Nothing of an address is left.
abbrev pub IsGone : Inner → Str → Type 0
IsGone inner a = Holds inner a none [] []

-- All of an address is as it was before.
abbrev pub IsKept : Inner → Inner → Str → Type 0
IsKept before inner a =
    Holds inner a (get_mailbox before a) (inbox before a) (list_subscriptions before a)

-- A filter by address leaves one address's elements alone, or removes them all.
retain_by_key {ℓ} :
    {A : Type ℓ} (key : A → Str) (gone : Str → Bool) (a : Str) (xs : List A)
    → retain (λ x. key x == a) (retain (λ x. not (gone (key x))) xs)
      ≡ (if gone a then [] else retain (λ x. key x == a) xs)
unfolding retain
retain_by_key key gone a [] = ground arith
retain_by_key key gone a (x ∷ xs) = ground (arith, retain_by_key key gone a xs, ==_iff (key x) a)

get-remove_all :
    (inner : Inner) (as' : List Str) (a : Str)
    → get (remove_all inner as').mailboxes a
      ≡ (if contains as' a then none else get inner.mailboxes a)
unfolding contains
get-remove_all inner [] a = refl
get-remove_all inner (b ∷ bs) a = ground (
  arith,
  get-remove_all (record inner { mailboxes = remove inner.mailboxes b }) bs a,
  get-remove inner.mailboxes b a,
)

rest-remove_all :
    (inner : Inner) (as' : List Str)
    → ((remove_all inner as').messages ≡ inner.messages)
      × ((remove_all inner as').subscriptions ≡ inner.subscriptions)
rest-remove_all inner [] = (refl, refl)
rest-remove_all inner (b ∷ bs) =
    rest-remove_all (record inner { mailboxes = remove inner.mailboxes b }) bs

module _ (inner : Inner) (address : Str) where
  -- Deleting a mailbox leaves nothing of it, and all of the others.
  pub delete_mailbox_exact :
      (a : Str)
      → ((address == a) ≡ true → IsGone (delete_mailbox inner address).1 a)
        × ((address == a) ≡ false → IsKept inner (delete_mailbox inner address).1 a)
  unfolding delete_mailbox get_mailbox list_subscriptions in_mailbox
  delete_mailbox_exact a = (
    λ h. record {
      mailbox = rw get-remove (ground (arith, h));
      messages = ground (arith, msgs, ==_iff address a, ==_iff a address);
      subscriptions = ground (arith, subs, ==_iff address a, ==_iff a address);
    },
    λ h. record {
      mailbox = rw get-remove (ground (arith, h));
      messages = ground (arith, msgs, ==_iff address a, ==_iff a address);
      subscriptions = ground (arith, subs, ==_iff address a, ==_iff a address);
    },
  )
    where
      msgs :
          retain
            (λ (e : Entry). e.message.mailbox_address == a)
            (retain (λ e. not (e.message.mailbox_address == address)) inner.messages)
          ≡ (if a == address
              then []
              else retain (λ e. e.message.mailbox_address == a) inner.messages)
      msgs =
          retain_by_key (λ (e : Entry). e.message.mailbox_address) (λ k. k == address) a
            inner.messages

      subs :
          retain
            (λ (s : PushSubscription). s.mailbox_address == a)
            (retain (λ s. not (s.mailbox_address == address)) inner.subscriptions)
          ≡ (if a == address then [] else retain (λ s. s.mailbox_address == a) inner.subscriptions)
      subs =
          retain_by_key (λ (s : PushSubscription). s.mailbox_address) (λ k. k == address) a
            inner.subscriptions

-- The mailbox of an address expired on or before `now`.
abbrev pub has_expired : Inner → Time → Str → Bool
has_expired inner now a = is_some_and (get_mailbox inner a) (λ m. leb m.expires_at now)

expired_addresses_exact :
    (inner : Inner) (now : Time) (a : Str)
    → IsKeyed inner
    → contains (expired_addresses inner now) a ≡ has_expired inner now a
unfolding expired_addresses get_mailbox
expired_addresses_exact inner now a w =
    contains-values (λ (m : Mailbox). m.address) (λ m. leb m.expires_at now) inner.mailboxes a w

purged :
    (inner : Inner) (now : Time) (a : Str)
    → IsKeyed inner
    → let gone = has_expired inner now a in
      Holds
        (purge_expired inner now).1
        a
        (if gone then none else get_mailbox inner a)
        (if gone then [] else inbox inner a)
        (if gone then [] else list_subscriptions inner a)
unfolding purge_expired list_subscriptions in_mailbox get_mailbox
purged inner now a w = record {
  mailbox =
      get-remove_all inner expired a
      ∙ ap (λ b. if b then none else get inner.mailboxes a) (expired_addresses_exact inner now a w);
  messages =
      ap
        (λ ms.
          retain (λ (e : Entry). e.message.mailbox_address == a)
            (retain (λ e. not (contains expired e.message.mailbox_address)) ms))
        (rest-remove_all inner expired).0
      ∙ retain_by_key (λ (e : Entry). e.message.mailbox_address) (contains expired) a inner.messages
      ∙ ap (λ b. if b then [] else inbox inner a) (expired_addresses_exact inner now a w);
  subscriptions =
      ap
        (λ ss.
          retain (λ (s : PushSubscription). s.mailbox_address == a)
            (retain (λ s. not (contains expired s.mailbox_address)) ss))
        (rest-remove_all inner expired).1
      ∙ retain_by_key (λ (s : PushSubscription). s.mailbox_address) (contains expired) a
          inner.subscriptions
      ∙ ap (λ b. if b then [] else list_subscriptions inner a)
          (expired_addresses_exact inner now a w);
}
  where
    expired : List Str
    expired = expired_addresses inner now

-- The sweep leaves nothing of the mailboxes that have expired, and all of the others.
pub purge_expired_exact :
    (inner : Inner) (now : Time) (a : Str)
    → IsKeyed inner
    → (has_expired inner now a ≡ true → IsGone (purge_expired inner now).1 a)
      × (has_expired inner now a ≡ false → IsKept inner (purge_expired inner now).1 a)
purge_expired_exact inner now a w =
    (λ h. rw h at (purged inner now a w), λ h. rw h at (purged inner now a w))
