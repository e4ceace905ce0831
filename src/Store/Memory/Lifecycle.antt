-- ===== src/Store/Memory/Lifecycle.antt =====
-- Mailboxes from creation to expiry in src/store/memory.rs: what each operation does to the
-- mailboxes, their messages and their subscriptions.
use anony_mail.Base.{
  ◌≡◌, refl, ◌⊎◌, inl, inr, true, false, Option, none, some, List, [], ◌∷◌, ◌++◌, arith, ltb, ◌==◌,
  ==_iff, ==_refl, Option-cases, is_some, err, nat_eq, str_eq,
}
use anony_mail.Base.Assoc.{get, remove, Keyed, Keyed-insert, Keyed-remove, get-insert}
use anony_mail.Base.Text.{Str, text}
use anony_mail.Model.{Time, Mailbox}
use anony_mail.Store.{unique_violation}
use anony_mail.Store.Memory.{Inner, empty_inner}
use anony_mail.Store.Memory.Mailboxes.{
  create_mailbox, get_mailbox, mailbox_is_active, extend_mailbox, rotate_owner_token,
  delete_mailbox, purge_expired, expired_addresses, remove_all,
}

-- Each address has one mailbox, which bears the address.
abbrev pub IsKeyed : Inner → Type 0
IsKeyed inner = Keyed (λ (m : Mailbox). m.address) inner.mailboxes

-- The calls that write mailboxes.
pub data MailboxCall : Type 0 where
  create : Str → Str → Time → Option Str → Option Str → Time → MailboxCall
  extend : Str → Time → MailboxCall
  rotate : Str → Str → MailboxCall
  delete : Str → MailboxCall
  purge : Time → MailboxCall

unfoldable pub mailbox_step : Inner → MailboxCall → Inner
mailbox_step inner (create a d e o h now) = (create_mailbox inner a d e o h now).1
mailbox_step inner (extend a t) = (extend_mailbox inner a t).1
mailbox_step inner (rotate a h) = (rotate_owner_token inner a h).1
mailbox_step inner (delete a) = (delete_mailbox inner a).1
mailbox_step inner (purge now) = (purge_expired inner now).1

get-address :
    (m : List (Str × Mailbox)) (k : Str) (mb : Mailbox)
    → Keyed (λ (m : Mailbox). m.address) m
    → get m k ≡ some mb
    → mb.address ≡ k
unfolding get
get-address [] k mb w h = cc
get-address ((j, v) ∷ m) k mb w h = ground (arith, w.0, ==_iff j k, get-address m k mb w.2)

remove_all-IsKeyed :
    (inner : Inner) (as' : List Str) → IsKeyed inner → IsKeyed (remove_all inner as')
remove_all-IsKeyed inner [] w = w
remove_all-IsKeyed inner (a ∷ as') w =
    remove_all-IsKeyed (record inner { mailboxes = remove inner.mailboxes a }) as'
      (Keyed-remove _ a inner.mailboxes w)

pub mailbox_step-IsKeyed :
    (inner : Inner) (c : MailboxCall) → IsKeyed inner → IsKeyed (mailbox_step inner c)
unfolding mailbox_step create_mailbox extend_mailbox rotate_owner_token delete_mailbox purge_expired
mailbox_step-IsKeyed inner (create a d e o h now) w = elim (Option-cases (get inner.mailboxes a)) [
  | inl n ↦ rw (n, mailbox_step) (Keyed-insert _ a _ inner.mailboxes refl w)
  | inr (mb, n) ↦ rw (n, mailbox_step) w
]
mailbox_step-IsKeyed inner (extend a t) w = elim (Option-cases (get inner.mailboxes a)) [
  | inl n ↦ rw (n, mailbox_step) w
  | inr (mb, n) ↦
      rw (n, mailbox_step)
        (Keyed-insert _ a _ inner.mailboxes (get-address inner.mailboxes a mb w n) w)
]
mailbox_step-IsKeyed inner (rotate a h) w = elim (Option-cases (get inner.mailboxes a)) [
  | inl n ↦ rw (n, mailbox_step) w
  | inr (mb, n) ↦
      rw (n, mailbox_step)
        (Keyed-insert _ a _ inner.mailboxes (get-address inner.mailboxes a mb w n) w)
]
mailbox_step-IsKeyed inner (delete a) w = Keyed-remove _ a inner.mailboxes w
mailbox_step-IsKeyed inner (purge now) w = remove_all-IsKeyed inner (expired_addresses inner now) w

unfoldable pub mailbox_run : Inner → List MailboxCall → Inner
mailbox_run inner [] = inner
mailbox_run inner (c ∷ cs) = mailbox_run (mailbox_step inner c) cs

mailbox_run-IsKeyed :
    (inner : Inner) (cs : List MailboxCall) → IsKeyed inner → IsKeyed (mailbox_run inner cs)
unfolding mailbox_run
mailbox_run-IsKeyed inner [] w = w
mailbox_run-IsKeyed inner (c ∷ cs) w =
    mailbox_run-IsKeyed (mailbox_step inner c) cs (mailbox_step-IsKeyed inner c w)

-- From the empty store, whatever the calls, each address has one mailbox, which bears it.
pub mailbox_run-IsKeyed_empty : (cs : List MailboxCall) → IsKeyed (mailbox_run empty_inner cs)
mailbox_run-IsKeyed_empty cs = mailbox_run-IsKeyed empty_inner cs tt

module _ (inner : Inner) (address domain : Str) (expires_at : Time) (owner device : Option Str)
    (now : Time) where
  abbrev created : Inner
  created = (create_mailbox inner address domain expires_at owner device now).1

  -- A free address gets a mailbox that is active at a time exactly if it is before its expiry; the
  -- other addresses are as they were. A taken address gets the error of a unique violation, and
  -- nothing changes.
  pub create_mailbox_exact :
      ((get_mailbox inner address ≡ none)
        × ((t : Time) → mailbox_is_active created address t ≡ ltb t expires_at)
        × ((a : Str) → (address == a) ≡ false → get_mailbox created a ≡ get_mailbox inner a))
      ⊎ ((is_some (get_mailbox inner address) ≡ true)
          × (created ≡ inner)
          × ((create_mailbox inner address domain expires_at owner device now).0
              ≡ err (unique_violation (text "mailbox already exists: " ++ address))))
  unfolding create_mailbox get_mailbox mailbox_is_active
  create_mailbox_exact = elim (Option-cases (get inner.mailboxes address)) [
    | inl n ↦ inl (
      n,
      λ t. ground (arith, get-insert inner.mailboxes address address mb, ==_refl address),
      λ a h. ground (arith, get-insert inner.mailboxes address a mb),
    )
    | inr (m, n) ↦ inr (ground (arith, n), ground (arith, n), ground (arith, n))
  ]
    where
      mb : Mailbox
      mb = record {
        address = address;
        domain = domain;
        created_at = now;
        expires_at = expires_at;
        owner_token_hash = owner;
        creator_device_hash = device;
      }
