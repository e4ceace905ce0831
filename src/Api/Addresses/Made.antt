-- ===== src/Api/Addresses/Made.antt =====
-- What the memory store does with the mailboxes that src/api/addresses.rs makes.
use anony_mail.Base.{
  ◌≡◌, refl, ◌∙◌, Option, none, some, if◌then◌else◌, if-true, ==_refl, Result, is_some, ok, err,
  nat_eq, str_eq,
}
use anony_mail.Base.Text.{Str}
use anony_mail.Base.Assoc.{get, insert, get-insert}
use anony_mail.Model.{Time, Mailbox}
use anony_mail.Store.{StoreError}
use anony_mail.Store.Memory.{Inner}
use anony_mail.Store.Memory.Mailboxes.{create_mailbox}

-- A mailbox was made under a free address, or nothing changed.
abbrev pub Outcome : Inner → Str → Option Str → Result Mailbox StoreError × Inner → Type 0
Outcome inner a owner (ok m, i) =
    (get inner.mailboxes a ≡ none)
    × (get i.mailboxes a ≡ some m)
    × (m.owner_token_hash ≡ owner)
    × (m.address ≡ a)
Outcome inner a owner (err e, i) = i ≡ inner

tried :
    (inner : Inner) (e : StoreError) (m : Mailbox) (found : Option Mailbox)
    → get inner.mailboxes m.address ≡ found
    → Outcome inner m.address m.owner_token_hash (
        if is_some found
        then (err e, inner)
        else (ok m, record inner { mailboxes = insert inner.mailboxes m.address m }))
tried inner e m (some f) h = refl
tried inner e m none h = (
  h,
  get-insert inner.mailboxes m.address m.address m ∙ if-true _ _ (==_refl m.address),
  refl,
  refl,
)

pub create_mailbox-Outcome :
    (inner : Inner) (a d : Str) (e : Time) (owner device : Option Str) (t : Time)
    → Outcome inner a owner (create_mailbox inner a d e owner device t)
unfolding create_mailbox
create_mailbox-Outcome inner a d e owner device t =
    tried inner _
      (record {
        address = a;
        domain = d;
        created_at = t;
        expires_at = e;
        owner_token_hash = owner;
        creator_device_hash = device;
      })
      (get inner.mailboxes a) refl

-- The mailbox that a call of the store makes.
abbrev pub mailbox_of : Str → Str → Time → Option Str → Option Str → Time → Mailbox
mailbox_of a d e owner device t = record {
  address = a;
  domain = d;
  created_at = t;
  expires_at = e;
  owner_token_hash = owner;
  creator_device_hash = device;
}

pub create_mailbox_free :
    (inner : Inner) (a d : Str) (e : Time) (owner device : Option Str) (t : Time)
    → get inner.mailboxes a ≡ none
    → create_mailbox inner a d e owner device t ≡ (
      ok (mailbox_of a d e owner device t),
      record inner { mailboxes = insert inner.mailboxes a (mailbox_of a d e owner device t) },
    )
unfolding create_mailbox
create_mailbox_free inner a d e owner device t h = rw h refl
