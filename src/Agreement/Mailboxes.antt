-- ===== src/Agreement/Mailboxes.antt =====
-- The mailbox operations of src/store/memory.rs and src/store/sqlite.rs agree.
pub mod Changes
pub mod Sweep
use anony_mail.Base.{
  ◌≡◌, refl, sym, ap, ◌∙◌, inl, inr, Bool, ◌&&◌, Option, none, some, List, [], ◌∷◌, ◌++◌, map,
  arith, ltb, ◌==◌, Option-cases, is_some, is_some_and, length, retain, find, any, nat_eq, str_eq,
}
use mathlib.Core.Option
use mathlib.Core.Path.{subst}
use anony_mail.Base.Assoc.{
  Map, Keyed, Keyed-insert, Keyed-remove, get, get-insert, get-Keyed, insert, remove, values,
}
use anony_mail.Base.Table.{update_where, rows_where, delete_where}
use anony_mail.Base.Table.Mirror.{
  find-rows, any-rows, any-key, rows_where-key, rows-insert_new, rows-insert_old,
  update_where-rows_none,
}
use anony_mail.Base.Table.Mirror.Removal.{rows-remove, rows-remove_where, remove_keys, retain-rows}
use anony_mail.Base.Text.{Str}
use anony_mail.Model.{Time, Mailbox, CustomDomain, AttestedDevice}
use anony_mail.Store.Memory.{Inner}
use anony_mail.Store.Sqlite.{
  Db, MailboxRow, mailbox_from, has_mailbox, insert_mailbox, delete_mailboxes, delete_messages,
}
use anony_mail.Store.Sqlite.Mailboxes.{at_address}
use anony_mail.Agreement.{
  Agrees, Same, SameAnswer, mailbox, mailbox_row, claim_row, device_row, address_of, domain_of,
  key_of,
}
use anony_mail.Store.Memory.Mailboxes as Memory
use anony_mail.Store.Sqlite.Mailboxes as Sqlite

from_row : (o : Option Mailbox) → Option.map mailbox_from (Option.map mailbox_row o) ≡ o
unfolding mailbox_from
from_row none = refl
from_row (some m) = refl

abbrev pub row_address : MailboxRow → Str
row_address r = r.address

pub same_key : (m : Mailbox) → row_address (mailbox_row m) ≡ address_of m
same_key m = refl

-- A look-up in the rows of a map.
found :
    (m : Map Str Mailbox) (rows : List MailboxRow) (address : Str)
    → rows ≡ map mailbox_row (values m)
    → Keyed address_of m
    → Option.map mailbox_from (find (at_address address) rows) ≡ get m address
found m rows address e k =
    ap (λ (t : List MailboxRow). Option.map mailbox_from (find (at_address address) t)) e
    ∙ ap (Option.map mailbox_from)
        (find-rows address_of mailbox_row row_address same_key m address k)
    ∙ from_row (get m address)

pub length-map {ℓ κ} :
    {A : Type ℓ} {B : Type κ} (f : A → B) (xs : List A) → length (map f xs) ≡ length xs
length-map f [] = refl
length-map f (x ∷ xs) = omega (arith, length-map f xs)

-- The condition of the count.
abbrev by_device : Str → Time → MailboxRow → Bool
by_device hash now r = is_some_and r.creator_device_hash (λ h. h == hash) && ltb now r.expires_at

module _ {inner : Inner} {db : Db} (w : Agrees inner db) where
  pub get_mailbox_same :
      (address : Str) → Memory.get_mailbox inner address ≡ Sqlite.get_mailbox db address
  unfolding Memory.get_mailbox Sqlite.get_mailbox
  get_mailbox_same address =
      sym (found inner.mailboxes db.mailboxes address w.mailboxes w.mailboxes_keyed)

  pub mailbox_is_active_same :
      (address : Str) (now : Time)
      → Memory.mailbox_is_active inner address now ≡ Sqlite.mailbox_is_active db address now
  unfolding Memory.mailbox_is_active Sqlite.mailbox_is_active
  mailbox_is_active_same address now = sym (
      ap (any (λ (r : MailboxRow). r.address == address && ltb now r.expires_at)) w.mailboxes
      ∙ any-rows address_of mailbox_row row_address same_key (λ r. ltb now r.expires_at)
          inner.mailboxes address w.mailboxes_keyed)

  pub count_same :
      (hash : Str) (now : Time)
      → Memory.count_active_mailboxes_by_device inner hash now
        ≡ Sqlite.count_active_mailboxes_by_device db hash now
  unfolding Memory.count_active_mailboxes_by_device Sqlite.count_active_mailboxes_by_device
      rows_where
  count_same hash now = sym (
      ap (λ (t : List MailboxRow). length (retain (by_device hash now) t)) w.mailboxes
      ∙ ap (λ (t : List MailboxRow). length t)
          (retain-rows address_of mailbox_row row_address same_key _ (by_device hash now)
            (values inner.mailboxes) (λ v. refl))
      ∙ length-map mailbox_row _)

  taken :
      (address : Str) {o : Option Mailbox}
      → get inner.mailboxes address ≡ o
      → any (λ (b : MailboxRow). b.address == address) db.mailboxes ≡ is_some o
  taken address {o} e =
      ap (any (at_address address)) w.mailboxes
      ∙ any-key address_of mailbox_row row_address same_key inner.mailboxes address
          w.mailboxes_keyed
      ∙ ap (λ (x : Option Mailbox). is_some x) e

  created-Agrees :
      (address : Str) (m : Mailbox)
      → address_of m ≡ address
      → get inner.mailboxes address ≡ none
      → Agrees
          (record inner { mailboxes = insert inner.mailboxes address m })
          (record db { mailboxes = db.mailboxes ++ mailbox_row m ∷ [] })
  created-Agrees address m k e = record {
    mailboxes =
        ap (λ (t : List MailboxRow). t ++ mailbox_row m ∷ []) w.mailboxes
        ∙ sym (
            rows-insert_new address_of mailbox_row row_address same_key inner.mailboxes address m
              e);
    claims = w.claims;
    devices = w.devices;
    mailboxes_keyed = Keyed-insert address_of address m inner.mailboxes k w.mailboxes_keyed;
    claims_keyed = w.claims_keyed;
    devices_keyed = w.devices_keyed;
  }

  pub create_mailbox_agrees :
      (address domain : Str) (expires_at : Time) (owner device : Option Str) (now : Time)
      → SameAnswer
          (λ m. mailbox (some m))
          (Memory.create_mailbox inner address domain expires_at owner device now)
          (Sqlite.create_mailbox db address domain expires_at owner device now)
  unfolding Memory.create_mailbox Sqlite.create_mailbox insert_mailbox has_mailbox mailbox_from
  create_mailbox_agrees address domain expires_at owner device now =
      elim (Option-cases (get inner.mailboxes address)) [
        | inl e ↦
            rw (e, Memory.create_mailbox)
              (rw (taken address e, Sqlite.create_mailbox) (refl, created-Agrees address _ refl e))
        | inr (u, e) ↦
            rw (e, Memory.create_mailbox) (rw (taken address e, Sqlite.create_mailbox) (refl, w))
      ]
