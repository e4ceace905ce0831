-- ===== src/Agreement/Mailboxes/Changes.antt =====
-- The operations of src/store/memory.rs and src/store/sqlite.rs that change or remove mailboxes agree.
use anony_mail.Base.{
  ◌≡◌, refl, sym, ap, ◌∙◌, Option, none, some, List, arith, ltb, if◌then◌else◌, ◌==◌, ==_iff,
  ==_refl, is_some, nat_eq, str_eq,
}
use anony_mail.Base.Assoc.{Keyed-insert, Keyed-remove, get, get-insert, get-Keyed}
use anony_mail.Base.Table.{update_where, rows_where, delete_where}
use anony_mail.Base.Table.Mirror.{rows_where-key, rows-insert_old, update_where-rows_none}
use anony_mail.Base.Table.Mirror.Removal.{rows-remove}
use anony_mail.Base.Text.{Str}
use anony_mail.Model.{Time, Mailbox}
use anony_mail.Store.Memory.{Inner}
use anony_mail.Store.Sqlite.{Db, MailboxRow, delete_mailboxes, delete_messages}
use anony_mail.Store.Sqlite.Mailboxes.{at_address}
use anony_mail.Agreement.{Agrees, Same, mailbox_row, address_of}
use anony_mail.Store.Memory.Mailboxes as Memory
use anony_mail.Store.Sqlite.Mailboxes as Sqlite
use anony_mail.Agreement.Mailboxes.{row_address, same_key, get_mailbox_same}

module _ {inner : Inner} {db : Db} (w : Agrees inner db) where
  updated-Agrees :
      (address : Str) (change : Mailbox → Mailbox) (f : MailboxRow → MailboxRow)
      (o : Option Mailbox)
      → get inner.mailboxes address ≡ o
      → ((m : Mailbox) → f (mailbox_row m) ≡ mailbox_row (change m))
      → ((m : Mailbox) → address_of (change m) ≡ address_of m)
      → Agrees
          (Memory.update_mailbox inner address change o).1
          (record db { mailboxes = update_where (at_address address) f db.mailboxes })
  unfolding Memory.update_mailbox
  updated-Agrees address change f none e h k = record {
    mailboxes =
        ap (update_where (at_address address) f) w.mailboxes
        ∙ update_where-rows_none address_of mailbox_row row_address same_key (at_address address) f
            inner.mailboxes address (λ r n. n) w.mailboxes_keyed (ground (arith, e));
    claims = w.claims;
    devices = w.devices;
    mailboxes_keyed = w.mailboxes_keyed;
    claims_keyed = w.claims_keyed;
    devices_keyed = w.devices_keyed;
  }
  updated-Agrees address change f (some u) e h k = record {
    mailboxes =
        ap (update_where (at_address address) f) w.mailboxes
        ∙ rows-insert_old address_of mailbox_row row_address same_key (at_address address) f
            inner.mailboxes address u (change u) (λ r n. n) w.mailboxes_keyed e
            ((==_iff u.address address).1
              (get-Keyed address_of inner.mailboxes address u w.mailboxes_keyed e))
            (h u);
    claims = w.claims;
    devices = w.devices;
    mailboxes_keyed =
        Keyed-insert address_of address (change u) inner.mailboxes
          (k u ∙ get-Keyed address_of inner.mailboxes address u w.mailboxes_keyed e)
          w.mailboxes_keyed;
    claims_keyed = w.claims_keyed;
    devices_keyed = w.devices_keyed;
  }

  affected :
      (address : Str)
      → ltb 0 (rows_where (at_address address) db.mailboxes) ≡ is_some (get inner.mailboxes address)
  affected address =
      ap (λ (t : List MailboxRow). ltb 0 (rows_where (at_address address) t)) w.mailboxes
      ∙ rows_where-key address_of mailbox_row row_address same_key inner.mailboxes address
          w.mailboxes_keyed

module _ {inner : Inner} {db : Db} (w : Agrees inner db) (address : Str) where
  extended :
      (change : Mailbox → Mailbox) (o : Option Mailbox) (db' : Db)
      → get inner.mailboxes address ≡ o
      → Agrees (Memory.update_mailbox inner address change o).1 db'
      → (Memory.update_mailbox inner address change o).0 ≡ (
          if rows_where (at_address address) db.mailboxes == 0
          then none
          else Sqlite.get_mailbox db' address)
  unfolding Memory.update_mailbox Memory.get_mailbox
  extended change none db' e v = ground (arith, affected w address, e)
  extended change (some u) db' e v = ground (
    arith,
    affected w address,
    e,
    get_mailbox_same v address,
    get-insert inner.mailboxes address address (change u),
    ==_refl address,
  )

  pub extend_mailbox_agrees :
      (t : Time) → Same (Memory.extend_mailbox inner address t) (Sqlite.extend_mailbox db address t)
  unfolding Memory.extend_mailbox Sqlite.extend_mailbox
  extend_mailbox_agrees t =
      let v =
        updated-Agrees w address (λ m. record m { expires_at = t })
          (λ r. record r { expires_at = t }) (get inner.mailboxes address) refl (λ m. refl)
          (λ m. refl) in
      (extended (λ m. record m { expires_at = t }) (get inner.mailboxes address) _ refl v, v)

  rotated :
      (change : Mailbox → Mailbox) (o : Option Mailbox)
      → is_some (Memory.update_mailbox inner address change o).0 ≡ is_some o
  unfolding Memory.update_mailbox
  rotated change none = refl
  rotated change (some m) = refl

  pub rotate_owner_token_agrees :
      (hash : Str)
      → Same
          (Memory.rotate_owner_token inner address hash)
          (Sqlite.rotate_owner_token db address hash)
  unfolding Memory.rotate_owner_token Sqlite.rotate_owner_token
  rotate_owner_token_agrees hash = (
    rotated _ (get inner.mailboxes address) ∙ sym (affected w address),
    updated-Agrees w address (λ m. record m { owner_token_hash = some hash })
        (λ r. record r { owner_token_hash = some hash }) (get inner.mailboxes address) refl
        (λ m. refl) (λ m. refl),
  )

  pub delete_mailbox_agrees :
      Same (Memory.delete_mailbox inner address) (Sqlite.delete_mailbox db address)
  unfolding Memory.delete_mailbox Sqlite.delete_mailbox delete_mailboxes delete_messages
  delete_mailbox_agrees = (
    sym (affected w address),
    record {
      mailboxes =
          ap (delete_where (at_address address)) w.mailboxes
          ∙ rows-remove address_of mailbox_row row_address same_key inner.mailboxes address
              w.mailboxes_keyed;
      claims = w.claims;
      devices = w.devices;
      mailboxes_keyed = Keyed-remove address_of address inner.mailboxes w.mailboxes_keyed;
      claims_keyed = w.claims_keyed;
      devices_keyed = w.devices_keyed;
    },
  )
