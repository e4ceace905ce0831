-- ===== src/Agreement/Mailboxes/Sweep.antt =====
-- The sweeps of expired mailboxes of src/store/memory.rs and src/store/sqlite.rs agree.
use anony_mail.Base.{
  ◌≡◌, refl, sym, ap, ◌∙◌, List, [], ◌∷◌, map, leb, length, retain, nat_eq, str_eq,
}
use mathlib.Core.Path.{subst}
use anony_mail.Base.Assoc.{Map, Keyed, Keyed-remove, remove, values}
use anony_mail.Base.Table.{rows_where, delete_where}
use anony_mail.Base.Table.Mirror.Removal.{rows-remove_where, remove_keys, retain-rows}
use anony_mail.Base.Text.{Str}
use anony_mail.Model.{Time, Mailbox, CustomDomain, AttestedDevice}
use anony_mail.Store.Memory.{Inner}
use anony_mail.Store.Sqlite.{Db, MailboxRow, delete_mailboxes, delete_messages}
use anony_mail.Store.Sqlite.Mailboxes.{at_address}
use anony_mail.Agreement.{
  Agrees, Same, mailbox_row, claim_row, device_row, address_of, domain_of, key_of,
}
use anony_mail.Store.Memory.Mailboxes as Memory
use anony_mail.Store.Sqlite.Mailboxes as Sqlite
use anony_mail.Agreement.Mailboxes.{row_address, same_key, length-map}

removed :
    (inner : Inner) (ks : List Str)
    → (Memory.remove_all inner ks).mailboxes
      ≡ remove_keys address_of mailbox_row row_address same_key inner.mailboxes ks
removed inner [] = refl
removed inner (k ∷ ks) = removed (record inner { mailboxes = remove inner.mailboxes k }) ks

kept :
    (inner : Inner) (ks : List Str)
    → ((Memory.remove_all inner ks).custom_domains ≡ inner.custom_domains)
      × ((Memory.remove_all inner ks).attested_devices ≡ inner.attested_devices)
kept inner [] = (refl, refl)
kept inner (k ∷ ks) = kept (record inner { mailboxes = remove inner.mailboxes k }) ks

removed-Keyed :
    (m : Map Str Mailbox) (ks : List Str)
    → Keyed address_of m
    → Keyed address_of (remove_keys address_of mailbox_row row_address same_key m ks)
removed-Keyed m [] k = k
removed-Keyed m (x ∷ xs) k = removed-Keyed (remove m x) xs (Keyed-remove address_of x m k)

module _ {inner : Inner} {db : Db} (w : Agrees inner db) where
  pub purge_expired_agrees :
      (now : Time) → Same (Memory.purge_expired inner now) (Sqlite.purge_expired db now)
  unfolding Memory.purge_expired Memory.expired_addresses Sqlite.purge_expired delete_mailboxes
      delete_messages rows_where
  purge_expired_agrees now =
      let expired = Memory.expired_addresses inner now in
      (
        length-map address_of _
            ∙ sym (length-map mailbox_row _)
            ∙ sym (
                ap (λ (t : List MailboxRow). length t)
                  (retain-rows address_of mailbox_row row_address same_key
                    (λ m. leb m.expires_at now) (λ r. leb r.expires_at now) (values inner.mailboxes)
                    (λ v. refl)))
            ∙ sym (
                ap (λ (t : List MailboxRow). length (retain (λ r. leb r.expires_at now) t))
                  w.mailboxes),
        record {
          mailboxes =
              ap (delete_where (λ (r : MailboxRow). leb r.expires_at now)) w.mailboxes
              ∙ rows-remove_where address_of mailbox_row row_address same_key
                  (λ m. leb m.expires_at now) (λ r. leb r.expires_at now) inner.mailboxes
                  w.mailboxes_keyed (λ v. refl)
              ∙ sym (
                  ap (λ (m : Map Str Mailbox). map mailbox_row (values m)) (removed inner expired));
          claims =
              w.claims
              ∙ sym (
                  ap (λ (m : Map Str CustomDomain). map claim_row (values m))
                    (kept inner expired).0);
          devices =
              w.devices
              ∙ sym (
                  ap (λ (m : Map Str AttestedDevice). map device_row (values m))
                    (kept inner expired).1);
          mailboxes_keyed =
              subst (Keyed address_of) (sym (removed inner expired))
                (removed-Keyed inner.mailboxes expired w.mailboxes_keyed);
          claims_keyed = subst (Keyed domain_of) (sym (kept inner expired).0) w.claims_keyed;
          devices_keyed = subst (Keyed key_of) (sym (kept inner expired).1) w.devices_keyed;
        },
      )
