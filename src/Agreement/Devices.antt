-- ===== src/Agreement/Devices.antt =====
-- The attested devices of src/store/memory.rs and src/store/sqlite.rs agree.
pub mod Counter
use anony_mail.Base.{
  ℕ, ◌≡◌, refl, sym, ap, ◌∙◌, Bool, true, false, not, ◌&&◌, Option, none, some, List, [], ◌∷◌, ◌++◌,
  map, arith, ltb, leb, ==_iff, find, nat_eq, str_eq,
}
use mathlib.Core.Option
use mathlib.Core.Path.{subst}
use anony_mail.Base.Assoc.{Map, Keyed, Keyed-insert, get, get-Keyed, insert, values}
use anony_mail.Base.Assoc.Unique.{Keyed-retain_values}
use anony_mail.Base.Int.{ℤ, ltb_ℤ, pos}
use anony_mail.Base.Table.{update_where, rows_where, delete_where}
use anony_mail.Base.Table.Mirror.{
  find-rows, rows_where-rows, rows-insert_new, rows-insert_old, update_where-rows_none,
}
use anony_mail.Base.Table.Mirror.Removal.{rows-retain_values, rows_where-retain_values}
use anony_mail.Base.Text.{Str}
use anony_mail.Model.{Time, Bytes, AttestedDevice}
use anony_mail.Store.Memory.{Inner}
use anony_mail.Store.Sqlite.{Db, AttestedDeviceRow, device_from}
use anony_mail.Store.Sqlite.Devices.{of_key, is_behind, upsert}
use anony_mail.Agreement.{Agrees, Same, device_row, key_of}
use anony_mail.Store.Memory.Devices as Memory
use anony_mail.Store.Sqlite.Devices as Sqlite

abbrev pub row_key : AttestedDeviceRow → Str
row_key r = r.key_id

pub same_key : (d : AttestedDevice) → row_key (device_row d) ≡ key_of d
same_key d = refl

device_back : (o : Option AttestedDevice) → Option.map device_from (Option.map device_row o) ≡ o
unfolding device_from
device_back none = refl
device_back (some d) = refl

pub not_before : (a b : ℕ) → ltb a b ≡ not (leb b a)
not_before a b = ground arith

pub and_false : (b : Bool) → (b && false) ≡ false
and_false true = refl
and_false false = refl

module _ {inner : Inner} {db : Db} (w : Agrees inner db) where
  found :
      (key_id : Str)
      → find (of_key key_id) db.attested_devices
        ≡ Option.map device_row (get inner.attested_devices key_id)
  found key_id =
      ap (find (of_key key_id)) w.devices
      ∙ find-rows key_of device_row row_key same_key inner.attested_devices key_id w.devices_keyed

  pub get_attested_device_same :
      (key_id : Str)
      → Memory.get_attested_device inner key_id ≡ Sqlite.get_attested_device db key_id
  unfolding Memory.get_attested_device Sqlite.get_attested_device
  get_attested_device_same key_id =
      sym (
        ap (Option.map device_from) (found key_id)
        ∙ device_back (get inner.attested_devices key_id))

  -- The states, once the tables of devices correspond.
  pub with_devices :
      (m : Map Str AttestedDevice) (rows : List AttestedDeviceRow)
      → rows ≡ map device_row (values m)
      → Keyed key_of m
      → Agrees (record inner { attested_devices = m }) (record db { attested_devices = rows })
  with_devices m rows e k = record {
    mailboxes = w.mailboxes;
    claims = w.claims;
    devices = e;
    mailboxes_keyed = w.mailboxes_keyed;
    claims_keyed = w.claims_keyed;
    devices_keyed = k;
  }

  upserted :
      (key_id : Str) (public_key : Bytes) (now : Time) (o : Option AttestedDevice)
      → get inner.attested_devices key_id ≡ o
      → Same
          (
            Memory.entry_or key_id public_key now o,
            record inner {
              attested_devices =
                  insert inner.attested_devices key_id (Memory.entry_or key_id public_key now o);
            },
          )
          (upsert db
            (record {
              key_id = key_id;
              public_key = public_key;
              counter = pos 0;
              created_at = now;
              last_seen_at = now;
            })
            (Option.map device_row o))
  unfolding Memory.entry_or upsert device_from
  upserted key_id public_key now none e =
      let d : AttestedDevice = record {
        key_id = key_id;
        public_key = public_key;
        counter = pos 0;
        created_at = now;
        last_seen_at = now;
      } in
      (
        refl,
        with_devices _ _
            (ap (λ (t : List AttestedDeviceRow). t ++ device_row d ∷ []) w.devices
              ∙ sym (
                  rows-insert_new key_of device_row row_key same_key inner.attested_devices key_id d
                    e))
            (Keyed-insert key_of key_id d inner.attested_devices refl w.devices_keyed),
      )
  upserted key_id public_key now (some d) e =
      let change = λ (r : AttestedDeviceRow). record r { last_seen_at = now } in
      let d' : AttestedDevice = record d { last_seen_at = now } in
      let k = get-Keyed key_of inner.attested_devices key_id d w.devices_keyed e in
      (
        refl,
        with_devices _ _
            (ap (update_where (of_key key_id) change) w.devices
              ∙ rows-insert_old key_of device_row row_key same_key (of_key key_id) change
                  inner.attested_devices key_id d d' (λ r n. n) w.devices_keyed e
                  ((==_iff d.key_id key_id).1 k) refl)
            (Keyed-insert key_of key_id d' inner.attested_devices k w.devices_keyed),
      )

  pub upsert_attested_device_agrees :
      (key_id : Str) (public_key : Bytes) (now : Time)
      → Same
          (Memory.upsert_attested_device inner key_id public_key now)
          (Sqlite.upsert_attested_device db key_id public_key now)
  unfolding Memory.upsert_attested_device Sqlite.upsert_attested_device
  upsert_attested_device_agrees key_id public_key now =
      subst
        (λ (o : Option AttestedDeviceRow).
          Same (Memory.upsert_attested_device inner key_id public_key now) (
            upsert db
              (record {
                key_id = key_id;
                public_key = public_key;
                counter = pos 0;
                created_at = now;
                last_seen_at = now;
              })
              o))
        (sym (found key_id))
        (upserted key_id public_key now (get inner.attested_devices key_id) refl)
