-- ===== src/Agreement/Devices/Counter.antt =====
-- The assertion counters and the pruning of devices of src/store/memory.rs and src/store/sqlite.rs
-- agree.
use anony_mail.Base.{
  ◌≡◌, refl, sym, ap, ◌∙◌, inl, inr, true, false, Option, none, some, List, arith, ltb, leb, ==_iff,
  Bool-cases, is_some_and, nat_eq, str_eq,
}
use anony_mail.Base.Assoc.{Keyed-insert, get, get-Keyed}
use anony_mail.Base.Assoc.Unique.{Keyed-retain_values}
use anony_mail.Base.Int.{ℤ, ltb_ℤ}
use anony_mail.Base.Table.{update_where, rows_where, delete_where}
use anony_mail.Base.Table.Mirror.{rows_where-rows, rows-insert_old, update_where-rows_none}
use anony_mail.Base.Table.Mirror.Removal.{rows-retain_values, rows_where-retain_values}
use anony_mail.Base.Text.{Str}
use anony_mail.Model.{Time, AttestedDevice}
use anony_mail.Store.Memory.{Inner}
use anony_mail.Store.Sqlite.{Db, AttestedDeviceRow}
use anony_mail.Store.Sqlite.Devices.{of_key, is_behind, upsert}
use anony_mail.Agreement.{Agrees, Same, device_row, key_of}
use anony_mail.Store.Memory.Devices as Memory
use anony_mail.Store.Sqlite.Devices as Sqlite
use anony_mail.Agreement.Devices.{row_key, same_key, not_before, and_false, with_devices}

module _ {inner : Inner} {db : Db} (w : Agrees inner db) where
  behind_Only :
      (key_id : Str) (counter : ℤ) (r : AttestedDeviceRow)
      → of_key key_id r ≡ false
      → is_behind key_id counter r ≡ false
  unfolding is_behind
  behind_Only key_id counter r n = rw n refl

  affected :
      (key_id : Str) (counter : ℤ)
      → ltb 0 (rows_where (is_behind key_id counter) db.attested_devices)
        ≡ is_some_and (get inner.attested_devices key_id) (λ d. ltb_ℤ d.counter counter)
  unfolding is_behind
  affected key_id counter =
      ap (λ (t : List AttestedDeviceRow). ltb 0 (rows_where (is_behind key_id counter) t)) w.devices
      ∙ rows_where-rows key_of device_row row_key same_key (λ r. ltb_ℤ r.counter counter)
          inner.attested_devices key_id w.devices_keyed

  unchanged :
      (key_id : Str) (counter : ℤ) (f : AttestedDeviceRow → AttestedDeviceRow)
      → is_some_and
          (get inner.attested_devices key_id)
          (λ d. is_behind key_id counter (device_row d))
        ≡ false
      → Agrees inner (record db {
        attested_devices = update_where (is_behind key_id counter) f db.attested_devices;
      })
  unchanged key_id counter f h =
      with_devices w inner.attested_devices _
        (ap (update_where (is_behind key_id counter) f) w.devices
          ∙ update_where-rows_none key_of device_row row_key same_key (is_behind key_id counter) f
              inner.attested_devices key_id (behind_Only key_id counter) w.devices_keyed h)
        w.devices_keyed

  behind :
      (d : AttestedDevice) (key_id : Str) (counter : ℤ)
      → d.key_id ≡ key_id
      → ltb_ℤ d.counter counter ≡ true
      → is_behind key_id counter (device_row d) ≡ true
  unfolding is_behind
  behind d key_id counter k t = rw (t, (==_iff d.key_id key_id).1 k) refl

  ahead :
      (d : AttestedDevice) (key_id : Str) (counter : ℤ)
      → get inner.attested_devices key_id ≡ some d
      → ltb_ℤ d.counter counter ≡ false
      → is_some_and
          (get inner.attested_devices key_id)
          (λ d. is_behind key_id counter (device_row d))
        ≡ false
  unfolding is_behind
  ahead d key_id counter e n = rw (e, n) (and_false _)

  advanced :
      (key_id : Str) (counter : ℤ) (seen_at : Time) (o : Option AttestedDevice)
      → get inner.attested_devices key_id ≡ o
      → Same
          (Memory.advance inner key_id counter seen_at o)
          (Sqlite.advance_attested_device_counter db key_id counter seen_at)
  unfolding Memory.advance Sqlite.advance_attested_device_counter
  advanced key_id counter seen_at none e = (
    sym (affected key_id counter ∙ ground (arith, e)),
    unchanged key_id counter _ (ground (arith, e)),
  )
  advanced key_id counter seen_at (some d) e =
      let change =
        λ (r : AttestedDeviceRow). record r { counter = counter; last_seen_at = seen_at } in
      let d' : AttestedDevice = record d { counter = counter; last_seen_at = seen_at } in
      let k = get-Keyed key_of inner.attested_devices key_id d w.devices_keyed e in
      elim (Bool-cases (ltb_ℤ d.counter counter)) [
        | inl t ↦
            rw (t, Memory.advance)
              (
                sym (affected key_id counter ∙ ground (arith, e, t)),
                with_devices w _ _
                    (ap (update_where (is_behind key_id counter) change) w.devices
                      ∙ rows-insert_old key_of device_row row_key same_key
                          (is_behind key_id counter) change inner.attested_devices key_id d d'
                          (behind_Only key_id counter) w.devices_keyed e
                          (behind d key_id counter k t) refl)
                    (Keyed-insert key_of key_id d' inner.attested_devices k w.devices_keyed),
              )
        | inr n ↦
            rw (n, Memory.advance)
              (
                sym (affected key_id counter ∙ ground (arith, e, n)),
                unchanged key_id counter _ (ahead d key_id counter e n),
              )
      ]

  pub advance_attested_device_counter_agrees :
      (key_id : Str) (counter : ℤ) (seen_at : Time)
      → Same
          (Memory.advance_attested_device_counter inner key_id counter seen_at)
          (Sqlite.advance_attested_device_counter db key_id counter seen_at)
  unfolding Memory.advance_attested_device_counter
  advance_attested_device_counter_agrees key_id counter seen_at =
      advanced key_id counter seen_at (get inner.attested_devices key_id) refl

  pub prune_attested_devices_agrees :
      (idle_before : Time)
      → Same
          (Memory.prune_attested_devices inner idle_before)
          (Sqlite.prune_attested_devices db idle_before)
  unfolding Memory.prune_attested_devices Sqlite.prune_attested_devices
  prune_attested_devices_agrees idle_before = (
    (rows_where-retain_values key_of device_row row_key same_key
          (λ d. leb idle_before d.last_seen_at) (λ r. ltb r.last_seen_at idle_before)
          inner.attested_devices (λ d. not_before d.last_seen_at idle_before)
        ∙ sym (
            ap (rows_where (λ (r : AttestedDeviceRow). ltb r.last_seen_at idle_before)) w.devices)),
    with_devices w _ _
        (ap (delete_where (λ (r : AttestedDeviceRow). ltb r.last_seen_at idle_before)) w.devices
          ∙ rows-retain_values key_of device_row row_key same_key
              (λ d. leb idle_before d.last_seen_at) (λ r. ltb r.last_seen_at idle_before)
              inner.attested_devices (λ d. not_before d.last_seen_at idle_before))
        (Keyed-retain_values key_of (λ d. leb idle_before d.last_seen_at) inner.attested_devices
          w.devices_keyed),
  )
