-- ===== src/Store/Memory/Devices.antt =====
-- The attested devices of src/store/memory.rs.
use anony_mail.Base.{
  ℕ, ◌-◌, Bool, true, false, Option, none, some, leb, length, str_eq, if◌then◌else◌,
}
use anony_mail.Base.Assoc.{get, insert, retain_values}
use anony_mail.Base.Int.{ℤ, pos, ltb_ℤ}
use anony_mail.Base.Text.{Str}
use anony_mail.Model.{Time, Bytes, AttestedDevice}
use anony_mail.Store.Memory.{Inner}

-- `entry(key_id).and_modify(..).or_insert_with(..)`
unfoldable pub entry_or : Str → Bytes → Time → Option AttestedDevice → AttestedDevice
entry_or key_id public_key now (some d) = record d { last_seen_at = now }
entry_or key_id public_key now none = record {
  key_id = key_id;
  public_key = public_key;
  counter = pos 0;
  created_at = now;
  last_seen_at = now;
}

unfoldable pub upsert_attested_device : Inner → Str → Bytes → Time → AttestedDevice × Inner
unfolding entry_or
upsert_attested_device inner key_id public_key now =
    let device = entry_or key_id public_key now (get inner.attested_devices key_id) in
    (device, record inner { attested_devices = insert inner.attested_devices key_id device })

unfoldable pub get_attested_device : Inner → Str → Option AttestedDevice
get_attested_device inner key_id = get inner.attested_devices key_id

unfoldable pub advance : Inner → Str → ℤ → Time → Option AttestedDevice → Bool × Inner
advance inner key_id counter seen_at none = (false, inner)
advance inner key_id counter seen_at (some d) =
    if ltb_ℤ d.counter counter
    then (
      true,
      record inner {
        attested_devices =
            insert inner.attested_devices key_id
              (record d { counter = counter; last_seen_at = seen_at });
      },
    )
    else (false, inner)

unfoldable pub advance_attested_device_counter : Inner → Str → ℤ → Time → Bool × Inner
unfolding advance
advance_attested_device_counter inner key_id counter seen_at =
    advance inner key_id counter seen_at (get inner.attested_devices key_id)

unfoldable pub prune_attested_devices : Inner → Time → ℕ × Inner
prune_attested_devices inner idle_before =
    let kept = retain_values (λ d. leb idle_before d.last_seen_at) inner.attested_devices in
    (length inner.attested_devices - length kept, record inner { attested_devices = kept })
