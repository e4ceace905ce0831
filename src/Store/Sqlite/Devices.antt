-- ===== src/Store/Sqlite/Devices.antt =====
-- The attested devices of src/store/sqlite.rs.
use anony_mail.Base.{
  ℕ, Bool, ◌&&◌, Option, none, some, [], ◌∷◌, ◌++◌, ltb, ◌==◌, find, nat_eq, str_eq,
}
use mathlib.Core.Option
use anony_mail.Base.Int.{ℤ, pos, ltb_ℤ}
use anony_mail.Base.Table.{update_where, delete_where, rows_where}
use anony_mail.Base.Text.{Str}
use anony_mail.Model.{Time, Bytes, AttestedDevice}
use anony_mail.Store.Sqlite.{Db, AttestedDeviceRow, device_from}

abbrev pub of_key : Str → AttestedDeviceRow → Bool
of_key key_id r = r.key_id == key_id

-- INSERT .. ON CONFLICT(key_id) DO UPDATE .. RETURNING, at the row that is in conflict.
unfoldable pub upsert : Db → AttestedDeviceRow → Option AttestedDeviceRow → AttestedDevice × Db
unfolding device_from update_where
upsert db excluded none =
    (device_from excluded, record db { attested_devices = db.attested_devices ++ excluded ∷ [] })
upsert db excluded (some r) = (
  device_from (record r { last_seen_at = excluded.last_seen_at }),
  record db {
    attested_devices =
        update_where (of_key excluded.key_id)
          (λ r. record r { last_seen_at = excluded.last_seen_at }) db.attested_devices;
  },
)

unfoldable pub upsert_attested_device : Db → Str → Bytes → Time → AttestedDevice × Db
unfolding upsert
upsert_attested_device db key_id public_key now =
    let row : AttestedDeviceRow = record {
      key_id = key_id;
      public_key = public_key;
      counter = pos 0;
      created_at = now;
      last_seen_at = now;
    } in
    upsert db row (find (of_key key_id) db.attested_devices)

unfoldable pub get_attested_device : Db → Str → Option AttestedDevice
unfolding device_from
get_attested_device db key_id = Option.map device_from (find (of_key key_id) db.attested_devices)

unfoldable pub is_behind : Str → ℤ → AttestedDeviceRow → Bool
is_behind key_id counter r = r.key_id == key_id && ltb_ℤ r.counter counter

unfoldable pub advance_attested_device_counter : Db → Str → ℤ → Time → Bool × Db
unfolding is_behind update_where rows_where
advance_attested_device_counter db key_id counter seen_at = (
  ltb 0 (rows_where (is_behind key_id counter) db.attested_devices),
  record db {
    attested_devices =
        update_where (is_behind key_id counter)
          (λ r. record r { counter = counter; last_seen_at = seen_at }) db.attested_devices;
  },
)

unfoldable pub prune_attested_devices : Db → Time → ℕ × Db
unfolding delete_where rows_where
prune_attested_devices db idle_before = (
  rows_where (λ r. ltb r.last_seen_at idle_before) db.attested_devices,
  record db {
    attested_devices = delete_where (λ r. ltb r.last_seen_at idle_before) db.attested_devices;
  },
)
