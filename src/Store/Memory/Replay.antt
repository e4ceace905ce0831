-- ===== src/Store/Memory/Replay.antt =====
-- The assertion counters of src/store/memory.rs: an accepted counter is never accepted again.
use anony_mail.Base.{
  ◌≡◌, inl, inr, true, false, not, List, [], ◌∷◌, arith, ==_iff, ==_refl, Option-cases, is_some_and,
  nat_eq, str_eq,
}
use anony_mail.Base.Assoc.{get, get-insert}
use anony_mail.Base.Int.{ℤ, ltb_ℤ}
use anony_mail.Base.Text.{Str}
use anony_mail.Model.{Time, Bytes}
use anony_mail.Store.Memory.{Inner}
use anony_mail.Store.Memory.Devices.{
  upsert_attested_device, advance_attested_device_counter, get_attested_device,
}

-- What the attest and assert endpoints do to the table between two sweeps of the cleanup task.
pub data DeviceCall : Type 0 where
  upsert : Str → Bytes → Time → DeviceCall
  advance_to : Str → ℤ → Time → DeviceCall

unfoldable pub device_step : Inner → DeviceCall → Inner
unfolding upsert_attested_device advance_attested_device_counter
device_step inner (upsert key_id public_key now) =
    (upsert_attested_device inner key_id public_key now).1
device_step inner (advance_to key_id counter now) =
    (advance_attested_device_counter inner key_id counter now).1

unfoldable pub device_run : Inner → List DeviceCall → Inner
device_run inner [] = inner
device_run inner (c ∷ cs) = device_run (device_step inner c) cs

-- `key_id` is registered and its counter is `c` or more.
abbrev pub AtLeast : Inner → Str → ℤ → Type 0
AtLeast inner key_id c =
    is_some_and (get_attested_device inner key_id) (λ d. not (ltb_ℤ d.counter c)) ≡ true

device_step-AtLeast :
    (inner : Inner) (call : DeviceCall) (key_id : Str) (c : ℤ)
    → AtLeast inner key_id c
    → AtLeast (device_step inner call) key_id c
unfolding device_step get_attested_device
device_step-AtLeast inner (upsert k pk now) key_id c h = ground (
  arith,
  get-insert inner.attested_devices k key_id (upsert_attested_device inner k pk now).0,
  ==_iff k key_id,
)
device_step-AtLeast inner (advance_to k counter now) key_id c h =
    elim (Option-cases (get inner.attested_devices k)) [
      | inl e ↦ rw (e, device_step) h
      | inr (d, e) ↦ ground (
        arith,
        get-insert inner.attested_devices k key_id
            (record d { counter = counter; last_seen_at = now }),
        ==_iff k key_id,
      )
    ]

device_run-AtLeast :
    (inner : Inner) (calls : List DeviceCall) (key_id : Str) (c : ℤ)
    → AtLeast inner key_id c
    → AtLeast (device_run inner calls) key_id c
unfolding device_run
device_run-AtLeast inner [] key_id c h = h
device_run-AtLeast inner (x ∷ xs) key_id c h =
    device_run-AtLeast (device_step inner x) xs key_id c (device_step-AtLeast inner x key_id c h)

accepted-AtLeast :
    (inner : Inner) (key_id : Str) (c : ℤ) (now : Time)
    → (advance_attested_device_counter inner key_id c now).0 ≡ true
    → AtLeast (advance_attested_device_counter inner key_id c now).1 key_id c
unfolding advance_attested_device_counter get_attested_device
accepted-AtLeast inner key_id c now h = elim (Option-cases (get inner.attested_devices key_id)) [
  | inl e ↦ ground arith
  | inr (d, e) ↦ ground (
    arith,
    get-insert inner.attested_devices key_id key_id (record d { counter = c; last_seen_at = now }),
    ==_refl key_id,
  )
]

AtLeast-refused :
    (inner : Inner) (key_id : Str) (c c' : ℤ) (now : Time)
    → AtLeast inner key_id c
    → ltb_ℤ c c' ≡ false
    → (advance_attested_device_counter inner key_id c' now).0 ≡ false
unfolding advance_attested_device_counter get_attested_device
AtLeast-refused inner key_id c c' now h le =
    elim (Option-cases (get inner.attested_devices key_id)) [
      | inl e ↦ ground arith
      | inr (d, e) ↦ ground arith
    ]

-- Once a counter is accepted for a key, no assertion with that counter or a lower one is accepted
-- for the key again, whatever devices attest and assert in between, until the device is pruned.
pub accepted_counter_is_spent :
    (inner : Inner) (key_id : Str) (c c' : ℤ) (now later : Time) (calls : List DeviceCall)
    → (advance_attested_device_counter inner key_id c now).0 ≡ true
    → ltb_ℤ c c' ≡ false
    → (advance_attested_device_counter
        (device_run (advance_attested_device_counter inner key_id c now).1 calls)
        key_id
        c'
        later).0
      ≡ false
accepted_counter_is_spent inner key_id c c' now later calls h le =
    AtLeast-refused _ key_id c c' later
      (device_run-AtLeast _ calls key_id c (accepted-AtLeast inner key_id c now h)) le
