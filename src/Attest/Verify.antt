-- ===== src/Attest/Verify.antt =====
-- The checks of attestations and assertions of src/attest.rs. The crates appattest, base64 and
-- minicbor are a parameter; an object that they parsed is kept as bytes, an error as its text.
use anony_mail.Base.{
  ℕ, zero, suc, ◌+◌, ◌*◌, ◌^◌, true, false, Option, none, some, ◌∷◌, ◌++◌, ltb, if◌then◌else◌, ◌==◌,
  Result, unwrap_or, drop, ok, err, nat_eq, str_eq,
}
use anony_mail.Base.Int.{ℤ, pos, negsuc}
use anony_mail.Base.Text.{Str, text, len}
use anony_mail.Model.{Bytes}
use anony_mail.Api.Auth.{as_bytes}

-- A decoder of CBOR is what is left to decode.
pub record Cbor : Type 0 where
  pub map_header : Bytes → Option (Option ℕ × Bytes)
  pub str : Bytes → Option (Str × Bytes)
  pub bytes : Bytes → Option (Bytes × Bytes)
  pub skip : Bytes → Option Bytes

pub record AppAttest : Type 0 where
  pub decode_base64 : Str → Result Bytes Str
  pub attestation_from_cbor : Bytes → Result Bytes Str
  pub verify : Bytes → Str → Str → Str → Bytes → Result Bytes Str
  pub standard_base64 : Str → Result Bytes Str
  pub assertion_from_cbor : Bytes → Result Bytes Str
  pub verify_signed : Bytes → Bytes → Str → Str → Bytes → ℕ → Result (Unit {0}) Str
  pub cbor : Cbor
  pub apple_root_ca_pem : Bytes

-- `AttestError` is its text.
abbrev pub Checked : Type 0 → Type 0
Checked A = Result A Str

infixl 5 ◌>>=◌
abbrev pub ◌>>=◌ : {A B : Type 0} → Checked A → (A → Checked B) → Checked B
ok a >>= f = f a
err e >>= f = err e

abbrev pub map_err : {A : Type 0} → Str → Result A Str → Checked A
map_err prefix (ok a) = ok a
map_err prefix (err e) = err (prefix ++ e)

abbrev pub ok_or : {A : Type 0} → Option A → Str → Checked A
ok_or (some a) message = ok a
ok_or none message = err (message)

abbrev pub at_most : ℕ → Str → Str → Checked (Unit {0})
at_most max s message = if ltb max (len s) then err message else ok tt

abbrev pub max_attestation_b64_len : ℕ
max_attestation_b64_len = 32768

abbrev pub max_assertion_b64_len : ℕ
max_assertion_b64_len = 1024

unfoldable pub verify_attestation : AppAttest → Str → Bytes → Str → Str → Str → Checked Bytes
verify_attestation crates app_id root_pem challenge key_id attestation_b64 = do
  fits ← at_most max_attestation_b64_len attestation_b64 (text "attestation too large")
  cbor ← map_err (text "attestation base64: ") (crates.decode_base64 attestation_b64)
  attestation ← map_err (text "attestation cbor: ") (crates.attestation_from_cbor cbor)
  map_err (text "attestation rejected: ")
      (crates.verify attestation challenge app_id key_id root_pem)

-- `i64` to `u32`
unfoldable pub as_u32 : ℤ → Option ℕ
as_u32 (pos n) = if ltb n (2 ^ 32) then some n else none
as_u32 (negsuc n) = none

-- `get(33..37)` as four bytes, the most significant first.
unfoldable pub be_bytes : Bytes → Option ℕ
be_bytes (a ∷ b ∷ c ∷ d ∷ rest) = some (((a * 256 + b) * 256 + c) * 256 + d)
be_bytes bs = none

-- The value behind a key: the counter, or what is left behind another value.
unfoldable pub counter_in : AppAttest → Bytes → Checked ℕ
counter_in crates left = do
  (auth_data, rest) ← ok_or (crates.cbor.bytes left) (text "authenticatorData bytes")
  ok_or (be_bytes (drop 33 auth_data)) (text "authenticatorData too short")

-- So many entries.
unfoldable pub find_counter : AppAttest → ℕ → Bytes → Checked ℕ
find_counter crates zero left = err (text "assertion missing authenticatorData")
find_counter crates (suc entries) left = do
  (key, value) ← ok_or (crates.cbor.str left) (text "assertion map key")
  elim (key == text "authenticatorData") [
    | true ↦ counter_in crates value
    | false ↦ ok_or (crates.cbor.skip value) (text "assertion map value") >>= λ rest.
        find_counter crates entries rest
  ]

unfoldable pub assertion_counter : AppAttest → Bytes → Checked ℕ
assertion_counter crates cbor = do
  (entries, rest) ← ok_or (crates.cbor.map_header cbor) (text "assertion is not a cbor map")
  find_counter crates (unwrap_or entries 0) rest

unfoldable pub verify_assertion :
    AppAttest → (Bytes → Bytes) → Str → Str → Str → Bytes → ℤ → Checked ℤ
verify_assertion crates digest app_id challenge assertion_b64 public_key previous_counter = do
  fits ← at_most max_assertion_b64_len assertion_b64 (text "assertion too large")
  cbor ← map_err (text "assertion base64: ") (crates.standard_base64 assertion_b64)
  previous ← ok_or (as_u32 previous_counter) (text "stored counter out of range")
  new_counter ← assertion_counter crates cbor
  assertion ← map_err (text "assertion cbor: ") (crates.assertion_from_cbor cbor)
  verified ← map_err (text "assertion rejected: ") (
      crates.verify_signed assertion (digest (as_bytes challenge)) challenge app_id public_key
        previous)
  ok (pos new_counter)
