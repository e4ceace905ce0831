-- ===== src/Api/Auth.antt =====
-- src/api/auth.rs: the owner token of a mailbox. SHA-256 is a parameter, from the bytes of a text
-- to the digest; the `Authorization` header is its text, where there is one and it is text.
pub mod Compare
pub mod Rotate
pub mod Owner
pub mod Holder
use anony_mail.Base.{
  ℕ, ◌+◌, ◌-◌, ◌/◌, ◌%◌, Bool, false, not, Option, none, some, [], ◌∷◌, ◌++◌, ltb, if◌then◌else◌,
  ◌==◌, Result, length, ok, err, nat_eq, str_eq,
}
use anony_mail.Base.Text.{Str, text, is_empty, lowercase, to_ascii_lowercase, trim, split_once}
use anony_mail.Base.Bits.{bit_or, bit_xor}
use anony_mail.Model.{Bytes, Mailbox}
use anony_mail.Store.{Store, StoreError}
use anony_mail.Api.{ApiError, not_found, unauthorized, internal}

-- UTF-8.
unfoldable pub char_bytes : ℕ → Bytes
char_bytes c =
    if ltb c 0x80
    then c ∷ []
    else if ltb c 0x800
    then (0xC0 + c / 64) ∷ (0x80 + c % 64) ∷ []
    else if ltb c 0x10000
    then (0xE0 + c / 4096) ∷ (0x80 + c / 64 % 64) ∷ (0x80 + c % 64) ∷ []
    else (0xF0 + c / 262144) ∷ (0x80 + c / 4096 % 64) ∷ (0x80 + c / 64 % 64) ∷ (0x80 + c % 64) ∷ []

unfoldable pub as_bytes : Str → Bytes
as_bytes [] = []
as_bytes (c ∷ s) = char_bytes c ++ as_bytes s

-- The fold over the pairs of a `zip`.
unfoldable pub differences : ℕ → Bytes → Bytes → ℕ
differences acc [] bs = acc
differences acc (a ∷ as') [] = acc
differences acc (a ∷ as') (b ∷ bs) = differences (bit_or acc (bit_xor a b)) as' bs

unfoldable pub constant_time_eq : Bytes → Bytes → Bool
unfolding differences
constant_time_eq a b = if not (length a == length b) then false else differences 0 a b == 0

unfoldable pub hex_digit : ℕ → ℕ
hex_digit d = if ltb d 10 then b'0' + d else b'a' + (d - 10)

unfoldable pub hex : Bytes → Str
unfolding hex_digit
hex [] = []
hex (b ∷ bs) = hex_digit (b / 16) ∷ hex_digit (b % 16) ∷ hex bs

unfoldable pub token_behind : Option (Str × Str) → Option Str
token_behind none = none
token_behind (some (scheme, rest)) =
    if not (to_ascii_lowercase scheme == text "bearer")
    then none
    else let token = trim rest in if not (is_empty token) then some token else none

unfoldable pub bearer_token : Option Str → Option Str
unfolding token_behind
bearer_token none = none
bearer_token (some value) = token_behind (split_once (λ c. c == b' ') (trim value))

abbrev pub token_prefix : Str
token_prefix = text "am_"

abbrev pub domain_token_prefix : Str
domain_token_prefix = text "amd_"

module _ (digest : Bytes → Bytes) where
  unfoldable pub hash_token : Str → Str
  hash_token token = hex (digest (as_bytes token))

  -- With the base64 of the random bytes at hand.
  unfoldable pub generate_token : Str → Str → Str × Str
  generate_token prefix random = let token = prefix ++ random in (token, hash_token token)

  unfoldable pub token_matches_hash : Str → Str → Bool
  token_matches_hash presented want_hash =
      constant_time_eq (as_bytes (hash_token presented)) (as_bytes want_hash)

  -- With the mailbox, the token presented and the hash wanted at hand, one after the other.
  unfoldable pub check_hash : Mailbox → Str → Option Str → Result Mailbox ApiError
  check_hash mailbox presented none = err (unauthorized (text "mailbox has no owner token"))
  check_hash mailbox presented (some want) =
      if token_matches_hash presented want
      then ok mailbox
      else err (unauthorized (text "invalid owner token"))

  unfoldable pub check_presented : Mailbox → Option Str → Result Mailbox ApiError
  check_presented mailbox none = err (unauthorized (text "missing bearer token"))
  check_presented mailbox (some presented) = check_hash mailbox presented mailbox.owner_token_hash

  unfoldable pub check_owner :
      Option Str → Result (Option Mailbox) StoreError → Result Mailbox ApiError
  check_owner authorization (err e) = err internal
  check_owner authorization (ok none) = err (not_found (text "mailbox not found"))
  check_owner authorization (ok (some mailbox)) =
      check_presented mailbox (bearer_token authorization)

  unfoldable pub authorize_owner :
      (store : Store) → store.State → Str → Option Str → Result Mailbox ApiError
  authorize_owner store db address authorization =
      check_owner authorization (store.get_mailbox db address)
