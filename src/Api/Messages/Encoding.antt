-- ===== src/Api/Messages/Encoding.antt =====
-- The percent-encoding of file names in src/api/messages.rs, read back as RFC 5987 has it.
use anony_mail.Base.{
  ℕ, ◌+◌, ◌-◌, ◌*◌, ◌/◌, ◌%◌, ◌<◌, ◌≡◌, refl, ap, ◌∙◌, inl, inr, true, false, [], ◌∷◌, ◌++◌, arith,
  ltb, if◌then◌else◌, ◌==◌, Bool-cases, All, All-append, nat_eq, str_eq,
}
use anony_mail.Base.Text.{Str, is_ascii_lowercase, is_ascii_uppercase, is_ascii_digit}
use anony_mail.Model.{Bytes}
use anony_mail.Api.Auth.{as_bytes, char_bytes}
use anony_mail.Api.Messages.{is_attr_char, upper_hex, encode_byte, encode_bytes, rfc5987_encode}

-- Where a decoder stands: outside an escape, behind its `%`, or behind its first digit.
pub data Place : Type 0 where
  plain first : Place
  second : ℕ → Place

unfoldable pub digit_value : ℕ → ℕ
digit_value c = if ltb c b'A' then c - b'0' else c - b'A' + 10

unfoldable pub decode : Place → Str → Bytes
decode place [] = []
decode plain (c ∷ s) = elim (c == b'%') [ true ↦ decode first s | false ↦ c ∷ decode plain s ]
decode first (c ∷ s) = decode (second (digit_value c)) s
decode (second d) (c ∷ s) = (d * 16 + digit_value c) ∷ decode plain s

attr_char-literal : (b : ℕ) → is_attr_char b ≡ true → (b == b'%') ≡ false
unfolding is_attr_char is_ascii_lowercase is_ascii_uppercase is_ascii_digit
attr_char-literal b h = ground arith

digit_value-upper_hex : (d : ℕ) → d < 16 → digit_value (upper_hex d) ≡ d
unfolding digit_value upper_hex
digit_value-upper_hex d h = ground arith

decode_plain : (c : ℕ) (s : Str) → (c == b'%') ≡ false → decode plain (c ∷ s) ≡ c ∷ decode plain s
unfolding decode
decode_plain c s h = rw (h, decode) refl

decode-encode_byte :
    (b : ℕ) (s : Str) → b < 256 → decode plain (encode_byte b ++ s) ≡ b ∷ decode plain s
unfolding encode_byte decode
decode-encode_byte b s h = elim (Bool-cases (is_attr_char b)) [
  | inl t ↦ rw t (decode_plain b s (attr_char-literal b t))
  | inr f ↦
      rw
        (
          f,
          digit_value-upper_hex (b / 16) (omega arith),
          digit_value-upper_hex (b % 16) (omega arith),
        )
        (λ i. part i ∷ decode plain s)
]
  where
    part : (b / 16) * 16 + b % 16 ≡ b
    part = omega arith

decode-encode_bytes : (bs : Bytes) → All (λ b. b < 256) bs → decode plain (encode_bytes bs) ≡ bs
unfolding encode_bytes decode
decode-encode_bytes [] h = refl
decode-encode_bytes (b ∷ bs) h =
    decode-encode_byte b (encode_bytes bs) h.0 ∙ ap (λ r. b ∷ r) (decode-encode_bytes bs h.1)

-- A text of code points of Unicode.
abbrev pub IsText : Str → Type 0
IsText s = All (λ c. c < 0x110000) s

char_bytes-IsByte : (c : ℕ) → c < 0x110000 → All (λ b. b < 256) (char_bytes c)
unfolding char_bytes
char_bytes-IsByte c h = ground arith

pub as_bytes-All : (s : Str) → IsText s → All (λ b. b < 256) (as_bytes s)
unfolding as_bytes
as_bytes-All [] h = tt
as_bytes-All (c ∷ s) h =
    All-append _ (char_bytes c) (as_bytes s) (char_bytes-IsByte c h.0) (as_bytes-All s h.1)

-- A decoder of RFC 5987 reads from the encoded name of a file the bytes of the name in UTF-8, where
-- the name is text.
pub decode-rfc5987_encode :
    (name : Str) → IsText name → decode plain (rfc5987_encode name) ≡ as_bytes name
unfolding rfc5987_encode
decode-rfc5987_encode name h = decode-encode_bytes (as_bytes name) (as_bytes-All name h)
