-- ===== src/Api/Messages/Printable.antt =====
-- The headers that src/api/messages.rs writes for an attachment are visible ASCII and blanks.
use anony_mail.Base.{
  ℕ, ◌≤◌, ◌<◌, ◌≡◌, inl, inr, Bool, true, ◌&&◌, Option, none, some, [], ◌∷◌, ◌++◌, arith,
  Bool-cases, unwrap_or, retain, all, All, All-append,
}
use anony_mail.Base.Text.{
  Str, text, is_empty, trim, trim_start, trim_start_matches, trim_end_matches, is_whitespace,
  is_ascii_lowercase, is_ascii_uppercase, is_ascii_digit,
}
use anony_mail.Model.{Bytes}
use anony_mail.Api.Auth.{as_bytes}
use anony_mail.Api.Messages.{
  is_attr_char, upper_hex, encode_byte, encode_bytes, rfc5987_encode, is_safe, safe_filename,
  extended, content_disposition, is_ascii,
}
use anony_mail.Api.Messages.Encoding.{IsText, as_bytes-All}

-- Visible ASCII, or a blank.
abbrev pub IsPrintable : ℕ → Type 0
IsPrintable c = (32 ≤ c) × (c < 127)

safe-IsPrintable : (c : ℕ) → is_safe c ≡ true → IsPrintable c
unfolding is_safe
safe-IsPrintable c h = ground arith

retained : (s : Str) → All IsPrintable (retain is_safe s)
unfolding retain
retained [] = tt
retained (c ∷ s) = elim (Bool-cases (is_safe c)) [
  | inl t ↦ rw t (safe-IsPrintable c t, retained s)
  | inr f ↦ rw f (retained s)
]

trim_start_matches-All :
    (p : ℕ → Bool) (s : Str) → All IsPrintable s → All IsPrintable (trim_start_matches p s)
unfolding trim_start_matches
trim_start_matches-All p [] h = tt
trim_start_matches-All p (c ∷ s) h = elim (Bool-cases (p c)) [
  | inl t ↦ rw t (trim_start_matches-All p s h.1)
  | inr f ↦ rw f h
]

trim_end_matches-All :
    (p : ℕ → Bool) (s : Str) → All IsPrintable s → All IsPrintable (trim_end_matches p s)
unfolding trim_end_matches
trim_end_matches-All p [] h = tt
trim_end_matches-All p (c ∷ s) h = elim (Bool-cases (is_empty (trim_end_matches p s) && p c)) [
  | inl t ↦ rw t tt
  | inr f ↦ rw f (h.0, trim_end_matches-All p s h.1)
]

safe_filename-All : (name : Option Str) → All IsPrintable (safe_filename name)
unfolding safe_filename trim trim_start
safe_filename-All name =
    let cleaned = trim (retain is_safe (unwrap_or name [])) in
    let h : All IsPrintable cleaned =
      trim_end_matches-All is_whitespace _
        (trim_start_matches-All is_whitespace _ (retained (unwrap_or name []))) in
    elim (Bool-cases (is_empty cleaned)) [ inl t ↦ rw t (omega arith) | inr f ↦ rw f h ]

encode_byte-All : (b : ℕ) → b < 256 → All IsPrintable (encode_byte b)
unfolding encode_byte is_attr_char upper_hex is_ascii_lowercase is_ascii_uppercase is_ascii_digit
encode_byte-All b h = ground arith

encode_bytes-All : (bs : Bytes) → All (λ b. b < 256) bs → All IsPrintable (encode_bytes bs)
unfolding encode_bytes
encode_bytes-All [] h = tt
encode_bytes-All (b ∷ bs) h =
    All-append IsPrintable (encode_byte b) (encode_bytes bs) (encode_byte-All b h.0)
      (encode_bytes-All bs h.1)

abbrev pub IsName : Option Str → Type 0
IsName none = Unit
IsName (some name) = IsText name

extended-All : (name : Option Str) → IsName name → All IsPrintable (extended name)
unfolding rfc5987_encode
extended-All none h = tt
extended-All (some raw) h = elim (Bool-cases (all is_ascii raw)) [
  | inl t ↦ rw t tt
  | inr f ↦ rw f (
      All-append IsPrintable (text "; filename*=UTF-8''") (encode_bytes (as_bytes raw))
        (omega arith) (encode_bytes-All (as_bytes raw) (as_bytes-All raw h)))
]

pub content_disposition-All :
    (name : Option Str) → IsName name → All IsPrintable (content_disposition name)
unfolding content_disposition
content_disposition-All name h =
    All-append IsPrintable (text "attachment; filename=\"" ++ (safe_filename name ++ text "\""))
      (extended name)
      (All-append IsPrintable (text "attachment; filename=\"") (safe_filename name ++ text "\"")
        (omega arith)
        (All-append IsPrintable (safe_filename name) (text "\"") (safe_filename-All name)
          (omega arith)))
      (extended-All name h)
