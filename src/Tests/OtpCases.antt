-- ===== src/Tests/OtpCases.antt =====
-- The theorem on src/otp.rs at a concrete input.
use anony_mail.Base.{
  ℕ, ◌≤◌, ◌≡◌, refl, Bool, true, ◌&&◌, ◌||◌, Option, none, some, [], ◌∷◌, arith, leb, length, all,
}
use mathlib.Core.Path.{subst}
use anony_mail.Base.Text.{Str, text, is_ascii_digit, len, utf8_width}
use anony_mail.Otp.{Patterns, extract}
use anony_mail.Otp.Shape.{IsCode, IsDocumented, IfSome, extract-IfSome}

-- The digits of ASCII and those of Arabic.
abbrev is_decimal : ℕ → Bool
is_decimal c = is_ascii_digit c || leb 0x660 c && leb c 0x669

abbrev arabic : Str
arabic = 0x661 ∷ 0x662 ∷ 0x663 ∷ 0x664 ∷ 0x665 ∷ 0x666 ∷ []

-- Patterns that always capture something.
abbrev eager : Patterns
eager = record {
  g_code = λ s. some arabic;
  keyword_then_digits = λ s. text "12 34" ∷ [];
  digits_then_keyword = λ s. [];
  keyword_then_alnum = λ s. some (text "7XK4P9");
}

captured : (c d : Str) (h : Path (Option Str) (some c) (some d)) → c ≡ d
captured c d h = ground arith

eager-IsDocumented : IsDocumented is_decimal eager
unfolding all is_ascii_digit len utf8_width length
eager-IsDocumented = record {
  six = λ s code e. subst (λ c. all is_decimal c ≡ true) (captured arabic code e) refl;
  six_long = λ s code e. subst (λ c. length c ≡ 6) (captured arabic code e) refl;
  ten = λ s code e. subst (λ c. len c ≤ 10) (captured (text "7XK4P9") code e) (omega arith);
}

extract-IfSome_example : IfSome (IsCode is_decimal) (extract eager (some (text "G-")) none)
extract-IfSome_example = extract-IfSome is_decimal eager eager-IsDocumented (some (text "G-")) none
