-- ===== src/Otp.antt =====
-- src/otp.rs: the one-time code of a message. The compiled patterns of the `regex` crate are a
-- parameter: each gives what its first group captured.
pub mod Shape
use anony_mail.Base.{
  ℕ, ◌+◌, ◌-◌, ◌*◌, Bool, not, ◌&&◌, ◌||◌, Option, none, some, List, [], ◌∷◌, ◌++◌, ltb, leb,
  if◌then◌else◌, ◌==◌, unwrap_or, length, retain, all, nat_eq, str_eq,
}
use mathlib.Core.Option
use anony_mail.Base.Text.{
  Str, is_empty, is_ascii_digit, is_ascii_lowercase, is_ascii_uppercase, trim, split, len,
  utf8_width,
}

pub record Patterns : Type 0 where
  pub g_code : Str → Option Str
  pub keyword_then_digits : Str → List Str
  pub digits_then_keyword : Str → List Str
  pub keyword_then_alnum : Str → Option Str

abbrev pub body_scan_limit : ℕ
body_scan_limit = 4096

abbrev pub min_digits : ℕ
min_digits = 4

abbrev pub max_digits : ℕ
max_digits = 8

-- `Iterator::find_map`
abbrev pub find_map : {A B : Type 0} → (A → Option B) → List A → Option B
find_map f [] = none
find_map f (x ∷ xs) = elim (f x) [ some y ↦ some y | none ↦ find_map f xs ]

unfoldable pub or_else : {A : Type 0} → Option A → Option A → Option A
or_else (some a) o = some a
or_else none o = o

-- The text up to the largest character boundary that is at `max` bytes or before.
unfoldable pub floor_char_boundary : Str → ℕ → Str
floor_char_boundary [] max = []
floor_char_boundary (c ∷ s) max =
    let more = floor_char_boundary s (max - utf8_width c) in
    if leb (utf8_width c) max then c ∷ more else []

unfoldable pub normalize_digits : Str → Option Str
normalize_digits raw =
    let digits = retain is_ascii_digit raw in
    if leb min_digits (len digits) && leb (len digits) max_digits then some digits else none

-- `parse::<u32>` of a text of digits.
value : ℕ → Str → ℕ
value acc [] = acc
value acc (c ∷ s) = value (acc * 10 + (c - b'0')) s

unfoldable pub is_year : Str → Bool
unfolding value
is_year code = len code == 4 && leb 1900 (value 0 code) && leb (value 0 code) 2099

unfoldable pub standalone_code : Str → Option Str
unfolding normalize_digits is_year
standalone_code raw =
    let line = trim raw in
    if is_empty line || ltb max_digits (len line)
    then none
    else if not (all is_ascii_digit line)
    then none
    else Option.bind (normalize_digits line) (λ code. if is_year code then none else some code)

unfoldable pub is_ascii_alphabetic : ℕ → Bool
is_ascii_alphabetic c = is_ascii_lowercase c || is_ascii_uppercase c

unfoldable pub mixed_token : Str → Option Str
unfolding is_ascii_alphabetic
mixed_token token =
    if leb 2 (length (retain is_ascii_digit token))
      && leb 1 (length (retain is_ascii_alphabetic token))
    then some token
    else none

unfoldable pub scan_anchored : Patterns → Str → Option Str
unfolding or_else mixed_token normalize_digits
scan_anchored patterns haystack = or_else (patterns.g_code haystack) (
    or_else (find_map normalize_digits (patterns.keyword_then_digits haystack)) (
      or_else (find_map normalize_digits (patterns.digits_then_keyword haystack))
        (Option.bind (patterns.keyword_then_alnum haystack) mixed_token)))

-- `str::lines`: no piece behind a last newline, and no carriage return at the end of a piece.
strip_cr : Str → Str
strip_cr [] = []
strip_cr (c ∷ []) = if c == 13 then [] else c ∷ []
strip_cr (c ∷ d ∷ s) = c ∷ strip_cr (d ∷ s)

drop_empty_last : List Str → List Str
unfolding strip_cr
drop_empty_last [] = []
drop_empty_last (p ∷ []) = if is_empty p then [] else p ∷ []
drop_empty_last (p ∷ q ∷ ps) = strip_cr p ∷ drop_empty_last (q ∷ ps)

unfoldable pub lines : Str → List Str
unfolding drop_empty_last
lines s = drop_empty_last (split 10 s)

unfoldable pub extract : Patterns → Option Str → Option Str → Option Str
unfolding scan_anchored standalone_code lines floor_char_boundary or_else
extract patterns subject text_body =
    let subject' = unwrap_or subject [] in
    let body = floor_char_boundary (unwrap_or text_body []) body_scan_limit in
    or_else (scan_anchored patterns subject') (
      or_else (scan_anchored patterns body)
        (find_map standalone_code (lines subject' ++ lines body)))
