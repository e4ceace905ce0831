-- ===== src/Otp/Shape.antt =====
-- What src/otp.rs may show as a code.
use anony_mail.Base.{
  ℕ, ◌≤◌, ◌≡◌, ◌⊎◌, inl, inr, Bool, true, ◌&&◌, ◌||◌, Option, none, some, List, [], ◌∷◌, arith, ltb,
  leb, if◌then◌else◌, Bool-cases, Option-cases, length, retain, all, all-retain,
}
use mathlib.Core.Option
use mathlib.Core.Path.{subst}
use anony_mail.Base.Text.{Str, is_empty, is_ascii_digit, len, trim}
use anony_mail.Otp.{
  Patterns, min_digits, max_digits, find_map, or_else, normalize_digits, is_year, standalone_code,
  is_ascii_alphabetic, mixed_token, scan_anchored, extract,
}

-- Nothing but digits, as many as a code may have.
pub record IsDigits (code : Str) : Type 0 where
  pub digits : all is_ascii_digit code ≡ true
  pub enough : min_digits ≤ len code
  pub few : len code ≤ max_digits

-- A short token with digits and letters in it.
pub record IsToken (code : Str) : Type 0 where
  pub digits : 2 ≤ length (retain is_ascii_digit code)
  pub letters : 1 ≤ length (retain is_ascii_alphabetic code)
  pub short : len code ≤ 10

-- Six characters of a class.
pub record IsSix (is_digit : ℕ → Bool) (code : Str) : Type 0 where
  pub digits : all is_digit code ≡ true
  pub six : length code ≡ 6

-- What may be shown, with the class `\d` of the patterns.
abbrev pub IsCode : (ℕ → Bool) → Str → Type 0
IsCode is_digit code = IsDigits code ⊎ (IsSix is_digit code ⊎ IsToken code)

-- What the patterns say of their captures: `\d{6}`, and `[A-Z0-9]{5,10}`. The class `\d` is that of the
-- decimal digits of Unicode, of which those of ASCII are ten.
pub record IsDocumented (is_digit : ℕ → Bool) (patterns : Patterns) : Type 0 where
  pub six : (s code : Str) → patterns.g_code s ≡ some code → all is_digit code ≡ true
  pub six_long : (s code : Str) → patterns.g_code s ≡ some code → length code ≡ 6
  pub ten : (s code : Str) → patterns.keyword_then_alnum s ≡ some code → len code ≤ 10

-- A code, if there is one.
unfoldable pub IfSome : (Str → Type 0) → Option Str → Type 0
IfSome P none = Unit
IfSome P (some code) = P code

or_else-IfSome :
    (P : Str → Type 0) (o o' : Option Str) → IfSome P o → IfSome P o' → IfSome P (or_else o o')
unfolding or_else IfSome
or_else-IfSome P none o' h k = k
or_else-IfSome P (some c) o' h k = h

find_map-IfSome :
    (P : Str → Type 0) (f : Str → Option Str) (xs : List Str)
    → ((x : Str) → IfSome P (f x))
    → IfSome P (find_map f xs)
unfolding IfSome
find_map-IfSome P f [] h = tt
find_map-IfSome P f (x ∷ xs) h = elim (Option-cases (f x)) [
  | inl e ↦ rw (find_map, e) (find_map-IfSome P f xs h)
  | inr (y, e) ↦ rw (find_map, e) (subst (IfSome P) e (h x))
]

module _ (is_digit : ℕ → Bool) where
  normalize_digits-IfSome : (raw : Str) → IfSome (IsCode is_digit) (normalize_digits raw)
  unfolding normalize_digits IfSome
  normalize_digits-IfSome raw =
      elim (Bool-cases (
        leb min_digits (len (retain is_ascii_digit raw))
        && leb (len (retain is_ascii_digit raw)) max_digits)) [
          | inr f ↦ rw (normalize_digits, f) tt
          | inl t ↦
              rw (normalize_digits, t)
                (inl (record {
                  digits = all-retain is_ascii_digit raw;
                  enough = ground (arith, t);
                  few = ground (arith, t);
                }))
        ]

  mixed_token-IfSome : (token : Str) → len token ≤ 10 → IfSome (IsCode is_digit) (mixed_token token)
  unfolding mixed_token IfSome
  mixed_token-IfSome token h =
      elim (Bool-cases (
        leb 2 (length (retain is_ascii_digit token))
        && leb 1 (length (retain is_ascii_alphabetic token)))) [
          | inr f ↦ rw (mixed_token, f) tt
          | inl t ↦
              rw (mixed_token, t)
                (inr (
                  inr (record {
                    digits = ground (arith, t);
                    letters = ground (arith, t);
                    short = h;
                  })))
        ]

  not_year-IfSome :
      (o : Option Str)
      → IfSome (IsCode is_digit) o
      → IfSome (IsCode is_digit) (Option.bind o (λ code. if is_year code then none else some code))
  unfolding Option.bind IfSome
  not_year-IfSome none h = tt
  not_year-IfSome (some code) h = elim (Bool-cases (is_year code)) [
    | inl t ↦ rw t tt
    | inr f ↦ rw f h
  ]

  standalone_code-IfSome : (raw : Str) → IfSome (IsCode is_digit) (standalone_code raw)
  unfolding standalone_code IfSome
  standalone_code-IfSome raw =
      elim (Bool-cases (is_empty (trim raw) || ltb max_digits (len (trim raw)))) [
        | inl t ↦ rw (standalone_code, t) tt
        | inr f ↦ elim (Bool-cases (all is_ascii_digit (trim raw))) [
          | inr g ↦ rw (standalone_code, f, g) tt
          | inl g ↦
              rw (standalone_code, f, g)
                (not_year-IfSome (normalize_digits (trim raw)) (normalize_digits-IfSome (trim raw)))
        ]
      ]

module _ (is_digit : ℕ → Bool) (patterns : Patterns)
    (documented : IsDocumented is_digit patterns) where
  g_code-IfSome : (s : Str) → IfSome (IsCode is_digit) (patterns.g_code s)
  unfolding IfSome
  g_code-IfSome s = elim (Option-cases (patterns.g_code s)) [
    | inl e ↦ rw e tt
    | inr (c, e) ↦
        rw e (inr (inl (record { digits = documented.six s c e; six = documented.six_long s c e })))
  ]

  alnum-IfSome :
      (s : Str) → IfSome (IsCode is_digit) (Option.bind (patterns.keyword_then_alnum s) mixed_token)
  unfolding Option.bind IfSome
  alnum-IfSome s = elim (Option-cases (patterns.keyword_then_alnum s)) [
    | inl e ↦ rw e tt
    | inr (c, e) ↦ rw e ((mixed_token-IfSome is_digit) c (documented.ten s c e))
  ]

  scan_anchored-IfSome : (s : Str) → IfSome (IsCode is_digit) (scan_anchored patterns s)
  unfolding scan_anchored
  scan_anchored-IfSome s = or_else-IfSome (IsCode is_digit) _ _ (g_code-IfSome s) (
      or_else-IfSome (IsCode is_digit) _ _
        (find_map-IfSome (IsCode is_digit) normalize_digits _ (normalize_digits-IfSome is_digit))
        (or_else-IfSome (IsCode is_digit) _ _
          (find_map-IfSome (IsCode is_digit) normalize_digits _ (normalize_digits-IfSome is_digit))
          (alnum-IfSome s)))

  -- Whatever the subject and the body, what is shown as a code is either 4 to 8 digits of ASCII and
  -- nothing else, or six characters that the pattern of `G-` codes takes for digits, or a token of at
  -- most 10 bytes with two digits and a letter or more. Of the patterns it is taken that the first
  -- captures six characters of the class `\d` and the last no more than 10 bytes.
  pub extract-IfSome :
      (subject body : Option Str) → IfSome (IsCode is_digit) (extract patterns subject body)
  unfolding extract
  extract-IfSome subject body = or_else-IfSome (IsCode is_digit) _ _ (scan_anchored-IfSome _) (
      or_else-IfSome (IsCode is_digit) _ _ (scan_anchored-IfSome _)
        (find_map-IfSome (IsCode is_digit) standalone_code _ (standalone_code-IfSome is_digit)))
