-- ===== src/Base/Text.antt =====
-- What the program uses of `str`: a text is the list of its code points.
pub mod Laws
use Prim.Native.Nat.{ℕ, zero, suc, ◌+◌, ◌-◌, ◌*◌, ◌/◌, ◌%◌}
use Prim.Native.Char.{code}
use Prim.Native.String.{String}
use mathlib.Core.Bool.{Bool, true, false, ◌&&◌, ◌||◌}
use mathlib.Core.Option
use mathlib.Core.Option.{Option, none, some}
use mathlib.Core.List.{List, [], ◌∷◌, ◌++◌, map}
use anony_mail.Base.Tests.{ltb, leb, ◌==◌, nat_eq, if◌then◌else◌}

abbrev pub Str : Type 0
Str = List ℕ

-- A literal of the source.
abbrev pub text : String → Str
text String.[] = []
text (String.◌∷◌ c s) = code c ∷ text s

abbrev pub is_empty {ℓ} : {A : Type ℓ} → List A → Bool
is_empty [] = true
is_empty (x ∷ xs) = false

-- `char::is_whitespace`: the code points with the property White_Space.
unfoldable pub is_whitespace : ℕ → Bool
is_whitespace c =
    leb 9 c && leb c 13
    || c == 32
    || c == 0x85
    || c == 0xA0
    || c == 0x1680
    || leb 0x2000 c && leb c 0x200A
    || c == 0x2028
    || c == 0x2029
    || c == 0x202F
    || c == 0x205F
    || c == 0x3000

unfoldable pub is_ascii_lowercase : ℕ → Bool
is_ascii_lowercase c = leb b'a' c && leb c b'z'

unfoldable pub is_ascii_uppercase : ℕ → Bool
is_ascii_uppercase c = leb b'A' c && leb c b'Z'

unfoldable pub is_ascii_digit : ℕ → Bool
is_ascii_digit c = leb b'0' c && leb c b'9'

unfoldable pub lowercase : ℕ → ℕ
unfolding is_ascii_uppercase
lowercase c = if is_ascii_uppercase c then c + 32 else c

unfoldable pub uppercase : ℕ → ℕ
unfolding is_ascii_lowercase
uppercase c = if is_ascii_lowercase c then c - 32 else c

abbrev pub to_ascii_lowercase : Str → Str
to_ascii_lowercase = map lowercase

abbrev pub to_ascii_uppercase : Str → Str
to_ascii_uppercase = map uppercase

-- `trim_start_matches` and `trim_end_matches` with a test of one character.
unfoldable pub trim_start_matches : (ℕ → Bool) → Str → Str
trim_start_matches p [] = []
trim_start_matches p (c ∷ s) = if p c then trim_start_matches p s else c ∷ s

unfoldable pub trim_end_matches : (ℕ → Bool) → Str → Str
trim_end_matches p [] = []
trim_end_matches p (c ∷ s) =
    let rest = trim_end_matches p s in if is_empty rest && p c then [] else c ∷ rest

unfoldable pub trim_start : Str → Str
unfolding trim_start_matches is_whitespace
trim_start s = trim_start_matches is_whitespace s

unfoldable pub trim : Str → Str
unfolding trim_start trim_end_matches
trim s = trim_end_matches is_whitespace (trim_start s)

-- `.map(str::trim).filter(|s| !s.is_empty())`
unfoldable pub trimmed : Option Str → Option Str
unfolding trim
trimmed none = none
trimmed (some s) = let t = trim s in if is_empty t then none else some t

-- What stands before and behind the first character that passes the test.
unfoldable pub split_once : (ℕ → Bool) → Str → Option (Str × Str)
split_once p [] = none
split_once p (c ∷ s) =
    if p c then some ([], s) else Option.map (λ r. (c ∷ r.0, r.1)) (split_once p s)

abbrev rsplit_step : ℕ → ℕ → Str → Option (Str × Str) → Option (Str × Str)
rsplit_step d c s (some (a, b)) = some (c ∷ a, b)
rsplit_step d c s none = if c == d then some ([], s) else none

-- `rsplit_once`: what stands before and behind the last `d`.
unfoldable pub rsplit_once : ℕ → Str → Option (Str × Str)
rsplit_once d [] = none
rsplit_once d (c ∷ s) = rsplit_step d c s (rsplit_once d s)

unfoldable pub starts_with : Str → Str → Bool
starts_with s [] = true
starts_with [] (p ∷ ps) = false
starts_with (c ∷ s) (p ∷ ps) = c == p && starts_with s ps

-- `s.find(needle)`: the index of the first occurrence.
unfoldable pub find_str : Str → Str → Option ℕ
unfolding starts_with
find_str [] needle = if is_empty needle then some 0 else none
find_str (c ∷ s) needle =
    if starts_with (c ∷ s) needle then some 0 else Option.map suc (find_str s needle)

-- `split(d)`: one piece more than there are separators.
abbrev pub split_step : ℕ → ℕ → List Str → List Str
split_step d c [] = (c ∷ []) ∷ []
split_step d c (p ∷ ps) = if c == d then [] ∷ p ∷ ps else (c ∷ p) ∷ ps

unfoldable pub split : ℕ → Str → List Str
split d [] = [] ∷ []
split d (c ∷ s) = split_step d c (split d s)

-- The bytes of a text in UTF-8.
unfoldable pub utf8_width : ℕ → ℕ
utf8_width c = if ltb c 0x80 then 1 else if ltb c 0x800 then 2 else if ltb c 0x10000 then 3 else 4

unfoldable pub len : Str → ℕ
unfolding utf8_width
len [] = 0
len (c ∷ s) = utf8_width c + len s

-- `{n}` of a number in `format!`.
digits_of : ℕ → ℕ → Str → Str
digits_of zero n acc = acc
digits_of (suc fuel) n acc =
    let rest = digits_of fuel (n / 10) ((b'0' + n % 10) ∷ acc) in
    if ltb n 10 then (b'0' + n) ∷ acc else rest

unfoldable pub decimal : ℕ → Str
unfolding digits_of
decimal n = digits_of (suc n) n []
