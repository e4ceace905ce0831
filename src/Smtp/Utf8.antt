-- ===== src/Smtp/Utf8.antt =====
-- `String::from_utf8_lossy`, which src/smtp/session.rs applies to a command line: each longest
-- prefix of a sequence that is not valid becomes one U+FFFD.
use anony_mail.Base.{
  ℕ, ◌+◌, ◌-◌, ◌*◌, ◌<◌, ◌≡◌, refl, ◌&&◌, Option, none, some, [], ◌∷◌, ◌++◌, arith, ltb, leb,
  if◌then◌else◌, ◌==◌, All, nat_eq, str_eq,
}
use anony_mail.Base.Text.{Str}
use anony_mail.Model.{Bytes}

-- A sequence under way: the bytes still to come, the bits so far, and the bounds of the next byte.
pub record Pending : Type 0 where
  pub needed : ℕ
  pub bits : ℕ
  pub lower : ℕ
  pub upper : ℕ

abbrev pub replacement : ℕ
replacement = 0xFFFD

pending : ℕ → ℕ → ℕ → ℕ → Option Pending
pending needed bits lower upper =
    some (record { needed = needed; bits = bits; lower = lower; upper = upper })

-- A byte where a sequence begins: what it yields, and what it leaves under way.
unfoldable pub first_byte : ℕ → Str × Option Pending
unfolding pending
first_byte b =
    if ltb b 0x80
    then (b ∷ [], none)
    else if ltb b 0xC2
    then (replacement ∷ [], none)
    else if ltb b 0xE0
    then ([], pending 1 (b - 0xC0) 0x80 0xBF)
    else if b == 0xE0
    then ([], pending 2 0 0xA0 0xBF)
    else if b == 0xED
    then ([], pending 2 0xD 0x80 0x9F)
    else if ltb b 0xF0
    then ([], pending 2 (b - 0xE0) 0x80 0xBF)
    else if b == 0xF0
    then ([], pending 3 0 0x90 0xBF)
    else if ltb b 0xF4
    then ([], pending 3 (b - 0xF0) 0x80 0xBF)
    else if b == 0xF4
    then ([], pending 3 4 0x80 0x8F)
    else (replacement ∷ [], none)

-- A byte within a sequence. One that does not go on with it ends it and begins anew.
next_byte : Pending → ℕ → Str × Option Pending
unfolding first_byte
next_byte p b =
    let bits' = p.bits * 64 + (b - 0x80) in
    let (out, next) = first_byte b in
    if leb p.lower b && leb b p.upper
    then if p.needed == 1 then (bits' ∷ [], none) else ([], pending (p.needed - 1) bits' 0x80 0xBF)
    else (replacement ∷ out, next)

unfoldable pub feed : Option Pending → ℕ → Str × Option Pending
unfolding first_byte next_byte
feed none b = first_byte b
feed (some p) b = next_byte p b

unfoldable pub decode : Option Pending → Bytes → Str
unfolding feed
decode none [] = []
decode (some p) [] = replacement ∷ []
decode p (b ∷ bs) = let (out, p') = feed p b in out ++ decode p' bs

unfoldable pub from_utf8_lossy : Bytes → Str
unfolding decode
from_utf8_lossy bs = decode none bs

-- Bytes below 0x80 stand for themselves.
pub from_utf8_lossy-ascii : (bs : Bytes) → All (λ b. b < 0x80) bs → from_utf8_lossy bs ≡ bs
unfolding from_utf8_lossy
from_utf8_lossy-ascii [] h = refl
from_utf8_lossy-ascii (b ∷ bs) h = ground (arith, from_utf8_lossy-ascii bs h.1)
