-- ===== src/Attest.antt =====
-- The store of challenges of src/attest.rs. The text of a new challenge, 32 random bytes in base64, is
-- given, as is the reading of the clock of each call.
pub mod SingleUse
pub mod Flood
pub mod Verify
use anony_mail.Base.{
  ℕ, ◌-◌, ◌/◌, Bool, [], map, ltb, leb, if◌then◌else◌, is_some_and, length, nat_eq, str_eq,
}
use anony_mail.Base.Assoc.{Map, get, insert, remove, retain_values}
use anony_mail.Base.Text.{Str}
use anony_mail.Model.{Time, seconds}

abbrev pub max_outstanding_challenges : ℕ
max_outstanding_challenges = 100000

pub record ChallengeStore : Type 0 where
  pub ttl : Time
  pub issued : Map Str Time

-- `ChallengeStore::new`
abbrev pub new : Time → ChallengeStore
new ttl = record { ttl = ttl; issued = [] }

-- `ChallengeStore::default`
abbrev pub default : ChallengeStore
default = new (seconds 300)

abbrev pub within : Time → Time → Time → Bool
within age now at_ = ltb (now - at_) age

unfoldable pub shed_half : Time → Time → Map Str Time → Map Str Time
shed_half ttl now issued =
    if leb max_outstanding_challenges (length issued)
    then retain_values (within (ttl / 2) now) issued
    else issued

-- What a full map keeps, and of that what is kept if it is full still.
unfoldable pub shed : Time → Time → Map Str Time → Map Str Time
shed ttl now issued =
    if leb max_outstanding_challenges (length issued)
    then shed_half ttl now (retain_values (within ttl now) issued)
    else issued

unfoldable pub issue : ChallengeStore → Str → Time → ChallengeStore
issue s challenge now = record s { issued = insert (shed s.ttl now s.issued) challenge now }

unfoldable pub consume : ChallengeStore → Str → Time → Bool × ChallengeStore
consume s challenge now = (
  is_some_and (get s.issued challenge) (λ at_. ltb (now - at_) s.ttl),
  record s { issued = remove s.issued challenge },
)
