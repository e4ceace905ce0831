-- ===== src/Attest/Flood.antt =====
-- What a flood does to the store of challenges of src/attest.rs.
use anony_mail.Base.{
  suc, ◌/◌, ◌≡◌, refl, ap, ◌∙◌, inl, inr, true, none, [], ◌∷◌, arith, leb, if-true, if-false,
  Bool-cases, length, All, nat_eq, str_eq,
}
use anony_mail.Base.Assoc.{Map, get, insert, retain_values}
use anony_mail.Base.Text.{Str}
use anony_mail.Model.{Time}
use anony_mail.Attest.{ChallengeStore, issue, shed, shed_half, within, max_outstanding_challenges}

-- Every challenge was issued less than this long ago.
abbrev pub IsYoung : Time → Time → Map Str Time → Type 0
IsYoung age now m = All (λ e. within age now e.1 ≡ true) m

half-IsYoung : (ttl now : Time) (m : Map Str Time) → IsYoung (ttl / 2) now m → IsYoung ttl now m
half-IsYoung ttl now [] h = tt
half-IsYoung ttl now ((c, t) ∷ m) h = (ground (arith, h.0), half-IsYoung ttl now m h.1)

retain_values-IsYoung :
    (age now : Time) (m : Map Str Time) → IsYoung age now m → retain_values (within age now) m ≡ m
unfolding retain_values
retain_values-IsYoung age now [] h = refl
retain_values-IsYoung age now ((c, t) ∷ m) h =
    if-true _ _ h.0 ∙ ap (λ r. (c, t) ∷ r) (retain_values-IsYoung age now m h.1)

shed_half-IsYoung :
    (ttl now : Time) (m : Map Str Time) → IsYoung (ttl / 2) now m → shed_half ttl now m ≡ m
unfolding shed_half
shed_half-IsYoung ttl now m h = elim (Bool-cases (leb max_outstanding_challenges (length m))) [
  | inl t ↦ if-true _ _ t ∙ retain_values-IsYoung (ttl / 2) now m h
  | inr f ↦ if-false _ _ f
]

shed-IsYoung : (ttl now : Time) (m : Map Str Time) → IsYoung (ttl / 2) now m → shed ttl now m ≡ m
unfolding shed
shed-IsYoung ttl now m h = elim (Bool-cases (leb max_outstanding_challenges (length m))) [
  | inl t ↦
      if-true _ _ t
      ∙ ap (shed_half ttl now) (retain_values-IsYoung ttl now m (half-IsYoung ttl now m h))
      ∙ shed_half-IsYoung ttl now m h
  | inr f ↦ if-false _ _ f
]

length-insert :
    (m : Map Str Time) (c : Str) (t : Time)
    → get m c ≡ none
    → length (insert m c t) ≡ suc (length m)
unfolding get insert
length-insert [] c t h = refl
length-insert ((j, v) ∷ m) c t h = ground (arith, length-insert m c t)

-- While every outstanding challenge is younger than half of the time to live, a challenge that the
-- store does not hold adds one to it when it is issued, however many it holds.
pub issue-flood :
    (s : ChallengeStore) (c : Str) (now : Time)
    → IsYoung (s.ttl / 2) now s.issued
    → get s.issued c ≡ none
    → length (issue s c now).issued ≡ suc (length s.issued)
unfolding issue
issue-flood s c now y h =
    ap (λ m. length (insert m c now)) (shed-IsYoung s.ttl now s.issued y)
    ∙ length-insert s.issued c now h
