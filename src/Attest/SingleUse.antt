-- ===== src/Attest/SingleUse.antt =====
-- What the store of challenges of src/attest.rs promises: a challenge is redeemed once at most.
use anony_mail.Base.{
  ◌-◌, ◌/◌, ◌≡◌, refl, ◌∙◌, inl, inr, Bool, false, none, List, [], ◌∷◌, arith, ltb, leb, if-true,
  if-false, ◌==◌, ==_refl, Bool-cases, length, All, nat_eq, str_eq,
}
use anony_mail.Base.Assoc.{Map, get, insert, remove, retain_values, get-insert, get-remove}
use anony_mail.Base.Text.{Str}
use anony_mail.Model.{Time}
use anony_mail.Attest.{
  ChallengeStore, issue, consume, shed, shed_half, within, max_outstanding_challenges,
}

-- A call of the store, with the challenge it is about and the clock's reading.
pub data Call : Type 0 where
  issuing : Str → Time → Call
  consuming : Str → Time → Call

abbrev pub challenge_step : ChallengeStore → Call → ChallengeStore
challenge_step s (issuing c t) = issue s c t
challenge_step s (consuming c t) = (consume s c t).1

abbrev pub challenge_run : ChallengeStore → List Call → ChallengeStore
challenge_run s [] = s
challenge_run s (e ∷ es) = challenge_run (challenge_step s e) es

-- The call does not issue the challenge.
abbrev pub IsOther : Str → Call → Type 0
IsOther c (issuing d t) = (d == c) ≡ false
IsOther c (consuming d t) = Unit

retain_values-none :
    (p : Time → Bool) (m : Map Str Time) (c : Str)
    → get m c ≡ none
    → get (retain_values p m) c ≡ none
unfolding retain_values get
retain_values-none p [] c h = refl
retain_values-none p ((j, v) ∷ m) c h = ground (arith, retain_values-none p m c)

shed_half-none :
    (ttl now : Time) (m : Map Str Time) (c : Str)
    → get m c ≡ none
    → get (shed_half ttl now m) c ≡ none
unfolding shed_half
shed_half-none ttl now m c h = elim (Bool-cases (leb max_outstanding_challenges (length m))) [
  | inl t ↦ rw t (retain_values-none (within (ttl / 2) now) m c h)
  | inr f ↦ rw f h
]

shed-none :
    (ttl now : Time) (m : Map Str Time) (c : Str) → get m c ≡ none → get (shed ttl now m) c ≡ none
unfolding shed
shed-none ttl now m c h = elim (Bool-cases (leb max_outstanding_challenges (length m))) [
  | inl t ↦ rw t (
      shed_half-none ttl now (retain_values (within ttl now) m) c
        (retain_values-none (within ttl now) m c h))
  | inr f ↦ rw f h
]

step-none :
    (s : ChallengeStore) (c : Str) (e : Call)
    → IsOther c e
    → get s.issued c ≡ none
    → get (challenge_step s e).issued c ≡ none
unfolding issue consume
step-none s c (issuing d t) o h =
    get-insert (shed s.ttl t s.issued) d c t ∙ if-false _ _ o ∙ shed-none s.ttl t s.issued c h
step-none s c (consuming d t) o h = elim (Bool-cases (d == c)) [
  | inl b ↦ get-remove s.issued d c ∙ if-true _ _ b
  | inr b ↦ get-remove s.issued d c ∙ if-false _ _ b ∙ h
]

run-none :
    (s : ChallengeStore) (c : Str) (es : List Call)
    → All (IsOther c) es
    → get s.issued c ≡ none
    → get (challenge_run s es).issued c ≡ none
run-none s c [] o h = h
run-none s c (e ∷ es) o h = run-none (challenge_step s e) c es o.1 (step-none s c e o.0 h)

-- Once a challenge has been presented, redeemed or refused, every later presentation of it is
-- refused, whatever challenges are issued and presented in between, unless it is issued again.
pub consume_is_single_use :
    (s : ChallengeStore) (c : Str) (t t' : Time) (es : List Call)
    → All (IsOther c) es
    → (consume (challenge_run (consume s c t).1 es) c t').0 ≡ false
unfolding consume
consume_is_single_use s c t t' es o =
    rw
      (run-none (record s { issued = remove s.issued c }) c es o
        (get-remove s.issued c c ∙ if-true _ _ (==_refl c)))
      refl

-- A challenge just issued is redeemed exactly if it is presented before its time to live is over,
-- however full the store was; the presentation takes it out of the store.
pub issue-consume :
    (s : ChallengeStore) (c : Str) (now t : Time)
    → ((consume (issue s c now) c t).0 ≡ ltb (t - now) s.ttl)
      × (get (consume (issue s c now) c t).1.issued c ≡ none)
unfolding issue consume
issue-consume s c now t = (
  rw (get-insert (shed s.ttl now s.issued) c c now, ==_refl c) refl,
  get-remove (insert (shed s.ttl now s.issued) c now) c c ∙ if-true _ _ (==_refl c),
)
