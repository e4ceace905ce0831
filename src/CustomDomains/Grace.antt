-- ===== src/CustomDomains/Grace.antt =====
-- The window in which src/custom_domains.rs forgives failing checks.
use anony_mail.Base.{
  ◌+◌, ◌-◌, ◌≤◌, ◌<◌, ◌≡◌, refl, Bool, true, false, some, List, [], ◌∷◌, arith, ltb, All,
}
use anony_mail.CustomDomains.{grace_hours, next_status}
use anony_mail.Model.{Time, CustomDomain, hours}
use anony_mail.Model.Kinds.{verified, failed}

-- A domain after a check with its result, at its time.
abbrev pub settle : CustomDomain → Bool × Time → CustomDomain
settle d (all_ok, now) = record d {
  status = (next_status d all_ok now).0;
  verified_at = (next_status d all_ok now).1;
  last_checked_at = some now;
}

abbrev pub settle_all : CustomDomain → List (Bool × Time) → CustomDomain
settle_all d [] = d
settle_all d (c ∷ cs) = settle_all (settle d c) cs

-- Times from `t` to the end of its grace window.
abbrev pub InGrace : Time → List (Bool × Time) → Type 0
InGrace t = All (λ c. (t ≤ c.1) × (c.1 ≤ t + hours grace_hours))

verified-next :
    (d : CustomDomain) (t u now : Time) (all_ok : Bool)
    → d.status ≡ verified
    → d.verified_at ≡ some u
    → t ≤ u
    → t ≤ now
    → now ≤ t + hours grace_hours
    → ((next_status d all_ok now).0 ≡ verified)
      × ((v : Time) × ((next_status d all_ok now).1 ≡ some v) × (t ≤ v))
unfolding next_status
verified-next d t u now true s a l m n = (refl, (now, refl, m))
verified-next d t u now false s a l m n =
    let f : ltb (hours grace_hours) (now - u) ≡ false = ground arith in
    (rw (s, a, f) refl, (u, rw (s, a, f) refl, l))

kept :
    (d : CustomDomain) (t u : Time) (checks : List (Bool × Time))
    → d.status ≡ verified
    → d.verified_at ≡ some u
    → t ≤ u
    → InGrace t checks
    → (settle_all d checks).status ≡ verified
kept d t u [] s a l g = s
kept d t u ((all_ok, now) ∷ cs) s a l g =
    let (s', (v, a', l')) = verified-next d t u now all_ok s a l g.0.0 g.0.1 in
    kept (settle d (all_ok, now)) t v cs s' a' l' g.1

-- A domain that was last found right at `t` stays verified whatever its checks find up to the end of
-- the grace window after `t`, in any number.
pub settle_all-verified :
    (d : CustomDomain) (t : Time) (checks : List (Bool × Time))
    → d.status ≡ verified
    → d.verified_at ≡ some t
    → InGrace t checks
    → (settle_all d checks).status ≡ verified
settle_all-verified d t checks s a g = kept d t t checks s a (omega arith) g

failed-stays :
    (d : CustomDomain) (checks : List (Bool × Time))
    → d.status ≡ failed
    → All (λ c. c.0 ≡ false) checks
    → (settle_all d checks).status ≡ failed
failed-stays d [] s h = s
failed-stays d ((all_ok, now) ∷ cs) s h =
    failed-stays (settle d (all_ok, now)) cs (unfold next_status in rw (h.0, s) refl) h.1

-- Once all checks fail, the first one later than the window takes the domain out of service, and it
-- stays out while they fail.
pub settle_all-failed :
    (d : CustomDomain) (t now : Time) (checks : List (Bool × Time))
    → d.status ≡ verified
    → d.verified_at ≡ some t
    → t + hours grace_hours < now
    → All (λ c. c.0 ≡ false) checks
    → (settle_all d ((false, now) ∷ checks)).status ≡ failed
unfolding next_status
settle_all-failed d t now checks s a l h =
    let f : ltb (hours grace_hours) (now - t) ≡ true = ground arith in
    failed-stays (settle d (false, now)) checks (rw (s, a, f) refl) h
