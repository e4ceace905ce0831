-- ===== src/Api/Auth/Holder.antt =====
-- Who holds the token of a mailbox or of a claim, said without the code that checks it, and that
-- src/api/auth.rs and src/api/custom_domains.rs let nobody else through.
use anony_mail.Base.{
  ◌≡◌, refl, sym, ap, ◌∙◌, inl, inr, true, false, Option, none, some, [], ◌∷◌, ◌++◌, arith,
  true-false, ◌==◌, ==_iff, Bool-cases, Option-cases, Result, All, ok, err, nat_eq, str_eq,
}
use mathlib.Core.Path.{subst}
use anony_mail.Base.Text.{
  Str, text, is_empty, trim, to_ascii_lowercase, trim_end_matches, split_once,
}
use anony_mail.Model.{Bytes, Mailbox, CustomDomain}
use anony_mail.Model.Kinds.{CustomDomainStatus, pending, verified, failed}
use anony_mail.Store.{Store, StoreError}
use anony_mail.Api.Auth.{
  authorize_owner, check_owner, check_presented, check_hash, bearer_token, token_behind, hash_token,
  token_matches_hash, as_bytes, hex,
}
use anony_mail.Api.Auth.Compare.{constant_time_eq_exact}
use anony_mail.Api.Domains.{
  authorize_domain, claimed_by, check_claim, authorize_mailbox_on_custom_domain, may_use,
  check_mailbox_claim, is_verified,
}

-- The header is `Bearer` in any case, a blank and the token, with more blanks around them or without.
abbrev pub Presents : Option Str → Str → Type 0
Presents none token = ⊥
Presents (some value) token =
    (scheme : Str) × (rest : Str) × (trim value ≡ scheme ++ b' ' ∷ rest)
    × All (λ c. (c == b' ') ≡ false) scheme
    × (to_ascii_lowercase scheme ≡ text "bearer")
    × (trim rest ≡ token)
    × ¬ (token ≡ [])

same_parts :
    (x y a b : Str) → Path (Option (Str × Str)) (some (x, y)) (some (a, b)) → (x ≡ a) × (y ≡ b)
same_parts x y a b h = (ground arith, ground arith)

-- What `split_once` gives stands before and behind the first blank.
abbrev IsSplit : Str → Str → Str → Type 0
IsSplit s a b = (s ≡ a ++ b' ' ∷ b) × All (λ c. (c == b' ') ≡ false) a

split_once-parts : (s a b : Str) → split_once (λ c. c == b' ') s ≡ some (a, b) → IsSplit s a b
unfolding split_once
split_once-parts [] a b h = ground arith
split_once-parts (c ∷ s) a b h = elim (Bool-cases (c == b' ')) [
  | inl t ↦
      let (p, q) = same_parts [] s a b (rw t at h) in
      let blank : c ≡ b' ' = (==_iff c b' ').0 t in
      subst (λ x. IsSplit (c ∷ s) x b) p (rw (blank, q) (refl, tt))
  | inr f ↦ elim (Option-cases (split_once (λ c. c == b' ') s)) [
    | inl n ↦ absurd (ground (arith, (rw (f, n) at h)))
    | inr ((x, y), n) ↦
        let (p, q) = same_parts (c ∷ x) y a b (rw (f, n) at h) in
        let (parts, alone) = split_once-parts s x y n in
        subst (λ x. IsSplit (c ∷ s) x b) p
          (subst (λ y. IsSplit (c ∷ s) (c ∷ x) y) q (ap (λ (s : Str). c ∷ s) parts, (f, alone)))
  ]
]

token_behind-some :
    (o : Option (Str × Str)) (t : Str)
    → token_behind o ≡ some t
    → (a : Str) × (b : Str) × (o ≡ some (a, b))
      × (to_ascii_lowercase a ≡ text "bearer")
      × (trim b ≡ t)
      × ¬ (t ≡ [])
unfolding token_behind
token_behind-some none t h = ground arith
token_behind-some (some (a, b)) t h = elim (Bool-cases (to_ascii_lowercase a == text "bearer")) [
  | inr f ↦ absurd (ground (arith, (rw f at h)))
  | inl e ↦ elim (Bool-cases (is_empty (trim b))) [
    | inl n ↦ absurd (ground (arith, (rw (e, n) at h)))
    | inr n ↦
        let same : trim b ≡ t = ground (arith, (rw (e, n) at h)) in
        (a, b, refl, (==_iff _ _).0 e, same, λ k. true-false (sym (ap is_empty (same ∙ k)) ∙ n))
  ]
]

bearer_token-Presents :
    (authorization : Option Str) (t : Str)
    → bearer_token authorization ≡ some t
    → Presents authorization t
unfolding bearer_token
bearer_token-Presents none t h = ground arith
bearer_token-Presents (some value) t h =
    let (a, b, e, scheme, token, full) =
      token_behind-some (split_once (λ c. c == b' ') (trim value)) t h in
    let (parts, alone) = split_once-parts (trim value) a b e in
    (a, b, parts, alone, scheme, token, full)

-- The name of a claim: without blanks around it and dots at its end, in small letters.
abbrev pub normalized : Str → Str
normalized domain = to_ascii_lowercase (trim_end_matches (λ c. c == b'.') (trim domain))

module _ (digest : Bytes → Bytes) where
  -- The header presents a token with the given hash: the hex text of its digest.
  abbrev pub PresentsOf : Option Str → Str → Type 0
  PresentsOf authorization hash =
      (token : Str) × Presents authorization token
      × (as_bytes (hex (digest (as_bytes token))) ≡ as_bytes hash)

  -- The mailbox is there, and the header presents its token.
  abbrev pub OwnsMailbox : (store : Store) → store.State → Str → Option Str → Type 0
  OwnsMailbox store db address authorization =
      (mb : Mailbox) × (hash : Str) × (store.get_mailbox db address ≡ ok (some mb))
      × (mb.owner_token_hash ≡ some hash)
      × PresentsOf authorization hash

  -- The claim is there, and the header presents its token.
  abbrev pub HoldsClaim : (store : Store) → store.State → Str → Option Str → Type 0
  HoldsClaim store db domain authorization =
      (claim : CustomDomain) × (store.get_custom_domain db domain ≡ ok (some claim))
      × PresentsOf authorization claim.claim_token_hash

  matched :
      (authorization : Option Str) (t hash : Str)
      → bearer_token authorization ≡ some t
      → token_matches_hash digest t hash ≡ true
      → PresentsOf authorization hash
  unfolding token_matches_hash hash_token
  matched authorization t hash e h =
      (t, bearer_token-Presents authorization t e, (constant_time_eq_exact _ _).0 h)

  check_hash-ok :
      (m mb : Mailbox) (t : Str) (o : Option Str)
      → check_hash digest m t o ≡ ok mb
      → (hash : Str) × (o ≡ some hash) × (token_matches_hash digest t hash ≡ true)
  unfolding check_hash
  check_hash-ok m mb t none h = ground arith
  check_hash-ok m mb t (some hash) h = (hash, (λ i. some hash), ground arith)

  check_presented-ok :
      (m mb : Mailbox) (authorization : Option Str) (o : Option Str)
      → bearer_token authorization ≡ o
      → check_presented digest m o ≡ ok mb
      → (hash : Str) × (m.owner_token_hash ≡ some hash) × PresentsOf authorization hash
  unfolding check_presented
  check_presented-ok m mb authorization none e h = ground arith
  check_presented-ok m mb authorization (some t) e h =
      let (hash, held, k) = check_hash-ok m mb t m.owner_token_hash h in
      (hash, held, matched authorization t hash e k)

  check_owner-ok :
      (mb : Mailbox) (authorization : Option Str) (r : Result (Option Mailbox) StoreError)
      → check_owner digest authorization r ≡ ok mb
      → (m : Mailbox) × (hash : Str) × (r ≡ ok (some m))
        × (m.owner_token_hash ≡ some hash)
        × PresentsOf authorization hash
  unfolding check_owner
  check_owner-ok mb authorization (err e) h = ground arith
  check_owner-ok mb authorization (ok none) h = ground arith
  check_owner-ok mb authorization (ok (some m)) h =
      let (hash, held, p) = check_presented-ok m mb authorization _ refl h in
      (m, hash, refl, held, p)

  -- `authorize_owner` lets through no request but the owner's.
  pub authorize_owner-OwnsMailbox :
      (store : Store) (db : store.State) (address : Str) (authorization : Option Str) (mb : Mailbox)
      → authorize_owner digest store db address authorization ≡ ok mb
      → OwnsMailbox store db address authorization
  unfolding authorize_owner
  authorize_owner-OwnsMailbox store db address authorization mb h =
      check_owner-ok mb authorization (store.get_mailbox db address) h

  check_claim-ok :
      (c d : CustomDomain) (authorization : Option Str) (o : Option Str)
      → bearer_token authorization ≡ o
      → check_claim digest c o ≡ ok d
      → PresentsOf authorization c.claim_token_hash
  unfolding check_claim
  check_claim-ok c d authorization none e h = ground arith
  check_claim-ok c d authorization (some t) e h =
      matched authorization t c.claim_token_hash e (ground arith)

  claimed_by-ok :
      (d : CustomDomain) (authorization : Option Str) (r : Result (Option CustomDomain) StoreError)
      → claimed_by digest authorization r ≡ ok d
      → (c : CustomDomain) × (r ≡ ok (some c)) × PresentsOf authorization c.claim_token_hash
  unfolding claimed_by
  claimed_by-ok d authorization (err e) h = ground arith
  claimed_by-ok d authorization (ok none) h = ground arith
  claimed_by-ok d authorization (ok (some c)) h =
      (c, refl, check_claim-ok c d authorization _ refl h)

  -- `authorize_domain` lets through no request but that of the claim's holder.
  pub authorize_domain-HoldsClaim :
      (store : Store) (db : store.State) (domain : Str) (authorization : Option Str)
      (d : CustomDomain)
      → authorize_domain digest store db domain authorization ≡ ok d
      → HoldsClaim store db (normalized domain) authorization
  unfolding authorize_domain
  authorize_domain-HoldsClaim store db domain authorization d h = claimed_by-ok d authorization _ h

  -- The claim is verified besides.
  abbrev pub HoldsVerified : (store : Store) → store.State → Str → Option Str → Type 0
  HoldsVerified store db domain authorization =
      (claim : CustomDomain) × (store.get_custom_domain db domain ≡ ok (some claim))
      × (claim.status ≡ verified)
      × PresentsOf authorization claim.claim_token_hash

  is_verified-verified : (s : CustomDomainStatus) → is_verified s ≡ true → s ≡ verified
  unfolding is_verified
  is_verified-verified pending h = ground arith
  is_verified-verified verified h = refl
  is_verified-verified failed h = ground arith

  check_mailbox_claim-ok :
      (c : CustomDomain) (domain : Str) (authorization : Option Str) (o : Option Str)
      → bearer_token authorization ≡ o
      → check_mailbox_claim digest c domain o ≡ ok tt
      → (c.status ≡ verified) × PresentsOf authorization c.claim_token_hash
  unfolding check_mailbox_claim
  check_mailbox_claim-ok c domain authorization none e h = ground arith
  check_mailbox_claim-ok c domain authorization (some t) e h = (
    is_verified-verified c.status (ground arith),
    matched authorization t c.claim_token_hash e (ground arith),
  )

  may_use-ok :
      (domain : Str) (authorization : Option Str) (r : Result (Option CustomDomain) StoreError)
      → may_use digest domain authorization r ≡ ok tt
      → (c : CustomDomain) × (r ≡ ok (some c))
        × (c.status ≡ verified)
        × PresentsOf authorization c.claim_token_hash
  unfolding may_use
  may_use-ok domain authorization (err e) h = ground arith
  may_use-ok domain authorization (ok none) h = ground arith
  may_use-ok domain authorization (ok (some c)) h =
      let (v, p) = check_mailbox_claim-ok c domain authorization _ refl h in (c, refl, v, p)

  -- A mailbox on a custom domain is for the holder of its verified claim alone.
  pub authorize_mailbox_on_custom_domain-HoldsVerified :
      (store : Store) (db : store.State) (domain : Str) (authorization : Option Str)
      → authorize_mailbox_on_custom_domain digest store db domain authorization ≡ ok tt
      → HoldsVerified store db domain authorization
  unfolding authorize_mailbox_on_custom_domain
  authorize_mailbox_on_custom_domain-HoldsVerified store db domain authorization h =
      may_use-ok domain authorization _ h
