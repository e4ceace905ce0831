-- ===== src/Entitlements.antt =====
-- src/entitlements.rs: client tokens, and the verdicts on purchases. The jsonwebtoken crate and the
-- HTTP request to RevenueCat are parameters; a timestamp is in whole seconds.
use anony_mail.Base.{
  ℕ, ◌+◌, ◌-◌, ◌/◌, Bool, not, Option, none, some, ltb, leb, if◌then◌else◌, ◌==◌, Result,
  is_some_and, is_none_or, length, ok, err, nat_eq, str_eq,
}
use mathlib.Core.Option
use anony_mail.Base.Assoc.{Map, get, insert, retain_values}
use anony_mail.Base.Text.{Str, text}
use anony_mail.Config.{Tier}
use anony_mail.Model.{Time, Bytes, seconds}

abbrev pub client_token_ttl_seconds : ℕ
client_token_ttl_seconds = 43200

abbrev pub kind_unattested : Str
kind_unattested = text "unattested"

abbrev pub kind_ios : Str
kind_ios = text "ios"

abbrev pub rc_cache_ttl : Time
rc_cache_ttl = seconds 600

pub record ClientClaims : Type 0 where
  pub kind : Str
  pub kid : Option Str
  pub tier : Tier
  pub iat : ℕ
  pub exp : ℕ

unfoldable pub is_attested : ClientClaims → Bool
is_attested claims = not (claims.kind == kind_unattested)

-- `ErrorKind`, of which one is told apart.
pub data JwtError : Type 0 where
  expired_signature other_error : JwtError

-- `encode`, which may fail, and `decode` with its leeway in seconds and the time at which it runs.
pub record Jwt : Type 0 where
  pub encode : Bytes → ClientClaims → Option Str
  pub decode : ℕ → Time → Bytes → Str → Result ClientClaims JwtError

abbrev pub timestamp : Time → ℕ
timestamp t = t / 1000000000

unfoldable pub mint_client_token :
    Jwt → Time → Bytes → Str → Option Str → Tier → Time → Option (Str × Time)
mint_client_token jwt now signing_key kind kid tier ttl =
    let expires_at = now + ttl in
    let claims : ClientClaims = record {
      kind = kind;
      kid = kid;
      tier = tier;
      iat = timestamp now;
      exp = timestamp expires_at;
    } in
    Option.map (λ token. (token, expires_at)) (jwt.encode signing_key claims)

pub data TokenError : Type 0 where
  expired invalid : TokenError

rejected : Result ClientClaims JwtError → Result ClientClaims TokenError
rejected (ok claims) = ok claims
rejected (err expired_signature) = err expired
rejected (err other_error) = err invalid

unfoldable pub verify_client_token : Jwt → Time → Bytes → Str → Result ClientClaims TokenError
unfolding rejected
verify_client_token jwt now signing_key token = rejected (jwt.decode 5 now signing_key token)

-- `SubscriberResponse`: the entitlements by name, each with the moment it lapses, if it does.
abbrev pub SubscriberResponse : Type 0
SubscriberResponse = Map Str (Option Time)

unfoldable pub entitlement_active : SubscriberResponse → Str → Time → Bool
entitlement_active body entitlement_id now =
    is_some_and (get body entitlement_id) (λ expires. is_none_or expires (λ d. ltb now d))

-- What the verifier keeps. `fetch` is the request to RevenueCat, `none` where it fails.
pub record RevenueCatVerifier : Type 0 where
  pub entitlement_id : Str
  pub cache : Map Str (Bool × Time)

abbrev pub is_recent : Time → Bool × Time → Bool
is_recent now verdict = ltb (now - verdict.1) rc_cache_ttl

abbrev still_recent : Time → Option (Bool × Time) → Option Bool
still_recent now none = none
still_recent now (some verdict) = if is_recent now verdict then some verdict.0 else none

unfoldable pub cached : RevenueCatVerifier → Str → Time → Option Bool
cached v id now = still_recent now (get v.cache id)

unfoldable pub remember : RevenueCatVerifier → Str → Bool → Time → RevenueCatVerifier
remember v id pro now =
    let kept =
      if leb 10000 (length v.cache) then retain_values (is_recent now) v.cache else v.cache in
    record v { cache = insert kept id (pro, now) }

-- With the answer of the cache, then with that of the request. `clock 1` is when the answer is
-- judged, `clock 2` when it is remembered.
unfoldable pub judged :
    (ℕ → Time)
    → Str
    → RevenueCatVerifier
    → Option SubscriberResponse
    → Option Bool × RevenueCatVerifier
judged clock id v none = (none, v)
judged clock id v (some body) =
    let pro = entitlement_active body v.entitlement_id (clock 1) in
    (some pro, remember v id pro (clock 2))

unfoldable pub asked :
    (ℕ → Time)
    → (Str → Option SubscriberResponse)
    → Str
    → RevenueCatVerifier
    → Option Bool
    → Option Bool × RevenueCatVerifier
asked clock fetch id v (some pro) = (some pro, v)
asked clock fetch id v none = judged clock id v (fetch id)

unfoldable pub is_pro :
    (ℕ → Time)
    → (Str → Option SubscriberResponse)
    → RevenueCatVerifier
    → Str
    → Option Bool × RevenueCatVerifier
is_pro clock fetch v id = asked clock fetch id v (cached v id (clock 0))
