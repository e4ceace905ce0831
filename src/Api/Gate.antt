-- ===== src/Api/Gate.antt =====
-- src/api/entitlements.rs: who a request comes from, by its client token, and the minting of tokens
-- for a purchase.
pub mod Keeps
pub mod Attested
use anony_mail.Base.{Bool, true, false, not, Option, none, some, Result, any, ok, err}
use anony_mail.Base.Text.{Str, text, trimmed}
use anony_mail.Config.{Tier, free, pro}
use anony_mail.Entitlements.{
  ClientClaims, is_attested, TokenError, expired, invalid, verify_client_token, mint_client_token,
  kind_unattested, client_token_ttl_seconds,
}
use anony_mail.Model.{Time, Bytes, seconds}
use anony_mail.Api.{ApiError, coded, service_unavailable, internal}
use anony_mail.Api.Handler.{
  Surroundings, Headers, Handler, ◌>>=◌, ◌>>◌, return, throw, require, some_or, now,
}

abbrev pub attestation_required : ApiError
attestation_required =
    coded 401 (text "attestation_required")
      (text "this server requires an attested client token; obtain one via POST /api/client/attest")

abbrev pub tier_of : Option ClientClaims → Tier
tier_of none = free
tier_of (some c) = c.tier

pub record VerifyResponse : Type 0 where
  pub client_token : Str
  pub tier : Tier
  pub expires_at : Time

module _ {Db : Type 0} (sur : Surroundings) where
  unfoldable pub accept_claims : Result ClientClaims TokenError → Handler Db (Option ClientClaims)
  accept_claims (ok claims) = return (some claims)
  accept_claims (err expired) =
      throw (
        coded 401 (text "client_token_expired") (text "client token expired, refresh it and retry"))
  accept_claims (err invalid) =
      throw (coded 401 (text "client_token_invalid") (text "client token invalid"))

  -- With the text of the header and the server's key at hand.
  unfoldable pub claims_of : Option Str → Option Bytes → Handler Db (Option ClientClaims)
  claims_of none signing_key = return none
  claims_of (some raw) none = return none
  claims_of (some raw) (some signing_key) = do
    at_ ← now sur
    accept_claims (verify_client_token sur.jwt at_ signing_key raw)

  unfoldable pub client_claims : Headers → Handler Db (Option ClientClaims)
  client_claims headers = claims_of (trimmed headers.client_token) sur.config.token_signing_key

  unfoldable pub attested_only : Bool → Option ClientClaims → Handler Db (Option ClientClaims)
  attested_only false claims = return claims
  attested_only true none = throw attestation_required
  attested_only true (some c) = do require (is_attested c) attestation_required; return (some c)

  unfoldable pub attestation_gate : Headers → Handler Db (Option ClientClaims)
  attestation_gate headers = do
    claims ← client_claims headers
    attested_only sur.config.client_attestation_required claims

  unfoldable pub client_tier : Headers → Handler Db Tier
  client_tier headers = do claims ← client_claims headers; return (tier_of claims)

  unfoldable pub tier_if : Bool → Headers → Handler Db (Option Tier)
  tier_if false headers = return none
  tier_if true headers = do tier ← client_tier headers; return (some tier)

  unfoldable pub enforced_tier : Headers → Handler Db (Option Tier)
  enforced_tier headers = tier_if sur.config.entitlements_enforced headers

  abbrev pub tier_by : Option Bool → Handler Db Tier
  tier_by (some true) = return pro
  tier_by (some false) = return free
  tier_by none = throw (
      service_unavailable (text "entitlement verification is temporarily unavailable, retry later"))

  -- With the identifier of the purchase and the verifier at hand, where there are any.
  unfoldable pub tier_for : Option Str → Option (Time → Str → Option Bool) → Handler Db Tier
  tier_for (some id) (some is_pro) = do at_ ← now sur; tier_by (is_pro at_ id)
  tier_for (some id) none = return free
  tier_for none verifier = return free

  unfoldable pub resolve_tier : Option Str → Handler Db Tier
  resolve_tier rc_app_user_id = tier_for (trimmed rc_app_user_id) sur.pro

  -- `mint_client_token` at the clock's next reading; a failure to sign is an internal error.
  unfoldable pub minted : Bytes → Str → Option Str → Tier → Handler Db (Str × Time)
  minted signing_key kind kid tier = do
    at_ ← now sur
    some_or
        (mint_client_token sur.jwt at_ signing_key kind kid tier (seconds client_token_ttl_seconds))
        internal

  -- `POST /api/entitlements/verify`
  unfoldable pub verify : Headers → Option Str → Handler Db VerifyResponse
  verify headers rc_app_user_id = do
    signing_key ←
        some_or sur.config.token_signing_key
          (service_unavailable (text "entitlements are not configured on this server"))
    attestation_gate headers
    tier ← resolve_tier rc_app_user_id
    (client_token, expires_at) ← minted signing_key kind_unattested none tier
    return (record { client_token = client_token; tier = tier; expires_at = expires_at })
