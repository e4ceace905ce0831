-- ===== src/Api/Client.antt =====
-- src/api/client.rs: the registration of devices by App Attest and the renewal of their tokens, over
-- any `Store`.
pub mod Once
use anony_mail.Base.{Bool, not, ◌||◌, Option, some, ltb, Result, unwrap_or, any, ok, err}
use anony_mail.Base.Text.{Str, text, is_empty, len}
use anony_mail.Attest.{issue, consume}
use anony_mail.Attest.Verify.{verify_attestation, verify_assertion}
use anony_mail.Config.{app_attest_app_id}
use anony_mail.Entitlements.{kind_ios}
use anony_mail.Store.{Store}
use anony_mail.Api.{ApiError, bad_request, service_unavailable, coded}
use anony_mail.Api.Gate.{resolve_tier, minted, VerifyResponse}
use anony_mail.Api.Handler.{
  Surroundings, Handler, ◌>>=◌, ◌>>◌, return, require, some_or, from_result, reading, writing,
  challenging, now, draw,
}

-- The `attestation` of the one request, the `assertion` of the other.
pub record AttestRequest : Type 0 where
  pub key_id : Str
  pub proof : Str
  pub challenge : Str
  pub rc_app_user_id : Option Str

abbrev pub rejected : {A : Type 0} → Str → Result A Str → Result A ApiError
rejected code (ok a) = ok a
rejected code (err e) = err (coded 400 code e)

module _ {Db : Type 0} (sur : Surroundings) where
  unfoldable pub require_configured : Handler Db Str
  require_configured =
      some_or (app_attest_app_id sur.config)
        (service_unavailable (text "app attestation is not configured on this server"))

  -- `POST /api/client/challenge`
  unfoldable pub challenge : Handler Db Str
  challenge = do
    require_configured
    n ← draw
    at_ ← now sur
    challenging (λ c. (sur.random_challenge n, issue c (sur.random_challenge n) at_))

  unfoldable pub consume_challenge : Str → Handler Db (Unit {0})
  consume_challenge presented = do
    at_ ← now sur
    redeemed ← challenging (λ c. consume c presented at_)
    require redeemed (
        coded 400 (text "invalid_challenge")
          (text "challenge unknown, expired, or already used; request a new one"))

  unfoldable pub mint : Str → Option Str → Handler Db VerifyResponse
  mint key_id rc_app_user_id = do
    signing_key ←
        some_or sur.config.token_signing_key
          (service_unavailable (text "token signing is not configured"))
    tier ← resolve_tier sur rc_app_user_id
    (client_token, expires_at) ← minted sur signing_key kind_ios (some key_id) tier
    return (record { client_token = client_token; tier = tier; expires_at = expires_at })

abbrev pub is_key_id : Str → Bool
is_key_id key_id = not (is_empty key_id || ltb 64 (len key_id))

module _ (sur : Surroundings) (store : Store) where
  unfoldable pub validate_key_id : Str → Handler store.State (Unit {0})
  validate_key_id key_id = require (is_key_id key_id) (bad_request (text "invalid key_id"))

  -- `POST /api/client/attest`
  unfoldable pub attest : AttestRequest → Handler store.State VerifyResponse
  attest req = do
    app_id ← require_configured sur
    validate_key_id req.key_id
    consume_challenge sur req.challenge
    public_key ← from_result (
        rejected (text "invalid_attestation") (
          verify_attestation sur.crates app_id
            (unwrap_or sur.config.app_attest_root_pem sur.crates.apple_root_ca_pem) req.challenge
            req.key_id req.proof))
    at_ ← now sur
    writing (λ db. store.upsert_attested_device db req.key_id public_key at_)
    mint sur req.key_id req.rc_app_user_id

  -- `POST /api/client/assert`
  unfoldable pub assert : AttestRequest → Handler store.State VerifyResponse
  assert req = do
    app_id ← require_configured sur
    validate_key_id req.key_id
    consume_challenge sur req.challenge
    known ← reading (λ db. store.get_attested_device db req.key_id)
    device ←
        some_or known (
          coded 401 (text "attestation_required") (text "unknown key id, attest this device first"))
    new_counter ← from_result (
        rejected (text "invalid_assertion") (
          verify_assertion sur.crates sur.digest app_id req.challenge req.proof device.public_key
            device.counter))
    at_ ← now sur
    advanced ← writing (λ db. store.advance_attested_device_counter db req.key_id new_counter at_)
    require advanced (
        coded 400 (text "invalid_assertion")
          (text "assertion counter conflict, retry with a fresh challenge"))
    mint sur req.key_id req.rc_app_user_id
