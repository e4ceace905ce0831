-- ===== src/Api/Gate/Keeps.antt =====
-- The gates of src/api/entitlements.rs leave the store as it is, and let no request through that
-- lacks what they ask for.
use anony_mail.Base.{refl, Bool, true, false, Option, none, some, Result, ok, err}
use anony_mail.Base.Text.{Str, trimmed}
use anony_mail.Config.{Tier}
use anony_mail.Entitlements.{ClientClaims, TokenError, expired, invalid, verify_client_token}
use anony_mail.Model.{Time, Bytes}
use anony_mail.Api.Handler.{Surroundings, Headers}
use anony_mail.Api.Handler.Keeps.{Keeps, keeps, >>=-Keeps, some_or-Keeps, require-Keeps}
use anony_mail.Api.Gate.{
  accept_claims, claims_of, client_claims, attested_only, attestation_gate, client_tier,
  enforced_tier, tier_if, tier_by, tier_for, resolve_tier, minted, verify,
}

module _ {Db : Type 0} (sur : Surroundings) where
  accept_claims-Keeps : (r : Result ClientClaims TokenError) → Keeps {Db = Db} (accept_claims sur r)
  unfolding accept_claims
  accept_claims-Keeps (ok c) = keeps _ (λ s. refl)
  accept_claims-Keeps (err expired) = keeps _ (λ s. refl)
  accept_claims-Keeps (err invalid) = keeps _ (λ s. refl)

  claims_of-Keeps :
      (raw : Option Str) (key : Option Bytes) → Keeps {Db = Db} (claims_of sur raw key)
  unfolding claims_of
  claims_of-Keeps none key = keeps _ (λ s. refl)
  claims_of-Keeps (some raw) none = keeps _ (λ s. refl)
  claims_of-Keeps (some raw) (some key) =
      >>=-Keeps _ _ (keeps _ (λ s. refl))
        (λ t. accept_claims-Keeps (verify_client_token sur.jwt t key raw))

  pub client_claims-Keeps : (h : Headers) → Keeps {Db = Db} (client_claims sur h)
  unfolding client_claims
  client_claims-Keeps h = claims_of-Keeps (trimmed h.client_token) sur.config.token_signing_key

  attested_only-Keeps :
      (b : Bool) (c : Option ClientClaims) → Keeps {Db = Db} (attested_only sur b c)
  unfolding attested_only
  attested_only-Keeps false c = keeps _ (λ s. refl)
  attested_only-Keeps true none = keeps _ (λ s. refl)
  attested_only-Keeps true (some c) = >>=-Keeps _ _ (require-Keeps _ _) (λ u. keeps _ (λ s. refl))

  pub attestation_gate-Keeps : (h : Headers) → Keeps {Db = Db} (attestation_gate sur h)
  unfolding attestation_gate
  attestation_gate-Keeps h =
      >>=-Keeps _ _ (client_claims-Keeps h)
        (λ c. attested_only-Keeps sur.config.client_attestation_required c)

  tier_if-Keeps : (b : Bool) (h : Headers) → Keeps {Db = Db} (tier_if sur b h)
  unfolding tier_if client_tier
  tier_if-Keeps false h = keeps _ (λ s. refl)
  tier_if-Keeps true h =
      >>=-Keeps _ _ (>>=-Keeps _ _ (client_claims-Keeps h) (λ c. keeps _ (λ s. refl)))
        (λ t. keeps _ (λ s. refl))

  pub enforced_tier-Keeps : (h : Headers) → Keeps {Db = Db} (enforced_tier sur h)
  unfolding enforced_tier
  enforced_tier-Keeps h = tier_if-Keeps sur.config.entitlements_enforced h

  tier_by-Keeps : (b : Option Bool) → Keeps {Db = Db} (tier_by sur b)
  tier_by-Keeps (some true) = keeps _ (λ s. refl)
  tier_by-Keeps (some false) = keeps _ (λ s. refl)
  tier_by-Keeps none = keeps _ (λ s. refl)

  tier_for-Keeps :
      (id : Option Str) (v : Option (Time → Str → Option Bool))
      → Keeps {Db = Db} (tier_for sur id v)
  unfolding tier_for
  tier_for-Keeps (some id) (some v) =
      >>=-Keeps _ _ (keeps _ (λ s. refl)) (λ t. tier_by-Keeps (v t id))
  tier_for-Keeps (some id) none = keeps _ (λ s. refl)
  tier_for-Keeps none v = keeps _ (λ s. refl)

  pub resolve_tier-Keeps : (id : Option Str) → Keeps {Db = Db} (resolve_tier sur id)
  unfolding resolve_tier
  resolve_tier-Keeps id = tier_for-Keeps (trimmed id) sur.pro

  pub minted-Keeps :
      (key : Bytes) (kind : Str) (kid : Option Str) (t : Tier)
      → Keeps {Db = Db} (minted sur key kind kid t)
  unfolding minted
  minted-Keeps key kind kid t = >>=-Keeps _ _ (keeps _ (λ s. refl)) (λ at_. some_or-Keeps _ _)

  pub verify-Keeps : (h : Headers) (id : Option Str) → Keeps {Db = Db} (verify sur h id)
  unfolding verify
  verify-Keeps h id = >>=-Keeps _ _ (some_or-Keeps _ _) (λ key.
      >>=-Keeps _ _ (attestation_gate-Keeps h) (λ c.
        >>=-Keeps _ _ (resolve_tier-Keeps id)
          (λ t. >>=-Keeps _ _ (minted-Keeps _ _ _ t) (λ m. keeps _ (λ s. refl)))))
