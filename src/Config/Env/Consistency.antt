-- ===== src/Config/Env/Consistency.antt =====
-- What holds of every configuration that `Config::from_env` of src/config.rs reads.
use anony_mail.Base.{
  ◌≤◌, ◌≡◌, Bool, true, false, not, ◌&&◌, Option, none, some, [], ◌∷◌, arith, is_some, is_none,
  length, all, any, ok,
}
use mathlib.Core.Path.{subst}
use anony_mail.Base.Text.{Str, text, is_empty}
use anony_mail.Model.{Bytes}
use anony_mail.Config.{Config, entitlements_supported, app_attest_configured}
use anony_mail.Config.Defaults.{default}
use anony_mail.Config.Env.{
  Environment, non_empty_env, with_domains, with_listeners, with_tls, with_http, with_caps,
}
use anony_mail.Config.Env.Load.{
  differ, signing_key, with_web_push, with_apns, with_mail, with_entitlements, with_attestation,
  with_tiers, with_features, from_env,
}
use anony_mail.Config.Env.Read.{Read, then-Read, step-Read, any-Read, ensured-Read}

abbrev HasDomains : Config → Type 0
HasDomains c = is_empty c.domains ≡ false

abbrev IsPaired : Config → Type 0
IsPaired c = is_some c.vapid_public_key ≡ is_some c.vapid_private_key

abbrev IsWhole : Config → Type 0
IsWhole c =
    (is_some c.apns_key_id ≡ is_some c.apns_team_id)
    × (is_some c.apns_private_key ≡ is_some c.apns_team_id)
    × (is_some c.apns_topic ≡ is_some c.apns_team_id)

abbrev IsLong : Option Bytes → Type 0
IsLong none = Unit
IsLong (some key) = 32 ≤ length key

abbrev IsSigned : Config → Type 0
IsSigned c =
    IsLong c.token_signing_key
    × ((c.entitlements_enforced && not (entitlements_supported c)) ≡ false)
    × ((is_some c.revenuecat_secret_key && not (entitlements_supported c)) ≡ false)

abbrev IsAttesting : Config → Type 0
IsAttesting c =
    (is_some c.app_attest_team_id ≡ is_some c.app_attest_bundle_id)
    × ((app_attest_configured c && not (entitlements_supported c)) ≡ false)
    × ((c.client_attestation_required && not (app_attest_configured c)) ≡ false)

-- Up to the mail features, and up to the entitlements.
abbrev Pushes : Config → Type 0
Pushes c = HasDomains c × IsPaired c × IsWhole c

abbrev pub IsConsistent : Config → Type 0
IsConsistent c = Pushes c × IsSigned c × IsAttesting c

equal : (a b : Bool) → differ a b ≡ false → a ≡ b
equal true b h = ground arith
equal false b h = ground arith

needed :
    (a : Bool) {A : Type 0} (o : Option A)
    → (a && is_none o) ≡ false
    → (a && not (is_some o)) ≡ false
needed a none h = h
needed a (some x) h = h

both : {A B C : Type 0} → A → B × C → A × B × C
both a (b, c) = (a, b, c)

-- The last two tests, with the first.
attested :
    {A : Type 0} (required team bundle : Bool) (key : Option A)
    → team ≡ bundle
    → (team && is_none key) ≡ false
    → (required && not team) ≡ false
    → (((team && bundle) && not (is_some key)) ≡ false)
      × ((required && not (team && bundle)) ≡ false)
attested required team bundle none e h k = ground arith
attested required team bundle (some x) e h k = ground arith

all_or_none :
    (a b c d : Bool)
    → (any (λ part. part) (a ∷ b ∷ c ∷ d ∷ []) && not (all (λ part. part) (a ∷ b ∷ c ∷ d ∷ [])))
      ≡ false
    → (b ≡ a) × (c ≡ a) × (d ≡ a)
unfolding any all
all_or_none a b c d h = ground arith

module _ (env : Environment) where
  with_domains-HasDomains : (c : Config) → Read HasDomains (with_domains env c)
  unfolding with_domains
  with_domains-HasDomains c = ensured-Read _ _ _ _ (λ h. h)

  with_listeners-HasDomains : (c : Config) → HasDomains c → Read HasDomains (with_listeners env c)
  unfolding with_listeners
  with_listeners-HasDomains c h = any-Read _ _ _ (λ v1. any-Read _ _ _ (λ v2. any-Read _ _ _ (λ v3.
      any-Read _ _ _ (λ v4. any-Read _ _ _ (λ v5. any-Read _ _ _ (λ v6.
        any-Read _ _ _
          (λ v7. any-Read _ _ _ (λ v8. any-Read _ _ _ (λ v9. any-Read _ _ _ (λ v10. h))))))))))

  with_tls-HasDomains : (c : Config) → HasDomains c → Read HasDomains (with_tls env c)
  unfolding with_tls
  with_tls-HasDomains c h = any-Read _ _ _ (λ v. h)

  with_http-HasDomains : (c : Config) → HasDomains c → Read HasDomains (with_http env c)
  unfolding with_http
  with_http-HasDomains c h = any-Read _ _ _ (λ v1. any-Read _ _ _ (λ v2. any-Read _ _ _ (λ v3.
      any-Read _ _ _ (λ v4.
        any-Read _ _ _
          (λ v5. any-Read _ _ _ (λ v6. any-Read _ _ _ (λ v7. any-Read _ _ _ (λ v8. h))))))))

  with_caps-HasDomains : (c : Config) → HasDomains c → Read HasDomains (with_caps env c)
  unfolding with_caps
  with_caps-HasDomains c h = any-Read _ _ _ (λ v1. any-Read _ _ _ (λ v2.
      any-Read _ _ _
        (λ v3. any-Read _ _ _ (λ v4. any-Read _ _ _ (λ v5. any-Read _ _ _ (λ v6. h))))))

  with_web_push-IsPaired :
      (c : Config) → HasDomains c → Read (λ c'. HasDomains c' × IsPaired c') (with_web_push env c)
  unfolding with_web_push
  with_web_push-IsPaired c h = ensured-Read _ _ _ _ (λ e. any-Read _ _ _ (λ v. (h, equal _ _ e)))

  with_apns-Pushes : (c : Config) → HasDomains c × IsPaired c → Read Pushes (with_apns env c)
  unfolding with_apns
  with_apns-Pushes c (d, p) =
      any-Read _ _ _
        (λ key. ensured-Read _ _ _ _ (λ e. any-Read _ _ _ (λ v. (d, p, all_or_none _ _ _ _ e))))

  with_mail-Pushes : (c : Config) → Pushes c → Read Pushes (with_mail env c)
  unfolding with_mail
  with_mail-Pushes c h = any-Read _ _ _ (λ v1.
      any-Read _ _ _ (λ v2. any-Read _ _ _ (λ v3. any-Read _ _ _ (λ v4. any-Read _ _ _ (λ v5. h)))))

  signing_key-IsLong : (o : Option Str) → Read IsLong (signing_key env o)
  unfolding signing_key
  signing_key-IsLong none = tt
  signing_key-IsLong (some s) = any-Read _ _ _ (λ bytes. ensured-Read _ _ _ _ (λ e. ground arith))

  read_key : (o : Option Str) (k : Option Bytes) → signing_key env o ≡ ok k → IsLong k
  read_key o k e = subst (Read IsLong) e (signing_key-IsLong o)

  with_entitlements-IsSigned :
      (c : Config) → Pushes c → Read (λ c'. Pushes c' × IsSigned c') (with_entitlements env c)
  unfolding with_entitlements entitlements_supported
  with_entitlements-IsSigned c h = any-Read _ _ _ (λ enforced. then-Read _ _ _ (λ key k.
      ensured-Read _ _ _ _ (λ e.
        ensured-Read _ _ _ _
          (λ e'. (h, (read_key _ key k, needed enforced key e, needed _ key e'))))))

  with_attestation-IsConsistent :
      (c : Config) → Pushes c × IsSigned c → Read IsConsistent (with_attestation env c)
  unfolding with_attestation entitlements_supported app_attest_configured
  with_attestation-IsConsistent c (p, s) = any-Read _ _ _ (λ required. ensured-Read _ _ _ _ (λ e1.
      ensured-Read _ _ _ _ (λ e2. ensured-Read _ _ _ _ (λ e3. any-Read _ _ _ (λ pem. (
        p,
        s,
        both (equal _ _ e1) (
            attested required _ _ c.token_signing_key (equal _ _ e1) e2
              (needed required (non_empty_env env (text "APP_ATTEST_TEAM_ID")) e3)),
      ))))))

  with_tiers-IsConsistent : (c : Config) → IsConsistent c → Read IsConsistent (with_tiers env c)
  unfolding with_tiers entitlements_supported app_attest_configured
  with_tiers-IsConsistent c h = any-Read _ _ _ (λ v1. any-Read _ _ _ (λ v2. any-Read _ _ _ (λ v3.
      any-Read _ _ _
        (λ v4. any-Read _ _ _ (λ v5. any-Read _ _ _ (λ v6. any-Read _ _ _ (λ v7. h)))))))

  from_features : (c : Config) → HasDomains c → Read IsConsistent (with_features env c)
  unfolding with_features
  from_features c h =
      step-Read (λ c'. HasDomains c' × IsPaired c') IsConsistent _ _ (with_web_push-IsPaired c h)
        (λ c1 h1. step-Read Pushes IsConsistent _ _ (with_apns-Pushes c1 h1) (λ c2 h2.
          step-Read Pushes IsConsistent _ _ (with_mail-Pushes c2 h2) (λ c3 h3.
            step-Read (λ c'. Pushes c' × IsSigned c') IsConsistent _ _
              (with_entitlements-IsSigned c3 h3)
              (λ c4 h4.
                step-Read IsConsistent IsConsistent _ _ (with_attestation-IsConsistent c4 h4)
                  (λ c5 h5. with_tiers-IsConsistent c5 h5)))))

  -- Every configuration that is read has a domain; its VAPID keys are both set or both unset, its four
  -- settings for APNs all or none, and those for App Attest both or none. Its signing key is no
  -- shorter than 32 bytes, and there is one if tiers are enforced, if a RevenueCat key is set or if App
  -- Attest is configured; and App Attest is configured if attestation is required.
  pub from_env-IsConsistent : (c : Config) → from_env env ≡ ok c → IsConsistent c
  unfolding from_env
  from_env-IsConsistent c e = subst (Read IsConsistent) e (
      step-Read HasDomains IsConsistent _ _ (with_domains-HasDomains default) (λ c1 h1.
        step-Read HasDomains IsConsistent _ _ (with_listeners-HasDomains c1 h1) (λ c2 h2.
          step-Read HasDomains IsConsistent _ _ (with_tls-HasDomains c2 h2) (λ c3 h3.
            step-Read HasDomains IsConsistent _ _ (with_http-HasDomains c3 h3) (λ c4 h4.
              step-Read HasDomains IsConsistent _ _ (with_caps-HasDomains c4 h4)
                (λ c5 h5. from_features c5 h5))))))
