-- ===== src/Config/Env/Load.antt =====
-- The features of `Config::from_env` of src/config.rs that are on only with all of their settings, and
-- the whole of it.
use anony_mail.Base.{
  Bool, true, false, not, ◌&&◌, Option, none, some, [], ◌∷◌, ◌++◌, ltb, is_some, is_none, unwrap_or,
  length, retain, all, any, ok, err,
}
use anony_mail.Base.Text.{Str, text, is_whitespace, decimal}
use anony_mail.Model.{Bytes}
use anony_mail.Config.{Config}
use anony_mail.Config.Defaults.{default}
use anony_mail.Config.Env.{
  Environment, Checked, bail, ◌>>=◌, ◌>>◌, ensure, context, u32, u64, bool, from_utf8, first,
  parse_env, non_empty_env, with_domains, with_listeners, with_tls, with_http, with_caps,
}

-- `a != b`
abbrev pub differ : Bool → Bool → Bool
differ true b = not b
differ false b = b

module _ (env : Environment) where
  abbrev pub read_to_string : Str → Option Str
  read_to_string path = elim (env.read path) [ none ↦ none | some bytes ↦ from_utf8 bytes ]

  -- The signing key for APNs, from a file or from the variable itself.
  unfoldable pub apns_key : Option Str → Option Str → Checked (Option Str)
  apns_key (some path) (some b64) =
      err (bail (text "set only one of APNS_KEY_PATH and APNS_KEY_BASE64"))
  apns_key (some path) none = do
    key ← context (read_to_string path) (text "reading APNS_KEY_PATH")
    ok (some key)
  apns_key none (some b64) = do
    bytes ←
        context (env.decode (retain (λ c. not (is_whitespace c)) b64))
          (text "APNS_KEY_BASE64 is not valid base64")
    key ← context (from_utf8 bytes) (text "APNS_KEY_BASE64 does not decode to PEM text")
    ok (some key)
  apns_key none none = ok none

  unfoldable pub signing_key : Option Str → Checked (Option Bytes)
  signing_key none = ok none
  signing_key (some b64) = do
    bytes ← context (env.decode b64) (text "TOKEN_SIGNING_KEY is not valid base64")
    ensure (ltb (length bytes) 32) (
        text "TOKEN_SIGNING_KEY must decode to at least 32 bytes (got "
        ++ decimal (length bytes)
        ++ text ")")
    ok (some bytes)

  unfoldable pub root_pem : Option Str → Checked (Option Bytes)
  root_pem none = ok none
  root_pem (some path) = do
    pem ← context (env.read path) (text "reading APP_ATTEST_ROOT_CA_PATH")
    ok (some pem)

  unfoldable pub with_web_push : Config → Checked Config
  with_web_push c = do
    let public_key = non_empty_env env (text "VAPID_PUBLIC_KEY")
    let private_key = non_empty_env env (text "VAPID_PRIVATE_KEY")
    ensure (differ (is_some public_key) (is_some private_key))
        (text "VAPID_PUBLIC_KEY and VAPID_PRIVATE_KEY must both be set, or both be unset")
    subscriptions ←
        parse_env env u32 (text "MAX_SUBSCRIPTIONS_PER_MAILBOX") c.max_subscriptions_per_mailbox
    ok (record c {
      vapid_public_key = public_key;
      vapid_private_key = private_key;
      vapid_subject =
          unwrap_or (non_empty_env env (text "VAPID_SUBJECT"))
            (text "mailto:postmaster@" ++ first c.domains);
      max_subscriptions_per_mailbox = subscriptions;
    })

  unfoldable pub with_apns : Config → Checked Config
  with_apns c = do
    let team_id = non_empty_env env (text "APNS_TEAM_ID")
    let key_id = non_empty_env env (text "APNS_KEY_ID")
    let topic = non_empty_env env (text "APNS_TOPIC")
    private_key ←
        apns_key (non_empty_env env (text "APNS_KEY_PATH"))
          (non_empty_env env (text "APNS_KEY_BASE64"))
    let parts = is_some team_id ∷ is_some key_id ∷ is_some private_key ∷ is_some topic ∷ []
    ensure (any (λ part. part) parts && not (all (λ part. part) parts)) (
        text
          "APNs requires APNS_TEAM_ID, APNS_KEY_ID, APNS_TOPIC, and a key (APNS_KEY_PATH or APNS_KEY_BASE64) together — set all or none")
    sandbox ← parse_env env bool (text "APNS_SANDBOX") c.apns_sandbox
    ok (record c {
      apns_team_id = team_id;
      apns_key_id = key_id;
      apns_private_key = private_key;
      apns_topic = topic;
      apns_sandbox = sandbox;
    })

  unfoldable pub with_mail : Config → Checked Config
  with_mail c = do
    catch_all ← parse_env env bool (text "CATCH_ALL_ENABLED") c.catch_all_enabled
    custom ← parse_env env bool (text "CUSTOM_DOMAINS_ENABLED") c.custom_domains_enabled
    per_day ←
        parse_env env u32 (text "MAX_CUSTOM_DOMAINS_PER_IP_PER_DAY")
          c.max_custom_domains_per_ip_per_day
    throttle ←
        parse_env env u64 (text "CUSTOM_DOMAIN_VERIFY_THROTTLE_SECONDS")
          c.custom_domain_verify_throttle
    raw ← parse_env env bool (text "STORE_RAW_MESSAGE") c.store_raw_message
    ok (record c {
      catch_all_enabled = catch_all;
      custom_domains_enabled = custom;
      max_custom_domains_per_ip_per_day = per_day;
      custom_domain_verify_throttle = throttle;
      store_raw_message = raw;
    })

  unfoldable pub with_entitlements : Config → Checked Config
  with_entitlements c = do
    enforced ← parse_env env bool (text "ENTITLEMENTS_ENFORCED") c.entitlements_enforced
    key ← signing_key (non_empty_env env (text "TOKEN_SIGNING_KEY"))
    let secret = non_empty_env env (text "REVENUECAT_SECRET_KEY")
    ensure (enforced && is_none key)
        (text "ENTITLEMENTS_ENFORCED=true requires TOKEN_SIGNING_KEY (base64, >=32 bytes)")
    ensure (is_some secret && is_none key)
        (text "REVENUECAT_SECRET_KEY requires TOKEN_SIGNING_KEY to mint client tokens")
    ok (record c {
      entitlements_enforced = enforced;
      token_signing_key = key;
      revenuecat_secret_key = secret;
      revenuecat_entitlement_id =
          unwrap_or (non_empty_env env (text "REVENUECAT_ENTITLEMENT_ID"))
            c.revenuecat_entitlement_id;
    })

  unfoldable pub with_attestation : Config → Checked Config
  with_attestation c = do
    required ← parse_env env bool (text "CLIENT_ATTESTATION_REQUIRED") c.client_attestation_required
    let team_id = non_empty_env env (text "APP_ATTEST_TEAM_ID")
    let bundle_id = non_empty_env env (text "APP_ATTEST_BUNDLE_ID")
    ensure (differ (is_some team_id) (is_some bundle_id))
        (text "APP_ATTEST_TEAM_ID and APP_ATTEST_BUNDLE_ID must both be set, or both be unset")
    ensure (is_some team_id && is_none c.token_signing_key)
        (text "APP_ATTEST_* requires TOKEN_SIGNING_KEY to mint client tokens")
    ensure (required && is_none team_id) (
        text
          "CLIENT_ATTESTATION_REQUIRED=true requires APP_ATTEST_TEAM_ID and APP_ATTEST_BUNDLE_ID (and TOKEN_SIGNING_KEY)")
    pem ← root_pem (non_empty_env env (text "APP_ATTEST_ROOT_CA_PATH"))
    ok (record c {
      client_attestation_required = required;
      app_attest_team_id = team_id;
      app_attest_bundle_id = bundle_id;
      app_attest_root_pem = pem;
    })

  unfoldable pub with_tiers : Config → Checked Config
  with_tiers c = do
    active ← parse_env env u32 (text "FREE_ACTIVE_MAILBOXES") c.free_tier.active_mailboxes
    lifetime ← parse_env env u64 (text "FREE_MAX_LIFETIME_SECONDS") c.free_tier.max_lifetime_seconds
    locals ← parse_env env bool (text "FREE_CUSTOM_LOCAL_PARTS") c.free_tier.custom_local_parts
    count ← parse_env env u32 (text "FREE_DOMAIN_COUNT") c.free_tier.domain_count
    custom ← parse_env env bool (text "FREE_CUSTOM_DOMAINS") c.free_tier.custom_domains
    pro_active ← parse_env env u32 (text "PRO_ACTIVE_MAILBOXES") c.pro_tier.active_mailboxes
    pro_lifetime ←
        parse_env env u64 (text "PRO_MAX_LIFETIME_SECONDS") c.pro_tier.max_lifetime_seconds
    ok (record c {
      free_tier = record {
        active_mailboxes = active;
        max_lifetime_seconds = lifetime;
        custom_local_parts = locals;
        domain_count = count;
        custom_domains = custom;
      };
      pro_tier = record c.pro_tier {
        active_mailboxes = pro_active;
        max_lifetime_seconds = pro_lifetime;
      };
    })

  -- What `from_env` does once the settings that stand alone are read.
  unfoldable pub with_features : Config → Checked Config
  with_features capped = do
    web_push ← with_web_push capped
    apns ← with_apns web_push
    mail ← with_mail apns
    entitled ← with_entitlements mail
    attesting ← with_attestation entitled
    with_tiers attesting

  unfoldable pub from_env : Checked Config
  from_env = do
    served ← with_domains env default
    listening ← with_listeners env served
    secured ← with_tls env listening
    http ← with_http env secured
    capped ← with_caps env http
    with_features capped
