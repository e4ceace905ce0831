-- ===== src/Api/Pages.antt =====
-- What src/api/ tells of the server itself: src/api/mod.rs (`capabilities`, `ready`, `build_cors`,
-- `AppState::new`), src/api/addresses.rs (`list_domains`) and src/api/push.rs (`config`,
-- `vapid_public_key`). A JSON object is a record of its fields.
use anony_mail.Base.{
  Bool, none, some, List, if◌then◌else◌, Result, retain, contains, ok, err, nat_eq, str_eq,
}
use anony_mail.Base.Text.{Str, text}
use anony_mail.Attest
use anony_mail.Config.{Config, TierPolicy, push_configured, apns_configured, app_attest_configured}
use anony_mail.Limits.{from_config}
use anony_mail.Store.{Store, StoreError}
use anony_mail.Api.{service_unavailable}
use anony_mail.Api.Handler.{AppState, Surroundings, Handler, return, throw}

pub record Capabilities : Type 0 where
  pub apns_push : Bool
  pub web_push : Bool
  pub custom_domains : Bool
  pub attestation_supported : Bool
  pub attestation_required : Bool
  pub entitlements_enforced : Bool
  pub free : TierPolicy
  pub pro : TierPolicy

unfoldable pub capabilities : Config → Capabilities
unfolding apns_configured push_configured app_attest_configured
capabilities config = record {
  apns_push = apns_configured config;
  web_push = push_configured config;
  custom_domains = config.custom_domains_enabled;
  attestation_supported = app_attest_configured config;
  attestation_required = config.client_attestation_required;
  entitlements_enforced = config.entitlements_enforced;
  free = config.free_tier;
  pro = config.pro_tier;
}

abbrev pub list_domains : Config → List Str
list_domains config = config.domains

pub record PushConfig : Type 0 where
  pub webpush : Bool
  pub apns : Bool

unfoldable pub push_config : Config → PushConfig
unfolding apns_configured push_configured
push_config config = record { webpush = push_configured config; apns = apns_configured config }

unfoldable pub vapid_public_key : {Db : Type 0} → Config → Handler Db Str
vapid_public_key config = elim config.vapid_public_key [
  | some key ↦ return key
  | none ↦ throw (service_unavailable (text "push not configured"))
]

-- `Config::cors_allow_any` of src/config.rs
unfoldable pub cors_allow_any : Config → Bool
cors_allow_any config = contains config.cors_allowed_origins (text "*")

-- The origins that `build_cors` allows: any, or those of the settings that are values of a header.
pub data AllowOrigin : Type 0 where
  any_origin : AllowOrigin
  listed : List Str → AllowOrigin

unfoldable pub build_cors : Surroundings → AllowOrigin
unfolding cors_allow_any
build_cors sur =
    if cors_allow_any sur.config
    then any_origin
    else listed (retain sur.is_header_value sur.config.cors_allowed_origins)

module _ (store : Store) where
  abbrev pinged : Result (Unit {0}) StoreError → Handler store.State (Unit {0})
  pinged (ok u) = return tt
  pinged (err e) = throw (service_unavailable (text "store unavailable"))

  -- `GET /readyz`
  unfoldable pub ready : Handler store.State (Unit {0})
  ready s = pinged (store.ping s.db) s

  -- The state that a server starts with.
  unfoldable pub app_state : Config → store.State → AppState store.State
  app_state config db = record {
    db = db;
    limits = from_config config;
    challenges = Attest.default;
    ticks = 0;
    draws = 0;
  }
