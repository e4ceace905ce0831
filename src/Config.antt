-- ===== src/Config.antt =====
-- src/config.rs: the settings, and the questions that `Config` answers.
-- Durations are in seconds, as the environment gives them.
pub mod Defaults
pub mod Env
use anony_mail.Base.{
  ℕ, Bool, ◌&&◌, ◌||◌, Option, none, some, List, [], ◌∷◌, ◌++◌, if◌then◌else◌, is_some, length,
  drop, contains, nat_eq, str_eq,
}
use anony_mail.Base.Text.{Str, text, trim, to_ascii_lowercase, starts_with, split}
use anony_mail.Model.{Bytes}
use anony_mail.Store.{MailboxQuotas}

pub data DbBackend : Type 0 where
  sqlite postgres : DbBackend

-- src/entitlements.rs
pub data Tier : Type 0 where
  free pro : Tier

pub record TierPolicy : Type 0 where
  pub active_mailboxes : ℕ
  pub max_lifetime_seconds : ℕ
  pub custom_local_parts : Bool
  pub domain_count : ℕ
  pub custom_domains : Bool

pub record TlsConfig : Type 0 where
  pub cert_path : Str
  pub key_path : Str

-- An address to bind is kept as the text that names it.
pub record Config : Type 0 where
  pub smtp_bind_addr : Str
  pub api_bind_addr : Str
  pub domains : List Str
  pub database_url : Str
  pub db_max_connections : ℕ
  pub default_ttl : ℕ
  pub max_message_size : ℕ
  pub max_recipients : ℕ
  pub max_connections : ℕ
  pub smtp_session_timeout : ℕ
  pub per_ip_connections_per_min : ℕ
  pub cleanup_interval : ℕ
  pub cors_allowed_origins : List Str
  pub smtp_hostname : Str
  pub tls : Option TlsConfig
  pub reserved_local_parts : List Str
  pub api_rate_limit_per_second : ℕ
  pub api_rate_limit_burst : ℕ
  pub create_rate_limit_per_minute : ℕ
  pub create_rate_limit_burst : ℕ
  pub api_request_timeout : ℕ
  pub api_trust_proxy_headers : Bool
  pub api_docs_enabled : Bool
  pub legal_pages_enabled : Bool
  pub sse_max_concurrent : ℕ
  pub sse_max_per_ip : ℕ
  pub max_addresses_per_ip_per_day : ℕ
  pub max_messages_per_mailbox : ℕ
  pub max_mailbox_bytes : ℕ
  pub min_free_disk_bytes : ℕ
  pub vapid_public_key : Option Str
  pub vapid_private_key : Option Str
  pub vapid_subject : Str
  pub max_subscriptions_per_mailbox : ℕ
  pub apns_team_id : Option Str
  pub apns_key_id : Option Str
  pub apns_private_key : Option Str
  pub apns_topic : Option Str
  pub apns_sandbox : Bool
  pub catch_all_enabled : Bool
  pub custom_domains_enabled : Bool
  pub max_custom_domains_per_ip_per_day : ℕ
  pub custom_domain_verify_throttle : ℕ
  pub store_raw_message : Bool
  pub entitlements_enforced : Bool
  pub token_signing_key : Option Bytes
  pub revenuecat_secret_key : Option Str
  pub revenuecat_entitlement_id : Str
  pub client_attestation_required : Bool
  pub app_attest_team_id : Option Str
  pub app_attest_bundle_id : Option Str
  pub app_attest_root_pem : Option Bytes
  pub free_tier : TierPolicy
  pub pro_tier : TierPolicy

abbrev pub builtin_reserved_local_parts : List Str
builtin_reserved_local_parts =
    text "postmaster"
    ∷ text "abuse"
    ∷ text "hostmaster"
    ∷ text "webmaster"
    ∷ text "noc"
    ∷ text "security"
    ∷ text "info"
    ∷ text "marketing"
    ∷ text "sales"
    ∷ text "support"
    ∷ text "admin"
    ∷ text "administrator"
    ∷ text "ssladmin"
    ∷ text "ssladministrator"
    ∷ text "sysadmin"
    ∷ text "root"
    ∷ text "mailer-daemon"
    ∷ text "noreply"
    ∷ text "no-reply"
    ∷ text "daemon"
    ∷ []

unfoldable pub tier_policy : Config → Tier → TierPolicy
tier_policy config free = config.free_tier
tier_policy config pro = config.pro_tier

unfoldable pub push_configured : Config → Bool
push_configured config = is_some config.vapid_public_key && is_some config.vapid_private_key

unfoldable pub apns_configured : Config → Bool
apns_configured config =
    is_some config.apns_team_id
    && is_some config.apns_key_id
    && is_some config.apns_private_key
    && is_some config.apns_topic

unfoldable pub any_push_configured : Config → Bool
unfolding push_configured apns_configured
any_push_configured config = push_configured config || apns_configured config

unfoldable pub entitlements_supported : Config → Bool
entitlements_supported config = is_some config.token_signing_key

unfoldable pub app_attest_configured : Config → Bool
app_attest_configured config =
    is_some config.app_attest_team_id && is_some config.app_attest_bundle_id

unfoldable pub app_attest_app_id : Config → Option Str
app_attest_app_id config = elim config.app_attest_team_id [
  | none ↦ none
  | some team ↦ elim config.app_attest_bundle_id [
    | none ↦ none
    | some bundle ↦ some (team ++ (b'.' ∷ bundle))
  ]
]

unfoldable pub db_backend : Config → DbBackend
db_backend config =
    let url = trim config.database_url in
    if starts_with url (text "postgres://") || starts_with url (text "postgresql://")
    then postgres
    else sqlite

unfoldable pub accepts_domain : Config → Str → Bool
accepts_domain config domain = contains config.domains (to_ascii_lowercase domain)

unfoldable pub is_reserved_local_part : Config → Str → Bool
is_reserved_local_part config local = contains config.reserved_local_parts local

unfoldable pub mailbox_quotas : Config → MailboxQuotas
mailbox_quotas config = record {
  max_messages = config.max_messages_per_mailbox;
  max_bytes = config.max_mailbox_bytes;
}

-- `s.strip_prefix(p)` with a fallback.
strip_prefix_or : Str → Str → Str → Str
strip_prefix_or p s fallback = if starts_with s p then drop (length p) s else fallback

first_piece : List Str → Str → Str
first_piece [] d = d
first_piece (p ∷ ps) d = p

unfoldable pub sqlite_path : Config → Option Str
unfolding db_backend strip_prefix_or first_piece
sqlite_path config =
    let raw = trim config.database_url in
    let without_scheme =
      strip_prefix_or (text "sqlite://") raw (strip_prefix_or (text "sqlite:") raw raw) in
    elim (db_backend config) [
      | postgres ↦ none
      | sqlite ↦ some (first_piece (split b'?' without_scheme) without_scheme)
    ]
