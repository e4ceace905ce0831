-- ===== src/Config/Defaults.antt =====
-- `Config::default` of src/config.rs.
use anony_mail.Base.{true, false, none, [], ◌∷◌}
use anony_mail.Base.Text.{text}
use anony_mail.Config.{Config, builtin_reserved_local_parts}

abbrev pub default : Config
default = record {
  smtp_bind_addr = text "0.0.0.0:25";
  api_bind_addr = text "0.0.0.0:8080";
  domains = text "example.com" ∷ [];
  database_url = text "sqlite://data/anony-mail.db";
  db_max_connections = 0;
  default_ttl = 3600;
  max_message_size = 26214400;
  max_recipients = 10;
  max_connections = 1024;
  smtp_session_timeout = 60;
  per_ip_connections_per_min = 60;
  cleanup_interval = 300;
  cors_allowed_origins = text "*" ∷ [];
  smtp_hostname = text "example.com";
  tls = none;
  reserved_local_parts = builtin_reserved_local_parts;
  api_rate_limit_per_second = 20;
  api_rate_limit_burst = 50;
  create_rate_limit_per_minute = 30;
  create_rate_limit_burst = 10;
  api_request_timeout = 30;
  api_trust_proxy_headers = false;
  api_docs_enabled = true;
  legal_pages_enabled = false;
  sse_max_concurrent = 512;
  sse_max_per_ip = 8;
  max_addresses_per_ip_per_day = 200;
  max_messages_per_mailbox = 50;
  max_mailbox_bytes = 41943040;
  min_free_disk_bytes = 268435456;
  vapid_public_key = none;
  vapid_private_key = none;
  vapid_subject = text "mailto:postmaster@example.com";
  max_subscriptions_per_mailbox = 5;
  apns_team_id = none;
  apns_key_id = none;
  apns_private_key = none;
  apns_topic = none;
  apns_sandbox = false;
  catch_all_enabled = false;
  custom_domains_enabled = true;
  max_custom_domains_per_ip_per_day = 5;
  custom_domain_verify_throttle = 10;
  store_raw_message = false;
  entitlements_enforced = false;
  token_signing_key = none;
  revenuecat_secret_key = none;
  revenuecat_entitlement_id = text "Anony Mail Pro";
  client_attestation_required = false;
  app_attest_team_id = none;
  app_attest_bundle_id = none;
  app_attest_root_pem = none;
  free_tier = record {
    active_mailboxes = 5;
    max_lifetime_seconds = 86400;
    custom_local_parts = false;
    domain_count = 1;
    custom_domains = false;
  };
  pro_tier = record {
    active_mailboxes = 50;
    max_lifetime_seconds = 0;
    custom_local_parts = true;
    domain_count = 0;
    custom_domains = true;
  };
}
