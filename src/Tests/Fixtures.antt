-- ===== src/Tests/Fixtures.antt =====
-- The inputs of the test cases.
use anony_mail.Base.{ℕ, ◌+◌, true, false, none, some, [], ◌∷◌}
use anony_mail.Base.Text.{Str, text}
use anony_mail.Base.Int.{pos}
use anony_mail.Model.{Time, Uuid, NewMessage, Mailbox}
use anony_mail.Config.{Config, TierPolicy}
use anony_mail.Config.Defaults.{default}
use anony_mail.Otp.{Patterns}
use anony_mail.Smtp.Session.{Context}
use anony_mail.Smtp.Wire.{chunk, Reader}
use anony_mail.Store.{MailboxQuotas}
use anony_mail.Store.Memory.{Inner, Entry, empty_inner}
use anony_mail.Store.Memory.Backend.{MemoryStore, with_quotas}

abbrev pub alice : Str
alice = text "alice@a.io"

abbrev pub bob : Str
bob = text "bob@a.io"

abbrev pub device : Str
device = text "key-1"

abbrev pub mail_at : Str → Uuid → Time → Entry
mail_at address id received_at = record {
  message = record {
    id = id;
    mailbox_address = address;
    mail_from = text "x@y";
    subject = none;
    message_date = none;
    text_body = none;
    html_body = none;
    raw_size = pos 10;
    received_at = received_at;
    seen = false;
    attachments = [];
  };
  contents = [];
  raw = none;
}

abbrev pub letter : NewMessage
letter = record {
  mail_from = text "x@y";
  subject = none;
  message_date = none;
  text_body = none;
  html_body = none;
  raw_size = pos 10;
  raw_content = none;
  attachments = [];
}

abbrev pub mailbox_of : Str → Time → Mailbox
mailbox_of address expires_at = record {
  address = address;
  domain = text "a.io";
  created_at = 1;
  expires_at = expires_at;
  owner_token_hash = none;
  creator_device_hash = none;
}

-- A mailbox with two messages.
abbrev pub two_mails : Inner
two_mails = record empty_inner {
  mailboxes = (alice, mailbox_of alice 50) ∷ (bob, mailbox_of bob 90) ∷ [];
  messages = mail_at alice 1 10 ∷ mail_at bob 2 11 ∷ mail_at alice 3 12 ∷ [];
}

abbrev pub one_message : MailboxQuotas
one_message = record { max_messages = 1; max_bytes = 15 }

abbrev pub counting : ℕ → Uuid
counting n = n + 100

abbrev pub tier : TierPolicy
tier = record {
  active_mailboxes = 3;
  max_lifetime_seconds = 3600;
  custom_local_parts = false;
  domain_count = 1;
  custom_domains = false;
}

abbrev pub config : Config
config = record default {
  domains = text "a.io" ∷ [];
  database_url = text "sqlite://data/mail.db";
  default_ttl = 3600;
  max_message_size = 100;
  max_recipients = 2;
  per_ip_connections_per_min = 30;
  smtp_hostname = text "mx.a.io";
  reserved_local_parts = text "admin" ∷ [];
  api_trust_proxy_headers = false;
  sse_max_concurrent = 10;
  sse_max_per_ip = 2;
  max_addresses_per_ip_per_day = 5;
  max_messages_per_mailbox = 1;
  max_mailbox_bytes = 15;
  min_free_disk_bytes = 0;
  max_subscriptions_per_mailbox = 2;
  catch_all_enabled = true;
  custom_domains_enabled = false;
  max_custom_domains_per_ip_per_day = 1;
  custom_domain_verify_throttle = 60;
  store_raw_message = false;
  entitlements_enforced = false;
  token_signing_key = none;
  client_attestation_required = false;
  app_attest_team_id = none;
  app_attest_bundle_id = none;
  free_tier = tier;
  pro_tier = tier;
}

abbrev pub no_patterns : Patterns
no_patterns = record {
  g_code = λ s. none;
  keyword_then_digits = λ s. [];
  digits_then_keyword = λ s. [];
  keyword_then_alnum = λ s. none;
}

abbrev pub context : Context
context = record {
  config = config;
  tls_acceptor = true;
  patterns = no_patterns;
  parser = λ raw. none;
  clock = λ c i. 20;
  free_space = λ c path. none;
  handshake = some (chunk (text "QUIT") ∷ []);
}

abbrev pub server : MemoryStore
server = record (with_quotas one_message (λ n. 20 + n) counting (λ i cs. cs)) { inner = two_mails }

abbrev pub reader_of : Str → Reader
reader_of s = record { buffered = s; incoming = [] }
