-- ===== src/Config/Env.antt =====
-- `Config::from_env` of src/config.rs. The steps of the code stand in its order, each a change of the
-- defaults; a failure is the first one that the code comes to.
pub mod Load
pub mod Read
pub mod Consistency
use anony_mail.Base.{
  ℕ, ◌+◌, ◌-◌, ◌*◌, ◌^◌, Bool, true, false, not, ◌||◌, Option, none, some, List, [], ◌∷◌, ◌++◌, map,
  ltb, if◌then◌else◌, ◌==◌, Result, unwrap_or, retain, ok, err, nat_eq, str_eq,
}
use mathlib.Core.Option
use anony_mail.Base.Text.{
  Str, text, is_empty, is_whitespace, is_ascii_digit, trim, trimmed, split, to_ascii_lowercase,
  decimal,
}
use anony_mail.Model.{Bytes}
use anony_mail.Config.{Config, TierPolicy, TlsConfig, builtin_reserved_local_parts}
use anony_mail.Config.Defaults.{default}
use anony_mail.Api.Auth.{as_bytes}
use anony_mail.Smtp.Utf8.{from_utf8_lossy}

-- What the process is started in: the variables that are set and are text, the files that can be
-- read, the base64 crate, and the texts that name a socket address.
pub record Environment : Type 0 where
  pub var : Str → Option Str
  pub read : Str → Option Bytes
  pub decode : Str → Option Bytes
  pub is_socket_addr : Str → Bool

-- A message, a variable with its value, or what was being done.
pub data EnvError : Type 0 where
  bail : Str → EnvError
  invalid_value : Str → Str → EnvError
  with_context : Str → EnvError

abbrev pub Checked : Type 0 → Type 0
Checked A = Result A EnvError

infixl 5 ◌>>=◌ ◌>>◌
unfoldable pub ◌>>=◌ : {A B : Type 0} → Checked A → (A → Checked B) → Checked B
ok a >>= f = f a
err e >>= f = err e

abbrev pub ◌>>◌ : {A B : Type 0} → Checked A → Checked B → Checked B
m >> k = m >>= λ _. k

-- `bail!` where the test holds.
abbrev pub ensure : Bool → Str → Checked (Unit {0})
ensure true message = err (bail message)
ensure false message = ok tt

-- `from_str` of the unsigned integers up to `max`.
unfoldable pub digits : ℕ → ℕ → Str → Option ℕ
digits max n [] = some n
digits max n (c ∷ s) =
    let n' = n * 10 + (c - b'0') in
    let rest = digits max n' s in if not (is_ascii_digit c) || ltb max n' then none else rest

unfoldable pub parse_unsigned : ℕ → Str → Option ℕ
unfolding digits
parse_unsigned max [] = none
parse_unsigned max (c ∷ []) = digits max 0 (c ∷ [])
parse_unsigned max (c ∷ d ∷ s) =
    if c == b'+' then digits max 0 (d ∷ s) else digits max 0 (c ∷ d ∷ s)

abbrev pub u32 : Str → Option ℕ
u32 = parse_unsigned (2 ^ 32 - 1)

-- Also `usize`.
abbrev pub u64 : Str → Option ℕ
u64 = parse_unsigned (2 ^ 64 - 1)

unfoldable pub bool : Str → Option Bool
bool s = if s == text "true" then some true else if s == text "false" then some false else none

-- `String::from_utf8`: the bytes are those of the text that they are read as.
unfoldable pub from_utf8 : Bytes → Option Str
from_utf8 bytes = let s = from_utf8_lossy bytes in if as_bytes s == bytes then some s else none

unfoldable pub parse_list : Str → List Str
parse_list raw = retain (λ s. not (is_empty s)) (map trim (split b',' raw))

abbrev pub not_empty : Option Str → Option Str
not_empty none = none
not_empty (some s) = if is_empty s then none else some s

abbrev pub not_blank : Option Str → Option Str
not_blank none = none
not_blank (some s) = if is_empty (trim s) then none else some s

-- `domains[0]`, of a list that has been found not empty.
abbrev pub first : List Str → Str
first [] = []
first (d ∷ ds) = d

-- With the trimmed value, where there is one.
abbrev pub parsed : {A : Type 0} → Str → Str → Option A → Checked A
parsed key raw (some a) = ok a
parsed key raw none = err (invalid_value key raw)

abbrev pub parse_or : {A : Type 0} → (Str → Option A) → Str → A → Option Str → Checked A
parse_or parse key fallback none = ok fallback
parse_or parse key fallback (some raw) = parsed key raw (parse raw)

unfoldable pub tls_pair : Option Str → Option Str → Checked (Option TlsConfig)
tls_pair (some cert_path) (some key_path) =
    ok (some (record { cert_path = cert_path; key_path = key_path }))
tls_pair none none = ok none
tls_pair (some cert_path) none =
    err (bail (text "TLS_CERT_PATH and TLS_KEY_PATH must both be set, or both be unset"))
tls_pair none (some key_path) =
    err (bail (text "TLS_CERT_PATH and TLS_KEY_PATH must both be set, or both be unset"))

-- `with_context` on what may fail.
abbrev pub context : {A : Type 0} → Option A → Str → Checked A
context (some a) what = ok a
context none what = err (with_context what)

module _ (env : Environment) where
  abbrev pub env_or : Str → Str → Str
  env_or key fallback = unwrap_or (env.var key) fallback

  abbrev pub non_empty_env : Str → Option Str
  non_empty_env key = trimmed (env.var key)

  abbrev pub parse_env : {A : Type 0} → (Str → Option A) → Str → A → Checked A
  parse_env parse key fallback = parse_or parse key fallback (trimmed (env.var key))

  abbrev pub socket_addr : Str → Option Str
  socket_addr s = if env.is_socket_addr s then some s else none

  unfoldable pub with_domains : Config → Checked Config
  with_domains c = do
    let domains = map to_ascii_lowercase (parse_list (env_or (text "DOMAINS") []))
    ensure (is_empty domains)
        (text "DOMAINS must be set to a comma-separated list of accepted domains")
    ok (record c {
      domains = domains;
      database_url = unwrap_or (not_blank (env.var (text "DATABASE_URL"))) c.database_url;
    })

  unfoldable pub with_listeners : Config → Checked Config
  with_listeners c = do
    db_max_connections ← parse_env u32 (text "DB_MAX_CONNECTIONS") c.db_max_connections
    smtp_bind_addr ← parse_env socket_addr (text "SMTP_BIND_ADDR") c.smtp_bind_addr
    api_bind_addr ← parse_env socket_addr (text "API_BIND_ADDR") c.api_bind_addr
    default_ttl ← parse_env u64 (text "DEFAULT_TTL_SECONDS") c.default_ttl
    max_message_size ← parse_env u64 (text "MAX_MESSAGE_SIZE_BYTES") c.max_message_size
    max_recipients ← parse_env u64 (text "MAX_RECIPIENTS") c.max_recipients
    max_connections ← parse_env u64 (text "MAX_CONNECTIONS") c.max_connections
    smtp_session_timeout ←
        parse_env u64 (text "SMTP_SESSION_TIMEOUT_SECONDS") c.smtp_session_timeout
    per_ip ← parse_env u64 (text "SMTP_PER_IP_CONNECTIONS_PER_MIN") c.per_ip_connections_per_min
    cleanup_interval ← parse_env u64 (text "CLEANUP_INTERVAL_SECONDS") c.cleanup_interval
    ok (record c {
      db_max_connections = db_max_connections;
      smtp_bind_addr = smtp_bind_addr;
      api_bind_addr = api_bind_addr;
      default_ttl = default_ttl;
      max_message_size = max_message_size;
      max_recipients = max_recipients;
      max_connections = max_connections;
      smtp_session_timeout = smtp_session_timeout;
      per_ip_connections_per_min = per_ip;
      cleanup_interval = cleanup_interval;
      cors_allowed_origins = parse_list (env_or (text "CORS_ALLOWED_ORIGINS") (text "*"));
      smtp_hostname = unwrap_or (not_blank (env.var (text "SMTP_HOSTNAME"))) (first c.domains);
    })

  unfoldable pub with_tls : Config → Checked Config
  with_tls c = do
    tls ←
        tls_pair (not_empty (env.var (text "TLS_CERT_PATH")))
          (not_empty (env.var (text "TLS_KEY_PATH")))
    ok (record c {
      tls = tls;
      reserved_local_parts =
          builtin_reserved_local_parts
          ++ map to_ascii_lowercase (parse_list (env_or (text "RESERVED_LOCAL_PARTS") []));
    })

  unfoldable pub with_http : Config → Checked Config
  with_http c = do
    per_second ← parse_env u64 (text "API_RATE_LIMIT_PER_SECOND") c.api_rate_limit_per_second
    burst ← parse_env u32 (text "API_RATE_LIMIT_BURST") c.api_rate_limit_burst
    per_minute ←
        parse_env u64 (text "API_CREATE_RATE_LIMIT_PER_MINUTE") c.create_rate_limit_per_minute
    create_burst ← parse_env u32 (text "API_CREATE_RATE_LIMIT_BURST") c.create_rate_limit_burst
    timeout ← parse_env u64 (text "API_REQUEST_TIMEOUT_SECONDS") c.api_request_timeout
    trust ← parse_env bool (text "API_TRUST_PROXY_HEADERS") c.api_trust_proxy_headers
    docs ← parse_env bool (text "API_DOCS_ENABLED") c.api_docs_enabled
    legal ← parse_env bool (text "LEGAL_PAGES_ENABLED") c.legal_pages_enabled
    ok (record c {
      api_rate_limit_per_second = per_second;
      api_rate_limit_burst = burst;
      create_rate_limit_per_minute = per_minute;
      create_rate_limit_burst = create_burst;
      api_request_timeout = timeout;
      api_trust_proxy_headers = trust;
      api_docs_enabled = docs;
      legal_pages_enabled = legal;
    })

  unfoldable pub with_caps : Config → Checked Config
  with_caps c = do
    concurrent ← parse_env u64 (text "SSE_MAX_CONCURRENT") c.sse_max_concurrent
    per_ip ← parse_env u64 (text "SSE_MAX_PER_IP") c.sse_max_per_ip
    addresses ← parse_env u32 (text "MAX_ADDRESSES_PER_IP_PER_DAY") c.max_addresses_per_ip_per_day
    messages ← parse_env u32 (text "MAX_MESSAGES_PER_MAILBOX") c.max_messages_per_mailbox
    mailbox_bytes ← parse_env u64 (text "MAX_MAILBOX_BYTES") c.max_mailbox_bytes
    free ← parse_env u64 (text "MIN_FREE_DISK_BYTES") c.min_free_disk_bytes
    ok (record c {
      sse_max_concurrent = concurrent;
      sse_max_per_ip = per_ip;
      max_addresses_per_ip_per_day = addresses;
      max_messages_per_mailbox = messages;
      max_mailbox_bytes = mailbox_bytes;
      min_free_disk_bytes = free;
    })
