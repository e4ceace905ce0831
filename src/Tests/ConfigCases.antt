-- ===== src/Tests/ConfigCases.antt =====
-- The theorem on src/config.rs at a concrete environment.
use anony_mail.Base.{
  ℕ, zero, suc, refl, true, false, none, some, [], ◌∷◌, str_beq, retain, all, any, nat_eq, str_eq,
}
use anony_mail.Base.Text.{
  Str, text, split, trim, trimmed, is_ascii_digit, is_ascii_uppercase, is_whitespace, lowercase,
  trim_end_matches, trim_start, trim_start_matches,
}
use anony_mail.Base.Assoc.{Map, get}
use anony_mail.Model.{Bytes}
use anony_mail.Config.{Config}
use anony_mail.Config.Defaults.{default}
use anony_mail.Config.Env.{
  Environment, ◌>>=◌, with_domains, parse_list, with_listeners, parse_unsigned, with_tls, tls_pair,
  with_http, with_caps, bool, digits,
}
use anony_mail.Config.Env.Load.{
  from_env, with_features, apns_key, root_pem, signing_key, with_apns, with_attestation,
  with_entitlements, with_mail, with_tiers, with_web_push,
}
use anony_mail.Config.Env.Consistency.{IsConsistent, from_env-IsConsistent}

abbrev zeros : ℕ → Bytes
zeros zero = []
zeros (suc n) = 0 ∷ zeros n

abbrev variables : Map Str Str
variables =
    (text "DOMAINS", text " A.io ,b.io")
    ∷ (text "TOKEN_SIGNING_KEY", text "AAAA")
    ∷ (text "CLIENT_ATTESTATION_REQUIRED", text "true ")
    ∷ (text "APP_ATTEST_TEAM_ID", text "TEAM")
    ∷ (text "APP_ATTEST_BUNDLE_ID", text "app")
    ∷ (text "MAX_RECIPIENTS", text "+7")
    ∷ []

-- A base64 decoder that yields 32 bytes.
abbrev environment : Environment
environment = record {
  var = get variables;
  read = λ path. none;
  decode = λ s. some (zeros 32);
  is_socket_addr = λ s. false;
}

abbrev read_config : Config
read_config = record default {
  domains = text "a.io" ∷ text "b.io" ∷ [];
  smtp_hostname = text "a.io";
  vapid_subject = text "mailto:postmaster@a.io";
  max_recipients = 7;
  token_signing_key = some (zeros 32);
  client_attestation_required = true;
  app_attest_team_id = some (text "TEAM");
  app_attest_bundle_id = some (text "app");
}

from_env-IsConsistent_example : IsConsistent read_config
unfolding from_env ◌>>=◌ with_domains parse_list retain split get str_beq trim with_listeners
    trimmed parse_unsigned is_ascii_digit with_tls tls_pair with_http with_caps with_features all
    any is_ascii_uppercase is_whitespace lowercase trim_end_matches trim_start trim_start_matches
    apns_key root_pem signing_key with_apns with_attestation with_entitlements with_mail with_tiers
    with_web_push bool digits
from_env-IsConsistent_example = from_env-IsConsistent environment read_config refl
