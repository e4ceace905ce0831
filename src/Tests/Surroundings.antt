-- ===== src/Tests/Surroundings.antt =====
-- The servers and requests of the test cases of the handlers.
use anony_mail.Base.{
  ◌+◌, ◌≡◌, refl, Bool, true, ◌&&◌, none, some, [], ◌∷◌, arith, ltb, leb, all, All, ok, err,
}
use anony_mail.Base.Text.{Str, text, decimal}
use anony_mail.Attest
use anony_mail.Attest.Verify.{AppAttest}
use anony_mail.Config.{Config, free}
use anony_mail.Entitlements.{Jwt}
use anony_mail.Limits.{from_config}
use anony_mail.Store.Memory.Backend.{MemoryStore}
use anony_mail.Api.Handler.{AppState, Surroundings, Headers}
use anony_mail.Api.Messages.Printable.{IsPrintable}
use anony_mail.Tests.ApiCases.{count_digest, served}
use anony_mail.Tests.Fixtures.{config}

-- Claims of an unattested device, whatever the token.
abbrev pub opaque_tokens : Jwt
opaque_tokens = record {
  encode = λ key claims. some (text "jwt");
  decode = λ leeway t key raw.
      ok (record { kind = text "unattested"; kid = none; tier = free; iat = 0; exp = 10 });
}

abbrev pub no_crates : AppAttest
no_crates = record {
  decode_base64 = λ s. err (text "base64");
  attestation_from_cbor = λ b. err (text "cbor");
  verify = λ a b c d e. err (text "chain");
  standard_base64 = λ s. err (text "base64");
  assertion_from_cbor = λ b. err (text "cbor");
  verify_signed = λ a b c d e n. err (text "signature");
  cbor = record { map_header = λ b. none; str = λ b. none; bytes = λ b. none; skip = λ b. none };
  apple_root_ca_pem = [];
}

abbrev pub is_visible : Str → Bool
is_visible v = all (λ c. leb 32 c && ltb c 127) v

pub visible : (v : Str) → All IsPrintable v → is_visible v ≡ true
unfolding all
visible [] h = refl
visible (c ∷ v) h = ground (arith, visible v h.1)

-- A server with a key for client tokens.
abbrev pub surroundings_of : Config → Surroundings
surroundings_of c = record {
  config = c;
  digest = count_digest;
  random_token = λ n. decimal n;
  random_indices = λ n. n ∷ 35 ∷ [];
  random_txt_token = λ n. decimal n;
  jwt = opaque_tokens;
  crates = no_crates;
  dns = record { txt_records = λ h. none; mx_hosts = λ h. none };
  pro = none;
  random_challenge = λ n. decimal n;
  is_header_value = is_visible;
  parse_ip = λ s. none;
  clock = λ n. n + 40;
  today = λ t. 0;
}

abbrev pub strict : Surroundings
strict =
    surroundings_of
      (record config { client_attestation_required = true; token_signing_key = some (1 ∷ []) })

abbrev pub tiered : Surroundings
tiered = surroundings_of (record config { entitlements_enforced = true })

abbrev pub running : AppState MemoryStore
running = record {
  db = served;
  limits = from_config config;
  challenges = Attest.default;
  ticks = 0;
  draws = 7;
}

abbrev pub as_am_old : Headers
as_am_old = record {
  authorization = some (text "Bearer am_old");
  client_token = some (text "t");
  forwarded_for = none;
  real_ip = none;
}

abbrev pub no_headers : Headers
no_headers = record {
  authorization = none;
  client_token = none;
  forwarded_for = none;
  real_ip = none;
}

-- A server that requires attestation and takes every attestation.
abbrev pub attesting : Surroundings
attesting = record strict {
  config = record strict.config {
    app_attest_team_id = some (text "T");
    app_attest_bundle_id = some (text "b");
  };
  crates = record no_crates {
    decode_base64 = λ s. ok [];
    attestation_from_cbor = λ b. ok b;
    verify = λ attestation challenge app_id key_id root. ok [];
  };
}

abbrev pub challenged : AppState MemoryStore
challenged = record running { challenges = record Attest.default { issued = (text "c", 38) ∷ [] } }
