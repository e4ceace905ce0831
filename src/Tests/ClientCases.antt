-- ===== src/Tests/ClientCases.antt =====
-- The theorem on the two requests of the App Attest flow at concrete requests.
use anony_mail.Base.{◌≡◌, refl, true, none, str_beq, nat_eq, str_eq}
use anony_mail.Base.Text.{len}
use anony_mail.Base.Text.{text, trimmed, decimal}
use anony_mail.Base.Assoc.{get}
use anony_mail.Store.Memory.Backend.{MemoryStore, memory_store}
use anony_mail.Api.Handler.{◌>>=◌, AppState}
use anony_mail.Api.Handler.Stops.{is_err}
use anony_mail.Api.Routes.{respond}
use anony_mail.Api.Client.{AttestRequest}
use anony_mail.Api.Routes.{attest, assert}
use anony_mail.Api.Routes.Once.{respond_once}
use anony_mail.Tests.Surroundings.{attesting, challenged}
use anony_mail.Api.Client
use anony_mail.Api.Client.{require_configured, validate_key_id, consume_challenge, mint}
use anony_mail.Api.Gate.{resolve_tier, tier_for, minted}
use anony_mail.Attest.{consume}
use anony_mail.Attest.Verify.{verify_attestation}
use anony_mail.Config.{app_attest_app_id}
use anony_mail.Entitlements.{mint_client_token}

abbrev contact : AttestRequest
contact = record {
  key_id = text "key";
  proof = text "proof";
  challenge = text "c";
  rc_app_user_id = none;
}

abbrev after_contact : AppState MemoryStore
after_contact = (respond decimal attesting memory_store (attest contact) challenged).1

respond_once_example :
    (is_err (respond decimal attesting memory_store (assert contact) after_contact).0 ≡ true)
    × ((respond decimal attesting memory_store (assert contact) after_contact).1.db
        ≡ after_contact.db)
unfolding respond ◌>>=◌ Client.attest require_configured app_attest_app_id validate_key_id len
    consume_challenge consume get str_beq verify_attestation mint resolve_tier tier_for trimmed
    minted mint_client_token
respond_once_example =
    respond_once decimal attesting memory_store (text "c") (attest contact) (assert contact)
      challenged after_contact refl refl refl refl
