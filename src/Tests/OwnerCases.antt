-- ===== src/Tests/OwnerCases.antt =====
-- The theorems on the owner of a mailbox (src/api/addresses.rs, src/api/auth.rs) at concrete inputs.
use anony_mail.Base.{◌+◌, ◌≤◌, ◌≡◌, refl, true, some, arith, str_beq, ok, nat_eq, str_eq}
use anony_mail.Api.Addresses.Manage.{extend, owner_only, check_lifetime}
use anony_mail.Api.Auth.{
  hash_token, hex, hex_digit, as_bytes, char_bytes, bearer_token, token_behind, authorize_owner,
  check_owner, check_presented, check_hash, token_matches_hash, constant_time_eq, differences,
}
use anony_mail.Base.Text.{
  split_once, trim, trim_start, trim_start_matches, trim_end_matches, lowercase, is_ascii_uppercase,
  is_whitespace, trimmed, text, decimal,
}
use anony_mail.Base.Assoc.{get, insert}
use anony_mail.Config.{tier_policy}
use anony_mail.Api.Gate.{
  attestation_gate, attested_only, enforced_tier, tier_if, client_tier, client_claims, claims_of,
}
use anony_mail.Store.Memory.Mailboxes.{
  get_mailbox, extend_mailbox, update_mailbox, rotate_owner_token,
}
use anony_mail.Api.Handler.{◌>>=◌, AppState, Surroundings, Headers}
use anony_mail.Model.{seconds}
use anony_mail.Store.Memory.Backend.{MemoryStore, memory_store}
use anony_mail.Api.Handler.Ensures.{Ensures}
use anony_mail.Api.Handler.Stops.{is_err}
use anony_mail.Api.Routes.{owner, delete_address, respond}
use anony_mail.Api.Routes.Refusals.{respond-LacksToken}
use anony_mail.Api.Addresses.Lifetime.{extend_within_lifetime}
use anony_mail.Tests.ApiCases.{count_digest, served}
use anony_mail.Tests.Fixtures.{alice, config, mailbox_of}
use anony_mail.Tests.Surroundings.{surroundings_of, tiered, running, no_headers}

-- Alice's mailbox with the token `am_old`.
abbrev owned : MemoryStore
owned = (memory_store.rotate_owner_token served alice (hash_token count_digest (text "am_old"))).1

abbrev with_owner : AppState MemoryStore
with_owner = record running { db = owned }

abbrev as_owner : Headers
as_owner = record no_headers { authorization = some (text "Bearer am_old") }

-- Without the header, alice's mailbox is not deleted.
respond-LacksToken_example :
    (is_err
        (respond decimal tiered memory_store (owner delete_address no_headers alice) with_owner).0
      ≡ true)
    × ((respond decimal tiered memory_store (owner delete_address no_headers alice) with_owner).1.db
        ≡ owned)
respond-LacksToken_example =
    respond-LacksToken decimal tiered memory_store (owner delete_address no_headers alice)
      with_owner (λ (mb, hash, held, same, (token, presented, digests)). presented)

-- Half an hour more at a time, where an hour is the most.
abbrev half_hours : Surroundings
half_hours = surroundings_of (record config { entitlements_enforced = true; default_ttl = 1800 })

-- The extension is granted.
extended_owner :
    (extend half_hours memory_store as_owner alice with_owner).0
    ≡ ok (record (mailbox_of alice (40 + seconds 1800)) {
      owner_token_hash = some (hash_token count_digest (text "am_old"));
    })
unfolding extend hash_token hex hex_digit as_bytes char_bytes bearer_token token_behind split_once
    trim trim_start trim_start_matches trim_end_matches lowercase is_ascii_uppercase is_whitespace
    str_beq get authorize_owner check_owner check_presented check_hash token_matches_hash
    constant_time_eq differences owner_only attestation_gate attested_only check_lifetime
    enforced_tier tier_if client_tier client_claims claims_of trimmed get_mailbox extend_mailbox
    update_mailbox rotate_owner_token ◌>>=◌ insert tier_policy
extended_owner = refl

extend_within_lifetime_example :
    Ensures
      (extend half_hours memory_store as_owner alice)
      with_owner
      (λ mb s'. mb.expires_at ≤ mb.created_at + seconds 3600)
unfolding trimmed
extend_within_lifetime_example =
    extend_within_lifetime half_hours as_owner alice with_owner refl refl (omega arith)
