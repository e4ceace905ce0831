-- ===== src/Api/Domains.antt =====
-- src/api/custom_domains.rs: the handlers of claims of custom domains, over any `Store`.
use anony_mail.Base.{
  Bool, true, false, not, Option, none, some, List, ◌++◌, if◌then◌else◌, ◌==◌, Result, ok, err,
  nat_eq, str_eq,
}
use anony_mail.Base.Text.{Str, text, to_ascii_lowercase, trim, trim_end_matches}
use anony_mail.Config.{Config, Tier, tier_policy}
use anony_mail.CustomDomains.{DnsCheck, txt_value, validate_claimable, check_and_record}
use anony_mail.Limits.{Host, note_domain_created, try_begin_domain_verify, client_ip}
use anony_mail.Model.{Time, Bytes, CustomDomain}
use anony_mail.Model.Kinds.{CustomDomainStatus, pending, verified, failed}
use anony_mail.Smtp.Recipient.{is_unique_violation}
use anony_mail.Store.{Store, StoreError}
use anony_mail.Api.{
  ApiError, not_found, conflict, bad_request, unauthorized, too_many_requests, internal,
  pro_required,
}
use anony_mail.Api.Auth.{generate_token, token_matches_hash, bearer_token, domain_token_prefix}
use anony_mail.Api.Gate.{attestation_gate, enforced_tier}
use anony_mail.Api.Handler.{
  Surroundings, Headers, Handler, ◌>>=◌, ◌>>◌, return, throw, require, from_result, asking, calling,
  writing, limiting, now, draw,
}

pub record CustomDomainResponse : Type 0 where
  pub domain : Str
  pub status : CustomDomainStatus
  pub txt_record : Str
  pub mx_target : Str
  pub claim_token : Option Str
  pub verified_at : Option Time
  pub checks : Option (List DnsCheck)

abbrev pub response : Config → CustomDomain → CustomDomainResponse
response config claim = record {
  domain = claim.domain;
  status = claim.status;
  txt_record = txt_value claim.txt_token;
  mx_target = to_ascii_lowercase config.smtp_hostname;
  claim_token = none;
  verified_at = claim.verified_at;
  checks = none;
}

unfoldable pub is_verified : CustomDomainStatus → Bool
is_verified pending = false
is_verified verified = true
is_verified failed = false

module _ (digest : Bytes → Bytes) where
  -- With the claim and the token presented at hand.
  unfoldable pub check_claim : CustomDomain → Option Str → Result CustomDomain ApiError
  check_claim claim none = err (unauthorized (text "missing bearer token"))
  check_claim claim (some presented) =
      if token_matches_hash digest presented claim.claim_token_hash
      then ok claim
      else err (unauthorized (text "invalid claim token"))

  unfoldable pub claimed_by :
      Option Str → Result (Option CustomDomain) StoreError → Result CustomDomain ApiError
  claimed_by authorization (err e) = err internal
  claimed_by authorization (ok none) = err (not_found (text "domain not found"))
  claimed_by authorization (ok (some claim)) = check_claim claim (bearer_token authorization)

  unfoldable pub authorize_domain :
      (store : Store) → store.State → Str → Option Str → Result CustomDomain ApiError
  authorize_domain store db domain authorization = claimed_by authorization (
      store.get_custom_domain db
        (to_ascii_lowercase (trim_end_matches (λ c. c == b'.') (trim domain))))

  unfoldable pub check_mailbox_claim : CustomDomain → Str → Option Str → Result (Unit {0}) ApiError
  check_mailbox_claim claim domain none =
      err (unauthorized (text "custom domains require their claim token"))
  check_mailbox_claim claim domain (some presented) =
      if not (token_matches_hash digest presented claim.claim_token_hash)
      then err (unauthorized (text "invalid claim token"))
      else if not (is_verified claim.status)
      then err (bad_request (text "domain not verified: " ++ domain))
      else ok tt

  unfoldable pub may_use :
      Str → Option Str → Result (Option CustomDomain) StoreError → Result (Unit {0}) ApiError
  may_use domain authorization (err e) = err internal
  may_use domain authorization (ok none) = err (bad_request (text "unknown domain: " ++ domain))
  may_use domain authorization (ok (some claim)) =
      check_mailbox_claim claim domain (bearer_token authorization)

  unfoldable pub authorize_mailbox_on_custom_domain :
      (store : Store) → store.State → Str → Option Str → Result (Unit {0}) ApiError
  authorize_mailbox_on_custom_domain store db domain authorization =
      may_use domain authorization (store.get_custom_domain db domain)

abbrev pub claimable : Result Str Str → Result Str ApiError
claimable (ok domain) = ok domain
claimable (err m) = err (bad_request m)

module _ (sur : Surroundings) (store : Store) where
  unfoldable pub check_tier : Option Tier → Handler store.State (Unit {0})
  check_tier none = return tt
  check_tier (some tier) =
      require (tier_policy sur.config tier).custom_domains
        (pro_required (text "custom domains require a higher tier"))

  unfoldable pub claimed :
      Str → Str → Result CustomDomain StoreError → Handler store.State CustomDomainResponse
  claimed domain claim_token (ok claim) =
      return (record (response sur.config claim) { claim_token = some claim_token })
  claimed domain claim_token (err e) = elim (is_unique_violation e) [
    | true ↦ throw (conflict (text "domain already claimed: " ++ domain))
    | false ↦ throw internal
  ]

  -- `POST /api/custom-domains`
  unfoldable pub create : Headers → Host → Str → Handler store.State CustomDomainResponse
  create headers peer raw = do
    attestation_gate sur headers
    tier ← enforced_tier sur headers
    check_tier tier
    domain ← from_result (claimable (validate_claimable sur.config raw))
    let ip =
        client_ip sur.parse_ip headers.forwarded_for headers.real_ip peer
          sur.config.api_trust_proxy_headers
    at_ ← now sur
    allowed ← limiting (λ l. note_domain_created l ip (sur.today at_))
    require allowed (too_many_requests (text "daily custom-domain limit reached"))
    n ← draw
    let (claim_token, claim_token_hash) =
        generate_token sur.digest domain_token_prefix (sur.random_token n)
    k ← draw
    made ←
        calling
          (λ db. store.create_custom_domain db domain claim_token_hash (sur.random_txt_token k))
    claimed domain claim_token made

  abbrev pub claimant : Headers → Str → Handler store.State CustomDomain
  claimant headers domain =
      asking (λ db. authorize_domain sur.digest store db domain headers.authorization)

  -- `GET /api/custom-domains/{domain}`
  unfoldable pub get : Headers → Str → Handler store.State CustomDomainResponse
  get headers domain = do claim ← claimant headers domain; return (response sur.config claim)

  -- `POST /api/custom-domains/{domain}/verify`
  unfoldable pub verify : Headers → Str → Handler store.State CustomDomainResponse
  verify headers domain = do
    attestation_gate sur headers
    claim ← claimant headers domain
    at_ ← now sur
    begun ← limiting (λ l. try_begin_domain_verify l claim.domain at_)
    require begun (too_many_requests (text "verification already ran moments ago, retry shortly"))
    checked_at ← now sur
    (checks, status, verified_at) ←
        writing (λ db. check_and_record store sur.dns sur.config checked_at db claim)
    return (record (response sur.config claim) {
      status = status;
      verified_at = verified_at;
      checks = some checks;
    })

  -- `DELETE /api/custom-domains/{domain}`
  unfoldable pub delete : Headers → Str → Handler store.State (Unit {0})
  delete headers domain = do
    attestation_gate sur headers
    claim ← claimant headers domain
    found ← writing (λ db. store.delete_custom_domain db claim.domain)
    require found (not_found (text "domain not found"))
