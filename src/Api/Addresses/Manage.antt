-- ===== src/Api/Addresses/Manage.antt =====
-- src/api/addresses.rs: the handlers of a mailbox that there is, over any `Store`.
use anony_mail.Base.{◌+◌, ◌-◌, Bool, not, ◌&&◌, Option, none, some, ◌++◌, ltb, nat_eq, str_eq}
use anony_mail.Base.Text.{Str, text, to_ascii_lowercase, decimal}
use anony_mail.Config.{Tier, TierPolicy, tier_policy}
use anony_mail.Model.{Time, Mailbox, seconds}
use anony_mail.Store.{Store}
use anony_mail.Api.{not_found, lifetime_cap}
use anony_mail.Api.Auth.{authorize_owner, generate_token, token_prefix}
use anony_mail.Api.Gate.{attestation_gate, enforced_tier}
use anony_mail.Api.Handler.{
  Surroundings, Headers, Handler, ◌>>=◌, ◌>>◌, return, require, some_or, asking, reading, writing,
  now, draw,
}

abbrev pub within_lifetime : TierPolicy → Mailbox → Time → Bool
within_lifetime policy mailbox new_expiry = not (
    ltb 0 policy.max_lifetime_seconds
    && ltb (seconds policy.max_lifetime_seconds) (new_expiry - mailbox.created_at))

module _ (sur : Surroundings) (store : Store) where
  -- `GET /api/addresses/{address}`
  unfoldable pub get : Str → Handler store.State Mailbox
  get address = do
    found ← reading (λ db. store.get_mailbox db (to_ascii_lowercase address))
    some_or found (not_found (text "mailbox not found"))

  unfoldable pub check_lifetime : Mailbox → Time → Option Tier → Handler store.State (Unit {0})
  check_lifetime mailbox new_expiry none = return tt
  check_lifetime mailbox new_expiry (some tier) =
      let policy = tier_policy sur.config tier in
      require (within_lifetime policy mailbox new_expiry) (
        lifetime_cap (
          text "extending would exceed this tier's max mailbox lifetime of "
          ++ decimal policy.max_lifetime_seconds
          ++ text "s"))

  -- The gates that stand before what only the owner of a mailbox may do.
  unfoldable pub owner_only : Headers → Str → Handler store.State Mailbox
  owner_only headers address = do
    attestation_gate sur headers
    asking (λ db. authorize_owner sur.digest store db address headers.authorization)

  -- `POST /api/addresses/{address}/extend`
  unfoldable pub extend : Headers → Str → Handler store.State Mailbox
  extend headers raw = do
    let address = to_ascii_lowercase raw
    mailbox ← owner_only headers address
    from ← now sur
    let new_expiry = from + seconds sur.config.default_ttl
    tier ← enforced_tier sur headers
    check_lifetime mailbox new_expiry tier
    extended ← writing (λ db. store.extend_mailbox db address new_expiry)
    some_or extended (not_found (text "mailbox not found"))

  -- `DELETE /api/addresses/{address}`
  unfoldable pub delete : Headers → Str → Handler store.State (Unit {0})
  delete headers raw = do
    let address = to_ascii_lowercase raw
    owner_only headers address
    found ← writing (λ db. store.delete_mailbox db address)
    require found (not_found (text "mailbox not found"))

  -- `POST /api/addresses/{address}/rotate`, with the new token.
  unfoldable pub rotate : Headers → Str → Handler store.State Str
  rotate headers raw = do
    let address = to_ascii_lowercase raw
    owner_only headers address
    n ← draw
    let (owner_token, token_hash) = generate_token sur.digest token_prefix (sur.random_token n)
    found ← writing (λ db. store.rotate_owner_token db address token_hash)
    require found (not_found (text "mailbox not found"))
    return owner_token
