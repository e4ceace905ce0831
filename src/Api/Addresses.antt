-- ===== src/Api/Addresses.antt =====
-- src/api/addresses.rs: the creation of a mailbox, over any `Store`.
pub mod Manage
pub mod Lifetime
pub mod Chosen
pub mod Made
pub mod Creation
pub mod Success
use anony_mail.Base.{
  ℕ, zero, suc, ◌+◌, ◌-◌, Bool, true, false, not, ◌&&◌, ◌||◌, Option, none, some, List, [], ◌∷◌,
  ◌++◌, map, ltb, leb, if◌then◌else◌, ◌==◌, Result, is_none_or, all, any, ok, err, nat_eq, str_eq,
}
use mathlib.Core.Option
use anony_mail.Base.Text.{
  Str, text, is_empty, is_ascii_lowercase, is_ascii_digit, to_ascii_lowercase, trim, len, decimal,
}
use anony_mail.Config.{Config, Tier, TierPolicy, free, tier_policy, is_reserved_local_part}
use anony_mail.Entitlements.{ClientClaims}
use anony_mail.Limits.{Host, note_address_created, client_ip}
use anony_mail.Model.{Time, Mailbox, seconds}
use anony_mail.Smtp.Recipient.{is_unique_violation}
use anony_mail.Store.{Store, StoreError}
use anony_mail.Api.{
  ApiError, not_found, conflict, bad_request, too_many_requests, internal, pro_required,
  lifetime_cap, mailbox_cap,
}
use anony_mail.Api.Auth.{authorize_owner, generate_token, hash_token, token_prefix}
use anony_mail.Api.Domains.{authorize_mailbox_on_custom_domain}
use anony_mail.Api.Gate.{attestation_gate, enforced_tier}
use anony_mail.Api.Handler.{
  Surroundings, Headers, Handler, ◌>>=◌, ◌>>◌, return, throw, require, some_or, from_result, asking,
  reading, calling, writing, limiting, now, draw,
}

pub record CreateAddressRequest : Type 0 where
  pub local_part : Option Str
  pub domain : Option Str

pub record CreateAddressResponse : Type 0 where
  pub mailbox : Mailbox
  pub owner_token : Str

abbrev pub is_sep : ℕ → Bool
is_sep b = b == b'.' || b == b'_' || b == b'-'

abbrev pub last_or : ℕ → Str → ℕ
last_or c [] = c
last_or c (d ∷ s) = last_or d s

unfoldable pub separated : Str → Bool
separated [] = false
separated (c ∷ s) = not (is_sep c) && not (is_sep (last_or c s))

unfoldable pub is_valid_local_part : Str → Bool
unfolding separated
is_valid_local_part local =
    if is_empty local || ltb 64 (len local)
    then false
    else if not (all (λ b. is_ascii_lowercase b || is_ascii_digit b || is_sep b) local)
    then false
    else separated local

-- `LOCAL_PART_CHARSET[idx]`
unfoldable pub charset_at : ℕ → ℕ
charset_at idx = if ltb idx 26 then b'a' + idx else b'0' + (idx - 26)

abbrev pub random_local_part : List ℕ → Str
random_local_part = map charset_at

-- `iter().position`
unfoldable pub position : List Str → Str → Option ℕ
position [] d = none
position (x ∷ xs) d = if x == d then some 0 else Option.map suc (position xs d)

unfoldable pub device_of : Option ClientClaims → Option Str
device_of none = none
device_of (some c) = c.kid

-- The policy to hold a request to, if there is one.
unfoldable pub enforced_policy : Config → Option ClientClaims → Option TierPolicy
enforced_policy config client =
    if config.entitlements_enforced
    then some (tier_policy config (elim client [ none ↦ free | some c ↦ c.tier ]))
    else none

unfoldable pub allows_domain : Option TierPolicy → ℕ → Bool
allows_domain none index = true
allows_domain (some policy) index = not (ltb 0 policy.domain_count && leb policy.domain_count index)

abbrev pub allows : Option TierPolicy → (TierPolicy → Bool) → Bool
allows policy right = is_none_or policy right

-- The local part to use, if the request names one.
unfoldable pub chosen_local : Config → Option TierPolicy → Option Str → Result (Option Str) ApiError
chosen_local config policy none = ok none
chosen_local config policy (some local_part) =
    let local = to_ascii_lowercase (trim local_part) in
    if not (is_valid_local_part local)
    then err (
        bad_request (
          text
            "local_part must be 1-64 chars of a-z, 0-9, '.', '_' or '-' and not start/end with a separator"))
    else if is_reserved_local_part config local
    then err (bad_request (text "local_part is reserved: " ++ local))
    else if not (allows policy (λ p. p.custom_local_parts))
    then err (pro_required (text "custom local parts require a higher tier"))
    else ok (some local)

module _ (sur : Surroundings) (store : Store) where
  -- A domain that is not a configured one.
  unfoldable pub custom_domain : Headers → Option TierPolicy → Str → Bool → Handler store.State Str
  custom_domain headers policy d false = throw (bad_request (text "unknown domain: " ++ d))
  custom_domain headers policy d true = do
    require (allows policy (λ p. p.custom_domains))
        (pro_required (text "custom domains require a higher tier"))
    asking (λ db. authorize_mailbox_on_custom_domain sur.digest store db d headers.authorization)
    return d

  unfoldable pub named_domain :
      Headers → Option TierPolicy → Str → Option ℕ → Handler store.State Str
  named_domain headers policy d (some index) = do
    require (allows_domain policy index)
        (pro_required (text "domain requires a higher tier: " ++ d))
    return d
  named_domain headers policy d none =
      custom_domain headers policy d sur.config.custom_domains_enabled

  -- `domains[0]`, whose panic on no domains stands here as an internal error.
  abbrev pub first_domain : List Str → Handler store.State Str
  first_domain [] = throw internal
  first_domain (d ∷ ds) = return d

  unfoldable pub chosen_domain : Headers → Option TierPolicy → Option Str → Handler store.State Str
  chosen_domain headers policy none = first_domain sur.config.domains
  chosen_domain headers policy (some raw) =
      let d = to_ascii_lowercase (trim raw) in
      named_domain headers policy d (position sur.config.domains d)

  unfoldable pub counted_device : TierPolicy → Str → Bool → Handler store.State (Unit {0})
  counted_device policy hash false = return tt
  counted_device policy hash true = do
    at_ ← now sur
    active ← reading (λ db. store.count_active_mailboxes_by_device db hash at_)
    require (ltb active policy.active_mailboxes) (
        mailbox_cap (
          text "this tier allows "
          ++ decimal policy.active_mailboxes
          ++ text " active mailboxes per device"))

  unfoldable pub device_cap : Option TierPolicy → Option Str → Handler store.State (Unit {0})
  device_cap none hash = return tt
  device_cap (some policy) none = return tt
  device_cap (some policy) (some hash) = counted_device policy hash (ltb 0 policy.active_mailboxes)

  -- What a handler answers to a creation: `otherwise` on a taken address.
  unfoldable pub created :
      Str
      → Handler store.State CreateAddressResponse
      → Result Mailbox StoreError
      → Handler store.State CreateAddressResponse
  created owner_token otherwise (ok mailbox) =
      return (record { mailbox = mailbox; owner_token = owner_token })
  created owner_token otherwise (err e) = elim (is_unique_violation e) [
    | true ↦ otherwise
    | false ↦ throw internal
  ]

  -- With the number of the draw for the token.
  unfoldable pub create_at :
      ℕ
      → Str
      → Str
      → Time
      → Option Str
      → Handler store.State CreateAddressResponse
      → Handler store.State CreateAddressResponse
  create_at n address domain expires_at device_hash otherwise = do
    let (owner_token, token_hash) = generate_token sur.digest token_prefix (sur.random_token n)
    made ←
        calling
          (λ db. store.create_mailbox db address domain expires_at (some token_hash) device_hash)
    created owner_token otherwise made

  -- So many attempts.
  unfoldable pub create_random :
      ℕ → Str → Time → Option Str → Handler store.State CreateAddressResponse
  create_random zero domain expires_at device_hash = throw internal
  create_random (suc attempts) domain expires_at device_hash = do
    n ← draw
    k ← draw
    create_at n (random_local_part (sur.random_indices k) ++ (b'@' ∷ domain)) domain expires_at
        device_hash (create_random attempts domain expires_at device_hash)

  unfoldable pub allocate :
      Str → Time → Option Str → Option Str → Handler store.State CreateAddressResponse
  allocate domain expires_at device_hash (some local) = do
    n ← draw
    create_at n (local ++ (b'@' ∷ domain)) domain expires_at device_hash
        (throw (conflict (text "address already exists: " ++ local ++ (b'@' ∷ domain))))
  allocate domain expires_at device_hash none = create_random 5 domain expires_at device_hash

  -- `POST /api/addresses`
  unfoldable pub create :
      Headers → Host → CreateAddressRequest → Handler store.State CreateAddressResponse
  create headers peer req = do
    client ← attestation_gate sur headers
    let policy = enforced_policy sur.config client
    let device_hash = Option.map (hash_token sur.digest) (device_of client)
    domain ← chosen_domain headers policy req.domain
    local ← from_result (chosen_local sur.config policy req.local_part)
    device_cap policy device_hash
    let ip =
        client_ip sur.parse_ip headers.forwarded_for headers.real_ip peer
          sur.config.api_trust_proxy_headers
    at_ ← now sur
    allowed ← limiting (λ l. note_address_created l ip (sur.today at_))
    require allowed (too_many_requests (text "daily address creation limit reached"))
    from ← now sur
    allocate domain (from + seconds sur.config.default_ttl) device_hash local
