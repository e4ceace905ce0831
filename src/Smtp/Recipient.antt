-- ===== src/Smtp/Recipient.antt =====
-- The recipients of src/smtp/session.rs: plus-addressing, the accepted domains and the catch-all,
-- over any `Store`. `now i` is the i-th reading of the clock within one check.
pub mod Reserved
pub mod Accepted
use anony_mail.Base.{
  ℕ, ◌+◌, Bool, true, false, not, Option, none, some, ◌∷◌, ◌++◌, if◌then◌else◌, ◌==◌, Result, any,
  ok, err, nat_eq, str_eq,
}
use anony_mail.Base.Text.{Str, text, is_empty, rsplit_once, split_once}
use anony_mail.Model.{Time, Mailbox, seconds}
use anony_mail.Config.{Config, accepts_domain, is_reserved_local_part}
use anony_mail.Store.{Store, StoreError, unique_violation, subscription_limit, backend_failure}

pub data RecipientCheck : Type 0 where
  accept : Str → RecipientCheck
  not_our_domain : RecipientCheck
  no_mailbox : RecipientCheck
  error : RecipientCheck

-- `crate::api::is_unique_violation`
abbrev pub is_unique_violation : StoreError → Bool
is_unique_violation (unique_violation m) = true
is_unique_violation (subscription_limit n) = false
is_unique_violation backend_failure = false

before_plus : Str → Str → Option (Str × Str) → Str
before_plus addr domain none = addr
before_plus addr domain (some (tagless, tag)) =
    if is_empty tagless then addr else tagless ++ (b'@' ∷ domain)

unfoldable pub strip_plus_tag : Str → Str
unfolding before_plus
strip_plus_tag addr = elim (rsplit_once b'@' addr) [
  | none ↦ addr
  | some (local, domain) ↦ before_plus addr domain (split_once (λ c. c == b'+') local)
]

module _ (store : Store) where
  -- The answer to a query for an active mailbox where there is no more to try.
  unfoldable pub active_or : Str → RecipientCheck → Result Bool StoreError → RecipientCheck
  active_or delivery otherwise (ok true) = accept delivery
  active_or delivery otherwise (ok false) = otherwise
  active_or delivery otherwise (err e) = error

  -- What follows the creation. On a taken address it is looked up once more.
  unfoldable pub created_or :
      (ℕ → Time) → Str → Result Mailbox StoreError × store.State → RecipientCheck × store.State
  unfolding active_or
  created_or now delivery (ok mb, db) = (accept delivery, db)
  created_or now delivery (err e, db) = (
    if is_unique_violation e
        then active_or delivery no_mailbox (store.mailbox_is_active db delivery (now 2))
        else error,
    db,
  )

  -- With the parts of the address at hand.
  unfoldable pub conjure :
      Config → (ℕ → Time) → store.State → Str → Option (Str × Str) → RecipientCheck × store.State
  unfolding created_or
  conjure config now db delivery none = (no_mailbox, db)
  conjure config now db delivery (some (local, domain)) =
      let expires_at = now 1 + seconds config.default_ttl in
      if is_reserved_local_part config local
      then (no_mailbox, db)
      else created_or now delivery (store.create_mailbox db delivery domain expires_at none none)

  unfoldable pub try_catch_all :
      Config → (ℕ → Time) → store.State → Str → RecipientCheck × store.State
  unfolding conjure
  try_catch_all config now db delivery =
      if not config.catch_all_enabled
      then (no_mailbox, db)
      else conjure config now db delivery (rsplit_once b'@' delivery)

  -- The answer to the first look-up of the mailbox.
  unfoldable pub looked_up :
      Config
      → (ℕ → Time)
      → store.State
      → Str
      → Bool
      → Result Bool StoreError
      → RecipientCheck × store.State
  unfolding try_catch_all
  looked_up config now db delivery is_config_domain (ok true) = (accept delivery, db)
  looked_up config now db delivery is_config_domain (ok false) =
      if is_config_domain then try_catch_all config now db delivery else (no_mailbox, db)
  looked_up config now db delivery is_config_domain (err e) = (error, db)

  -- From the second look-up on, the domain being one of the server's.
  unfoldable pub look_up :
      Config → (ℕ → Time) → store.State → Str → Bool → RecipientCheck × store.State
  unfolding looked_up
  look_up config now db addr is_config_domain =
      let delivery = strip_plus_tag addr in
      looked_up config now db delivery is_config_domain
        (store.mailbox_is_active db delivery (now 0))

  -- The answer to the query for a verified custom domain.
  unfoldable pub verified_recipient :
      Config
      → (ℕ → Time)
      → store.State
      → Str
      → Result Bool StoreError
      → RecipientCheck × store.State
  unfolding look_up
  verified_recipient config now db addr (ok true) = look_up config now db addr false
  verified_recipient config now db addr (ok false) = (not_our_domain, db)
  verified_recipient config now db addr (err e) = (error, db)

  -- A domain that is not configured has to be a verified custom domain.
  unfoldable pub custom_recipient :
      Config → (ℕ → Time) → store.State → Str → Str → RecipientCheck × store.State
  unfolding verified_recipient
  custom_recipient config now db addr domain =
      if not config.custom_domains_enabled
      then (not_our_domain, db)
      else verified_recipient config now db addr (store.custom_domain_is_verified db domain)

  unfoldable pub validate_recipient :
      Config → (ℕ → Time) → store.State → Str → RecipientCheck × store.State
  unfolding look_up custom_recipient
  validate_recipient config now db addr = elim (rsplit_once b'@' addr) [
    | none ↦ (not_our_domain, db)
    | some (local, domain) ↦
        if is_empty domain
        then (not_our_domain, db)
        else if accepts_domain config domain
        then look_up config now db addr true
        else custom_recipient config now db addr domain
  ]
