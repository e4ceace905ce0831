-- ===== src/Smtp/Recipient/Reserved.antt =====
-- What the catch-all of src/smtp/session.rs may not do.
use anony_mail.Base.{
  ℕ, ◌≡◌, refl, sym, ap, ◌∙◌, ◌⊎◌, inl, inr, Bool, true, false, not, Option, none, some, if-true,
  if-false, true-false, Bool-cases, Option-cases, Result, is_some_and, ok, err,
}
use anony_mail.Base.Text.{is_empty, Str, is_empty, rsplit_once}
use anony_mail.Model.{Time}
use anony_mail.Config.{Config, accepts_domain, is_reserved_local_part}
use anony_mail.Store.{StoreError, Store}
use anony_mail.Smtp.Recipient.{
  RecipientCheck, no_mailbox, strip_plus_tag, conjure, try_catch_all, looked_up, look_up,
  verified_recipient, custom_recipient, validate_recipient,
}

module _ (store : Store) (config : Config) (now : ℕ → Time) (db : store.State) where
  -- The conditions under which no mailbox may be conjured for the address: the catch-all is off, or
  -- the local part to deliver to is reserved.
  abbrev pub MayNotCreate : Str → Type 0
  MayNotCreate delivery =
      (config.catch_all_enabled ≡ false)
      ⊎ (is_some_and (rsplit_once b'@' delivery) (λ p. is_reserved_local_part config p.0) ≡ true)

  abbrev db_of : RecipientCheck × store.State → store.State
  db_of r = r.1

  conjure-refuses :
      (delivery : Str) (parts : Option (Str × Str))
      → is_some_and parts (λ p. is_reserved_local_part config p.0) ≡ true
      → conjure store config now db delivery parts ≡ (no_mailbox, db)
  unfolding conjure
  conjure-refuses delivery none r = absurd (true-false (sym r))
  conjure-refuses delivery (some (local, domain)) r = if-true _ _ r

  try_catch_all-refuses :
      (delivery : Str)
      → MayNotCreate delivery
      → try_catch_all store config now db delivery ≡ (no_mailbox, db)
  unfolding try_catch_all
  try_catch_all-refuses delivery (inl off) = if-true _ _ (ap not off)
  try_catch_all-refuses delivery (inr r) = elim (Bool-cases config.catch_all_enabled) [
    | inr off ↦ if-true _ _ (ap not off)
    | inl on ↦ if-false _ _ (ap not on) ∙ conjure-refuses delivery (rsplit_once b'@' delivery) r
  ]

  -- The domain of the address is not one of the configured ones.
  abbrev pub IsForeign : Str → Type 0
  IsForeign addr = is_some_and (rsplit_once b'@' addr) (λ p. accepts_domain config p.1) ≡ false

  looked_up-unchanged :
      (delivery : Str) (is_config_domain : Bool) (o : Result Bool StoreError)
      → MayNotCreate delivery ⊎ (is_config_domain ≡ false)
      → (looked_up store config now db delivery is_config_domain o).1 ≡ db
  unfolding looked_up
  looked_up-unchanged delivery true (ok false) (inl refused) =
      ap db_of (try_catch_all-refuses delivery refused)
  looked_up-unchanged delivery true (ok false) (inr foreign) = absurd (true-false foreign)
  looked_up-unchanged delivery false (ok false) h = refl
  looked_up-unchanged delivery is_config_domain (ok true) h = refl
  looked_up-unchanged delivery is_config_domain (err e) h = refl

  look_up-unchanged :
      (addr : Str) (is_config_domain : Bool)
      → MayNotCreate (strip_plus_tag addr) ⊎ (is_config_domain ≡ false)
      → (look_up store config now db addr is_config_domain).1 ≡ db
  unfolding look_up
  look_up-unchanged addr is_config_domain h =
      looked_up-unchanged (strip_plus_tag addr) is_config_domain
        (store.mailbox_is_active db (strip_plus_tag addr) (now 0)) h

  verified-unchanged :
      (addr : Str) (o : Result Bool StoreError)
      → (verified_recipient store config now db addr o).1 ≡ db
  unfolding verified_recipient
  verified-unchanged addr (ok true) = look_up-unchanged addr false (inr refl)
  verified-unchanged addr (ok false) = refl
  verified-unchanged addr (err e) = refl

  custom-unchanged : (addr domain : Str) → (custom_recipient store config now db addr domain).1 ≡ db
  unfolding custom_recipient
  custom-unchanged addr domain = elim (Bool-cases config.custom_domains_enabled) [
    | inr off ↦ ap db_of (if-true _ _ (ap not off))
    | inl on ↦ ap db_of (if-false _ _ (ap not on)) ∙ verified-unchanged addr _
  ]

  -- The check of a recipient creates no mailbox, and changes nothing else in the store, if the
  -- catch-all is off, if the local part to deliver to is reserved, or if the domain is not one of the
  -- configured ones, a verified custom domain included.
  pub validate_recipient-unchanged :
      (addr : Str)
      → MayNotCreate (strip_plus_tag addr) ⊎ IsForeign addr
      → (validate_recipient store config now db addr).1 ≡ db
  unfolding validate_recipient
  validate_recipient-unchanged addr h = elim (Option-cases (rsplit_once b'@' addr)) [
    | inl e ↦ rw (validate_recipient, e) refl
    | inr ((local, domain), e) ↦ elim (Bool-cases (is_empty domain)) [
      | inl t ↦ rw (validate_recipient, e, t) refl
      | inr f ↦ elim (Bool-cases (accepts_domain config domain)) [
        | inl a ↦
            rw (validate_recipient, e, f)
              (ap db_of (if-true _ _ a)
                ∙ look_up-unchanged addr true (elim h [
                  | inl r ↦ inl r
                  | inr foreign ↦ absurd (true-false (sym a ∙ (rw e at foreign)))
                ]))
        | inr a ↦
            rw (validate_recipient, e, f) (ap db_of (if-false _ _ a) ∙ custom-unchanged addr domain)
      ]
    ]
  ]
