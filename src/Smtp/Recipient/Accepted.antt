-- ===== src/Smtp/Recipient/Accepted.antt =====
-- The recipients that src/smtp/session.rs accepts, over the store of src/store/memory.rs.
use anony_mail.Base.{
  ℕ, ◌+◌, ◌≡◌, refl, sym, ap, inl, inr, Bool, true, false, not, Option, none, some, ltb, if-true,
  if-false, ==_refl, Bool-cases, Option-cases, is_some, is_some_and, ok, nat_eq, str_eq,
}
use anony_mail.Base.Text.{Str, is_empty, rsplit_once}
use anony_mail.Base.Assoc.{get, get-insert}
use mathlib.Core.Path.{subst}
use anony_mail.Config.{Config, accepts_domain, is_reserved_local_part}
use anony_mail.Store.Memory.Claims.{custom_domain_is_verified}
use anony_mail.Store.Memory.Mailboxes.{create_mailbox, get_mailbox, mailbox_is_active}
use anony_mail.Model.{Time, seconds}
use anony_mail.Store.Memory.Backend.{MemoryStore, memory_store}
use anony_mail.Smtp.Recipient.{
  RecipientCheck, accept, not_our_domain, no_mailbox, error, strip_plus_tag, active_or, created_or,
  conjure, try_catch_all, looked_up, look_up, verified_recipient, custom_recipient,
  validate_recipient,
}

-- An accepted address is the one to deliver to, and it has a mailbox.
abbrev pub HasMailbox : Str → RecipientCheck × MemoryStore → Type 0
HasMailbox delivery (accept d, db) = (d ≡ delivery) × (is_some (get_mailbox db.inner d) ≡ true)
HasMailbox delivery (not_our_domain, db) = Unit
HasMailbox delivery (no_mailbox, db) = Unit
HasMailbox delivery (error, db) = Unit

some-if : {A : Type 0} (o : Option A) (p : A → Bool) → is_some_and o p ≡ true → is_some o ≡ true
some-if none p h = h
some-if (some a) p h = refl

active-some :
    (db : MemoryStore) (delivery : Str) (t : Time)
    → mailbox_is_active db.inner delivery t ≡ true
    → is_some (get_mailbox db.inner delivery) ≡ true
unfolding mailbox_is_active get_mailbox
active-some db delivery t h = some-if (get db.inner.mailboxes delivery) (λ m. ltb t m.expires_at) h

module _ (config : Config) (now : ℕ → Time) where
  active_or-HasMailbox :
      (db : MemoryStore) (delivery : Str) (active : Bool)
      → (active ≡ true → is_some (get_mailbox db.inner delivery) ≡ true)
      → HasMailbox delivery (active_or memory_store delivery no_mailbox (ok active), db)
  unfolding active_or
  active_or-HasMailbox db delivery true h = (refl, h refl)
  active_or-HasMailbox db delivery false h = tt

  created-HasMailbox :
      (db : MemoryStore) (delivery domain : Str) (t : Time)
      → HasMailbox delivery (
          created_or memory_store now delivery
            (memory_store.create_mailbox db delivery domain t none none))
  unfolding created_or create_mailbox get_mailbox
  created-HasMailbox db delivery domain t = elim (Option-cases (get db.inner.mailboxes delivery)) [
    | inl e ↦
        rw e (refl, rw (get-insert db.inner.mailboxes delivery delivery, ==_refl delivery) refl)
    | inr (mb, e) ↦ rw e (
        active_or-HasMailbox (record db { ticks = db.ticks + 1; draws = db.draws + 0 }) delivery
          (mailbox_is_active db.inner delivery (now 2)) (active-some db delivery (now 2)))
  ]

  conjure-HasMailbox :
      (db : MemoryStore) (delivery : Str) (parts : Option (Str × Str))
      → HasMailbox delivery (conjure memory_store config now db delivery parts)
  unfolding conjure
  conjure-HasMailbox db delivery none = tt
  conjure-HasMailbox db delivery (some (local, domain)) =
      elim (Bool-cases (is_reserved_local_part config local)) [
        | inl t ↦ subst (HasMailbox delivery) (sym (if-true _ _ t)) tt
        | inr f ↦
            subst (HasMailbox delivery) (sym (if-false _ _ f))
              (created-HasMailbox db delivery domain (now 1 + seconds config.default_ttl))
      ]

  try_catch_all-HasMailbox :
      (db : MemoryStore) (delivery : Str)
      → HasMailbox delivery (try_catch_all memory_store config now db delivery)
  unfolding try_catch_all
  try_catch_all-HasMailbox db delivery = elim (Bool-cases config.catch_all_enabled) [
    | inr off ↦ subst (HasMailbox delivery) (sym (if-true _ _ (ap not off))) tt
    | inl on ↦
        subst (HasMailbox delivery) (sym (if-false _ _ (ap not on)))
          (conjure-HasMailbox db delivery (rsplit_once b'@' delivery))
  ]

  looked_up-HasMailbox :
      (db : MemoryStore) (delivery : Str) (is_config_domain active : Bool)
      → (active ≡ true → is_some (get_mailbox db.inner delivery) ≡ true)
      → HasMailbox delivery
          (looked_up memory_store config now db delivery is_config_domain (ok active))
  unfolding looked_up
  looked_up-HasMailbox db delivery is_config_domain true h = (refl, h refl)
  looked_up-HasMailbox db delivery true false h = try_catch_all-HasMailbox db delivery
  looked_up-HasMailbox db delivery false false h = tt

  look_up-HasMailbox :
      (db : MemoryStore) (addr : Str) (is_config_domain : Bool)
      → HasMailbox (strip_plus_tag addr) (look_up memory_store config now db addr is_config_domain)
  unfolding look_up
  look_up-HasMailbox db addr is_config_domain =
      looked_up-HasMailbox db (strip_plus_tag addr) is_config_domain
        (mailbox_is_active db.inner (strip_plus_tag addr) (now 0))
        (active-some db (strip_plus_tag addr) (now 0))

  custom-HasMailbox :
      (db : MemoryStore) (addr domain : Str)
      → HasMailbox (strip_plus_tag addr) (custom_recipient memory_store config now db addr domain)
  unfolding custom_recipient verified_recipient
  custom-HasMailbox db addr domain = elim (Bool-cases config.custom_domains_enabled) [
    | inr off ↦ subst (HasMailbox (strip_plus_tag addr)) (sym (if-true _ _ (ap not off))) tt
    | inl on ↦
        subst (HasMailbox (strip_plus_tag addr)) (sym (if-false _ _ (ap not on)))
          (elim (Bool-cases (custom_domain_is_verified db.inner domain)) [
            | inl t ↦ rw t (look_up-HasMailbox db addr false)
            | inr f ↦ rw f tt
          ])
  ]

  -- Over the memory store, a recipient that is accepted is the address without its tag, and it has a
  -- mailbox at that moment, whether it had one before or the catch-all made it.
  pub validate_recipient-HasMailbox :
      (db : MemoryStore) (addr : Str)
      → HasMailbox (strip_plus_tag addr) (validate_recipient memory_store config now db addr)
  unfolding validate_recipient
  validate_recipient-HasMailbox db addr = elim (Option-cases (rsplit_once b'@' addr)) [
    | inl e ↦ rw (validate_recipient, e) tt
    | inr ((local, domain), e) ↦ elim (Bool-cases (is_empty domain)) [
      | inl t ↦ rw (validate_recipient, e, t) tt
      | inr f ↦
          rw (validate_recipient, e, f)
            (elim (Bool-cases (accepts_domain config domain)) [
              | inl a ↦
                  subst (HasMailbox (strip_plus_tag addr)) (sym (if-true _ _ a))
                    (look_up-HasMailbox db addr true)
              | inr a ↦
                  subst (HasMailbox (strip_plus_tag addr)) (sym (if-false _ _ a))
                    (custom-HasMailbox db addr domain)
            ])
    ]
  ]
