-- ===== src/Api/Addresses/Lifetime.antt =====
-- The lifetime cap of src/api/addresses.rs.
use anony_mail.Base.{
  ◌+◌, ◌≤◌, ◌<◌, ◌≡◌, refl, sym, ◌∙◌, Bool, true, false, Option, none, some, arith, true-false,
  Result, ok, nat_eq, str_eq,
}
use mathlib.Core.Path.{subst}
use anony_mail.Base.Text.{Str, trimmed, to_ascii_lowercase}
use anony_mail.Base.Assoc.{get}
use anony_mail.Config.{free, tier_policy, TierPolicy}
use anony_mail.Model.{Time, Bytes, Mailbox, seconds}
use anony_mail.Store.Memory.{Inner}
use anony_mail.Store.Memory.Backend.{MemoryStore, memory_store}
use anony_mail.Store.Memory.Mailboxes.{extend_mailbox, update_mailbox}
use anony_mail.Api.Addresses.Manage.{owner_only, extend, check_lifetime, within_lifetime}
use anony_mail.Api.Auth.Owner.{authorize_owner-ok}
use anony_mail.Api.Gate.{
  attestation_gate, client_claims, claims_of, tier_if, client_tier, enforced_tier,
}
use anony_mail.Api.Gate.Keeps.{attestation_gate-Keeps}
use anony_mail.Api.Handler.{AppState, Surroundings, Headers, ◌>>=◌, now, writing}
use anony_mail.Api.Handler.Keeps.{Keeps, keeps, >>=-Keeps, require-Keeps}
use anony_mail.Api.Handler.Ensures.{
  Ensures, then-Ensures, known-Ensures, some_or-Ensures, require-ok, >>=-ok,
}

module _ {Db : Type 0} (sur : Surroundings) where
  pub no_claims :
      (o : Option Str) (key : Option Bytes) (s : AppState Db)
      → o ≡ none
      → claims_of sur o key s ≡ (ok none, s)
  unfolding claims_of
  no_claims none key s e = refl
  no_claims (some raw) key s e = ground arith

  free_tier_if :
      (b : Bool) (h : Headers) (s : AppState Db)
      → b ≡ true
      → trimmed h.client_token ≡ none
      → tier_if sur b h s ≡ (ok (some free), s)
  unfolding tier_if client_tier client_claims ◌>>=◌
  free_tier_if false h s e n = absurd (true-false (sym e))
  free_tier_if true h s e n =
      rw (no_claims (trimmed h.client_token) sur.config.token_signing_key s n) refl

  -- What a handler does after the tier is known, where the request has no client token.
  enforced_tier_free :
      (h : Headers) (s : AppState Db)
      → sur.config.entitlements_enforced ≡ true
      → trimmed h.client_token ≡ none
      → enforced_tier sur h s ≡ (ok (some free), s)
  unfolding enforced_tier
  enforced_tier_free h s e n = free_tier_if sur.config.entitlements_enforced h s e n

within_lifetime-le :
    (policy : TierPolicy) (mb : Mailbox) (t : Time)
    → 0 < policy.max_lifetime_seconds
    → within_lifetime policy mb t ≡ true
    → t ≤ mb.created_at + seconds policy.max_lifetime_seconds
within_lifetime-le policy mb t p w = ground arith

extended :
    (inner : Inner) (a : Str) (t : Time) (mb : Mailbox)
    → get inner.mailboxes a ≡ some mb
    → (extend_mailbox inner a t).0 ≡ some (record mb { expires_at = t })
unfolding extend_mailbox update_mailbox
extended inner a t mb g = rw g refl

capped_at :
    (mb mb' : Mailbox) (t n : Time)
    → some (record mb { expires_at = t }) ≡ some mb'
    → t ≤ mb.created_at + n
    → mb'.expires_at ≤ mb'.created_at + n
capped_at mb mb' t n e h = ground arith

same_answer : {A E : Type 0} (x y : A) → Path (Result A E) (ok x) (ok y) → x ≡ y
same_answer x y h = ground arith

module _ (sur : Surroundings) where
  pub owner_only-Keeps : (h : Headers) (a : Str) → Keeps (owner_only sur memory_store h a)
  unfolding owner_only
  owner_only-Keeps h a = >>=-Keeps _ _ (attestation_gate-Keeps sur h) (λ c. keeps _ (λ s. refl))

  pub owner_only-ok :
      (h : Headers) (a : Str) (s : AppState MemoryStore) (mb : Mailbox)
      → (owner_only sur memory_store h a s).0 ≡ ok mb
      → get s.db.inner.mailboxes a ≡ some mb
  unfolding owner_only
  owner_only-ok h a s mb e =
      let (c, g, f) = >>=-ok (attestation_gate sur h) _ s mb e in
      let db : (attestation_gate sur h s).1.db ≡ s.db = (attestation_gate-Keeps sur h).same s in
      subst (λ (d : MemoryStore). get d.inner.mailboxes a ≡ some mb) db
        (authorize_owner-ok sur.digest (attestation_gate sur h s).1.db a h.authorization mb f)

  -- Where tiers are enforced and the free one has a lifetime cap, the owner of a mailbox who sends no
  -- client token cannot extend it past the cap: if the memory store extends it, its expiry is no
  -- later than its creation and the cap, however often it was extended before.
  pub extend_within_lifetime :
      (h : Headers) (raw : Str) (s : AppState MemoryStore)
      → sur.config.entitlements_enforced ≡ true
      → trimmed h.client_token ≡ none
      → 0 < sur.config.free_tier.max_lifetime_seconds
      → Ensures (extend sur memory_store h raw) s (λ mb s'.
        mb.expires_at ≤ mb.created_at + seconds sur.config.free_tier.max_lifetime_seconds)
  unfolding extend check_lifetime tier_policy
  extend_within_lifetime h raw s enforced no_token capped =
      let a = to_ascii_lowercase raw in
      then-Ensures (owner_only sur memory_store h a) _ s _ (λ mb e.
        let s1 = (owner_only sur memory_store h a s).1 in
        then-Ensures (now sur) _ s1 _ (λ from e1.
          let s2 = (now sur s1).1 in
          let t = from + seconds sur.config.default_ttl in
          known-Ensures (enforced_tier sur h) _ s2 s2 (some free) _
            (enforced_tier_free sur h s2 enforced no_token)
            (then-Ensures (check_lifetime sur memory_store mb t (some free)) _ s2 _ (λ u e3.
              let check = check_lifetime sur memory_store mb t (some free) in
              let s3 = (check s2).1 in
              let same : s3.db ≡ s.db =
                (require-Keeps _ _).same s2 ∙ (owner_only-Keeps h a).same s in
              let held : get s3.db.inner.mailboxes a ≡ some mb =
                subst (λ (d : MemoryStore). get d.inner.mailboxes a ≡ some mb) (sym same)
                  (owner_only-ok h a s mb e) in
              let soon =
                within_lifetime-le (tier_policy sur.config free) mb t capped
                  (require-ok _ _ s2 u e3) in
              then-Ensures (writing (λ db. memory_store.extend_mailbox db a t)) _ s3 _ (λ o e4.
                some_or-Ensures o _ _ _ (λ mb' e5.
                  capped_at mb mb' t _
                    (sym (extended s3.db.inner a t mb held) ∙ same_answer _ o e4 ∙ e5) soon))))))
