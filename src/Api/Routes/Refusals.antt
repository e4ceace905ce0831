-- ===== src/Api/Routes/Refusals.antt =====
-- Who is refused by the handlers of src/api/: a request that lacks the token of the mailbox or of the
-- claim, or the attested client token that the server asks for, is answered with an error and changes
-- nothing in the store.
use anony_mail.Base.{◌≡◌, refl, ◌∙◌, inl, inr, true, Result-cases, err, nat_eq, str_eq}
use anony_mail.Base.Text.{Str, to_ascii_lowercase}
use anony_mail.Model.{Uuid}
use anony_mail.Store.{Store}
use anony_mail.Api.{ApiError}
use anony_mail.Api.Addresses.Manage
use anony_mail.Api.Auth.{authorize_owner}
use anony_mail.Api.Auth.Holder.{
  OwnsMailbox, HoldsClaim, normalized, authorize_owner-OwnsMailbox, authorize_domain-HoldsClaim,
}
use anony_mail.Api.Domains
use anony_mail.Api.Domains.{authorize_domain}
use anony_mail.Api.Gate.Keeps.{attestation_gate-Keeps}
use anony_mail.Api.Handler.{AppState, Surroundings, Headers}
use anony_mail.Api.Handler.Keeps.{require-Keeps, some_or-Keeps, from_result-Keeps}
use anony_mail.Api.Handler.Stops.{Stops, is_err, first-Stops, then-Stops, asking-Stops}
use anony_mail.Api.Messages
use anony_mail.Api.Push
use anony_mail.Api.Routes.{
  OwnerRequest, extend, delete_address, rotate, clear, delete_message, subscribe, unsubscribe,
  ClaimRequest, get_domain, verify_domain, delete_domain, Request, read, mark_read, owner, claim,
  create_address, create_domain, verify_purchase, challenge, attest, assert, respond, respond_owner,
  respond_claim,
}

module _ (show : Uuid → Str) (sur : Surroundings) (store : Store) where
  owner_only-Stops :
      (h : Headers) (a : Str) (s s' : AppState store.State) (e : ApiError)
      → s'.db ≡ s.db
      → authorize_owner sur.digest store s.db a h.authorization ≡ err e
      → Stops (Manage.owner_only sur store h a) s'
  unfolding Manage.owner_only
  owner_only-Stops h a s s' e k r = then-Stops _ _ s' (attestation_gate-Keeps sur h) (λ c t q.
      asking-Stops (λ db. authorize_owner sur.digest store db a h.authorization) s t e (q ∙ k) r)

  respond_owner-Stops :
      (r : OwnerRequest) (h : Headers) (a : Str) (s : AppState store.State) (e : ApiError)
      → authorize_owner sur.digest store s.db (to_ascii_lowercase a) h.authorization ≡ err e
      → Stops (respond_owner show sur store r h a) s
  unfolding respond_owner Manage.extend Manage.delete Manage.rotate Messages.clear Messages.delete
      Push.subscribe Push.unsubscribe
  respond_owner-Stops extend h a s e r =
      first-Stops _ _ s (first-Stops _ _ s (owner_only-Stops h _ s s e refl r))
  respond_owner-Stops delete_address h a s e r =
      first-Stops _ _ s (first-Stops _ _ s (owner_only-Stops h _ s s e refl r))
  respond_owner-Stops rotate h a s e r =
      first-Stops _ _ s (first-Stops _ _ s (owner_only-Stops h _ s s e refl r))
  respond_owner-Stops clear h a s e r =
      first-Stops _ _ s (first-Stops _ _ s (owner_only-Stops h _ s s e refl r))
  respond_owner-Stops (delete_message id) h a s e r =
      first-Stops _ _ s (first-Stops _ _ s (owner_only-Stops h _ s s e refl r))
  respond_owner-Stops (subscribe req) h a s e r = first-Stops _ _ s (
      then-Stops _ _ s (from_result-Keeps _) (λ target t q.
        then-Stops _ _ t (from_result-Keeps _)
          (λ u t' q'. first-Stops _ _ t' (owner_only-Stops h _ s t' e (q' ∙ q) r))))
  respond_owner-Stops (unsubscribe req) h a s e r = first-Stops _ _ s (
      then-Stops _ _ s (some_or-Keeps _ _)
        (λ identifier t q. first-Stops _ _ t (owner_only-Stops h _ s t e q r)))

  claimant-Stops :
      (h : Headers) (d : Str) (s s' : AppState store.State) (e : ApiError)
      → s'.db ≡ s.db
      → authorize_domain sur.digest store s.db d h.authorization ≡ err e
      → Stops (Domains.claimant sur store h d) s'
  claimant-Stops h d s s' e k r =
      asking-Stops (λ db. authorize_domain sur.digest store db d h.authorization) s s' e k r

  respond_claim-Stops :
      (r : ClaimRequest) (h : Headers) (d : Str) (s s' : AppState store.State) (e : ApiError)
      → s'.db ≡ s.db
      → authorize_domain sur.digest store s.db d h.authorization ≡ err e
      → Stops (respond_claim show sur store r h d) s'
  unfolding respond_claim Domains.get Domains.verify Domains.delete
  respond_claim-Stops get_domain h d s s' e k r =
      first-Stops _ _ s' (first-Stops _ _ s' (claimant-Stops h d s s' e k r))
  respond_claim-Stops verify_domain h d s s' e k r = first-Stops _ _ s' (
      then-Stops _ _ s' (attestation_gate-Keeps sur h)
        (λ c t q. first-Stops _ _ t (claimant-Stops h d s t e (q ∙ k) r)))
  respond_claim-Stops delete_domain h d s s' e k r = first-Stops _ _ s' (
      then-Stops _ _ s' (attestation_gate-Keeps sur h)
        (λ c t q. first-Stops _ _ t (claimant-Stops h d s t e (q ∙ k) r)))

  owner_refused :
      (h : Headers) (a : Str) (s : AppState store.State)
      → ¬ OwnsMailbox sur.digest store s.db a h.authorization
      → (e : ApiError) × (authorize_owner sur.digest store s.db a h.authorization ≡ err e)
  owner_refused h a s n =
      elim (Result-cases (authorize_owner sur.digest store s.db a h.authorization)) [
        | inl (mb, q) ↦
            absurd (n (authorize_owner-OwnsMailbox sur.digest store s.db a h.authorization mb q))
        | inr (e, q) ↦ (e, q)
      ]

  claim_refused :
      (h : Headers) (d : Str) (s : AppState store.State)
      → ¬ HoldsClaim sur.digest store s.db (normalized d) h.authorization
      → (e : ApiError) × (authorize_domain sur.digest store s.db d h.authorization ≡ err e)
  claim_refused h d s n =
      elim (Result-cases (authorize_domain sur.digest store s.db d h.authorization)) [
        | inl (c, q) ↦
            absurd (n (authorize_domain-HoldsClaim sur.digest store s.db d h.authorization c q))
        | inr (e, q) ↦ (e, q)
      ]

  -- The request is one for the owner of a mailbox or the holder of a claim, and is not theirs: the
  -- mailbox or the claim is not there, or the `Authorization` header does not present its token.
  abbrev pub LacksToken : Request → AppState store.State → Type 0
  LacksToken (owner r h a) s =
      ¬ OwnsMailbox sur.digest store s.db (to_ascii_lowercase a) h.authorization
  LacksToken (claim r h d) s = ¬ HoldsClaim sur.digest store s.db (normalized d) h.authorization
  LacksToken (read r) s = ⊥
  LacksToken (mark_read a id) s = ⊥
  LacksToken (create_address h peer req) s = ⊥
  LacksToken (create_domain h peer d) s = ⊥
  LacksToken (verify_purchase h id) s = ⊥
  LacksToken challenge s = ⊥
  LacksToken (attest req) s = ⊥
  LacksToken (assert req) s = ⊥

  -- A request that only the owner of a mailbox or the holder of a claim may make is answered with an
  -- error and leaves the store as it is, whatever else it asks for, where the mailbox or the claim is
  -- not there or the `Authorization` header is not `Bearer` with a token whose digest, in hex, is the
  -- stored hash.
  pub respond-LacksToken :
      (r : Request) (s : AppState store.State)
      → LacksToken r s
      → (is_err (respond show sur store r s).0 ≡ true) × ((respond show sur store r s).1.db ≡ s.db)
  unfolding respond
  respond-LacksToken (owner r h a) s n =
      let (e, k) = owner_refused h (to_ascii_lowercase a) s n in
      let w = respond_owner-Stops r h a s e k in (w.fails, w.same)
  respond-LacksToken (claim r h d) s n =
      let (e, k) = claim_refused h d s n in
      let w = then-Stops _ _ s (require-Keeps _ _) (λ u t q. respond_claim-Stops r h d s t e q k) in
      (w.fails, w.same)
  respond-LacksToken (read r) s k = absurd k
  respond-LacksToken (mark_read a id) s k = absurd k
  respond-LacksToken (create_address h peer req) s k = absurd k
  respond-LacksToken (create_domain h peer d) s k = absurd k
  respond-LacksToken (verify_purchase h id) s k = absurd k
  respond-LacksToken challenge s k = absurd k
  respond-LacksToken (attest req) s k = absurd k
  respond-LacksToken (assert req) s k = absurd k
