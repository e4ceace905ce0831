-- ===== src/Api/Routes/Unattested.antt =====
-- What a server that requires attestation answers to a client that is not attested.
use anony_mail.Base.{◌≡◌, true}
use anony_mail.Base.Text.{Str}
use anony_mail.Model.{Uuid}
use anony_mail.Store.{Store}
use anony_mail.Api.Addresses
use anony_mail.Api.Addresses.Manage
use anony_mail.Api.Domains
use anony_mail.Api.Gate
use anony_mail.Api.Gate.Attested.{NeverAttested, attestation_gate-Stops}
use anony_mail.Api.Handler.{AppState, Surroundings, Headers}
use anony_mail.Api.Handler.Keeps.{require-Keeps, some_or-Keeps, from_result-Keeps}
use anony_mail.Api.Handler.Stops.{Stops, is_err, first-Stops, then-Stops}
use anony_mail.Api.Messages
use anony_mail.Api.Push
use anony_mail.Api.Routes.{
  OwnerRequest, extend, delete_address, rotate, clear, delete_message, subscribe, unsubscribe,
  ClaimRequest, get_domain, verify_domain, delete_domain, Request, read, mark_read, owner, claim,
  create_address, create_domain, verify_purchase, challenge, attest, assert, respond, respond_owner,
  respond_claim,
}

abbrev pub IsChange : ClaimRequest → Type 0
IsChange get_domain = ⊥
IsChange verify_domain = Unit
IsChange delete_domain = Unit

module _ (show : Uuid → Str) (sur : Surroundings) (store : Store)
    (required : sur.config.client_attestation_required ≡ true) where
  gate :
      (h : Headers) (s : AppState store.State)
      → NeverAttested store.State sur h
      → Stops (Gate.attestation_gate sur h) s
  gate h s never = attestation_gate-Stops sur h s required never

  owner_refused :
      (r : OwnerRequest) (h : Headers) (a : Str) (s : AppState store.State)
      → NeverAttested store.State sur h
      → Stops (respond_owner show sur store r h a) s
  unfolding respond_owner Manage.owner_only Manage.extend Manage.delete Manage.rotate Messages.clear
      Messages.delete Push.subscribe Push.unsubscribe
  owner_refused extend h a s n =
      first-Stops _ _ s (first-Stops _ _ s (first-Stops _ _ s (gate h s n)))
  owner_refused delete_address h a s n =
      first-Stops _ _ s (first-Stops _ _ s (first-Stops _ _ s (gate h s n)))
  owner_refused rotate h a s n =
      first-Stops _ _ s (first-Stops _ _ s (first-Stops _ _ s (gate h s n)))
  owner_refused clear h a s n =
      first-Stops _ _ s (first-Stops _ _ s (first-Stops _ _ s (gate h s n)))
  owner_refused (delete_message id) h a s n =
      first-Stops _ _ s (first-Stops _ _ s (first-Stops _ _ s (gate h s n)))
  owner_refused (subscribe req) h a s n = first-Stops _ _ s (
      then-Stops _ _ s (from_result-Keeps _) (λ target t q.
        then-Stops _ _ t (from_result-Keeps _)
          (λ u t' q'. first-Stops _ _ t' (first-Stops _ _ t' (gate h t' n)))))
  owner_refused (unsubscribe req) h a s n = first-Stops _ _ s (
      then-Stops _ _ s (some_or-Keeps _ _)
        (λ identifier t q. first-Stops _ _ t (first-Stops _ _ t (gate h t n))))

  claim_refused :
      (r : ClaimRequest) (h : Headers) (d : Str) (s : AppState store.State)
      → IsChange r
      → NeverAttested store.State sur h
      → Stops (respond_claim show sur store r h d) s
  unfolding respond_claim Domains.verify Domains.delete
  claim_refused get_domain h d s c n = absurd c
  claim_refused verify_domain h d s c n = first-Stops _ _ s (first-Stops _ _ s (gate h s n))
  claim_refused delete_domain h d s c n = first-Stops _ _ s (first-Stops _ _ s (gate h s n))

  -- A request to change something, or to mint a token for a purchase, whose client token is at no
  -- moment that of an attested device. To mark a message as read is open to all, and attestation
  -- itself needs no token.
  abbrev pub IsUnattested : Request → Type 0
  IsUnattested (owner r h a) = NeverAttested store.State sur h
  IsUnattested (claim r h d) = IsChange r × NeverAttested store.State sur h
  IsUnattested (create_address h peer req) = NeverAttested store.State sur h
  IsUnattested (create_domain h peer d) = NeverAttested store.State sur h
  IsUnattested (verify_purchase h id) = NeverAttested store.State sur h
  IsUnattested (read r) = ⊥
  IsUnattested (mark_read a id) = ⊥
  IsUnattested challenge = ⊥
  IsUnattested (attest req) = ⊥
  IsUnattested (assert req) = ⊥

  respond-Stops :
      (r : Request) (s : AppState store.State) → IsUnattested r → Stops (respond show sur store r) s
  unfolding respond Addresses.create Domains.create Gate.verify
  respond-Stops (owner r h a) s n = owner_refused r h a s n
  respond-Stops (claim r h d) s n =
      then-Stops _ _ s (require-Keeps _ _) (λ u t q. claim_refused r h d t n.0 n.1)
  respond-Stops (create_address h peer req) s n = first-Stops _ _ s (first-Stops _ _ s (gate h s n))
  respond-Stops (create_domain h peer d) s n =
      then-Stops _ _ s (require-Keeps _ _)
        (λ u t q. first-Stops _ _ t (first-Stops _ _ t (gate h t n)))
  respond-Stops (verify_purchase h id) s n =
      first-Stops _ _ s
        (then-Stops _ _ s (some_or-Keeps _ _) (λ key t q. first-Stops _ _ t (gate h t n)))
  respond-Stops (read r) s n = absurd n
  respond-Stops (mark_read a id) s n = absurd n
  respond-Stops challenge s n = absurd n
  respond-Stops (attest req) s n = absurd n
  respond-Stops (assert req) s n = absurd n

  -- Where the server requires attestation, a request to change something, or to mint a token for a
  -- purchase, whose client token is at no moment that of an attested device, is answered with an
  -- error and leaves the store as it is; all but marking a message as read and attestation itself.
  pub respond-IsUnattested :
      (r : Request) (s : AppState store.State)
      → IsUnattested r
      → (is_err (respond show sur store r s).0 ≡ true) × ((respond show sur store r s).1.db ≡ s.db)
  respond-IsUnattested r s n = let w = respond-Stops r s n in (w.fails, w.same)
