-- ===== src/Api/Routes.antt =====
-- The routes of src/api/mod.rs, over any `Store`: which handler answers a request. What the answer
-- holds is the handler's matter; here it is an answer or an error.
pub mod Refusals
pub mod Once
pub mod Unattested
use anony_mail.Base.{Option, [], all, any, nat_eq, str_eq}
use anony_mail.Base.Text.{Str, text}
use anony_mail.Limits.{Host}
use anony_mail.Model.{Uuid}
use anony_mail.Store.{Store}
use anony_mail.Api.{ApiError, not_found}
use anony_mail.Api.Addresses
use anony_mail.Api.Addresses.Manage
use anony_mail.Api.Addresses.{CreateAddressRequest}
use anony_mail.Api.Client
use anony_mail.Api.Client.{AttestRequest}
use anony_mail.Api.Domains
use anony_mail.Api.Gate
use anony_mail.Api.Handler.{Surroundings, Headers, Handler, ◌>>=◌, ◌>>◌, return, require}
use anony_mail.Api.Messages
use anony_mail.Api.Messages.{ListQuery}
use anony_mail.Api.Push
use anony_mail.Api.Push.{SubscribeRequest, UnsubscribeRequest}
use anony_mail.Api.Sse

-- What only the owner of a mailbox may do.
pub data OwnerRequest : Type 0 where
  extend delete_address rotate clear : OwnerRequest
  delete_message : Uuid → OwnerRequest
  subscribe : SubscribeRequest → OwnerRequest
  unsubscribe : UnsubscribeRequest → OwnerRequest

-- What only the holder of a claim may do.
pub data ClaimRequest : Type 0 where
  get_domain verify_domain delete_domain : ClaimRequest

-- What is open to all.
pub data ReadRequest : Type 0 where
  get_address : Str → ReadRequest
  list_messages : Str → ListQuery → ReadRequest
  get_message : Str → Uuid → ReadRequest
  get_raw : Str → Uuid → ReadRequest
  get_attachment : Str → Uuid → Uuid → ReadRequest
  events : Headers → Host → Str → ReadRequest

pub data Request : Type 0 where
  read : ReadRequest → Request
  mark_read : Str → Uuid → Request
  owner : OwnerRequest → Headers → Str → Request
  claim : ClaimRequest → Headers → Str → Request
  create_address : Headers → Host → CreateAddressRequest → Request
  create_domain : Headers → Host → Str → Request
  verify_purchase : Headers → Option Str → Request
  challenge : Request
  attest assert : AttestRequest → Request

module _ (show : Uuid → Str) (sur : Surroundings) (store : Store) where
  abbrev pub answer : {A : Type 0} → Handler store.State A → Handler store.State (Unit {0})
  answer m = m >>= λ a. return tt

  unfoldable pub respond_read : ReadRequest → Handler store.State (Unit {0})
  respond_read (get_address a) = answer (Manage.get sur store a)
  respond_read (list_messages a q) = answer (Messages.list sur store a q)
  respond_read (get_message a id) = answer (Messages.get sur store a id)
  respond_read (get_raw a id) = answer (Messages.get_raw sur store show a id)
  respond_read (get_attachment a id att) = answer (Messages.get_attachment sur store a id att)
  respond_read (events h peer a) = answer (Sse.events sur h peer a)

  unfoldable pub respond_owner : OwnerRequest → Headers → Str → Handler store.State (Unit {0})
  respond_owner extend h a = answer (Manage.extend sur store h a)
  respond_owner delete_address h a = answer (Manage.delete sur store h a)
  respond_owner rotate h a = answer (Manage.rotate sur store h a)
  respond_owner clear h a = answer (Messages.clear sur store h a)
  respond_owner (delete_message id) h a = answer (Messages.delete sur store h a id)
  respond_owner (subscribe req) h a = answer (Push.subscribe sur store h a req)
  respond_owner (unsubscribe req) h a = answer (Push.unsubscribe sur store h a req)

  unfoldable pub respond_claim : ClaimRequest → Headers → Str → Handler store.State (Unit {0})
  respond_claim get_domain h d = answer (Domains.get sur store h d)
  respond_claim verify_domain h d = answer (Domains.verify sur store h d)
  respond_claim delete_domain h d = answer (Domains.delete sur store h d)

  -- A route that is mounted only where custom domains are enabled.
  abbrev pub mounted : Handler store.State (Unit {0}) → Handler store.State (Unit {0})
  mounted m = require sur.config.custom_domains_enabled (not_found []) >> m

  unfoldable pub respond : Request → Handler store.State (Unit {0})
  respond (read r) = respond_read r
  respond (mark_read a id) = answer (Messages.mark_read sur store a id)
  respond (owner r h a) = respond_owner r h a
  respond (claim r h d) = mounted (respond_claim r h d)
  respond (create_address h peer req) = answer (Addresses.create sur store h peer req)
  respond (create_domain h peer d) = mounted (answer (Domains.create sur store h peer d))
  respond (verify_purchase h id) = answer (Gate.verify sur h id)
  respond challenge = answer (Client.challenge sur)
  respond (attest req) = answer (Client.attest sur store req)
  respond (assert req) = answer (Client.assert sur store req)
