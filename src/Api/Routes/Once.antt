-- ===== src/Api/Routes/Once.antt =====
-- Two requests of the App Attest flow with one challenge, over any `Store`.
use anony_mail.Base.{◌≡◌, sym, ap, ◌∙◌, true, ok, nat_eq, str_eq}
use mathlib.Core.Path.{subst}
use anony_mail.Attest.{ChallengeStore}
use anony_mail.Base.Assoc.{get}
use anony_mail.Base.Text.{Str}
use anony_mail.Model.{Uuid}
use anony_mail.Store.{Store}
use anony_mail.Api.Client
use anony_mail.Api.Client.Once.{IsSpent, attest-spent, assert-spent, attest-Stops, assert-Stops}
use anony_mail.Api.Handler.{AppState, Surroundings}
use anony_mail.Api.Handler.Ensures.{Ensures, then-Ensures, return-Ensures, answered}
use anony_mail.Api.Handler.Stops.{Stops, is_err, first-Stops}
use anony_mail.Api.Routes.{
  Request, read, mark_read, owner, claim, create_address, create_domain, verify_purchase, challenge,
  attest, assert, respond,
}

-- The request answers a challenge.
abbrev pub Presents : Str → Request → Type 0
Presents c (attest req) = c ≡ req.challenge
Presents c (assert req) = c ≡ req.challenge
Presents c (read r) = ⊥
Presents c (mark_read a id) = ⊥
Presents c (owner r h a) = ⊥
Presents c (claim r h d) = ⊥
Presents c (create_address h peer req) = ⊥
Presents c (create_domain h peer d) = ⊥
Presents c (verify_purchase h id) = ⊥
Presents c challenge = ⊥

module _ (show : Uuid → Str) (sur : Surroundings) (store : Store) where
  respond-spent :
      (c : Str) (r : Request) (s : AppState store.State)
      → Presents c r
      → Ensures (respond show sur store r) s (λ a t. IsSpent c t)
  unfolding respond
  respond-spent c (attest req) s p = then-Ensures _ _ s _ (λ a e. return-Ensures tt _ _ (
      subst (λ x. IsSpent x (Client.attest sur store req s).1) (sym p)
        (answered _ s _ a (attest-spent sur store req s) e)))
  respond-spent c (assert req) s p = then-Ensures _ _ s _ (λ a e. return-Ensures tt _ _ (
      subst (λ x. IsSpent x (Client.assert sur store req s).1) (sym p)
        (answered _ s _ a (assert-spent sur store req s) e)))
  respond-spent c (read r) s p = absurd p
  respond-spent c (mark_read a id) s p = absurd p
  respond-spent c (owner r h a) s p = absurd p
  respond-spent c (claim r h d) s p = absurd p
  respond-spent c (create_address h peer req) s p = absurd p
  respond-spent c (create_domain h peer d) s p = absurd p
  respond-spent c (verify_purchase h id) s p = absurd p
  respond-spent c challenge s p = absurd p

  respond_spent-Stops :
      (c : Str) (r : Request) (s : AppState store.State)
      → Presents c r
      → IsSpent c s
      → Stops (respond show sur store r) s
  unfolding respond
  respond_spent-Stops c (attest req) s p h =
      first-Stops _ _ s (attest-Stops sur store req s (subst (λ x. IsSpent x s) p h))
  respond_spent-Stops c (assert req) s p h =
      first-Stops _ _ s (assert-Stops sur store req s (subst (λ x. IsSpent x s) p h))
  respond_spent-Stops c (read r) s p h = absurd p
  respond_spent-Stops c (mark_read a id) s p h = absurd p
  respond_spent-Stops c (owner r h' a) s p h = absurd p
  respond_spent-Stops c (claim r h' d) s p h = absurd p
  respond_spent-Stops c (create_address h' peer req) s p h = absurd p
  respond_spent-Stops c (create_domain h' peer d) s p h = absurd p
  respond_spent-Stops c (verify_purchase h' id) s p h = absurd p
  respond_spent-Stops c challenge s p h = absurd p

  -- Once an attestation or an assertion is answered with a token, another one with the same challenge
  -- is answered with an error and leaves the store as it is, in every state that has the challenges
  -- which the first one left.
  pub respond_once :
      (c : Str) (r r' : Request) (s s' : AppState store.State)
      → Presents c r
      → Presents c r'
      → (respond show sur store r s).0 ≡ ok tt
      → s'.challenges ≡ (respond show sur store r s).1.challenges
      → (is_err (respond show sur store r' s').0 ≡ true)
        × ((respond show sur store r' s').1.db ≡ s'.db)
  respond_once c r r' s s' p p' e k =
      let spent = answered _ s _ tt (respond-spent c r s p) e in
      let spent' : IsSpent c s' = ap (λ (x : ChallengeStore). get x.issued c) k ∙ spent in
      let w = respond_spent-Stops c r' s' p' spent' in (w.fails, w.same)
