-- ===== src/Api/Addresses/Success.antt =====
-- When `create` of src/api/addresses.rs makes the mailbox it is asked for, on a server that is open to
-- all.
use anony_mail.Base.{
  ◌+◌, ◌≡◌, refl, sym, ap, ◌∙◌, Bool, true, false, not, Option, none, some, List, ◌∷◌, ◌++◌, arith,
  if◌then◌else◌, if-true, ==_refl, Result, ok, err, nat_eq, str_eq,
}
use mathlib.Core.Path.{subst}
use anony_mail.Base.Text.{Str, text, trim, trimmed, to_ascii_lowercase}
use anony_mail.Base.Assoc.{get, get-insert}
use anony_mail.Config.{Config, is_reserved_local_part}
use anony_mail.Entitlements.{ClientClaims}
use anony_mail.Limits.{RuntimeLimits, Host, note_address_created, client_ip}
use anony_mail.Model.{Time, Mailbox, seconds}
use anony_mail.Store.{StoreError}
use anony_mail.Store.Memory.{Inner}
use anony_mail.Store.Memory.Backend.{after, MemoryStore, memory_store}
use anony_mail.Api.{ApiError, conflict}
use anony_mail.Api.Addresses.{
  CreateAddressResponse, is_valid_local_part, enforced_policy, device_of, chosen_local,
  chosen_domain, first_domain, device_cap, created, create_at, allocate, create,
}
use anony_mail.Api.Addresses.Lifetime.{no_claims}
use anony_mail.Api.Auth.{authorize_owner, bearer_token, generate_token, hash_token, token_prefix}
use anony_mail.Api.Auth.Owner.{authorize_owner_known}
use anony_mail.Api.Gate.{attestation_gate, attested_only, client_claims}
use anony_mail.Api.Handler.{AppState, Surroundings, Headers, ◌>>=◌, throw, from_result}
use anony_mail.Api.Handler.Runs.{then_ok, step_of, required_ok}
use anony_mail.Api.Addresses.Made.{create_mailbox_free}

module _ {Db : Type 0} where
  not_gated :
      (sur : Surroundings) (b : Bool) (c : Option ClientClaims) (s : AppState Db)
      → b ≡ false
      → attested_only sur b c s ≡ (ok c, s)
  unfolding attested_only
  not_gated sur true c s h = ground arith
  not_gated sur false c s h = refl

  open_gate :
      (sur : Surroundings) (h : Headers) (s : AppState Db)
      → sur.config.client_attestation_required ≡ false
      → trimmed h.client_token ≡ none
      → attestation_gate sur h s ≡ (ok none, s)
  unfolding attestation_gate client_claims
  open_gate sur h s off no_token =
      then_ok _ (attested_only sur sur.config.client_attestation_required) s s none
        (no_claims sur (trimmed h.client_token) sur.config.token_signing_key s no_token)
      ∙ not_gated sur sur.config.client_attestation_required none s off

open_tests :
    (valid reserved : Bool) (l : Str) (e1 e2 : ApiError) (r : Result (Option Str) ApiError)
    → valid ≡ true
    → reserved ≡ false
    → r ≡ (if not valid then err e1 else if reserved then err e2 else ok (some l))
    → r ≡ ok (some l)
open_tests false b l e1 e2 r h k e = ground arith
open_tests true true l e1 e2 r h k e = ground arith
open_tests true false l e1 e2 r h k e = e

chosen_open :
    (config : Config) (raw : Str)
    → is_valid_local_part (to_ascii_lowercase (trim raw)) ≡ true
    → is_reserved_local_part config (to_ascii_lowercase (trim raw)) ≡ false
    → chosen_local config none (some raw) ≡ ok (some (to_ascii_lowercase (trim raw)))
unfolding chosen_local
chosen_open config raw valid free =
    open_tests _ _ (to_ascii_lowercase (trim raw)) _ _ _ valid free refl

policy_if : {A : Type 0} (b : Bool) (p : A) → b ≡ false → (if b then some p else none) ≡ none
policy_if true p h = ground arith
policy_if false p h = refl

no_policy :
    (config : Config) → config.entitlements_enforced ≡ false → enforced_policy config none ≡ none
unfolding enforced_policy
no_policy config off = policy_if config.entitlements_enforced _ off

module _ (sur : Surroundings) where
  -- The answer: the mailbox and its token.
  abbrev pub answer_of : Str → Str → Time → AppState MemoryStore → CreateAddressResponse
  answer_of local d from s =
      let token = token_prefix ++ sur.random_token s.draws in
      record {
        mailbox = record {
          address = local ++ (b'@' ∷ d);
          domain = d;
          created_at = s.db.clock s.db.ticks;
          expires_at = from + seconds sur.config.default_ttl;
          owner_token_hash = some (hash_token sur.digest token);
          creator_device_hash = none;
        };
        owner_token = token;
      }

  -- The store holds the mailbox of the answer.
  abbrev pub IsMade :
      Str
      → Str
      → Time
      → AppState MemoryStore
      → Result CreateAddressResponse ApiError × AppState MemoryStore
      → Type 0
  IsMade local d from s (r, s') =
      (r ≡ ok (answer_of local d from s))
      × (get s'.db.inner.mailboxes (local ++ (b'@' ∷ d)) ≡ some (answer_of local d from s).mailbox)

  allocate-IsMade :
      (local d : Str) (from : Time) (s : AppState MemoryStore)
      → get s.db.inner.mailboxes (local ++ (b'@' ∷ d)) ≡ none
      → IsMade local d from s
          (allocate sur memory_store d (from + seconds sur.config.default_ttl) none (some local) s)
  unfolding allocate create_at created generate_token ◌>>=◌
  allocate-IsMade local d from s free =
      let a = local ++ (b'@' ∷ d) in
      let token = token_prefix ++ sur.random_token s.draws in
      let e =
        create_mailbox_free s.db.inner a d (from + seconds sur.config.default_ttl)
          (some (hash_token sur.digest token)) none (s.db.clock s.db.ticks) free in
      let answer : Result Mailbox StoreError × Inner
          → Result CreateAddressResponse ApiError × AppState MemoryStore =
        λ x.
          created sur memory_store token (throw (conflict (text "address already exists: " ++ a)))
            (after s.db 1 0 x).0 (record s { db = (after s.db 1 0 x).1; draws = s.draws + 1 }) in
      subst (λ x. IsMade local d from s (answer x)) (sym e)
        (refl, get-insert s.db.inner.mailboxes a a _ ∙ if-true _ _ (==_refl a) ∙ refl)

  module _ (h : Headers) where
    -- A creation that names a free address on a server that is open to all.
    create_free :
        (peer : Host) (raw d : Str) (ds : List Str) (s : AppState MemoryStore)
        → sur.config.client_attestation_required ≡ false
        → sur.config.entitlements_enforced ≡ false
        → trimmed h.client_token ≡ none
        → sur.config.domains ≡ d ∷ ds
        → is_valid_local_part (to_ascii_lowercase (trim raw)) ≡ true
        → is_reserved_local_part sur.config (to_ascii_lowercase (trim raw)) ≡ false
        → (note_address_created s.limits
            (client_ip sur.parse_ip h.forwarded_for h.real_ip peer
              sur.config.api_trust_proxy_headers)
            (sur.today (sur.clock s.ticks))).0
          ≡ true
        → get s.db.inner.mailboxes (to_ascii_lowercase (trim raw) ++ (b'@' ∷ d)) ≡ none
        → IsMade
            (to_ascii_lowercase (trim raw))
            d
            (sur.clock (s.ticks + 1))
            s
            (create sur memory_store h peer (record { local_part = some raw; domain = none }) s)
    unfolding create chosen_domain device_cap device_of
    create_free peer raw d ds s off unenforced no_token domains valid unreserved allowed free =
        let l = to_ascii_lowercase (trim raw) in
        let P = IsMade l d (sur.clock (s.ticks + 1)) s in
        let policy = enforced_policy sur.config none in
        let np : policy ≡ none = no_policy sur.config unenforced in
        let named : chosen_local sur.config policy (some raw) ≡ ok (some l) =
          subst (λ p. chosen_local sur.config p (some raw) ≡ ok (some l)) (sym np)
            (chosen_open sur.config raw valid unreserved) in
        let s1 : AppState MemoryStore = record s { ticks = s.ticks + 1 } in
        let noted = λ (x : RuntimeLimits).
          note_address_created x
            (client_ip sur.parse_ip h.forwarded_for h.real_ip peer
              sur.config.api_trust_proxy_headers)
            (sur.today (sur.clock s.ticks)) in
        let s2 : AppState MemoryStore = record s1 { limits = (noted s.limits).1 } in
        let s3 : AppState MemoryStore = record s2 { ticks = s.ticks + 1 + 1 } in
        step_of P _ _ s s none (open_gate sur h s off no_token) (
          step_of P _ _ s s d (ap (λ x. first_domain sur memory_store x s) domains) (
            step_of P _ _ s s (some l) (ap (λ r. from_result r s) named) (
              step_of P _ _ s s tt
                (subst (λ p. device_cap sur memory_store p none s ≡ (ok tt, s)) (sym np) refl)
                (step_of P _ _ s s1 (sur.clock s.ticks) refl (
                  step_of P _ _ s1 s2 (noted s.limits).0 refl (
                    step_of P _ _ s2 s2 tt (required_ok _ _ s2 allowed) (
                      step_of P _ _ s2 s3 (sur.clock (s.ticks + 1)) refl
                        (allocate-IsMade l d (sur.clock (s.ticks + 1)) s3 free))))))))

    -- On a server that neither requires attestation nor enforces tiers, a request without a client token
    -- that names a local part is answered with a mailbox for it on the first domain, if the local part
    -- is valid and not reserved, the daily limit is not reached and the memory store has no such
    -- address; and who presents the token of the answer is its owner.
    pub create-authorize_owner :
        (authorization : Option Str) (peer : Host) (raw d : Str) (ds : List Str)
        (s : AppState MemoryStore)
        → sur.config.client_attestation_required ≡ false
        → sur.config.entitlements_enforced ≡ false
        → trimmed h.client_token ≡ none
        → sur.config.domains ≡ d ∷ ds
        → is_valid_local_part (to_ascii_lowercase (trim raw)) ≡ true
        → is_reserved_local_part sur.config (to_ascii_lowercase (trim raw)) ≡ false
        → (note_address_created s.limits
            (client_ip sur.parse_ip h.forwarded_for h.real_ip peer
              sur.config.api_trust_proxy_headers)
            (sur.today (sur.clock s.ticks))).0
          ≡ true
        → get s.db.inner.mailboxes (to_ascii_lowercase (trim raw) ++ (b'@' ∷ d)) ≡ none
        → bearer_token authorization ≡ some (token_prefix ++ sur.random_token s.draws)
        → ((create sur memory_store h peer (record { local_part = some raw; domain = none }) s).0
            ≡ ok (answer_of (to_ascii_lowercase (trim raw)) d (sur.clock (s.ticks + 1)) s))
          × (authorize_owner sur.digest memory_store
                (create sur memory_store h peer
                  (record { local_part = some raw; domain = none })
                  s).1.db
                (to_ascii_lowercase (trim raw) ++ (b'@' ∷ d))
                authorization
              ≡ ok
                  (answer_of (to_ascii_lowercase (trim raw)) d (sur.clock (s.ticks + 1)) s).mailbox)
    create-authorize_owner authorization peer raw d ds s off unenforced no_token domains valid
          unreserved allowed free bearer =
        let (answered, held) =
          create_free peer raw d ds s off unenforced no_token domains valid unreserved allowed
            free in
        (
          answered,
          authorize_owner_known sur.digest
              (create sur memory_store h peer (record { local_part = some raw; domain = none })
                s).1.db
              _ (token_prefix ++ sur.random_token s.draws) authorization
              (answer_of (to_ascii_lowercase (trim raw)) d (sur.clock (s.ticks + 1)) s).mailbox held
              refl bearer,
        )
