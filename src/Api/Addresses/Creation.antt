-- ===== src/Api/Addresses/Creation.antt =====
-- What a creation of src/api/addresses.rs that is answered with a mailbox has made, in the memory
-- store.
use anony_mail.Base.{
  ℕ, zero, suc, ◌≡◌, refl, ap, ◌∙◌, Bool, true, false, Option, none, some, ◌∷◌, ◌++◌, arith, Result,
  ok, err, nat_eq, str_eq,
}
use mathlib.Core.Path.{subst}
use anony_mail.Base.Text.{Str}
use anony_mail.Base.Assoc.{get}
use anony_mail.Config.{TierPolicy}
use anony_mail.Model.{Time, Mailbox}
use anony_mail.Store.{StoreError, unique_violation, subscription_limit, backend_failure}
use anony_mail.Store.Memory.{Inner}
use anony_mail.Store.Memory.Backend.{MemoryStore, memory_store}
use anony_mail.Api.Addresses.{
  CreateAddressRequest, CreateAddressResponse, random_local_part, chosen_local, chosen_domain,
  created, create_at, create_random, allocate, create, enforced_policy, device_cap, counted_device,
}
use anony_mail.Api.Addresses.Chosen.{
  LocalOf, IsUsable, chosen_local-some, chosen_domain-Usable, chosen_local-ok,
}
use anony_mail.Api.Auth.{hash_token, generate_token, token_prefix}
use anony_mail.Api.Gate.{attestation_gate}
use anony_mail.Api.Gate.Keeps.{attestation_gate-Keeps}
use anony_mail.Api.Handler.{
  AppState, Surroundings, Headers, Handler, require, calling, from_result, draw, now, limiting,
}
use anony_mail.Api.Handler.Keeps.{Keeps, keeps, from_result-Keeps, >>=-Keeps, require-Keeps}
use anony_mail.Api.Handler.Ensures.{
  Ensures, then-Ensures, known-Ensures, return-Ensures, from_result-ok, kept-Ensures, answered,
  weaken-Ensures,
}
use anony_mail.Limits.{Host}
use anony_mail.Api.Addresses.Made.{Outcome, create_mailbox-Outcome}

module _ (sur : Surroundings) where
  -- The local part that the request names, which is valid and not reserved, or a random one.
  abbrev pub Named : Option Str → Str → Type 0
  Named none local = (k : ℕ) × (local ≡ random_local_part (sur.random_indices k))
  Named (some raw) local = LocalOf sur.config raw local

  -- A mailbox that was not there before, and is the presenter's of the token in the answer.
  abbrev pub IsFresh : Inner → Str → CreateAddressResponse → AppState MemoryStore → Type 0
  IsFresh inner address r s =
      (r.mailbox.address ≡ address)
      × (get inner.mailboxes address ≡ none)
      × (get s.db.inner.mailboxes address ≡ some r.mailbox)
      × (r.mailbox.owner_token_hash ≡ some (hash_token sur.digest r.owner_token))

  -- It has an address of the domain, with a local part of which a predicate holds.
  abbrev pub MadeAt :
      Inner → Str → (Str → Type 0) → CreateAddressResponse → AppState MemoryStore → Type 0
  MadeAt inner domain P r s = (local : Str) × P local × IsFresh inner (local ++ (b'@' ∷ domain)) r s

  module _ (inner : Inner) (domain : Str) (P : Str → Type 0) where
    created-MadeAt :
        (local token : Str) (otherwise : Handler MemoryStore CreateAddressResponse)
        (r : Result Mailbox StoreError) (s : AppState MemoryStore)
        → P local
        → Outcome inner
            (local ++ (b'@' ∷ domain))
            (some (hash_token sur.digest token))
            (r, s.db.inner)
        → ((s' : AppState MemoryStore)
            → s'.db.inner ≡ inner
            → Ensures otherwise s' (MadeAt inner domain P))
        → Ensures (created sur memory_store token otherwise r) s (MadeAt inner domain P)
    unfolding created
    created-MadeAt local token otherwise (ok m) s p (was, held, owner, a) h =
        return-Ensures _ s _ (local, p, (a, was, held, owner))
    created-MadeAt local token otherwise (err (unique_violation m)) s p same h = h s same
    created-MadeAt local token otherwise (err (subscription_limit n)) s p same h = record {
      holds = tt;
    }
    created-MadeAt local token otherwise (err backend_failure) s p same h = record { holds = tt }

    create_at-MadeAt :
        (n : ℕ) (local : Str) (t : Time) (device : Option Str)
        (otherwise : Handler MemoryStore CreateAddressResponse) (s : AppState MemoryStore)
        → P local
        → s.db.inner ≡ inner
        → ((s' : AppState MemoryStore)
            → s'.db.inner ≡ inner
            → Ensures otherwise s' (MadeAt inner domain P))
        → Ensures
            (create_at sur memory_store n (local ++ (b'@' ∷ domain)) domain t device otherwise)
            s
            (MadeAt inner domain P)
    unfolding create_at generate_token
    create_at-MadeAt n local t device otherwise s p same h =
        let (token, hash) = generate_token sur.digest token_prefix (sur.random_token n) in
        let made = λ (db : MemoryStore).
          memory_store.create_mailbox db (local ++ (b'@' ∷ domain)) domain t (some hash) device in
        let now' = s.db.clock s.db.ticks in
        let out =
          create_mailbox-Outcome s.db.inner (local ++ (b'@' ∷ domain)) domain t (some hash) device
            now' in
        known-Ensures (calling made) _ s (calling made s).1 (made s.db).0 _ refl (
          created-MadeAt local token otherwise (made s.db).0 (calling made s).1 p
            (subst
              (λ i.
                Outcome i (local ++ (b'@' ∷ domain)) (some hash)
                  ((made s.db).0, (made s.db).1.inner))
              same out)
            h)

  create_random-MadeAt :
      (attempts : ℕ) (inner : Inner) (domain : Str) (t : Time) (device : Option Str)
      (s : AppState MemoryStore)
      → s.db.inner ≡ inner
      → Ensures
          (create_random sur memory_store attempts domain t device)
          s
          (MadeAt inner domain (Named none))
  unfolding create_random
  create_random-MadeAt zero inner domain t device s same = record { holds = tt }
  create_random-MadeAt (suc attempts) inner domain t device s same = then-Ensures draw _ s _ (λ n e.
      then-Ensures draw _ (draw s).1 _ (λ k e'.
        create_at-MadeAt inner domain (Named none) n (random_local_part (sur.random_indices k)) t
          device _ _ (k, refl) same
          (λ s' same'. create_random-MadeAt attempts inner domain t device s' same')))

  allocate-MadeAt :
      (inner : Inner) (domain : Str) (t : Time) (device : Option Str) (policy : Option TierPolicy)
      (o raw : Option Str) (s : AppState MemoryStore)
      → s.db.inner ≡ inner
      → chosen_local sur.config policy raw ≡ ok o
      → Ensures (allocate sur memory_store domain t device o) s (MadeAt inner domain (Named raw))
  unfolding allocate chosen_local
  allocate-MadeAt inner domain t device policy none none s same e =
      create_random-MadeAt 5 inner domain t device s same
  allocate-MadeAt inner domain t device policy (some local) none s same e = ground arith
  allocate-MadeAt inner domain t device policy none (some raw) s same e =
      absurd (chosen_local-some sur.config policy raw e)
  allocate-MadeAt inner domain t device policy (some local) (some raw) s same e =
      then-Ensures draw _ s _ (λ n e'.
        create_at-MadeAt inner domain (Named (some raw)) n local t device _ _
          (chosen_local-ok sur.config policy raw local e) same (λ s' same'. record { holds = tt }))

  counted_device-Keeps :
      (p : TierPolicy) (h : Str) (b : Bool) → Keeps (counted_device sur memory_store p h b)
  unfolding counted_device
  counted_device-Keeps p h false = keeps _ (λ s. refl)
  counted_device-Keeps p h true =
      >>=-Keeps _ _ (keeps _ (λ s. refl))
        (λ t. >>=-Keeps _ _ (keeps _ (λ s. refl)) (λ n. require-Keeps _ _))

  device_cap-Keeps :
      (p : Option TierPolicy) (h : Option Str) → Keeps (device_cap sur memory_store p h)
  unfolding device_cap
  device_cap-Keeps none h = keeps _ (λ s. refl)
  device_cap-Keeps (some p) none = keeps _ (λ s. refl)
  device_cap-Keeps (some p) (some h) = counted_device-Keeps p h _

  -- A creation that is answered with a mailbox has made one under an address that was free, with
  -- the hash of the token of the answer. The domain of the address is a configured one or, where
  -- custom domains are on, one whose claim is verified and whose token the `Authorization` header
  -- presents: `Bearer` and a token whose digest, in hex, is the stored hash. Its local
  -- part is the one that the request names, which is valid and not reserved, or a random one.
  pub create-IsFresh :
      (h : Headers) (peer : Host) (req : CreateAddressRequest) (s : AppState MemoryStore)
      → Ensures (create sur memory_store h peer req) s (λ r s'.
        (domain : Str) × IsUsable sur h s.db domain
        × MadeAt s.db.inner domain (Named req.local_part) r s')
  unfolding create
  create-IsFresh h peer req s =
      kept-Ensures (attestation_gate sur h) _ s s.db _ (attestation_gate-Keeps sur h) refl
        (λ client s1 e1 same1.
          let policy = enforced_policy sur.config client in
          let choice = chosen_domain sur memory_store h policy req.domain in
          then-Ensures choice _ s1 _ (λ domain e2.
            let (same2, usable) =
              answered choice s1 _ domain (chosen_domain-Usable sur h policy req.domain s1) e2 in
            let here = subst (λ db. IsUsable sur h db domain) same1 usable in
            kept-Ensures (from_result (chosen_local sur.config policy req.local_part)) _
              (choice s1).1 s.db _ (from_result-Keeps _) (same2 ∙ same1)
              (λ local s3 e3 same3.
                kept-Ensures (device_cap sur memory_store policy _) _ s3 s.db _
                  (device_cap-Keeps policy _) same3
                  (λ u s4 e4 same4.
                    kept-Ensures (now sur) _ s4 s.db _ (keeps _ (λ s. refl)) same4 (λ t s5 e5 same5.
                      kept-Ensures (limiting _) _ s5 s.db _ (keeps _ (λ s. refl)) same5
                        (λ allowed s6 e6 same6.
                          kept-Ensures (require allowed _) _ s6 s.db _ (require-Keeps _ _) same6
                            (λ v s7 e7 same7.
                              kept-Ensures (now sur) _ s7 s.db _ (keeps _ (λ s. refl)) same7
                                (λ from s8 e8 same8.
                                  weaken-Ensures _ s8 _ _
                                    (allocate-MadeAt s.db.inner domain _ _ policy local
                                      req.local_part s8 (ap (λ (db : MemoryStore). db.inner) same8)
                                      (from_result-ok _ (choice s1).1 local e3))
                                    (λ r s' made. (domain, here, made))))))))))
