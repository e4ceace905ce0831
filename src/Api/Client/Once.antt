-- ===== src/Api/Client/Once.antt =====
-- A challenge is good for one answer of src/api/client.rs.
use anony_mail.Base.{
  ◌-◌, ◌≡◌, refl, ap, ◌∙◌, Bool, true, false, Option, none, some, arith, ltb, if-true, ==_refl,
  Result, is_some_and, ok, err, nat_eq, str_eq,
}
use anony_mail.Base.Text.{Str}
use anony_mail.Base.Assoc.{get, get-remove}
use anony_mail.Attest.{consume}
use anony_mail.Model.{Time}
use anony_mail.Store.{Store}
use anony_mail.Api.{ApiError}
use anony_mail.Api.Client.{
  AttestRequest, consume_challenge, attest, assert, mint, require_configured, validate_key_id,
}
use anony_mail.Api.Gate.{resolve_tier, tier_for, tier_by, minted}
use anony_mail.Api.Handler.{
  AppState, Surroundings, Handler, ◌>>=◌, resume, require, some_or, from_result,
}
use anony_mail.Api.Handler.Ensures.{Post, Ensures, then-Ensures}
use anony_mail.Api.Handler.Keeps.{require-Keeps}
use anony_mail.Api.Handler.Stops.{Stops, is_err, first-Stops}

-- The challenge is not outstanding.
abbrev pub IsSpent : {Db : Type 0} → Str → AppState Db → Type 0
IsSpent c s = get s.challenges.issued c ≡ none

refused :
    {Db : Type 0} (b : Bool) (e : ApiError) (s : AppState Db)
    → b ≡ false
    → is_err (require b e s).0 ≡ true
refused true e s h = ground arith
refused false e s h = refl

-- A handler that gives out no challenge of a text.
record Spares {Db A : Type 0} (c : Str) (m : Handler Db A) : Type 0 where
  spent : (s : AppState Db) → IsSpent c s → IsSpent c (m s).1

module _ {Db : Type 0} (c : Str) where
  spares :
      {A : Type 0} (m : Handler Db A)
      → ((s : AppState Db) → IsSpent c s → IsSpent c (m s).1)
      → Spares c m
  spares m h = record { spent = h }

  resume-Spares :
      {A B : Type 0} (f : A → Handler Db B) (r : Result A ApiError) (s : AppState Db)
      → IsSpent c s
      → ((a : A) → Spares c (f a))
      → IsSpent c (resume f (r, s)).1
  resume-Spares f (ok a) s h k = (k a).spent s h
  resume-Spares f (err e) s h k = h

  >>=-Spares :
      {A B : Type 0} (m : Handler Db A) (f : A → Handler Db B)
      → Spares c m
      → ((a : A) → Spares c (f a))
      → Spares c (m >>= f)
  unfolding ◌>>=◌
  >>=-Spares m f h k = spares (m >>= f) (λ s x. resume-Spares f (m s).0 (m s).1 (h.spent s x) k)

  require-Spares : (b : Bool) (e : ApiError) → Spares {Db = Db} c (require b e)
  require-Spares true e = spares _ (λ s h. h)
  require-Spares false e = spares _ (λ s h. h)

  some_or-Spares : {A : Type 0} (o : Option A) (e : ApiError) → Spares {Db = Db} c (some_or o e)
  some_or-Spares (some a) e = spares _ (λ s h. h)
  some_or-Spares none e = spares _ (λ s h. h)

  from_result-Spares : {A : Type 0} (r : Result A ApiError) → Spares {Db = Db} c (from_result r)
  from_result-Spares (ok a) = spares _ (λ s h. h)
  from_result-Spares (err e) = spares _ (λ s h. h)

  held :
      {A : Type 0} (r : Result A ApiError) (s : AppState Db)
      → IsSpent c s
      → Post (λ a s'. IsSpent c s') (r, s)
  held (ok a) s h = h
  held (err e) s h = tt

  spared :
      {A : Type 0} (m : Handler Db A) (s : AppState Db)
      → Spares c m
      → IsSpent c s
      → Ensures m s (λ a s'. IsSpent c s')
  spared m s h k = record { holds = held (m s).0 (m s).1 (h.spent s k) }

  module _ (sur : Surroundings) where
    tier_by-Spares : (o : Option Bool) → Spares {Db = Db} c (tier_by sur o)
    tier_by-Spares (some true) = spares _ (λ s h. h)
    tier_by-Spares (some false) = spares _ (λ s h. h)
    tier_by-Spares none = spares _ (λ s h. h)

    tier_for-Spares :
        (id : Option Str) (v : Option (Time → Str → Option Bool))
        → Spares {Db = Db} c (tier_for sur id v)
    unfolding tier_for
    tier_for-Spares (some id) (some v) =
        >>=-Spares _ _ (spares _ (λ s h. h)) (λ t. tier_by-Spares (v t id))
    tier_for-Spares (some id) none = spares _ (λ s h. h)
    tier_for-Spares none v = spares _ (λ s h. h)

    mint-Spares : (key : Str) (id : Option Str) → Spares {Db = Db} c (mint sur key id)
    unfolding mint minted resolve_tier
    mint-Spares key id = >>=-Spares _ _ (some_or-Spares _ _) (λ k.
        >>=-Spares _ _ (tier_for-Spares _ _) (λ t.
          >>=-Spares _ _ (>>=-Spares _ _ (spares _ (λ s h. h)) (λ a. some_or-Spares _ _))
            (λ m. spares _ (λ s h. h))))

    -- Once presented, a challenge is spent.
    consume_challenge-spent : (s : AppState Db) → IsSpent c (consume_challenge sur c s).1
    unfolding consume_challenge consume ◌>>=◌
    consume_challenge-spent s =
        (require-Spares _ _).spent _ (get-remove s.challenges.issued c c ∙ if-true _ _ (==_refl c))

    refused_challenge : (s : AppState Db) → IsSpent c s → Stops (consume_challenge sur c) s
    unfolding consume_challenge consume ◌>>=◌
    refused_challenge s h = record {
      fails =
          refused _ _ _
            (ap (λ o. is_some_and o (λ at_. ltb (sur.clock s.ticks - at_) s.challenges.ttl)) h);
      same = (require-Keeps _ _).same _;
    }

-- Checks that leave the state as it is come before what fails.
module _ {Db : Type 0} where
  some_or-Stops :
      {A B : Type 0} (o : Option A) (e : ApiError) (f : A → Handler Db B) (s : AppState Db)
      → ((a : A) → Stops (f a) s)
      → Stops (some_or o e >>= f) s
  unfolding ◌>>=◌
  some_or-Stops (some a) e f s h = record { fails = (h a).fails; same = (h a).same }
  some_or-Stops none e f s h = record { fails = refl; same = refl }

  require-Stops :
      {B : Type 0} (b : Bool) (e : ApiError) (f : Unit {0} → Handler Db B) (s : AppState Db)
      → Stops (f tt) s
      → Stops (require b e >>= f) s
  unfolding ◌>>=◌
  require-Stops true e f s h = record { fails = h.fails; same = h.same }
  require-Stops false e f s h = record { fails = refl; same = refl }

module _ (sur : Surroundings) (store : Store) where
  pub attest-spent :
      (req : AttestRequest) (s : AppState store.State)
      → Ensures (attest sur store req) s (λ a s'. IsSpent req.challenge s')
  unfolding attest
  attest-spent req s = then-Ensures _ _ s _ (λ app_id e1. then-Ensures _ _ _ _ (λ u e2.
      then-Ensures _ _ _ _ (λ v e3.
        spared req.challenge _ _
          (>>=-Spares req.challenge _ _ (from_result-Spares _ _) (λ key.
            >>=-Spares _ _ _ (spares _ _ (λ s h. h))
              (λ t. >>=-Spares _ _ _ (spares _ _ (λ s h. h)) (λ w. mint-Spares _ sur _ _))))
          (consume_challenge-spent req.challenge sur _))))

  pub assert-spent :
      (req : AttestRequest) (s : AppState store.State)
      → Ensures (assert sur store req) s (λ a s'. IsSpent req.challenge s')
  unfolding assert
  assert-spent req s = then-Ensures _ _ s _ (λ app_id e1. then-Ensures _ _ _ _ (λ u e2.
      then-Ensures _ _ _ _ (λ v e3.
        spared req.challenge _ _
          (>>=-Spares req.challenge _ _ (spares _ _ (λ s h. h)) (λ known.
            >>=-Spares _ _ _ (some_or-Spares _ _ _) (λ device.
              >>=-Spares _ _ _ (from_result-Spares _ _) (λ counter.
                >>=-Spares _ _ _ (spares _ _ (λ s h. h)) (λ t.
                  >>=-Spares _ _ _ (spares _ _ (λ s h. h)) (λ advanced.
                    >>=-Spares _ _ _ (require-Spares _ _ _) (λ w. mint-Spares _ sur _ _)))))))
          (consume_challenge-spent req.challenge sur _))))

  pub attest-Stops :
      (req : AttestRequest) (s : AppState store.State)
      → IsSpent req.challenge s
      → Stops (attest sur store req) s
  unfolding attest require_configured validate_key_id
  attest-Stops req s h = some_or-Stops _ _ _ s (λ app_id.
      require-Stops _ _ _ s (first-Stops _ _ s (refused_challenge req.challenge sur s h)))

  pub assert-Stops :
      (req : AttestRequest) (s : AppState store.State)
      → IsSpent req.challenge s
      → Stops (assert sur store req) s
  unfolding assert require_configured validate_key_id
  assert-Stops req s h = some_or-Stops _ _ _ s (λ app_id.
      require-Stops _ _ _ s (first-Stops _ _ s (refused_challenge req.challenge sur s h)))
