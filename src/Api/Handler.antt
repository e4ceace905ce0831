-- ===== src/Api/Handler.antt =====
-- The state that the handlers of src/api/ share (`AppState`), and the monad that they run in: a
-- handler reads and changes the state, and answers with a value or an `ApiError`.
pub mod Keeps
pub mod Stops
pub mod Ensures
pub mod Runs
use anony_mail.Base.{ℕ, ◌+◌, Bool, true, false, not, Option, none, some, List, Result, ok, err}
use anony_mail.Base.Text.{Str}
use anony_mail.Model.{Time, Bytes}
use anony_mail.Config.{Config}
use anony_mail.Store.{Store, StoreError}
use anony_mail.Limits.{RuntimeLimits, Host}
use anony_mail.Attest.{ChallengeStore}
use anony_mail.Attest.Verify.{AppAttest}
use anony_mail.CustomDomains.{DomainDns}
use anony_mail.Entitlements.{Jwt}
use anony_mail.Api.{ApiError, internal}

-- What a request says in its headers, each where it is there and is text.
pub record Headers : Type 0 where
  pub authorization : Option Str
  pub client_token : Option Str
  pub forwarded_for : Option Str
  pub real_ip : Option Str

-- What the handlers use that is not theirs: SHA-256; of each draw from the random source, what a
-- token, a local part (its indices), a TXT token and a challenge make of it; the crates for client
-- tokens and for App Attest; the resolver; the verdict on a purchase when asked at a moment, `none`
-- where it fails; the parser of addresses; which texts are values of a header; and the clock, with
-- the day of a moment.
pub record Surroundings : Type 0 where
  pub config : Config
  pub digest : Bytes → Bytes
  pub random_token : ℕ → Str
  pub random_indices : ℕ → List ℕ
  pub random_txt_token : ℕ → Str
  pub jwt : Jwt
  pub crates : AppAttest
  pub dns : DomainDns
  pub pro : Option (Time → Str → Option Bool)
  pub random_challenge : ℕ → Str
  pub is_header_value : Str → Bool
  pub parse_ip : Str → Option Host
  pub clock : ℕ → Time
  pub today : Time → ℕ

-- The state behind the mutexes and in the store, with how often the clock and the random source were
-- read.
pub record AppState (Db : Type 0) : Type 0 where
  pub db : Db
  pub limits : RuntimeLimits
  pub challenges : ChallengeStore
  pub ticks : ℕ
  pub draws : ℕ

abbrev pub Handler : Type 0 → Type 0 → Type 0
Handler Db A = AppState Db → Result A ApiError × AppState Db

-- `?` on a result of the store, whose failures are internal errors.
abbrev pub from_store : {A : Type 0} → Result A StoreError → Result A ApiError
from_store (ok a) = ok a
from_store (err e) = err internal

module _ {Db : Type 0} where
  abbrev pub resume :
      {A B : Type 0}
      → (A → Handler Db B)
      → Result A ApiError × AppState Db
      → Result B ApiError × AppState Db
  resume f (ok a, s) = f a s
  resume f (err e, s) = (err e, s)

  infixl 5 ◌>>=◌ ◌>>◌
  unfoldable pub ◌>>=◌ : {A B : Type 0} → Handler Db A → (A → Handler Db B) → Handler Db B
  ◌>>=◌ m f s = resume f (m s)

  abbrev pub ◌>>◌ : {A B : Type 0} → Handler Db A → Handler Db B → Handler Db B
  m >> k = m >>= λ _. k

  abbrev pub return : {A : Type 0} → A → Handler Db A
  return a s = (ok a, s)

  abbrev pub throw : {A : Type 0} → ApiError → Handler Db A
  throw e s = (err e, s)

  abbrev pub require : Bool → ApiError → Handler Db (Unit {0})
  require true e = return tt
  require false e = throw e

  -- `ok_or`
  abbrev pub some_or : {A : Type 0} → Option A → ApiError → Handler Db A
  some_or (some a) e = return a
  some_or none e = throw e

  abbrev pub from_result : {A : Type 0} → Result A ApiError → Handler Db A
  from_result (ok a) = return a
  from_result (err e) = throw e

  abbrev pub asking : {A : Type 0} → (Db → Result A ApiError) → Handler Db A
  asking f s = (f s.db, s)

  abbrev pub reading : {A : Type 0} → (Db → Result A StoreError) → Handler Db A
  reading f s = (from_store (f s.db), s)

  -- A call that may change the store, with its result as it is.
  abbrev pub calling : {A : Type 0} → (Db → A × Db) → Handler Db A
  calling f s = let (a, db') = f s.db in (ok a, record s { db = db' })

  abbrev pub writing : {A : Type 0} → (Db → Result A StoreError × Db) → Handler Db A
  writing f s = let (r, db') = f s.db in (from_store r, record s { db = db' })

  abbrev pub limiting : {A : Type 0} → (RuntimeLimits → A × RuntimeLimits) → Handler Db A
  limiting f s = let (a, l) = f s.limits in (ok a, record s { limits = l })

  abbrev pub challenging : {A : Type 0} → (ChallengeStore → A × ChallengeStore) → Handler Db A
  challenging f s = let (a, c) = f s.challenges in (ok a, record s { challenges = c })

  -- `Utc::now()`
  abbrev pub now : Surroundings → Handler Db Time
  now sur s = (ok (sur.clock s.ticks), record s { ticks = s.ticks + 1 })

  -- The number of a draw from the random source.
  abbrev pub draw : Handler Db ℕ
  draw s = (ok s.draws, record s { draws = s.draws + 1 })
