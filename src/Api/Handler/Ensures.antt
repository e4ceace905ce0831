-- ===== src/Api/Handler/Ensures.antt =====
-- What holds of the answer of a handler and of the state behind it, if it is no error.
use anony_mail.Base.{
  ◌≡◌, refl, sym, ◌∙◌, Bool, true, false, Option, none, some, arith, Result, ok, err,
}
use anony_mail.Api.{ApiError}
use anony_mail.Api.Handler.{
  AppState, Handler, ◌>>=◌, resume, return, require, some_or, from_result, from_store,
}
use anony_mail.Api.Handler.Keeps.{Keeps}
use anony_mail.Store.{StoreError}
use mathlib.Core.Path.{subst}

abbrev pub Post :
    {Db A : Type 0} → (A → AppState Db → Type 0) → Result A ApiError × AppState Db → Type 0
Post Q (ok a, s) = Q a s
Post Q (err e, s) = Unit

pub record Ensures {Db A : Type 0} (m : Handler Db A) (s : AppState Db)
    (Q : A → AppState Db → Type 0) : Type 0 where
  pub holds : Post Q (m s)

module _ {Db : Type 0} where
  continued :
      {A B : Type 0} (f : A → Handler Db B) (Q : B → AppState Db → Type 0) (r : Result A ApiError)
      (s' : AppState Db)
      → ((a : A) → r ≡ ok a → Ensures (f a) s' Q)
      → Post Q (resume f (r, s'))
  continued f Q (ok a) s' h = (h a refl).holds
  continued f Q (err e) s' h = tt

  -- What follows an action starts from the state behind it, with its answer.
  pub then-Ensures :
      {A B : Type 0} (m : Handler Db A) (f : A → Handler Db B) (s : AppState Db)
      (Q : B → AppState Db → Type 0)
      → ((a : A) → (m s).0 ≡ ok a → Ensures (f a) (m s).1 Q)
      → Ensures (m >>= f) s Q
  unfolding ◌>>=◌
  then-Ensures m f s Q h = record { holds = continued f Q (m s).0 (m s).1 h }

  -- The same, where the action leaves the store as it is.
  pub kept-Ensures :
      {A B : Type 0} (m : Handler Db A) (f : A → Handler Db B) (s : AppState Db) (db : Db)
      (Q : B → AppState Db → Type 0)
      → Keeps m
      → s.db ≡ db
      → ((a : A) (s' : AppState Db) → (m s).0 ≡ ok a → s'.db ≡ db → Ensures (f a) s' Q)
      → Ensures (m >>= f) s Q
  kept-Ensures m f s db Q k same h = then-Ensures m f s Q (λ a e. h a (m s).1 e (k.same s ∙ same))

  -- The same, where the answer and the state are known.
  pub known-Ensures :
      {A B : Type 0} (m : Handler Db A) (f : A → Handler Db B) (s s' : AppState Db) (a : A)
      (Q : B → AppState Db → Type 0)
      → m s ≡ (ok a, s')
      → Ensures (f a) s' Q
      → Ensures (m >>= f) s Q
  unfolding ◌>>=◌
  known-Ensures m f s s' a Q e h = record {
    holds = subst (λ r. Post Q (resume f r)) (sym e) h.holds;
  }

  weakened :
      {A : Type 0} (P Q : A → AppState Db → Type 0) (r : Result A ApiError × AppState Db)
      → ((a : A) (s' : AppState Db) → P a s' → Q a s')
      → Post P r
      → Post Q r
  weakened P Q (ok a, s) h p = h a s p
  weakened P Q (err e, s) h p = tt

  pub weaken-Ensures :
      {A : Type 0} (m : Handler Db A) (s : AppState Db) (P Q : A → AppState Db → Type 0)
      → Ensures m s P
      → ((a : A) (s' : AppState Db) → P a s' → Q a s')
      → Ensures m s Q
  weaken-Ensures m s P Q p h = record { holds = weakened P Q (m s) h p.holds }

  pub some_or-Ensures :
      {A : Type 0} (o : Option A) (e : ApiError) (s : AppState Db) (Q : A → AppState Db → Type 0)
      → ((a : A) → o ≡ some a → Q a s)
      → Ensures (some_or o e) s Q
  some_or-Ensures (some a) e s Q h = record { holds = h a refl }
  some_or-Ensures none e s Q h = record { holds = tt }

  bound-ok :
      {A B : Type 0} (f : A → Handler Db B) (r : Result A ApiError) (s' : AppState Db) (b : B)
      → (resume f (r, s')).0 ≡ ok b
      → (a : A) × (r ≡ ok a) × ((f a s').0 ≡ ok b)
  bound-ok f (ok a) s' b h = (a, refl, h)
  bound-ok f (err e) s' b h = ground arith

  -- Both parts of a sequence answered.
  pub >>=-ok :
      {A B : Type 0} (m : Handler Db A) (f : A → Handler Db B) (s : AppState Db) (b : B)
      → ((m >>= f) s).0 ≡ ok b
      → (a : A) × ((m s).0 ≡ ok a) × ((f a (m s).1).0 ≡ ok b)
  unfolding ◌>>=◌
  >>=-ok m f s b h = bound-ok f (m s).0 (m s).1 b h

  pub return-Ensures :
      {A : Type 0} (a : A) (s : AppState Db) (Q : A → AppState Db → Type 0)
      → Q a s
      → Ensures (return a) s Q
  return-Ensures a s Q h = record { holds = h }

  pub answered :
      {A : Type 0} (m : Handler Db A) (s : AppState Db) (Q : A → AppState Db → Type 0) (a : A)
      → Ensures m s Q
      → (m s).0 ≡ ok a
      → Q a (m s).1
  answered m s Q a h e = subst (λ r. Post Q (r, (m s).1)) e h.holds

  pub some_or-ok :
      {A : Type 0} (o : Option A) (e : ApiError) (s : AppState Db) (a : A)
      → (some_or o e s).0 ≡ ok a
      → o ≡ some a
  some_or-ok (some b) e s a h = ground arith
  some_or-ok none e s a h = ground arith

  pub from_result-ok :
      {A : Type 0} (r : Result A ApiError) (s : AppState Db) (a : A)
      → (from_result r s).0 ≡ ok a
      → r ≡ ok a
  from_result-ok (ok b) s a h = h
  from_result-ok (err e) s a h = ground arith

  pub require-ok :
      (b : Bool) (e : ApiError) (s : AppState Db) (u : Unit {0})
      → (require b e s).0 ≡ ok u
      → b ≡ true
  require-ok true e s u h = refl
  require-ok false e s u h = ground arith

pub from_store-ok : {A : Type 0} (r : Result A StoreError) (a : A) → from_store r ≡ ok a → r ≡ ok a
from_store-ok (ok b) a h = ground arith
from_store-ok (err e) a h = ground arith
