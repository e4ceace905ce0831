-- ===== src/Api/Handler/Keeps.antt =====
-- Handlers that leave the store as it is.
use anony_mail.Base.{◌≡◌, refl, ◌∙◌, Bool, true, false, Option, none, some, Result, ok, err}
use anony_mail.Api.{ApiError}
use anony_mail.Api.Handler.{from_result, AppState, Handler, ◌>>=◌, resume, require, some_or}

-- From each state, whatever the answer.
pub record Keeps {Db A : Type 0} (m : Handler Db A) : Type 0 where
  pub same : (s : AppState Db) → (m s).1.db ≡ s.db

module _ {Db : Type 0} where
  pub keeps : {A : Type 0} (m : Handler Db A) → ((s : AppState Db) → (m s).1.db ≡ s.db) → Keeps m
  keeps m h = record { same = h }

  resume-Keeps :
      {A B : Type 0} (f : A → Handler Db B) (r : Result A ApiError) (s : AppState Db)
      → ((a : A) → Keeps (f a))
      → (resume f (r, s)).1.db ≡ s.db
  resume-Keeps f (ok a) s k = (k a).same s
  resume-Keeps f (err e) s k = refl

  pub >>=-Keeps :
      {A B : Type 0} (m : Handler Db A) (f : A → Handler Db B)
      → Keeps m
      → ((a : A) → Keeps (f a))
      → Keeps (m >>= f)
  unfolding ◌>>=◌
  >>=-Keeps m f h k = keeps (m >>= f) (λ s. resume-Keeps f (m s).0 (m s).1 k ∙ h.same s)

  pub require-Keeps : (b : Bool) (e : ApiError) → Keeps {Db = Db} (require b e)
  require-Keeps true e = keeps _ (λ s. refl)
  require-Keeps false e = keeps _ (λ s. refl)

  pub some_or-Keeps : {A : Type 0} (o : Option A) (e : ApiError) → Keeps {Db = Db} (some_or o e)
  some_or-Keeps (some a) e = keeps _ (λ s. refl)
  some_or-Keeps none e = keeps _ (λ s. refl)

  pub from_result-Keeps : {A : Type 0} (r : Result A ApiError) → Keeps {Db = Db} (from_result r)
  from_result-Keeps (ok a) = keeps _ (λ s. refl)
  from_result-Keeps (err e) = keeps _ (λ s. refl)
