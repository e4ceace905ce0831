-- ===== src/Api/Handler/Stops.antt =====
-- Handlers that, from a state, answer with an error and leave the store as it is.
use anony_mail.Base.{◌≡◌, refl, sym, ap, ◌∙◌, Bool, true, false, true-false, Result, ok, err}
use anony_mail.Api.{ApiError}
use anony_mail.Api.Handler.{AppState, Handler, ◌>>=◌, resume, asking}
use anony_mail.Api.Handler.Keeps.{Keeps}

abbrev pub is_err : {A E : Type 0} → Result A E → Bool
is_err (ok a) = false
is_err (err e) = true

pub record Stops {Db A : Type 0} (m : Handler Db A) (s : AppState Db) : Type 0 where
  pub fails : is_err (m s).0 ≡ true
  pub same : (m s).1.db ≡ s.db

module _ {Db : Type 0} where
  stopped :
      {A B : Type 0} (f : A → Handler Db B) (s : AppState Db) (r : Result A ApiError)
      (s' : AppState Db)
      → is_err r ≡ true
      → s'.db ≡ s.db
      → (is_err (resume f (r, s')).0 ≡ true) × ((resume f (r, s')).1.db ≡ s.db)
  stopped f s (ok a) s' h k = absurd (true-false (sym h))
  stopped f s (err e) s' h k = (refl, k)

  pub first-Stops :
      {A B : Type 0} (m : Handler Db A) (f : A → Handler Db B) (s : AppState Db)
      → Stops m s
      → Stops (m >>= f) s
  unfolding ◌>>=◌
  first-Stops m f s h =
      let (a, b) = stopped f s (m s).0 (m s).1 h.fails h.same in record { fails = a; same = b }

  resumed :
      {A B : Type 0} (f : A → Handler Db B) (s : AppState Db) (r : Result A ApiError)
      (s' : AppState Db)
      → s'.db ≡ s.db
      → ((a : A) (s' : AppState Db) → s'.db ≡ s.db → Stops (f a) s')
      → (is_err (resume f (r, s')).0 ≡ true) × ((resume f (r, s')).1.db ≡ s.db)
  resumed f s (ok a) s' k h = ((h a s' k).fails, (h a s' k).same ∙ k)
  resumed f s (err e) s' k h = (refl, k)

  pub then-Stops :
      {A B : Type 0} (m : Handler Db A) (f : A → Handler Db B) (s : AppState Db)
      → Keeps m
      → ((a : A) (s' : AppState Db) → s'.db ≡ s.db → Stops (f a) s')
      → Stops (m >>= f) s
  unfolding ◌>>=◌
  then-Stops m f s k h =
      let (a, b) = resumed f s (m s).0 (m s).1 (k.same s) h in record { fails = a; same = b }

  pub asking-Stops :
      {A : Type 0} (f : Db → Result A ApiError) (s s' : AppState Db) (e : ApiError)
      → s'.db ≡ s.db
      → f s.db ≡ err e
      → Stops (asking f) s'
  asking-Stops f s s' e k h = record { fails = ap (λ d. is_err (f d)) k ∙ ap is_err h; same = refl }
