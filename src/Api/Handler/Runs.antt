-- ===== src/Api/Handler/Runs.antt =====
-- What handlers do, step by step, from a state that is known.
use anony_mail.Base.{◌≡◌, refl, sym, ap, Bool, true, false, arith, Result, ok, nat_eq, str_eq}
use mathlib.Core.Path.{subst}
use anony_mail.Api.{ApiError}
use anony_mail.Api.Handler.{AppState, Handler, ◌>>=◌, resume, require}

module _ {Db : Type 0} where
  -- What a sequence does whose first action answers.
  pub then_ok :
      {A B : Type 0} (m : Handler Db A) (f : A → Handler Db B) (s s' : AppState Db) (a : A)
      → m s ≡ (ok a, s')
      → (m >>= f) s ≡ f a s'
  unfolding ◌>>=◌
  then_ok m f s s' a e = ap (resume f) e

  pub step_of :
      {A B : Type 0} (P : Result B ApiError × AppState Db → Type 0) (m : Handler Db A)
      (f : A → Handler Db B) (s s' : AppState Db) (a : A)
      → m s ≡ (ok a, s')
      → P (f a s')
      → P ((m >>= f) s)
  step_of P m f s s' a e p = subst P (sym (then_ok m f s s' a e)) p

  pub required_ok :
      (b : Bool) (e : ApiError) (s : AppState Db) → b ≡ true → require b e s ≡ (ok tt, s)
  required_ok true e s h = refl
  required_ok false e s h = ground arith
