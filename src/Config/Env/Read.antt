-- ===== src/Config/Env/Read.antt =====
-- What holds of what a step of `from_env` reads.
use anony_mail.Base.{◌≡◌, refl, Bool, true, false, arith, ok, err}
use anony_mail.Base.Text.{Str}
use anony_mail.Config.Env.{Checked, ◌>>=◌, ensure}

-- Of what is read, if it is read.
abbrev pub Read : {A : Type 0} → (A → Type 0) → Checked A → Type 0
Read Q (ok a) = Q a
Read Q (err e) = Unit

pub then-Read :
    {A B : Type 0} (Q : B → Type 0) (m : Checked A) (f : A → Checked B)
    → ((a : A) → m ≡ ok a → Read Q (f a))
    → Read Q (m >>= f)
unfolding ◌>>=◌
then-Read Q (ok a) f h = h a refl
then-Read Q (err e) f h = tt

pub step-Read :
    {A B : Type 0} (P : A → Type 0) (Q : B → Type 0) (m : Checked A) (f : A → Checked B)
    → Read P m
    → ((a : A) → P a → Read Q (f a))
    → Read Q (m >>= f)
unfolding ◌>>=◌
step-Read P Q (ok a) f p h = h a p
step-Read P Q (err e) f p h = tt

-- Whatever the value.
pub any-Read :
    {A B : Type 0} (Q : B → Type 0) (m : Checked A) (f : A → Checked B)
    → ((a : A) → Read Q (f a))
    → Read Q (m >>= f)
any-Read Q m f h = then-Read Q m f (λ a e. h a)

ensure-ok : (b : Bool) (s : Str) (u : Unit {0}) → ensure b s ≡ ok u → b ≡ false
ensure-ok true s u h = ground arith
ensure-ok false s u h = refl

-- What a test that did not fail tells.
pub ensured-Read :
    {B : Type 0} (Q : B → Type 0) (b : Bool) (s : Str) (f : Unit {0} → Checked B)
    → (b ≡ false → Read Q (f tt))
    → Read Q (ensure b s >>= f)
ensured-Read Q b s f h = then-Read Q (ensure b s) f (λ u e. h (ensure-ok b s u e))
