-- ===== src/Base/Results.antt =====
-- Chains of results that may fail: `?` on a `Result`, and `collect` of an iterator of results.
use mathlib.Core.List.{List, [], ◌∷◌}
use anony_mail.Base.Tests.{Result, ok, err}

infixl 5 ◌>>=◌ ◌>>◌
abbrev pub ◌>>=◌ {ℓ κ ε} :
    {A : Type ℓ} {B : Type κ} {E : Type ε} → Result A E → (A → Result B E) → Result B E
ok a >>= f = f a
err e >>= f = err e

abbrev pub ◌>>◌ {ℓ κ ε} :
    {A : Type ℓ} {B : Type κ} {E : Type ε} → Result A E → Result B E → Result B E
m >> k = m >>= λ _. k

abbrev pub map_err {ℓ κ ε} :
    {A : Type ℓ} {D : Type κ} {E : Type ε} → (D → E) → Result A D → Result A E
map_err f (ok a) = ok a
map_err f (err d) = err (f d)

unfoldable pub collect {ℓ κ ε} :
    {A : Type ℓ} {B : Type κ} {E : Type ε} → (A → Result B E) → List A → Result (List B) E
collect f [] = ok []
collect f (x ∷ xs) = do y ← f x; ys ← collect f xs; ok (y ∷ ys)

-- The value of a result, where there is one, satisfies a predicate.
abbrev pub Gives {ℓ ε κ} : {A : Type ℓ} {E : Type ε} → (A → Type κ) → Result A E → Type κ
Gives P (ok a) = P a
Gives P (err e) = Unit

pub >>=-Gives {ℓ κ ε μ ν} :
    {A : Type ℓ} {B : Type κ} {E : Type ε} (Q : A → Type μ) (P : B → Type ν) (r : Result A E)
    (f : A → Result B E)
    → Gives Q r
    → ((a : A) → Q a → Gives P (f a))
    → Gives P (r >>= f)
>>=-Gives Q P (ok a) f g k = k a g
>>=-Gives Q P (err e) f g k = tt
