-- ===== src/Base/Text/Laws.antt =====
-- Lemmas on texts that the components share.
use Prim.Native.Nat.{ℕ}
use mathlib.Core.Path.{◌≡◌, refl}
use mathlib.Core.Bool.{false}
use mathlib.Core.Option.{none, some}
use mathlib.Core.Logic.{inl, inr}
use mathlib.Core.List.{[], ◌∷◌, ◌++◌}
use native.Mathlib.Omega.{arith}
use anony_mail.Base.Tests.{nat_eq, ==_iff, Option-cases}
use anony_mail.Base.Lists.{contains}
use anony_mail.Base.Text.{Str, lowercase, to_ascii_lowercase, rsplit_once}

pub lowercase_idem : (c : ℕ) → lowercase (lowercase c) ≡ lowercase c
unfolding lowercase
lowercase_idem c = ground arith

pub to_ascii_lowercase_idem :
    (s : Str) → to_ascii_lowercase (to_ascii_lowercase s) ≡ to_ascii_lowercase s
to_ascii_lowercase_idem [] = refl
to_ascii_lowercase_idem (c ∷ s) = cc (lowercase_idem c, to_ascii_lowercase_idem s)

-- A text without the separator is not split.
pub rsplit_once_missing : (d : ℕ) (s : Str) → contains s d ≡ false → rsplit_once d s ≡ none
unfolding rsplit_once contains
rsplit_once_missing d [] h = refl
rsplit_once_missing d (c ∷ s) h = ground (arith, rsplit_once_missing d s)

-- The last separator is the one that is split at.
pub rsplit_once-append :
    (d : ℕ) (a b : Str) → contains b d ≡ false → rsplit_once d (a ++ d ∷ b) ≡ some (a, b)
unfolding rsplit_once
rsplit_once-append d [] b h = ground (arith, rsplit_once_missing d b, ==_iff d d)
rsplit_once-append d (c ∷ a) b h = ground (arith, rsplit_once-append d a b)

pub rsplit_once-none : (d : ℕ) (s : Str) → rsplit_once d s ≡ none → contains s d ≡ false
unfolding rsplit_once contains
rsplit_once-none d [] h = refl
rsplit_once-none d (c ∷ s) h = ground (arith, rsplit_once-none d s)

-- The parts of a split put the text together again, and the second holds no separator.
pub rsplit_once-join :
    (d : ℕ) (s a b : Str)
    → rsplit_once d s ≡ some (a, b)
    → (s ≡ a ++ d ∷ b) × (contains b d ≡ false)
unfolding rsplit_once
rsplit_once-join d [] a b h = cc
rsplit_once-join d (c ∷ s) a b h = elim (Option-cases (rsplit_once d s)) [
  | inl e ↦ ground (arith, rsplit_once-none d s)
  | inr (r, e) ↦ ground (arith, rsplit_once-join d s r.0 r.1)
]
