-- ===== src/Base/Table.antt =====
-- The statements of SQL on one table, the list of its rows in the order of insertion. A WHERE
-- clause is a Boolean test, and a statement that changes rows reports how many it met.
pub mod Keys
pub mod Counts
pub mod Mirror
use anony_mail.Base.Lists.{length, retain}
use Prim.Native.Nat.{ℕ}
use mathlib.Core.Bool.{Bool, not}
use mathlib.Core.List.{List, [], ◌∷◌}
use anony_mail.Base.Tests.{if◌then◌else◌}

module _ {ℓ} {A : Type ℓ} where
  unfoldable pub update_where : (A → Bool) → (A → A) → List A → List A
  update_where p f [] = []
  update_where p f (r ∷ rs) = (if p r then f r else r) ∷ update_where p f rs

  unfoldable pub delete_where : (A → Bool) → List A → List A
  delete_where p rs = retain (λ r. not (p r)) rs

  -- `rows_affected`, `COUNT(*)`
  unfoldable pub rows_where : (A → Bool) → List A → ℕ
  rows_where p rs = length (retain p rs)
