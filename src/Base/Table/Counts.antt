-- ===== src/Base/Table/Counts.antt =====
-- How many rows of a table with a key there are, where the keys are among those of a list.
use anony_mail.Base.{
  ◌+◌, ◌≤◌, ◌≡◌, refl, inl, inr, Bool, true, false, not, ◌&&◌, List, [], ◌∷◌, arith, Eq, ◌==◌,
  ==_iff, Bool-cases, length, retain, any, contains, nat_eq, str_eq,
}
use anony_mail.Base.Table.{delete_where}
use mathlib.Core.Path.{subst}
use anony_mail.Base.Table.Keys.{Distinct}

module _ {ℓ} {A : Type ℓ} where
  pub length-retain_mono :
      (p q : A → Bool) (xs : List A)
      → ((x : A) → p x ≡ true → q x ≡ true)
      → length (retain p xs) ≤ length (retain q xs)
  unfolding retain
  length-retain_mono p q [] h = omega arith
  length-retain_mono p q (x ∷ xs) h = ground (arith, h x, length-retain_mono p q xs h)

  -- A deletion leaves no more rows of a kind than there were.
  pub length-delete_where :
      (p q : A → Bool) (xs : List A) → length (retain p (delete_where q xs)) ≤ length (retain p xs)
  unfolding retain delete_where
  length-delete_where p q [] = omega arith
  length-delete_where p q (x ∷ xs) = ground (arith, length-delete_where p q xs)

  -- Of the rows of a kind, a deletion leaves those that it does not meet.
  pub retain-delete_where :
      (p q : A → Bool) (xs : List A)
      → retain p (delete_where q xs) ≡ retain (λ x. p x && not (q x)) xs
  unfolding retain delete_where
  retain-delete_where p q [] = refl
  retain-delete_where p q (x ∷ xs) = ground (arith, retain-delete_where p q xs)

module _ {ℓ κ} {A : Type ℓ} {K : Type κ} ⦃e : Eq K⦄ (key : A → K) where
  none_with :
      (k : K) (xs : List A)
      → any (λ s. key s == k) xs ≡ false
      → length (retain (λ s. key s == k) xs) ≡ 0
  unfolding any retain
  none_with k [] h = refl
  none_with k (x ∷ xs) h = ground (arith, none_with k xs)

  one_with : (k : K) (xs : List A) → Distinct key xs → length (retain (λ s. key s == k) xs) ≤ 1
  unfolding retain
  one_with k [] d = omega arith
  one_with k (x ∷ xs) d = elim (Bool-cases (key x == k)) [
    | inl t ↦ rw t (
        omega (
          arith,
          none_with k xs
              (subst (λ (j : K). any (λ s. key s == j) xs ≡ false) ((==_iff (key x) k).0 t) d.0),
        ))
    | inr n ↦ rw n (one_with k xs d.1)
  ]

  split_head :
      (k : K) (ks : List K) (xs : List A)
      → length (retain (λ s. contains (k ∷ ks) (key s)) xs)
        ≤ length (retain (λ s. key s == k) xs) + length (retain (λ s. contains ks (key s)) xs)
  unfolding contains retain
  split_head k ks [] = omega arith
  split_head k ks (x ∷ xs) = ground (arith, ==_iff k (key x), ==_iff (key x) k, split_head k ks xs)

  nothing_in : (xs : List A) → length (retain (λ s. contains [] (key s)) xs) ≤ 0
  unfolding contains retain
  nothing_in [] = omega arith
  nothing_in (x ∷ xs) = nothing_in xs

  -- No more rows than keys that they may have.
  pub length-keys_among :
      (ks : List K) (xs : List A)
      → Distinct key xs
      → length (retain (λ s. contains ks (key s)) xs) ≤ length ks
  length-keys_among [] xs d = nothing_in xs
  length-keys_among (k ∷ ks) xs d =
      omega (arith, split_head k ks xs, one_with k xs d, length-keys_among ks xs d)
