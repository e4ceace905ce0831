-- ===== src/Base/Sort.antt =====
-- `sort_by` of a slice: a stable sort by a comparison. `lt a b` says that the comparison puts `a`
-- strictly before `b`.
use anony_mail.Base.{
  ℕ, ◌+◌, ◌≡◌, refl, inl, inr, Bool, true, false, List, [], ◌∷◌, ◌++◌, arith, if◌then◌else◌,
  Bool-cases, sum_by, All,
}
use mathlib.Core.List.Perm
use mathlib.Core.List.{Perm}

module _ {ℓ} {A : Type ℓ} (lt : A → A → Bool) where
  unfoldable pub insert_sorted : A → List A → List A
  insert_sorted x [] = x ∷ []
  insert_sorted x (y ∷ ys) = if lt y x then y ∷ insert_sorted x ys else x ∷ y ∷ ys

  unfoldable pub sort_by : List A → List A
  unfolding insert_sorted
  sort_by [] = []
  sort_by (x ∷ xs) = insert_sorted x (sort_by xs)

  -- Nothing stands behind an element that belongs before it.
  abbrev pub IsSorted : List A → Type ℓ
  IsSorted [] = Unit
  IsSorted (x ∷ xs) = All (λ y. lt y x ≡ false) xs × IsSorted xs

  insert_sorted-perm : (x : A) (ys : List A) → Perm (insert_sorted x ys) (x ∷ ys)
  unfolding insert_sorted
  insert_sorted-perm x [] = Perm.refl _
  insert_sorted-perm x (y ∷ ys) = elim (Bool-cases (lt y x)) [
    | inl e ↦ rw e (Perm.trans (Perm.cons y (insert_sorted-perm x ys)) (Perm.swap x y ys))
    | inr e ↦ rw e (Perm.refl _)
  ]

  pub sort_by-perm : (xs : List A) → Perm (sort_by xs) xs
  unfolding sort_by
  sort_by-perm [] = Perm.refl _
  sort_by-perm (x ∷ xs) =
      Perm.trans (insert_sorted-perm x (sort_by xs)) (Perm.cons x (sort_by-perm xs))

  insert_sorted-sum :
      (f : A → ℕ) (x : A) (ys : List A) → sum_by f (insert_sorted x ys) ≡ f x + sum_by f ys
  unfolding insert_sorted
  insert_sorted-sum f x [] = refl
  insert_sorted-sum f x (y ∷ ys) = ground (arith, insert_sorted-sum f x ys)

  -- A sum over the list does not change.
  pub sum_by-sort_by : (f : A → ℕ) (xs : List A) → sum_by f (sort_by xs) ≡ sum_by f xs
  unfolding sort_by
  sum_by-sort_by f [] = refl
  sum_by-sort_by f (x ∷ xs) = omega (arith, insert_sorted-sum f x (sort_by xs), sum_by-sort_by f xs)

  -- An element that belongs before all others is sorted to the front, from wherever it stands.
  pub sort_by-first :
      (e : A) (xs : List A) → All (λ x. lt e x ≡ true) xs → sort_by (xs ++ e ∷ []) ≡ e ∷ sort_by xs
  unfolding sort_by
  sort_by-first e [] h = refl
  sort_by-first e (x ∷ xs) h = rw (sort_by-first e xs h.1) (ground (arith, h.0))

  insert_sorted-last :
      (x e : A) (ys : List A)
      → lt e x ≡ false
      → insert_sorted x (ys ++ e ∷ []) ≡ insert_sorted x ys ++ e ∷ []
  unfolding insert_sorted
  insert_sorted-last x e [] h = ground arith
  insert_sorted-last x e (y ∷ ys) h = ground (arith, insert_sorted-last x e ys h)

  -- One that belongs before none stays at the end.
  pub sort_by-last :
      (e : A) (xs : List A)
      → All (λ x. lt e x ≡ false) xs
      → sort_by (xs ++ e ∷ []) ≡ sort_by xs ++ e ∷ []
  unfolding sort_by
  sort_by-last e [] h = refl
  sort_by-last e (x ∷ xs) h = rw (sort_by-last e xs h.1) (insert_sorted-last x e (sort_by xs) h.0)

  insert_sorted-All {κ} :
      (P : A → Type κ) (x : A) (ys : List A) → P x → All P ys → All P (insert_sorted x ys)
  unfolding insert_sorted
  insert_sorted-All P x [] p ps = (p, tt)
  insert_sorted-All P x (y ∷ ys) p ps = elim (Bool-cases (lt y x)) [
    | inl e ↦ rw e (ps.0, insert_sorted-All P x ys p ps.1)
    | inr e ↦ rw e (p, ps)
  ]

  pub sort_by-All {κ} : (P : A → Type κ) (xs : List A) → All P xs → All P (sort_by xs)
  unfolding sort_by
  sort_by-All P [] ps = tt
  sort_by-All P (x ∷ xs) ps = insert_sorted-All P x (sort_by xs) ps.0 (sort_by-All P xs ps.1)

-- A comparison that sorts: strict, and its negation is transitive.
pub record IsOrder {ℓ} {A : Type ℓ} (lt : A → A → Bool) : Type ℓ where
  pub asym : (a b : A) → lt a b ≡ true → lt b a ≡ false
  pub trans : (a b c : A) → lt b a ≡ false → lt c b ≡ false → lt c a ≡ false

module _ {ℓ} {A : Type ℓ} {lt : A → A → Bool} (o : IsOrder lt) where
  All-trans :
      (a b : A) (xs : List A)
      → lt b a ≡ false
      → All (λ y. lt y b ≡ false) xs
      → All (λ y. lt y a ≡ false) xs
  All-trans a b [] h ps = tt
  All-trans a b (x ∷ xs) h ps = (o.trans a b x h ps.0, All-trans a b xs h ps.1)

  insert_sorted-IsSorted :
      (x : A) (ys : List A) → IsSorted lt ys → IsSorted lt (insert_sorted lt x ys)
  unfolding insert_sorted
  insert_sorted-IsSorted x [] s = (tt, tt)
  insert_sorted-IsSorted x (y ∷ ys) s = elim (Bool-cases (lt y x)) [
    | inl e ↦ rw e (
      insert_sorted-All lt (λ z. lt z y ≡ false) x ys (o.asym y x e) s.0,
      insert_sorted-IsSorted x ys s.1,
    )
    | inr e ↦ rw e ((e, All-trans x y ys e s.0), s)
  ]

  pub sort_by-IsSorted : (xs : List A) → IsSorted lt (sort_by lt xs)
  unfolding sort_by
  sort_by-IsSorted [] = tt
  sort_by-IsSorted (x ∷ xs) = insert_sorted-IsSorted x (sort_by lt xs) (sort_by-IsSorted xs)
