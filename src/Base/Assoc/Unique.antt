-- ===== src/Base/Assoc/Unique.antt =====
-- Maps in which each key has one entry, and what filtering them by value does to a look-up.
use anony_mail.Base.{
  ◌≡◌, refl, ap, ◌∙◌, inl, inr, Bool, Option, none, some, [], ◌∷◌, arith, if◌then◌else◌, Eq, ◌==◌,
  ==_iff, Bool-cases, nat_eq, str_eq,
}
use mathlib.Core.Path.{subst}
use anony_mail.Base.Assoc.{
  Map, get, insert, remove, retain_values, Fresh, Fresh-insert, Fresh-remove, get-Fresh, Keyed,
}

abbrev pub keep_if {ℓ} : {V : Type ℓ} → (V → Bool) → Option V → Option V
keep_if p none = none
keep_if p (some v) = if p v then some v else none

module _ {ℓ κ} {K : Type ℓ} {V : Type κ} ⦃e : Eq K⦄ where
  abbrev pub IsUnique : Map K V → Type ℓ
  IsUnique [] = Unit
  IsUnique ((j, v) ∷ m) = Fresh j m × IsUnique m

  pub insert-IsUnique : (m : Map K V) (k : K) (v : V) → IsUnique m → IsUnique (insert m k v)
  unfolding insert
  insert-IsUnique [] k v u = (tt, tt)
  insert-IsUnique ((j, w) ∷ m) k v u = elim (Bool-cases (j == k)) [
    | inl t ↦ rw t u
    | inr f ↦ rw f (
      Fresh-insert j k v m (ground (arith, ==_iff j k, ==_iff k j)) u.0,
      insert-IsUnique m k v u.1,
    )
  ]

  pub remove-IsUnique : (m : Map K V) (k : K) → IsUnique m → IsUnique (remove m k)
  unfolding remove
  remove-IsUnique [] k u = tt
  remove-IsUnique ((j, w) ∷ m) k u = elim (Bool-cases (j == k)) [
    | inl t ↦ rw t (remove-IsUnique m k u.1)
    | inr f ↦ rw f (Fresh-remove j k m u.0, remove-IsUnique m k u.1)
  ]

  Fresh-retain_values :
      (p : V → Bool) (k : K) (m : Map K V) → Fresh k m → Fresh k (retain_values p m)
  unfolding retain_values
  Fresh-retain_values p k [] f = tt
  Fresh-retain_values p k ((j, v) ∷ m) f = elim (Bool-cases (p v)) [
    | inl t ↦ rw t (f.0, Fresh-retain_values p k m f.1)
    | inr n ↦ rw n (Fresh-retain_values p k m f.1)
  ]

  pub Keyed-retain_values :
      (key : V → K) (p : V → Bool) (m : Map K V) → Keyed key m → Keyed key (retain_values p m)
  unfolding retain_values
  Keyed-retain_values key p [] w = tt
  Keyed-retain_values key p ((j, v) ∷ m) w = elim (Bool-cases (p v)) [
    | inl t ↦ rw t (w.0, Fresh-retain_values p j m w.1, Keyed-retain_values key p m w.2)
    | inr n ↦ rw n (Keyed-retain_values key p m w.2)
  ]

  pub retain_values-IsUnique :
      (p : V → Bool) (m : Map K V) → IsUnique m → IsUnique (retain_values p m)
  unfolding retain_values
  retain_values-IsUnique p [] u = tt
  retain_values-IsUnique p ((j, v) ∷ m) u = elim (Bool-cases (p v)) [
    | inl t ↦ rw t (Fresh-retain_values p j m u.0, retain_values-IsUnique p m u.1)
    | inr n ↦ rw n (retain_values-IsUnique p m u.1)
  ]

  pub get-retain_values :
      (p : V → Bool) (m : Map K V) (k : K)
      → IsUnique m
      → get (retain_values p m) k ≡ keep_if p (get m k)
  unfolding get retain_values
  get-retain_values p [] k u = refl
  get-retain_values p ((j, v) ∷ m) k u = elim (Bool-cases (j == k)) [
    | inl t ↦ elim (Bool-cases (p v)) [
      | inl y ↦ rw (y, t, y) refl
      | inr n ↦
          rw (n, t, n)
            (get-retain_values p m k u.1
              ∙ ap (keep_if p) (get-Fresh k m (subst (λ i. Fresh i m) ((==_iff j k).0 t) u.0)))
    ]
    | inr f ↦ elim (Bool-cases (p v)) [
      | inl y ↦ rw (y, f) (get-retain_values p m k u.1)
      | inr n ↦ rw (n, f) (get-retain_values p m k u.1)
    ]
  ]
