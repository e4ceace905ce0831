-- ===== src/Base/Assoc.antt =====
-- `HashMap` as an association list with one entry to a key. Iteration is in the list's order.
pub mod Unique
use anony_mail.Base.{sym, ◌∙◌, inl, inr, Bool-cases, is_some_and, retain, contains, nat_eq, str_eq}
use mathlib.Core.Path.{◌≡◌, refl}
use mathlib.Core.Bool.{Bool, false}
use mathlib.Core.Option.{Option, none, some}
use mathlib.Core.List.{List, [], ◌∷◌, map}
use native.Mathlib.Omega.{arith}
use anony_mail.Base.Tests.{Eq, ◌==◌, ==_iff, if◌then◌else◌}

abbrev pub Map {ℓ κ} : Type ℓ → Type κ → Type (ℓ ⊔ κ)
Map K V = List (K × V)

module _ {ℓ κ} {K : Type ℓ} {V : Type κ} where
  -- `HashMap::retain` on the values
  unfoldable pub retain_values : (V → Bool) → Map K V → Map K V
  retain_values p [] = []
  retain_values p ((j, v) ∷ m) = let rest = retain_values p m in if p v then (j, v) ∷ rest else rest

  -- `HashMap::values`
  abbrev pub values : Map K V → List V
  values = map (λ e. e.1)

module _ {ℓ κ} {K : Type ℓ} {V : Type κ} ⦃e : Eq K⦄ where
  unfoldable pub get : Map K V → K → Option V
  get [] k = none
  get ((j, v) ∷ m) k = if j == k then some v else get m k

  unfoldable pub insert : Map K V → K → V → Map K V
  insert [] k v = (k, v) ∷ []
  insert ((j, w) ∷ m) k v = if j == k then (j, v) ∷ m else (j, w) ∷ insert m k v

  unfoldable pub remove : Map K V → K → Map K V
  remove [] k = []
  remove ((j, w) ∷ m) k = let rest = remove m k in if j == k then rest else (j, w) ∷ rest

  pub get-insert :
      (m : Map K V) (k j : K) (v : V) → get (insert m k v) j ≡ (if k == j then some v else get m j)
  unfolding get insert
  get-insert [] k j v = refl
  get-insert ((i, w) ∷ m) k j v =
      ground (arith, ==_iff k j, ==_iff i k, ==_iff i j, get-insert m k j v)

  pub get-remove : (m : Map K V) (k j : K) → get (remove m k) j ≡ (if k == j then none else get m j)
  unfolding get remove
  get-remove [] k j = ground arith
  get-remove ((i, w) ∷ m) k j = ground (arith, ==_iff k j, ==_iff i k, ==_iff i j, get-remove m k j)

  -- No entry of the map has the key.
  abbrev pub Fresh : K → Map K V → Type 0
  Fresh k [] = Unit
  Fresh k ((j, v) ∷ m) = ((j == k) ≡ false) × Fresh k m

  -- Each key has one entry, whose value names the key; what the program keeps in its maps.
  abbrev pub Keyed : (V → K) → Map K V → Type ℓ
  Keyed key [] = Unit
  Keyed key ((j, v) ∷ m) = (key v ≡ j) × Fresh j m × Keyed key m

  -- A value stands under the key that it names.
  pub get-Keyed :
      (key : V → K) (m : Map K V) (k : K) (v : V) → Keyed key m → get m k ≡ some v → key v ≡ k
  unfolding get
  get-Keyed key [] k v w h = absurd (ground arith)
  get-Keyed key ((j, u) ∷ m) k v w h = ground (arith, ==_iff j k, w.0, get-Keyed key m k v w.2)

  pub get-Fresh : (k : K) (m : Map K V) → Fresh k m → get m k ≡ none
  unfolding get
  get-Fresh k [] f = refl
  get-Fresh k ((j, v) ∷ m) f = ground (arith, f.0, get-Fresh k m f.1)

  pub Fresh-insert :
      (k j : K) (v : V) (m : Map K V) → (j == k) ≡ false → Fresh k m → Fresh k (insert m j v)
  unfolding insert
  Fresh-insert k j v [] n f = (n, tt)
  Fresh-insert k j v ((i, w) ∷ m) n f = elim (Bool-cases (i == j)) [
    | inl t ↦ rw t (f.0, f.1)
    | inr t ↦ rw t (f.0, Fresh-insert k j v m n f.1)
  ]

  pub Keyed-insert :
      (key : V → K) (k : K) (v : V) (m : Map K V)
      → key v ≡ k
      → Keyed key m
      → Keyed key (insert m k v)
  unfolding insert
  Keyed-insert key k v [] h w = (h, tt, tt)
  Keyed-insert key k v ((i, u) ∷ m) h w = elim (Bool-cases (i == k)) [
    | inl t ↦ rw t (h ∙ sym ((==_iff i k).0 t), w.1, w.2)
    | inr t ↦ rw t (w.0, Fresh-insert i k v m (flip i k t) w.1, Keyed-insert key k v m h w.2)
  ]
    where
      flip : (a b : K) → (a == b) ≡ false → (b == a) ≡ false
      flip a b h = ground (arith, ==_iff a b, ==_iff b a)

  pub Fresh-remove : (k j : K) (m : Map K V) → Fresh k m → Fresh k (remove m j)
  unfolding remove
  Fresh-remove k j [] f = tt
  Fresh-remove k j ((i, w) ∷ m) f = elim (Bool-cases (i == j)) [
    | inl t ↦ rw t (Fresh-remove k j m f.1)
    | inr t ↦ rw t (f.0, Fresh-remove k j m f.1)
  ]

  pub Keyed-remove : (key : V → K) (k : K) (m : Map K V) → Keyed key m → Keyed key (remove m k)
  unfolding remove
  Keyed-remove key k [] w = tt
  Keyed-remove key k ((i, u) ∷ m) w = elim (Bool-cases (i == k)) [
    | inl t ↦ rw t (Keyed-remove key k m w.2)
    | inr t ↦ rw t (w.0, Fresh-remove i k m w.1, Keyed-remove key k m w.2)
  ]

  -- The keys of the values that pass a test are those whose value passes it.
  pub contains-values :
      (key : V → K) (p : V → Bool) (m : Map K V) (k : K)
      → Keyed key m
      → contains (map key (retain p (values m))) k ≡ is_some_and (get m k) p
  unfolding contains retain get
  contains-values key p [] k w = refl
  contains-values key p ((j, v) ∷ m) k w =
      ground
        (arith, contains-values key p m k w.2, ==_iff j k, ==_iff (key v) k, w.0, get-Fresh j m w.1)
