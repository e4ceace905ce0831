-- ===== src/Base/Table/Keys.antt =====
-- Tables with a key, and rows that refer to a row of another table, under insertions, updates and
-- deletions.
use anony_mail.Base.{
  ◌≡◌, refl, ◌∙◌, inl, inr, Bool, true, false, not, ◌&&◌, ◌||◌, none, List, [], ◌∷◌, ◌++◌, arith,
  if◌then◌else◌, Eq, ◌==◌, ==_iff, Bool-cases, retain, find, any, All, nat_eq, str_eq,
}
use anony_mail.Base.Table.{update_where, delete_where}

module _ {ℓ} {A : Type ℓ} where
  pub any-append : (p : A → Bool) (xs ys : List A) → any p (xs ++ ys) ≡ (any p xs || any p ys)
  unfolding any
  any-append p [] ys = refl
  any-append p (x ∷ xs) ys = ground (arith, any-append p xs ys)

  pub any-update_where :
      (q p : A → Bool) (f : A → A) (rs : List A)
      → ((r : A) → q (f r) ≡ q r)
      → any q (update_where p f rs) ≡ any q rs
  unfolding any update_where
  any-update_where q p f [] h = refl
  any-update_where q p f (r ∷ rs) h = ground (arith, h r, any-update_where q p f rs h)

  any-retain-false : (q p : A → Bool) (rs : List A) → any q rs ≡ false → any q (retain p rs) ≡ false
  unfolding any retain
  any-retain-false q p [] h = refl
  any-retain-false q p (r ∷ rs) h = ground (arith, any-retain-false q p rs)

  -- A row that a deletion does not meet is still there.
  pub any-delete_where :
      (q p : A → Bool) (rs : List A)
      → any q rs ≡ true
      → any (λ r. p r && q r) rs ≡ false
      → any q (delete_where p rs) ≡ true
  unfolding any delete_where retain
  any-delete_where q p [] h n = h
  any-delete_where q p (r ∷ rs) h n = ground (arith, any-delete_where q p rs)

  pub find-none : (p : A → Bool) (rs : List A) → find p rs ≡ none → any p rs ≡ false
  unfolding find any
  find-none p [] h = refl
  find-none p (r ∷ rs) h = ground (arith, find-none p rs)

  pub All-append {κ} :
      (P : A → Type κ) (xs : List A) (y : A) → All P xs → P y → All P (xs ++ y ∷ [])
  All-append P [] y h p = (p, tt)
  All-append P (x ∷ xs) y h p = (h.0, All-append P xs y h.1 p)

  pub All-imp {κ μ} :
      (P : A → Type κ) (Q : A → Type μ) (xs : List A) → ((x : A) → P x → Q x) → All P xs → All Q xs
  All-imp P Q [] f h = tt
  All-imp P Q (x ∷ xs) f h = (f x h.0, All-imp P Q xs f h.1)

  -- What the rows that a deletion leaves satisfy may use that it did not meet them.
  pub All-delete_where {κ μ} :
      (P : A → Type κ) (Q : A → Type μ) (p : A → Bool) (xs : List A)
      → ((x : A) → P x → p x ≡ false → Q x)
      → All P xs
      → All Q (delete_where p xs)
  unfolding delete_where retain
  All-delete_where P Q p [] f h = tt
  All-delete_where P Q p (x ∷ xs) f h = elim (Bool-cases (p x)) [
    | inl t ↦ rw t (All-delete_where P Q p xs f h.1)
    | inr n ↦ rw n (f x h.0 n, All-delete_where P Q p xs f h.1)
  ]

  pub All-update_where {κ} :
      (P : A → Type κ) (p : A → Bool) (f : A → A) (xs : List A)
      → ((x : A) → P x → P (f x))
      → All P xs
      → All P (update_where p f xs)
  unfolding update_where
  All-update_where P p f [] k h = tt
  All-update_where P p f (x ∷ xs) k h = elim (Bool-cases (p x)) [
    | inl t ↦ rw t (k x h.0, All-update_where P p f xs k h.1)
    | inr n ↦ rw n (h.0, All-update_where P p f xs k h.1)
  ]

module _ {ℓ κ} {A : Type ℓ} {K : Type κ} ⦃e : Eq K⦄ (key : A → K) where
  -- No two rows have the same key.
  abbrev pub Distinct : List A → Type 0
  Distinct [] = Unit
  Distinct (r ∷ rs) = (any (λ s. key s == key r) rs ≡ false) × Distinct rs

  pub Distinct-append :
      (rs : List A) (r : A)
      → any (λ s. key s == key r) rs ≡ false
      → Distinct rs
      → Distinct (rs ++ r ∷ [])
  unfolding any
  Distinct-append [] r n d = (refl, tt)
  Distinct-append (s ∷ rs) r n d = (
    any-append (λ t. key t == key s) rs (r ∷ [])
        ∙ ground (arith, d.0, ==_iff (key s) (key r), ==_iff (key r) (key s)),
    Distinct-append rs r (ground arith) d.1,
  )

  pub Distinct-delete_where :
      (p : A → Bool) (rs : List A) → Distinct rs → Distinct (delete_where p rs)
  unfolding delete_where retain
  Distinct-delete_where p [] d = tt
  Distinct-delete_where p (r ∷ rs) d = elim (Bool-cases (p r)) [
    | inl t ↦ rw t (Distinct-delete_where p rs d.1)
    | inr n ↦ rw n (
      any-retain-false (λ s. key s == key r) (λ s. not (p s)) rs d.0,
      Distinct-delete_where p rs d.1,
    )
  ]

  pub Distinct-update_where :
      (p : A → Bool) (f : A → A) (rs : List A)
      → ((r : A) → key (f r) ≡ key r)
      → Distinct rs
      → Distinct (update_where p f rs)
  unfolding update_where
  Distinct-update_where p f [] h d = tt
  Distinct-update_where p f (r ∷ rs) h d = (
    any-update_where (λ s. key s == key (if p r then f r else r)) p f rs (λ s. rw (h s) refl)
        ∙ same_key p f r rs h d.0,
    Distinct-update_where p f rs h d.1,
  )
    where
      same_key :
          (p : A → Bool) (f : A → A) (r : A) (rs : List A)
          → ((r : A) → key (f r) ≡ key r)
          → any (λ s. key s == key r) rs ≡ false
          → any (λ s. key s == key (if p r then f r else r)) rs ≡ false
      same_key p f r rs h n = elim (Bool-cases (p r)) [ inl t ↦ rw (t, h r) n | inr t ↦ rw t n ]
