-- ===== src/Base/Table/Mirror.antt =====
-- A table that holds the values of a map, one row to an entry: the statements on a key are the
-- operations of the map.
pub mod Removal
use anony_mail.Base.{
  ◌≡◌, refl, ap, inl, inr, Bool, true, false, ◌&&◌, Option, none, some, List, [], ◌∷◌, ◌++◌, map,
  arith, ltb, Eq, ◌==◌, ==_iff, Bool-cases, is_some, is_some_and, retain, find, any, nat_eq, str_eq,
}
use mathlib.Core.Option
use anony_mail.Base.Assoc.{
  Map, get, insert, remove, retain_values, values, Fresh, Keyed, Keyed-remove, contains-values,
}
use anony_mail.Base.Table.Keys.{All-imp}
use anony_mail.Base.Table.{update_where, delete_where, rows_where}

module _ {ℓ κ μ} {K : Type ℓ} ⦃e : Eq K⦄ {V : Type κ} {R : Type μ} (key : V → K) (row : V → R)
    (row_key : R → K) (same_key : (v : V) → row_key (row v) ≡ key v) where
  -- The rows of a map.
  abbrev pub rows : Map K V → List R
  rows m = map row (values m)

  abbrev pub at : K → R → Bool
  at k r = row_key r == k

  pub find-rows :
      (m : Map K V) (k : K) → Keyed key m → find (at k) (rows m) ≡ Option.map row (get m k)
  unfolding find get
  find-rows [] k w = refl
  find-rows ((j, v) ∷ m) k w = ground (arith, same_key v, w.0, find-rows m k w.2)

  any-Fresh :
      (p : R → Bool) (m : Map K V) (k : K)
      → Keyed key m
      → Fresh k m
      → any (λ r. at k r && p r) (rows m) ≡ false
  unfolding any
  any-Fresh p [] k w f = refl
  any-Fresh p ((j, v) ∷ m) k w f = ground (arith, same_key v, w.0, f.0, any-Fresh p m k w.2 f.1)

  -- EXISTS with a condition on the row of a key.
  pub any-rows :
      (p : R → Bool) (m : Map K V) (k : K)
      → Keyed key m
      → any (λ r. at k r && p r) (rows m) ≡ is_some_and (get m k) (λ v. p (row v))
  unfolding any get
  any-rows p [] k w = refl
  any-rows p ((j, v) ∷ m) k w =
      ground (arith, same_key v, w.0, ==_iff j k, any-rows p m k w.2, any-Fresh p m j w.2 w.1)

  pub any-key : (m : Map K V) (k : K) → Keyed key m → any (at k) (rows m) ≡ is_some (get m k)
  unfolding any get
  any-key [] k w = refl
  any-key ((j, v) ∷ m) k w = ground (arith, same_key v, w.0, any-key m k w.2)

  rows_where-Fresh :
      (p : R → Bool) (m : Map K V) (k : K)
      → Keyed key m
      → Fresh k m
      → rows_where (λ r. at k r && p r) (rows m) ≡ 0
  unfolding rows_where retain
  rows_where-Fresh p [] k w f = refl
  rows_where-Fresh p ((j, v) ∷ m) k w f =
      ground (arith, same_key v, w.0, f.0, rows_where-Fresh p m k w.2 f.1)

  -- A statement with a condition on the row of a key affects a row where the condition holds.
  pub rows_where-rows :
      (p : R → Bool) (m : Map K V) (k : K)
      → Keyed key m
      → ltb 0 (rows_where (λ r. at k r && p r) (rows m)) ≡ is_some_and (get m k) (λ v. p (row v))
  unfolding rows_where retain get
  rows_where-rows p [] k w = refl
  rows_where-rows p ((j, v) ∷ m) k w = ground (
    arith,
    same_key v,
    w.0,
    ==_iff j k,
    rows_where-rows p m k w.2,
    rows_where-Fresh p m j w.2 w.1,
  )

  pub rows_where-key :
      (m : Map K V) (k : K) → Keyed key m → ltb 0 (rows_where (at k) (rows m)) ≡ is_some (get m k)
  unfolding rows_where retain get
  rows_where-key [] k w = refl
  rows_where-key ((j, v) ∷ m) k w = ground (arith, same_key v, w.0, rows_where-key m k w.2)

  -- INSERT of a new key
  pub rows-insert_new :
      (m : Map K V) (k : K) (v : V) → get m k ≡ none → rows (insert m k v) ≡ rows m ++ row v ∷ []
  unfolding get insert
  rows-insert_new [] k v h = refl
  rows-insert_new ((j, w) ∷ m) k v h = elim (Bool-cases (j == k)) [
    | inl t ↦ absurd (ground (arith, t, h))
    | inr n ↦ rw n (ap (λ (rs : List R). row w ∷ rs) (rows-insert_new m k v (ground (arith, n, h))))
  ]

  -- A condition that holds at most of the row of a key.
  abbrev pub Only : K → (R → Bool) → Type μ
  Only k q = (r : R) → at k r ≡ false → q r ≡ false

  update_where-Fresh :
      (q : R → Bool) (f : R → R) (m : Map K V) (k : K)
      → Only k q
      → Keyed key m
      → Fresh k m
      → update_where q f (rows m) ≡ rows m
  unfolding update_where
  update_where-Fresh q f [] k o w h = refl
  update_where-Fresh q f ((j, v) ∷ m) k o w h =
      ground (arith, same_key v, w.0, h.0, o (row v), update_where-Fresh q f m k o w.2 h.1)

  -- An UPDATE whose condition holds of no row changes none.
  pub update_where-rows_none :
      (q : R → Bool) (f : R → R) (m : Map K V) (k : K)
      → Only k q
      → Keyed key m
      → is_some_and (get m k) (λ v. q (row v)) ≡ false
      → update_where q f (rows m) ≡ rows m
  unfolding update_where get
  update_where-rows_none q f [] k o w h = refl
  update_where-rows_none q f ((j, v) ∷ m) k o w h = ground (
    arith,
    same_key v,
    w.0,
    ==_iff j k,
    o (row v),
    update_where-rows_none q f m k o w.2,
    update_where-Fresh q f m j,
    update_where-Fresh q f m k o w.2,
  )

  -- UPDATE of the row of a key, where the condition holds of it
  pub rows-insert_old :
      (q : R → Bool) (f : R → R) (m : Map K V) (k : K) (u v : V)
      → Only k q
      → Keyed key m
      → get m k ≡ some u
      → q (row u) ≡ true
      → f (row u) ≡ row v
      → update_where q f (rows m) ≡ rows (insert m k v)
  unfolding get insert update_where
  rows-insert_old q f [] k u v o w h t g = absurd (ground arith)
  rows-insert_old q f ((j, x) ∷ m) k u v o w h t g = ground (
    arith,
    same_key x,
    w.0,
    ==_iff j k,
    o (row x),
    rows-insert_old q f m k u v o w.2,
    update_where-Fresh q f m k o w.2,
  )
