-- ===== src/Base/Table/Mirror/Removal.antt =====
-- Deletions from a table that holds the values of a map.
use anony_mail.Base.{
  ◌+◌, ◌-◌, ◌≡◌, refl, sym, ap, ◌∙◌, Bool, not, some, List, [], ◌∷◌, map, arith, Eq, ◌==◌, ==_iff,
  length, retain, All, contains, nat_eq, str_eq,
}
use anony_mail.Base.Assoc.{
  Map, get, remove, retain_values, values, Fresh, Keyed, Keyed-remove, contains-values,
}
use anony_mail.Base.Table.Keys.{All-imp}
use anony_mail.Base.Table.{delete_where, rows_where}

module _ {ℓ κ μ} {K : Type ℓ} ⦃e : Eq K⦄ {V : Type κ} {R : Type μ} (key : V → K) (row : V → R)
    (row_key : R → K) (same_key : (v : V) → row_key (row v) ≡ key v) where
  -- DELETE of the row of a key
  -- The rows of a map.
  abbrev rows_of : Map K V → List R
  rows_of m = map row (values m)

  -- DELETE of the row of a key
  pub rows-remove :
      (m : Map K V) (k : K)
      → Keyed key m
      → delete_where (λ (r : R). row_key r == k) (map row (values m)) ≡ rows_of (remove m k)
  unfolding delete_where retain remove
  rows-remove [] k w = refl
  rows-remove ((j, v) ∷ m) k w = ground (arith, same_key v, w.0, rows-remove m k w.2)

  pub rows-retain_values :
      (p : V → Bool) (q : R → Bool) (m : Map K V)
      → ((v : V) → q (row v) ≡ not (p v))
      → delete_where q (map row (values m)) ≡ rows_of (retain_values p m)
  unfolding delete_where retain retain_values
  rows-retain_values p q [] h = refl
  rows-retain_values p q ((j, v) ∷ m) h = ground (arith, h v, rows-retain_values p q m h)

  rows_where-kept :
      (p : V → Bool) (q : R → Bool) (m : Map K V)
      → ((v : V) → q (row v) ≡ not (p v))
      → length (retain_values p m) + rows_where q (map row (values m)) ≡ length m
  unfolding rows_where retain retain_values
  rows_where-kept p q [] h = refl
  rows_where-kept p q ((j, v) ∷ m) h = ground (arith, h v, rows_where-kept p q m h)

  -- A DELETE affects the map row (values of) the values that are not kept.
  pub rows_where-retain_values :
      (p : V → Bool) (q : R → Bool) (m : Map K V)
      → ((v : V) → q (row v) ≡ not (p v))
      → length m - length (retain_values p m) ≡ rows_where q (map row (values m))
  rows_where-retain_values p q m h = omega (arith, rows_where-kept p q m h)

  -- A query by a condition is the filter of the values.
  pub retain-rows :
      (p : V → Bool) (q : R → Bool) (vs : List V)
      → ((v : V) → q (row v) ≡ p v)
      → retain q (map row vs) ≡ map row (retain p vs)
  unfolding retain
  retain-rows p q [] h = refl
  retain-rows p q (v ∷ vs) h = ground (arith, h v, retain-rows p q vs h)

  -- The removal of several keys
  abbrev pub remove_keys : Map K V → List K → Map K V
  remove_keys m [] = m
  remove_keys m (k ∷ ks) = remove_keys (remove m k) ks

  contains-same :
      (k : K) (ks : List K) (rs : List R)
      → delete_where (λ r. contains ks (row_key r)) (delete_where (λ (r : R). row_key r == k) rs)
        ≡ delete_where (λ r. contains (k ∷ ks) (row_key r)) rs
  unfolding delete_where retain contains
  contains-same k ks [] = refl
  contains-same k ks (r ∷ rs) =
      ground (arith, ==_iff (row_key r) k, ==_iff k (row_key r), contains-same k ks rs)

  delete_where-nothing : (rs : List R) → rs ≡ delete_where (λ r. contains [] (row_key r)) rs
  unfolding delete_where retain contains
  delete_where-nothing [] = refl
  delete_where-nothing (r ∷ rs) = ap (λ (t : List R). r ∷ t) (delete_where-nothing rs)

  rows-remove_keys :
      (m : Map K V) (ks : List K)
      → Keyed key m
      → rows_of (remove_keys m ks)
        ≡ delete_where (λ r. contains ks (row_key r)) (map row (values m))
  rows-remove_keys m [] w = delete_where-nothing (map row (values m))
  rows-remove_keys m (k ∷ ks) w =
      rows-remove_keys (remove m k) ks (Keyed-remove key k m w)
      ∙ ap (delete_where (λ r. contains ks (row_key r))) (sym (rows-remove m k w))
      ∙ contains-same k ks (map row (values m))

  get-other :
      (m n : Map K V) (j : K) (v : V)
      → Keyed key n
      → Fresh j n
      → All (λ u. get m (key u) ≡ some u) (values n)
      → All (λ u. get ((j, v) ∷ m) (key u) ≡ some u) (values n)
  unfolding get
  get-other m [] j v w f h = tt
  get-other m ((i, u) ∷ n) j v w f h = (
    ground (arith, w.0, f.0, h.0, ==_iff j (key u), ==_iff i j, same_key u),
    get-other m n j v w.2 f.1 h.1,
  )

  get-All : (m : Map K V) → Keyed key m → All (λ v. get m (key v) ≡ some v) (values m)
  unfolding get
  get-All [] w = tt
  get-All ((j, v) ∷ m) w =
      (ground (arith, w.0, ==_iff j (key v)), get-other m m j v w.2 w.1 (get-All m w.2))

  delete_where-agree :
      (p q : R → Bool) (vs : List V)
      → All (λ v. p (row v) ≡ q (row v)) vs
      → delete_where p (map row vs) ≡ delete_where q (map row vs)
  unfolding delete_where retain
  delete_where-agree p q [] h = refl
  delete_where-agree p q (v ∷ vs) h = ground (arith, h.0, delete_where-agree p q vs h.1)

  -- DELETE by a condition is the removal of the keys of the values that meet it.
  pub rows-remove_where :
      (p : V → Bool) (q : R → Bool) (m : Map K V)
      → Keyed key m
      → ((v : V) → q (row v) ≡ p v)
      → delete_where q (map row (values m))
        ≡ rows_of (remove_keys m (map key (retain p (values m))))
  rows-remove_where p q m w h =
      let ks = map key (retain p (values m)) in
      delete_where-agree q (λ r. contains ks (row_key r)) (values m)
        (All-imp (λ v. get m (key v) ≡ some v) (λ v. q (row v) ≡ contains ks (row_key (row v)))
          (values m) (λ v g. met v g) (get-All m w))
      ∙ sym (rows-remove_keys m ks w)
    where
      met :
          (v : V)
          → get m (key v) ≡ some v
          → q (row v) ≡ contains (map key (retain p (values m))) (row_key (row v))
      met v g = ground (arith, h v, same_key v, contains-values key p m (key v) w)
