-- ===== src/Smtp/Wire/Chunks.antt =====
-- `read_line` of src/smtp/session.rs, whatever the pieces in which the bytes arrive.
use anony_mail.Base.{
  ℕ, ◌+◌, ◌≤◌, ◌≡◌, refl, sym, ap, ◌∙◌, inl, inr, Option, none, some, List, [], ◌∷◌, ◌++◌, arith,
  ◌==◌, Bool-cases, Option-cases, length, length-append, ok, nat_eq, str_eq,
}
use anony_mail.Model.{Bytes}
use mathlib.Core.List.{append_assoc}
use anony_mail.Smtp.Wire.{
  Fill, chunk, broken, Reader, line, cut_line, left, take_line, read_loop, read_line, fills,
}

-- The bytes that are still to come.
abbrev pub stream : List Fill → Bytes
stream [] = []
stream (chunk bs ∷ fs) = bs ++ stream fs
stream (broken ∷ fs) = []

-- No read fails, and none but the last is empty.
abbrev pub IsFlowing : List Fill → Type 0
IsFlowing [] = Unit
IsFlowing (chunk [] ∷ fs) = ⊥
IsFlowing (chunk (b ∷ bs) ∷ fs) = IsFlowing fs
IsFlowing (broken ∷ fs) = ⊥

abbrev prefixed : Bytes → Option (Bytes × Bytes) → Option (Bytes × Bytes)
prefixed a none = none
prefixed a (some (l, r)) = some (a ++ l, r)

abbrev joined : Bytes → Bytes → Option (Bytes × Bytes) → Option (Bytes × Bytes)
joined a b none = prefixed a (cut_line b)
joined a b (some (l, r)) = some (l, r ++ b)

cut_line-append : (a b : Bytes) → cut_line (a ++ b) ≡ joined a b (cut_line a)
unfolding cut_line
cut_line-append [] b = elim (Option-cases (cut_line b)) [
  | inl e ↦ rw e refl
  | inr (lr, e) ↦ rw e refl
]
cut_line-append (x ∷ a) b = elim (Bool-cases (x == 10)) [
  | inl t ↦ rw t refl
  | inr f ↦ elim (Option-cases (cut_line a)) [
    | inr (lr, e) ↦ rw (f, e, cut_line-append a b, e) refl
    | inl e ↦ elim (Option-cases (cut_line b)) [
      | inl e' ↦ rw (f, e, cut_line-append a b, e, e') refl
      | inr (lr, e') ↦ rw (f, e, cut_line-append a b, e, e') refl
    ]
  ]
]

-- What a call that gives a line leaves behind.
Delivers : ℕ → Bytes → List Fill → Bytes → Bytes → Type 0
Delivers max buf fs l rest =
    (r : Reader) × (read_loop max buf fs
      ≡ ok (record { status = line; buf = buf ++ l; reader = r }))
    × IsFlowing (fills r)
    × (stream (fills r) ≡ rest)

some-parts :
    (a b c d : Bytes) (h : Path (Option (Bytes × Bytes)) (some (a, b)) (some (c, d)))
    → (a ≡ c) × (b ≡ d)
some-parts a b c d h = (ground arith, ground arith)

fills-left :
    (more : Bytes) (fs : List Fill)
    → IsFlowing fs
    → IsFlowing (fills (left more fs)) × (stream (fills (left more fs)) ≡ more ++ stream fs)
fills-left [] fs fl = (fl, refl)
fills-left (b ∷ bs) fs fl = (fl, refl)

module _ (max : ℕ) (buf : Bytes) (b : ℕ) (bs : Bytes) (fs : List Fill) where
  read_loop-found :
      (taken more : Bytes)
      → cut_line (b ∷ bs) ≡ some (taken, more)
      → length buf + length taken ≤ max
      → read_loop max buf (chunk (b ∷ bs) ∷ fs)
        ≡ ok (record { status = line; buf = buf ++ taken; reader = left more fs })
  unfolding take_line read_loop
  read_loop-found taken more e le = rw (read_loop, e) (ground arith)

  read_loop-goes_on :
      cut_line (b ∷ bs) ≡ none
      → length buf + length (b ∷ bs) ≤ max
      → read_loop max buf (chunk (b ∷ bs) ∷ fs) ≡ read_loop max (buf ++ b ∷ bs) fs
  unfolding read_loop
  read_loop-goes_on e le = rw (read_loop, e) (ground arith)

read_loop-stream :
    (max : ℕ) (buf : Bytes) (fs : List Fill) (l rest : Bytes)
    → IsFlowing fs
    → cut_line (stream fs) ≡ some (l, rest)
    → length buf + length l ≤ max
    → Delivers max buf fs l rest
unfolding Delivers
read_loop-stream max buf [] l rest fl h le = absurd (unfold cut_line in ground arith)
read_loop-stream max buf (chunk [] ∷ fs) l rest fl h le = elim fl [ ]
read_loop-stream max buf (broken ∷ fs) l rest fl h le = elim fl [ ]
read_loop-stream max buf (chunk (b ∷ bs) ∷ fs) l rest fl h le =
    elim (Option-cases (cut_line (b ∷ bs))) [
      | inr ((taken, more), e) ↦
          let p = some-parts taken (more ++ stream fs) l rest (
            sym (ap (joined (b ∷ bs) (stream fs)) e)
            ∙ sym (cut_line-append (b ∷ bs) (stream fs))
            ∙ h) in
          (
            left more fs,
            read_loop-found max buf b bs fs taken more e (rw p.0 le)
                ∙ ap (λ x. ok (record { status = line; buf = buf ++ x; reader = left more fs }))
                    p.0,
            (fills-left more fs fl).0,
            (fills-left more fs fl).1 ∙ p.1,
          )
      | inl e ↦ elim (Option-cases (cut_line (stream fs))) [
        | inl e' ↦ absurd (
            ground (
              arith,
              ap (prefixed (b ∷ bs)) e',
              ap (joined (b ∷ bs) (stream fs)) e,
              cut_line-append (b ∷ bs) (stream fs),
            ))
        | inr ((l', rest'), e') ↦
            let p = some-parts (b ∷ bs ++ l') rest' l rest (
              sym (ap (prefixed (b ∷ bs)) e')
              ∙ sym (ap (joined (b ∷ bs) (stream fs)) e)
              ∙ sym (cut_line-append (b ∷ bs) (stream fs))
              ∙ h) in
            let n : length buf + length (b ∷ bs) + length l' ≤ max =
              omega (arith, length-append (b ∷ bs) l', ap length p.0, le) in
            let (r, q, fl', s) =
              read_loop-stream max (buf ++ b ∷ bs) fs l' rest' fl e'
                (omega (arith, length-append buf (b ∷ bs), n)) in
            (
              r,
              read_loop-goes_on max buf b bs fs e (omega (arith, n))
                  ∙ q
                  ∙ ap (λ x. ok (record { status = line; buf = x; reader = r }))
                      (append_assoc buf (b ∷ bs) l' ∙ ap (λ x. buf ++ x) p.0),
              fl',
              s ∙ p.1,
            )
      ]
    ]

-- Whatever the pieces in which a stream arrives, `read_line` gives the line up to its first
-- newline, if it fits, and leaves the rest of the stream for the next call, none of it lost.
pub read_line-stream :
    (max : ℕ) (r : Reader) (l rest : Bytes)
    → IsFlowing (fills r)
    → cut_line (stream (fills r)) ≡ some (l, rest)
    → length l ≤ max
    → (r' : Reader) × (read_line max r ≡ ok (record { status = line; buf = l; reader = r' }))
      × IsFlowing (fills r')
      × (stream (fills r') ≡ rest)
unfolding read_line Delivers
read_line-stream max r l rest fl h le =
    read_loop-stream max [] (fills r) l rest fl h (omega (arith, le))
