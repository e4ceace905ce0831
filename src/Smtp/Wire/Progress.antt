-- ===== src/Smtp/Wire/Progress.antt =====
-- Each call of `read_line` of src/smtp/session.rs uses up some of what is to come, and none keeps
-- more than its cap.
use anony_mail.Base.{
  ℕ, suc, ◌+◌, ◌≤◌, ◌<◌, ◌≡◌, refl, ap, ◌⊎◌, inl, inr, Option, none, some, List, [], ◌∷◌, ◌++◌,
  arith, ltb, if◌then◌else◌, ◌==◌, Bool-cases, Option-cases, Result, length, length-append, ok, err,
  nat_eq, str_eq,
}
use anony_mail.Model.{Bytes}
use anony_mail.Smtp.Wire.{
  Fill, chunk, broken, Reader, eof, too_long, ReadLine, IoError, cut_line, at_end, left, take_line,
  read_loop, read_line, fills,
}

-- The reads to come and their bytes.
abbrev pub weight : List Fill → ℕ
weight [] = 0
weight (chunk bs ∷ fs) = suc (length bs + weight fs)
weight (broken ∷ fs) = suc (weight fs)

-- Bytes and reads that a reader can still give.
abbrev pub size : Reader → ℕ
size r = weight (fills r)

size-left : (rest : Bytes) (fs : List Fill) → size (left rest fs) ≤ suc (length rest + weight fs)
size-left [] fs = omega arith
size-left (b ∷ bs) fs = omega arith

-- A predicate of a result, if there is one.
abbrev pub IfOk : (ReadLine → Type 0) → Result ReadLine IoError → Type 0
IfOk P (ok out) = P out
IfOk P (err e) = Unit

abbrev cut_length : Option (Bytes × Bytes) → ℕ
cut_length none = 0
cut_length (some (l, r)) = suc (length r)

length-cut_line : (a : Bytes) → cut_length (cut_line a) ≤ length a
unfolding cut_line
length-cut_line [] = omega arith
length-cut_line (x ∷ a) = elim (Bool-cases (x == 10)) [
  | inl t ↦ rw t (omega arith)
  | inr f ↦ elim (Option-cases (cut_line a)) [
    | inl e ↦ rw (f, e) (omega arith)
    | inr (p, e) ↦ rw (f, e) (ground (arith, length-cut_line a))
  ]
]

abbrev too_long_at : Bytes → List Fill → ReadLine
too_long_at buf fs = record { status = too_long; buf = buf; reader = left [] fs }

module _ (max : ℕ) (buf : Bytes) (b : ℕ) (bs : Bytes) (fs : List Fill) where
  read_loop-found :
      (taken rest : Bytes)
      → cut_line (b ∷ bs) ≡ some (taken, rest)
      → read_loop max buf (chunk (b ∷ bs) ∷ fs) ≡ ok (take_line max buf taken rest fs)
  unfolding read_loop
  read_loop-found taken rest e = rw (read_loop, e) refl

  read_loop-none :
      cut_line (b ∷ bs) ≡ none
      → read_loop max buf (chunk (b ∷ bs) ∷ fs) ≡ (
          if ltb max (length buf + length (b ∷ bs))
          then ok (too_long_at buf fs)
          else read_loop max (buf ++ b ∷ bs) fs)
  unfolding read_loop
  read_loop-none e = rw (read_loop, e) refl

step_of : List Fill → ℕ
step_of [] = 0
step_of (f ∷ fs) = 1

IsSmaller : List Fill → ReadLine → Type 0
IsSmaller fs out = size out.reader + step_of fs ≤ weight fs

take_line-IsSmaller :
    (max : ℕ) (buf taken rest : Bytes) (b : ℕ) (bs : Bytes) (fs : List Fill)
    → suc (length rest) ≤ length (b ∷ bs)
    → IsSmaller (chunk (b ∷ bs) ∷ fs) (take_line max buf taken rest fs)
unfolding IsSmaller take_line step_of
take_line-IsSmaller max buf taken rest b bs fs h = ground (arith, size-left rest fs)

IsSmaller-more :
    (f : Fill) (fs : List Fill) (o : Result ReadLine IoError)
    → IfOk (IsSmaller fs) o
    → weight fs < weight (f ∷ fs)
    → IfOk (IsSmaller (f ∷ fs)) o
unfolding IsSmaller step_of
IsSmaller-more f fs (err e) h l = tt
IsSmaller-more f fs (ok out) h l = omega (arith, h)

read_loop-IsSmaller :
    (max : ℕ) (buf : Bytes) (fs : List Fill) → IfOk (IsSmaller fs) (read_loop max buf fs)
read_loop-IsSmaller max buf [] = unfold IsSmaller read_loop at_end step_of in omega arith
read_loop-IsSmaller max buf (broken ∷ fs) = unfold read_loop in tt
read_loop-IsSmaller max buf (chunk [] ∷ fs) =
    unfold IsSmaller read_loop at_end step_of in omega arith
read_loop-IsSmaller max buf (chunk (b ∷ bs) ∷ fs) = elim (Option-cases (cut_line (b ∷ bs))) [
  | inr ((taken, rest), e) ↦ rw (read_loop-found max buf b bs fs taken rest e) (
      take_line-IsSmaller max buf taken rest b bs fs
        (omega (arith, length-cut_line (b ∷ bs), ap cut_length e)))
  | inl e ↦ elim (Bool-cases (ltb max (length buf + length (b ∷ bs)))) [
    | inl t ↦ rw (read_loop-none max buf b bs fs e, t) (unfold IsSmaller step_of in omega arith)
    | inr f ↦
        rw (read_loop-none max buf b bs fs e, f)
          (IsSmaller-more (chunk (b ∷ bs)) fs _ (read_loop-IsSmaller max (buf ++ b ∷ bs) fs)
            (omega arith))
  ]
]

-- The buffer within its cap.
abbrev pub Fits : ℕ → ReadLine → Type 0
Fits max out = length out.buf ≤ max

take_line-Fits :
    (max : ℕ) (buf taken rest : Bytes) (fs : List Fill)
    → length buf ≤ max
    → Fits max (take_line max buf taken rest fs)
unfolding take_line
take_line-Fits max buf taken rest fs h = ground (arith, length-append buf taken)

read_loop-Fits :
    (max : ℕ) (buf : Bytes) (fs : List Fill)
    → length buf ≤ max
    → IfOk (Fits max) (read_loop max buf fs)
read_loop-Fits max buf [] h = unfold read_loop at_end in h
read_loop-Fits max buf (broken ∷ fs) h = unfold read_loop in tt
read_loop-Fits max buf (chunk [] ∷ fs) h = unfold read_loop at_end in h
read_loop-Fits max buf (chunk (b ∷ bs) ∷ fs) h = elim (Option-cases (cut_line (b ∷ bs))) [
  | inr ((taken, rest), e) ↦
      rw (read_loop-found max buf b bs fs taken rest e) (take_line-Fits max buf taken rest fs h)
  | inl e ↦ elim (Bool-cases (ltb max (length buf + length (b ∷ bs)))) [
    | inl t ↦ rw (read_loop-none max buf b bs fs e, t) h
    | inr f ↦
        rw (read_loop-none max buf b bs fs e, f)
          (read_loop-Fits max (buf ++ b ∷ bs) fs (ground (arith, f, length-append buf (b ∷ bs))))
  ]
]

-- Whatever arrives, the buffer of a line never grows past the cap.
pub read_line-Fits : (max : ℕ) (r : Reader) → IfOk (Fits max) (read_line max r)
unfolding read_line
read_line-Fits max r = read_loop-Fits max [] (fills r) (omega arith)

shrinks :
    (max : ℕ) (fs : List Fill) (out : ReadLine)
    → IsSmaller fs out
    → read_loop max [] fs ≡ ok out
    → (out.status ≡ eof) ⊎ (suc (size out.reader) ≤ weight fs)
unfolding read_loop IsSmaller at_end step_of
shrinks max [] out h e = inl (ground arith)
shrinks max (f ∷ fs) out h e = inr (omega (arith, h))

-- A call that returns either has seen the end of the stream or has left less to read.
pub read_line-progress :
    (max : ℕ) (r : Reader) (out : ReadLine)
    → read_line max r ≡ ok out
    → (out.status ≡ eof) ⊎ (size out.reader < size r)
unfolding read_line
read_line-progress max r out h =
    shrinks max (fills r) out (rw h at (read_loop-IsSmaller max [] (fills r))) h

-- No call gives bytes back.
pub read_line-le :
    (max : ℕ) (r : Reader) (out : ReadLine) → read_line max r ≡ ok out → size out.reader ≤ size r
unfolding read_line IsSmaller
read_line-le max r out h =
    let w : IfOk (IsSmaller (fills r)) (ok out) = rw h at (read_loop-IsSmaller max [] (fills r)) in
    omega (arith, w)
