-- ===== src/Smtp/Data/Ends.antt =====
-- `read_data` of src/smtp/session.rs comes to an end, and within its cap.
use anony_mail.Base.{
  ℕ, zero, suc, ◌≤◌, ◌<◌, ◌≡◌, refl, ◌⊎◌, inl, inr, true, Option, none, some, arith, Bool-cases,
  Result, Result-cases, Sum-cases, is_some, length, length-append, ok, err,
}
use anony_mail.Model.{Bytes}
use anony_mail.Smtp.Wire.{
  Reader, LineStatus, line, eof, too_long, ReadLine, IoError, read_line, is_terminator,
}
use anony_mail.Smtp.Wire.Progress.{size, read_line-progress, read_line-le}
use anony_mail.Smtp.Data.{
  DataOutcome, complete, too_large, connection_closed, line_max, Body, no_body, unstuff, add_line,
  drop_line, outcome, data_step, data_loop, read_data,
}

module _ (fuel max : ℕ) (body : Body) (r : Reader) where
  pub data_loop-err :
      (e : IoError)
      → read_line (line_max max) r ≡ err e
      → data_loop (suc fuel) max body r ≡ some (err e)
  unfolding data_loop
  data_loop-err e q = rw (data_loop, q) refl

  pub data_loop-done :
      (out : ReadLine) (result : DataOutcome)
      → read_line (line_max max) r ≡ ok out
      → data_step max body out ≡ inr result
      → data_loop (suc fuel) max body r ≡ some (ok (result, out.reader))
  unfolding data_loop
  data_loop-done out result q s = rw (data_loop, q, s) refl

  pub data_loop-more :
      (out : ReadLine) (body' : Body)
      → read_line (line_max max) r ≡ ok out
      → data_step max body out ≡ inl body'
      → data_loop (suc fuel) max body r ≡ data_loop fuel max body' out.reader
  unfolding data_loop
  data_loop-more out body' q s = rw (data_loop, q, s) refl

data_step-eof :
    (max : ℕ) (body : Body) (out : ReadLine)
    → out.status ≡ eof
    → data_step max body out ≡ inr connection_closed
unfolding data_step
data_step-eof max body out h = rw (data_step, h) refl

data_loop-ends :
    (fuel max : ℕ) (body : Body) (r : Reader)
    → size r < fuel
    → is_some (data_loop fuel max body r) ≡ true
data_loop-ends zero max body r h = absurd (omega arith)
data_loop-ends (suc fuel) max body r h = elim (Result-cases (read_line (line_max max) r)) [
  | inr (e, q) ↦ rw (data_loop-err fuel max body r e q) refl
  | inl (out, q) ↦ elim (Sum-cases (data_step max body out)) [
    | inr (result, s) ↦ rw (data_loop-done fuel max body r out result q s) refl
    | inl (body', s) ↦ elim (read_line-progress (line_max max) r out q) [
      | inl c ↦ absurd (ground (arith, data_step-eof max body out c))
      | inr l ↦
          rw (data_loop-more fuel max body r out body' q s)
            (data_loop-ends fuel max body' out.reader (omega (arith, l)))
    ]
  ]
]

-- `read_data` returns on every stream, however it arrives and whether or not it ends.
pub read_data-ends : (max : ℕ) (r : Reader) → is_some (read_data max r) ≡ true
unfolding read_data
read_data-ends max r = data_loop-ends (suc (size r)) max no_body r (omega arith)

-- Every outcome keeps to the cap.
abbrev pub IsWithin : ℕ → Option (Result (DataOutcome × Reader) IoError) → Type 0
IsWithin max (some (ok (complete d, r))) = length d ≤ max
IsWithin max (some (ok (too_large, r))) = Unit
IsWithin max (some (ok (connection_closed, r))) = Unit
IsWithin max (some (err e)) = Unit
IsWithin max none = Unit

abbrev IsWithinStep : ℕ → Body ⊎ DataOutcome → Type 0
IsWithinStep max (inl body) = length body.bytes ≤ max
IsWithinStep max (inr (complete d)) = length d ≤ max
IsWithinStep max (inr too_large) = Unit
IsWithinStep max (inr connection_closed) = Unit

add_line-within :
    (max : ℕ) (body : Body) (l : Bytes)
    → length body.bytes ≤ max
    → length (add_line max body l).bytes ≤ max
unfolding add_line
add_line-within max body l h = ground (arith, length-append body.bytes (unstuff l))

drop_line-within :
    (max : ℕ) (body : Body) → length body.bytes ≤ max → length (drop_line body).bytes ≤ max
unfolding drop_line
drop_line-within max body h = ground arith

outcome-within :
    (max : ℕ) (body : Body) → length body.bytes ≤ max → IsWithinStep max (inr (outcome body))
unfolding outcome
outcome-within max body h = elim (Bool-cases body.oversize) [ inl t ↦ rw t tt | inr f ↦ rw f h ]

data_step-within :
    (max : ℕ) (body : Body) (status : LineStatus) (buf : Bytes) (r : Reader)
    → length body.bytes ≤ max
    → IsWithinStep max (data_step max body (record { status = status; buf = buf; reader = r }))
unfolding data_step
data_step-within max body eof buf r h = tt
data_step-within max body too_long buf r h = drop_line-within max body h
data_step-within max body line buf r h = elim (Bool-cases (is_terminator buf)) [
  | inl t ↦ rw (data_step, t) (outcome-within max body h)
  | inr f ↦ rw (data_step, f) (add_line-within max body buf h)
]

done-IsWithin :
    (max : ℕ) (result : DataOutcome) (r : Reader)
    → IsWithinStep max (inr result)
    → IsWithin max (some (ok (result, r)))
done-IsWithin max (complete d) r h = h
done-IsWithin max too_large r h = tt
done-IsWithin max connection_closed r h = tt

data_loop-IsWithin :
    (fuel max : ℕ) (body : Body) (r : Reader)
    → length body.bytes ≤ max
    → IsWithin max (data_loop fuel max body r)
data_loop-IsWithin zero max body r h = unfold data_loop in tt
data_loop-IsWithin (suc fuel) max body r h = elim (Result-cases (read_line (line_max max) r)) [
  | inr (e, q) ↦ rw (data_loop-err fuel max body r e q) tt
  | inl (out, q) ↦
      let w = data_step-within max body out.status out.buf out.reader h in
      elim (Sum-cases (data_step max body out)) [
        | inr (result, s) ↦
            rw (data_loop-done fuel max body r out result q s)
              (done-IsWithin max result out.reader (rw s at w))
        | inl (body', s) ↦
            rw (data_loop-more fuel max body r out body' q s)
              (data_loop-IsWithin fuel max body' out.reader (rw s at w))
      ]
]

read_data-IsWithin : (max : ℕ) (r : Reader) → IsWithin max (read_data max r)
unfolding read_data
read_data-IsWithin max r = data_loop-IsWithin (suc (size r)) max no_body r (omega arith)

-- `read_data` returns on every finite stream, however it arrives and whether or not a body ends in it,
-- and a message that it takes is no larger than the configured size. A stream is finite where the
-- client closes it or a read fails at some time.
pub read_data_returns :
    (max : ℕ) (r : Reader) → (is_some (read_data max r) ≡ true) × IsWithin max (read_data max r)
read_data_returns max r = (read_data-ends max r, read_data-IsWithin max r)

-- A reader that is behind another, or an ending without one.
abbrev pub IsBehind : Reader → Option (Result (DataOutcome × Reader) IoError) → Type 0
IsBehind r (some (ok (result, r'))) = size r' ≤ size r
IsBehind r (some (err e)) = Unit
IsBehind r none = Unit

IsBehind-trans :
    (r r' : Reader) (o : Option (Result (DataOutcome × Reader) IoError))
    → size r' ≤ size r
    → IsBehind r' o
    → IsBehind r o
IsBehind-trans r r' (some (ok (result, r''))) h k = omega (arith, h, k)
IsBehind-trans r r' (some (err e)) h k = tt
IsBehind-trans r r' none h k = tt

data_loop-IsBehind :
    (fuel max : ℕ) (body : Body) (r : Reader) → IsBehind r (data_loop fuel max body r)
data_loop-IsBehind zero max body r = unfold data_loop in tt
data_loop-IsBehind (suc fuel) max body r = elim (Result-cases (read_line (line_max max) r)) [
  | inr (e, q) ↦ rw (data_loop-err fuel max body r e q) tt
  | inl (out, q) ↦
      let le = read_line-le (line_max max) r out q in
      elim (Sum-cases (data_step max body out)) [
        | inr (result, s) ↦ rw (data_loop-done fuel max body r out result q s) le
        | inl (body', s) ↦
            rw (data_loop-more fuel max body r out body' q s)
              (IsBehind-trans r out.reader _ le (data_loop-IsBehind fuel max body' out.reader))
      ]
]

-- What is left to read behind a body is no more than there was before it.
pub read_data-IsBehind : (max : ℕ) (r : Reader) → IsBehind r (read_data max r)
unfolding read_data
read_data-IsBehind max r = data_loop-IsBehind (suc (size r)) max no_body r
