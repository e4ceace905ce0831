-- ===== src/Smtp/Data/Exact.antt =====
-- `read_data` of src/smtp/session.rs undoes the dot-stuffing of a sender, and refuses a message for
-- its size exactly when it is larger than the cap.
use anony_mail.Base.{
  ℕ, zero, suc, ◌+◌, ◌≤◌, ◌<◌, ◌≡◌, refl, ap, ◌∙◌, inl, inr, true, false, some, List, [], ◌∷◌, ◌++◌,
  arith, ltb, if◌then◌else◌, str_beq, Bool-cases, length, length-append, All, ok,
}
use anony_mail.Model.{Bytes}
use mathlib.Core.List.{append_assoc}
use anony_mail.Smtp.Wire.{Reader, line, ReadLine, is_terminator, strip_eol, strip_last, fills}
use anony_mail.Smtp.Wire.Chunks.{stream, IsFlowing, read_line-stream}
use anony_mail.Smtp.Wire.Progress.{size, read_line-progress}
use anony_mail.Smtp.Wire.Chunks.{stream, IsFlowing, read_line-stream}
use anony_mail.Smtp.Wire.Progress.{size, read_line-progress}
use mathlib.Core.List.{append-nil}
use anony_mail.Smtp.Data.{
  DataOutcome, complete, too_large, line_max, Body, no_body, discarded, usize_max, add_line,
  outcome, data_step, data_loop, read_data,
}
use anony_mail.Smtp.Data.Ends.{data_loop-done, data_loop-more}
use anony_mail.Smtp.Data.Ends.{data_loop-done, data_loop-more}
use anony_mail.Smtp.Data.Sent.{
  crlf, stuff, body_of, sent, IsLine, stuff-IsLine, unstuff-stuff, cut_line-sent, stuff-not_end,
}

-- The body after all lines of a message.
add_all : ℕ → Body → List Bytes → Body
add_all max body [] = body
add_all max body (l ∷ ls) = add_all max (add_line max body (stuff l ++ crlf)) ls

add_all-oversize : (max : ℕ) (ls : List Bytes) → add_all max discarded ls ≡ discarded
unfolding add_all add_line
add_all-oversize max [] = refl
add_all-oversize max (l ∷ ls) = add_all-oversize max ls

abbrev kept : Bytes → Body
kept b = record { oversize = false; bytes = b }

abbrev bounded : ℕ → ℕ → Bytes → Body
bounded max n b = if ltb max n then discarded else kept b

add_all-kept :
    (max : ℕ) (b : Bytes) (ls : List Bytes)
    → length b ≤ max
    → add_all max (kept b) ls ≡ bounded max (length b + length (body_of ls)) (b ++ body_of ls)
unfolding add_all add_line
add_all-kept max b [] h = rw (append-nil b) (ground arith)
add_all-kept max b (l ∷ ls) h =
    let n = length-append (l ++ crlf) (body_of ls) in
    elim (Bool-cases (ltb max (length b + length (l ++ crlf)))) [
      | inl t ↦
          let m : ltb max (length b + length (body_of (l ∷ ls))) ≡ true = ground (arith, t, n) in
          rw (unstuff-stuff l, t, m) (add_all-oversize max ls)
      | inr f ↦
          let c = l ++ crlf in
          let k = length-append b c in
          let e : length (b ++ c) + length (body_of ls) ≡ length b + length (c ++ body_of ls) =
            omega (arith, n, k) in
          rw (unstuff-stuff l, f)
            (add_all-kept max (b ++ c) ls (ground (arith, f, k))
              ∙ ap (λ m. bounded max m ((b ++ c) ++ body_of ls)) e
              ∙ ap (bounded max (length b + length (c ++ body_of ls)))
                  (append_assoc b c (body_of ls)))
    ]

outcome-bounded :
    (max n : ℕ) (b : Bytes)
    → outcome (bounded max n b) ≡ (if ltb max n then too_large else complete b)
unfolding outcome
outcome-bounded max n b = elim (Bool-cases (ltb max n)) [ inl t ↦ rw t refl | inr f ↦ rw f refl ]

outcome-all :
    (max : ℕ) (ls : List Bytes)
    → outcome (add_all max no_body ls)
      ≡ (if ltb max (length (body_of ls)) then too_large else complete (body_of ls))
outcome-all max ls =
    let n : 0 + length (body_of ls) ≡ length (body_of ls) = omega arith in
    ap outcome (add_all-kept max [] ls (omega arith))
    ∙ ap (λ m. outcome (bounded max m (body_of ls))) n
    ∙ outcome-bounded max (length (body_of ls)) (body_of ls)

-- What a transfer leaves: its result, and a reader at what came behind the message.
Gives : ℕ → ℕ → Body → Reader → DataOutcome → Bytes → Type 0
Gives fuel max body r result rest =
    (r' : Reader) × (data_loop fuel max body r ≡ some (ok (result, r')))
    × IsFlowing (fills r')
    × (stream (fills r') ≡ rest)

-- Every line of the message fits in the line cap, its dot and line end counted.
abbrev pub AllFit : ℕ → List Bytes → Type 0
AllFit max = All (λ l. IsLine l × (length (stuff l) + 2 ≤ max + 4))

data_step-line :
    (max : ℕ) (body : Body) (l : Bytes) (r : Reader)
    → data_step max body (record { status = line; buf = stuff l ++ crlf; reader = r })
      ≡ inl (add_line max body (stuff l ++ crlf))
unfolding data_step
data_step-line max body l r = rw (stuff-not_end l) refl

data_step-end :
    (max : ℕ) (body : Body) (r : Reader)
    → data_step max body (record { status = line; buf = b'.' ∷ crlf; reader = r })
      ≡ inr (outcome body)
unfolding data_step is_terminator strip_eol strip_last str_beq
data_step-end max body r = refl

data_loop-sent :
    (fuel max : ℕ) (body : Body) (r : Reader) (ls : List Bytes) (rest : Bytes)
    → size r < fuel
    → max + 4 ≤ usize_max
    → IsFlowing (fills r)
    → stream (fills r) ≡ sent ls ++ rest
    → AllFit max ls
    → Gives fuel max body r (outcome (add_all max body ls)) rest
unfolding add_all Gives
data_loop-sent zero max body r ls rest f u fl s a = absurd (omega arith)
data_loop-sent (suc fuel) max body r [] rest f u fl s a =
    let (r', q, fl', s') =
      read_line-stream (line_max max) r (b'.' ∷ crlf) rest fl
        (rw s (cut_line-sent (b'.' ∷ []) rest (refl, tt))) (omega (arith, u)) in
    (
      r',
      data_loop-done fuel max body r (record { status = line; buf = b'.' ∷ crlf; reader = r' })
          (outcome body) q (data_step-end max body r'),
      fl',
      s',
    )
data_loop-sent (suc fuel) max body r (l ∷ ls) rest f u fl s a =
    let (r', q, fl', s') =
      read_line-stream (line_max max) r (stuff l ++ crlf) (sent ls ++ rest) fl
        (rw (s, append_assoc (stuff l ++ crlf) (sent ls) rest)
          (cut_line-sent (stuff l) (sent ls ++ rest) (stuff-IsLine l a.0.0)))
        (omega (arith, u, a.0.1, length-append (stuff l) crlf)) in
    let out : ReadLine = record { status = line; buf = stuff l ++ crlf; reader = r' } in
    let (r2, q2, fl2, s2) =
      data_loop-sent fuel max (add_line max body (stuff l ++ crlf)) r' ls rest
        (elim (read_line-progress (line_max max) r out q) [
          | inl c ↦ absurd (ground arith)
          | inr p ↦ omega (arith, p)
        ])
        u fl' s' a.1 in
    (
      r2,
      data_loop-more fuel max body r out (add_line max body (stuff l ++ crlf)) q
            (data_step-line max body l r')
          ∙ q2,
      fl2,
      s2,
    )

-- What a sender sends for lines of any content arrives as those lines, whatever the pieces in which
-- it arrives: the message is taken if it is no larger than the cap and refused as too large if it is
-- larger, and either way the commands that come behind it are left unread. The lines each fit in the
-- line cap, and the message cap is below the largest `usize` by 4 or more.
pub read_data-exact :
    (max : ℕ) (r : Reader) (ls : List Bytes) (rest : Bytes)
    → max + 4 ≤ usize_max
    → IsFlowing (fills r)
    → stream (fills r) ≡ sent ls ++ rest
    → AllFit max ls
    → (r' : Reader) × (read_data max r
        ≡ some
            (ok (if ltb max (length (body_of ls)) then too_large else complete (body_of ls), r')))
      × IsFlowing (fills r')
      × (stream (fills r') ≡ rest)
unfolding read_data Gives
read_data-exact max r ls rest u fl s a =
    let (r', q, fl', s') =
      data_loop-sent (suc (size r)) max no_body r ls rest (omega arith) u fl s a in
    (r', q ∙ ap (λ d. some (ok (d, r'))) (outcome-all max ls), fl', s')
