-- ===== src/Smtp/Data/Sent.antt =====
-- The lines of a body as a client sends them, and what the helpers of `read_data`
-- (src/smtp/session.rs) make of one.
use anony_mail.Base.{
  ℕ, ◌≡◌, refl, sym, ap, ◌∙◌, inl, inr, false, some, List, [], ◌∷◌, ◌++◌, if◌then◌else◌, ◌==◌,
  ==_refl, str_beq, Bool-cases, All, nat_eq, str_eq,
}
use anony_mail.Model.{Bytes}
use mathlib.Core.List.{append_assoc}
use anony_mail.Smtp.Wire.{is_terminator, cut_line, strip_eol, strip_last}
use anony_mail.Smtp.Data.{unstuff}

abbrev pub crlf : Bytes
crlf = 13 ∷ 10 ∷ []

-- What a sender does to a line: RFC 5321, 4.5.2.
abbrev pub stuff : Bytes → Bytes
stuff [] = []
stuff (b ∷ bs) = if b == b'.' then b ∷ b ∷ bs else b ∷ bs

-- The message that its lines make, and what is sent for it.
abbrev pub body_of : List Bytes → Bytes
body_of [] = []
body_of (l ∷ ls) = (l ++ crlf) ++ body_of ls

abbrev pub sent : List Bytes → Bytes
sent [] = b'.' ∷ crlf
sent (l ∷ ls) = (stuff l ++ crlf) ++ sent ls

-- No newline within a line.
abbrev pub IsLine : Bytes → Type 0
IsLine = All (λ b. (b == 10) ≡ false)

pub stuff-IsLine : (l : Bytes) → IsLine l → IsLine (stuff l)
stuff-IsLine [] h = tt
stuff-IsLine (b ∷ bs) h = elim (Bool-cases (b == b'.')) [ inl t ↦ rw t (h.0, h) | inr f ↦ rw f h ]

pub unstuff-stuff : (l : Bytes) → unstuff (stuff l ++ crlf) ≡ l ++ crlf
unfolding unstuff
unstuff-stuff [] = refl
unstuff-stuff (b ∷ bs) = elim (Bool-cases (b == b'.')) [
  | inl t ↦ rw (t, t) refl
  | inr f ↦ rw (f, f) refl
]

pub cut_line-sent :
    (l rest : Bytes) → IsLine l → cut_line ((l ++ crlf) ++ rest) ≡ some (l ++ crlf, rest)
unfolding cut_line
cut_line-sent [] rest h = refl
cut_line-sent (b ∷ bs) rest h = rw (h.0, cut_line-sent bs rest h.1) refl

strip_last-snoc : (c : ℕ) (l : Bytes) → strip_last c (l ++ c ∷ []) ≡ l
unfolding strip_last
strip_last-snoc c [] = rw (==_refl c) refl
strip_last-snoc c (x ∷ []) = rw (==_refl c) refl
strip_last-snoc c (x ∷ y ∷ s) = ap (λ t. x ∷ t) (strip_last-snoc c (y ∷ s))

strip_eol-crlf : (l : Bytes) → strip_eol (l ++ crlf) ≡ l
unfolding strip_eol
strip_eol-crlf l =
    ap (λ t. strip_last 13 (strip_last 10 t)) (sym (append_assoc l (13 ∷ []) (10 ∷ [])))
    ∙ ap (strip_last 13) (strip_last-snoc 10 (l ++ 13 ∷ []))
    ∙ strip_last-snoc 13 l

not_dot : (l : Bytes) → (stuff l == b'.' ∷ []) ≡ false
unfolding str_beq
not_dot [] = refl
not_dot (b ∷ bs) = elim (Bool-cases (b == b'.')) [ inl t ↦ rw (t, t) refl | inr f ↦ rw (f, f) refl ]

pub stuff-not_end : (l : Bytes) → is_terminator (stuff l ++ crlf) ≡ false
unfolding is_terminator
stuff-not_end l = rw (strip_eol-crlf (stuff l)) (not_dot l)
