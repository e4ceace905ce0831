-- ===== src/Smtp/Wire.antt =====
-- The lines of a connection, as src/smtp/session.rs reads them through a buffered reader.
pub mod Chunks
pub mod Progress
use anony_mail.Base.{
  ℕ, ◌+◌, Bool, Option, none, some, List, [], ◌∷◌, ◌++◌, ltb, if◌then◌else◌, ◌==◌, Result, length,
  ok, err, nat_eq, str_eq,
}
use anony_mail.Base.Text.{text, is_empty}
use anony_mail.Model.{Bytes}

-- What one read of the socket brings: bytes (none at the end of the stream), or an error, which
-- the timeout is too.
pub data Fill : Type 0 where
  chunk : Bytes → Fill
  broken : Fill

-- `BufReader`: what is read and not consumed, and what the socket will bring. The reads to come are
-- finitely many, and behind the last of them the client has closed. A client that never stops
-- sending is not covered: the code has a timeout for one line, and none for a session or a body, so
-- that nothing there ends the session of such a client.
pub record Reader : Type 0 where
  pub buffered : Bytes
  pub incoming : List Fill

pub data LineStatus : Type 0 where
  line eof too_long : LineStatus

-- What a call of `read_line` leaves: its status, the line buffer and the reader.
pub record ReadLine : Type 0 where
  pub status : LineStatus
  pub buf : Bytes
  pub reader : Reader

pub data IoError : Type 0 where
  io_error : IoError

-- The part up to a newline, with it, and the rest.
unfoldable pub cut_line : Bytes → Option (Bytes × Bytes)
cut_line [] = none
cut_line (b ∷ bs) =
    if b == 10
    then some (b ∷ [], bs)
    else elim (cut_line bs) [ none ↦ none | some (a, r) ↦ some (b ∷ a, r) ]

abbrev pub left : Bytes → List Fill → Reader
left rest incoming = record { buffered = rest; incoming = incoming }

unfoldable pub at_end : Bytes → List Fill → ReadLine
at_end buf incoming = record {
  status = if is_empty buf then eof else line;
  buf = buf;
  reader = left [] incoming;
}

-- A chunk with a newline in it.
unfoldable pub take_line : ℕ → Bytes → Bytes → Bytes → List Fill → ReadLine
take_line max buf taken rest incoming =
    if ltb max (length buf + length taken)
    then record { status = too_long; buf = buf; reader = left rest incoming }
    else record { status = line; buf = buf ++ taken; reader = left rest incoming }

unfoldable pub read_loop : ℕ → Bytes → List Fill → Result ReadLine IoError
unfolding cut_line at_end take_line
read_loop max buf [] = ok (at_end buf [])
read_loop max buf (broken ∷ incoming) = err io_error
read_loop max buf (chunk [] ∷ incoming) = ok (at_end buf incoming)
read_loop max buf (chunk (b ∷ bs) ∷ incoming) =
    let more = read_loop max (buf ++ (b ∷ bs)) incoming in
    elim (cut_line (b ∷ bs)) [
      | some (taken, rest) ↦ ok (take_line max buf taken rest incoming)
      | none ↦
          if ltb max (length buf + length (b ∷ bs))
          then ok (record { status = too_long; buf = buf; reader = left [] incoming })
          else more
    ]

-- What `fill_buf` will bring, one after another.
abbrev pub fills : Reader → List Fill
fills r = if is_empty r.buffered then r.incoming else chunk r.buffered ∷ r.incoming

unfoldable pub read_line : ℕ → Reader → Result ReadLine IoError
unfolding read_loop
read_line max r = read_loop max [] (fills r)

-- Without the last byte, if that is `c`.
unfoldable pub strip_last : ℕ → Bytes → Bytes
strip_last c [] = []
strip_last c (x ∷ []) = if x == c then [] else x ∷ []
strip_last c (x ∷ y ∷ s) = x ∷ strip_last c (y ∷ s)

unfoldable pub strip_eol : Bytes → Bytes
unfolding strip_last
strip_eol s = strip_last 13 (strip_last 10 s)

unfoldable pub is_terminator : Bytes → Bool
unfolding strip_eol
is_terminator s = strip_eol s == text "."
