-- ===== src/Smtp/Data.antt =====
-- `read_data` of src/smtp/session.rs: the body of a message, with dot-unstuffing and the size cap.
pub mod Sent
pub mod Exact
pub mod Ends
use anony_mail.Base.{
  ℕ, zero, suc, ◌+◌, min, ◌⊎◌, inl, inr, Bool, true, false, not, Option, none, some, [], ◌∷◌, ◌++◌,
  ltb, if◌then◌else◌, ◌==◌, Result, length, ok, err, nat_eq, str_eq,
}
use anony_mail.Model.{Bytes}
use anony_mail.Smtp.Wire.{
  Reader, LineStatus, line, eof, too_long, ReadLine, IoError, read_line, is_terminator,
}
use anony_mail.Smtp.Wire.Progress.{size}

pub data DataOutcome : Type 0 where
  complete : Bytes → DataOutcome
  too_large : DataOutcome
  connection_closed : DataOutcome

-- usize::MAX
abbrev pub usize_max : ℕ
usize_max = 18446744073709551615

-- The cap of a line: `max.saturating_add(4)`.
abbrev pub line_max : ℕ → ℕ
line_max max = min (max + 4) usize_max

-- The lines so far, or nothing once they are too many.
pub record Body : Type 0 where
  pub oversize : Bool
  pub bytes : Bytes

abbrev pub no_body : Body
no_body = record { oversize = false; bytes = [] }

abbrev pub discarded : Body
discarded = record { oversize = true; bytes = [] }

-- A leading dot escapes the line.
unfoldable pub unstuff : Bytes → Bytes
unstuff [] = []
unstuff (b ∷ bs) = if b == b'.' then bs else b ∷ bs

unfoldable pub add_line : ℕ → Body → Bytes → Body
unfolding unstuff
add_line max body l =
    if body.oversize
    then body
    else if ltb max (length body.bytes + length (unstuff l))
    then discarded
    else record body { bytes = body.bytes ++ unstuff l }

unfoldable pub drop_line : Body → Body
drop_line body = if body.oversize then body else discarded

unfoldable pub outcome : Body → DataOutcome
outcome body = if body.oversize then too_large else complete body.bytes

-- What one line says: the end of the body, or the body so far.
unfoldable pub data_step : ℕ → Body → ReadLine → Body ⊎ DataOutcome
unfolding add_line drop_line outcome is_terminator
data_step max body out = elim out.status [
  | eof ↦ inr connection_closed
  | too_long ↦ inl (drop_line body)
  | line ↦ if is_terminator out.buf then inr (outcome body) else inl (add_line max body out.buf)
]

-- `none` when the fuel runs out, which that of `read_data` does not.
unfoldable pub data_loop : ℕ → ℕ → Body → Reader → Option (Result (DataOutcome × Reader) IoError)
unfolding read_line data_step
data_loop zero max body r = none
data_loop (suc fuel) max body r = elim (read_line (line_max max) r) [
  | err e ↦ some (err e)
  | ok out ↦ elim (data_step max body out) [
    | inr result ↦ some (ok (result, out.reader))
    | inl body' ↦ data_loop fuel max body' out.reader
  ]
]

unfoldable pub read_data : ℕ → Reader → Option (Result (DataOutcome × Reader) IoError)
unfolding data_loop
read_data max r = data_loop (suc (size r)) max no_body r
