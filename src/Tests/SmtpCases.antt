-- ===== src/Tests/SmtpCases.antt =====
-- The theorems on src/smtp/ at concrete inputs.
use anony_mail.Base.{
  ◌≡◌, refl, inl, inr, true, some, List, [], ◌∷◌, ◌++◌, map, arith, ltb, if◌then◌else◌, str_beq,
  is_some, length, contains, ok, nat_eq, str_eq,
}
use anony_mail.Base.Text.{Str, text, rsplit_once, split_once}
use anony_mail.Config.{is_reserved_local_part}
use anony_mail.Events.{from_stored}
use anony_mail.Smtp.Data.{complete, too_large, read_data}
use anony_mail.Smtp.Data.Ends.{IsWithin, read_data_returns}
use anony_mail.Smtp.Data.Sent.{body_of, sent}
use anony_mail.Smtp.Data.Exact.{read_data-exact}
use anony_mail.Smtp.Recipient.{strip_plus_tag, validate_recipient}
use anony_mail.Smtp.Recipient.Accepted.{HasMailbox, validate_recipient-HasMailbox}
use anony_mail.Smtp.Recipient.Reserved.{validate_recipient-unchanged}
use anony_mail.Smtp.Session.{Session, handle}
use anony_mail.Smtp.Session.Delivery.{deliver}
use anony_mail.Smtp.Session.Spending.{IsReal}
use anony_mail.Smtp.Session.Ends.{run-IsReal}
use anony_mail.Smtp.Session.Handlers.{handle_start_tls}
use anony_mail.Smtp.Session.Invariant.{connection-IsOrderly}
use anony_mail.Smtp.Session.Order.{IsOrderly}
use anony_mail.Smtp.Session.Notices.{copies, deliver-copies}
use anony_mail.Smtp.Session.Run.{rounds, run}
use anony_mail.Smtp.Session.StartTls.{start_tls-forgets}
use anony_mail.Smtp.Wire.{chunk, Reader, line, read_line, fills, cut_line}
use anony_mail.Smtp.Wire.Chunks.{stream, IsFlowing, read_line-stream}
use anony_mail.Store.Memory.Backend.{MemoryStore, memory_store}
use anony_mail.Tests.Fixtures.{alice, bob, letter, config, context, no_patterns, server, reader_of}

-- "NOOP" in two pieces, and what comes behind it.
abbrev in_pieces : Reader
in_pieces = record {
  buffered = text "NO";
  incoming = chunk (text "OP" ++ 13 ∷ 10 ∷ text "QUIT") ∷ [];
}

read_line-stream_example :
    (r' : Reader) × (read_line 100 in_pieces
      ≡ ok (record { status = line; buf = text "NOOP" ++ 13 ∷ 10 ∷ []; reader = r' }))
    × IsFlowing (fills r')
    × (stream (fills r') ≡ text "QUIT")
unfolding cut_line
read_line-stream_example =
    read_line-stream 100 in_pieces (text "NOOP" ++ 13 ∷ 10 ∷ []) (text "QUIT") tt refl (omega arith)

-- A body with a line that begins with a dot.
abbrev dotted : List Str
dotted = text "hi" ∷ text ".x" ∷ []

abbrev dotted_reader : Reader
dotted_reader = reader_of (sent dotted ++ text "QUIT")

read_data-exact_example :
    (r' : Reader) × (read_data 100 dotted_reader
      ≡ some (
          ok (
            if ltb 100 (length (body_of dotted)) then too_large else complete (body_of dotted),
            r',
          )))
    × IsFlowing (fills r')
    × (stream (fills r') ≡ text "QUIT")
read_data-exact_example =
    read_data-exact 100 dotted_reader dotted (text "QUIT") (omega arith) tt refl
      (((refl, (refl, tt)), omega arith), (((refl, (refl, tt)), omega arith), tt))

read_data_returns_example :
    (is_some (read_data 100 dotted_reader) ≡ true) × IsWithin 100 (read_data 100 dotted_reader)
read_data_returns_example = read_data_returns 100 dotted_reader

-- A connection whose client says no more than NOOP.
abbrev connected : Session MemoryStore
connected = handle in_pieces server []

run-IsReal_example : IsReal (run memory_store context connected).0
run-IsReal_example = run-IsReal memory_store context connected

connection-IsOrderly_example :
    IsOrderly 2 (rounds memory_store context 3 (handle in_pieces server [])).1
connection-IsOrderly_example = connection-IsOrderly memory_store context 3 in_pieces server []

start_tls-forgets_example :
    handle_start_tls memory_store context (record connected {
      helo = some alice;
      mail_from = some bob;
      rcpts = alice ∷ [];
      reader = reader_of (text "RSET");
    })
    ≡ handle_start_tls memory_store context connected
start_tls-forgets_example =
    start_tls-forgets memory_store context connected (chunk (text "QUIT") ∷ []) refl refl refl
      (some alice) (some bob) (alice ∷ []) (reader_of (text "RSET"))

deliver-copies_example : deliver memory_store no_patterns letter (alice ∷ bob ∷ []) server [] ≡ (
  (copies memory_store letter (alice ∷ bob ∷ []) server).1,
  (copies memory_store letter (alice ∷ bob ∷ []) server).2,
  map
      (λ c. from_stored no_patterns c.0 c.1)
      (copies memory_store letter (alice ∷ bob ∷ []) server).0,
)
deliver-copies_example = deliver-copies memory_store no_patterns letter (alice ∷ bob ∷ []) server []

abbrev admin : Str
admin = text "admin+x@a.io"

validate_recipient-unchanged_example :
    (validate_recipient memory_store config (λ i. 20) server admin).1 ≡ server
unfolding strip_plus_tag rsplit_once split_once is_reserved_local_part contains str_beq
validate_recipient-unchanged_example =
    validate_recipient-unchanged memory_store config (λ i. 20) server admin (inl (inr refl))

validate_recipient-HasMailbox_example :
    HasMailbox
      (strip_plus_tag (text "new+x@a.io"))
      (validate_recipient memory_store config (λ i. 20) server (text "new+x@a.io"))
validate_recipient-HasMailbox_example =
    validate_recipient-HasMailbox config (λ i. 20) server (text "new+x@a.io")
