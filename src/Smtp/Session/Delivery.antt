-- ===== src/Smtp/Session/Delivery.antt =====
-- `store_message` of src/smtp/session.rs: a copy and an event for each recipient.
use anony_mail.Base.{
  ℕ, Option, none, some, List, [], ◌∷◌, if◌then◌else◌, Result, unwrap_or, length, ok, err,
}
use anony_mail.Base.Text.{Str}
use anony_mail.Model.{Bytes, NewMessage}
use anony_mail.Events.{MailEvent, from_stored, publish}
use anony_mail.Mime.{parse_message}
use anony_mail.Otp.{Patterns}
use anony_mail.Store.{Store, StoreError}
use anony_mail.Smtp.Session.{Context, Session}

-- The message as it is stored, with its bytes where the configuration asks for them.
unfoldable pub to_store : Context → Str → Bytes → NewMessage
to_store ctx envelope_from raw =
    let parsed = parse_message ctx.parser raw envelope_from in
    if ctx.config.store_raw_message then record parsed { raw_content = some raw } else parsed

module _ (store : Store) where
  -- Up to the first recipient for whom the store fails.
  unfoldable pub deliver :
      Patterns
      → NewMessage
      → List Str
      → store.State
      → List MailEvent
      → Option StoreError × store.State × List MailEvent
  deliver patterns parsed [] db events = (none, db, events)
  deliver patterns parsed (rcpt ∷ rcpts) db events =
      let (saved, db') = store.save_message db rcpt parsed in
      elim saved [
        | err e ↦ (some e, db', events)
        | ok stored ↦
            deliver patterns parsed rcpts db' (publish events (from_stored patterns rcpt stored))
      ]

  unfoldable pub store_message :
      Context → Bytes → Session store.State → Result ℕ StoreError × Session store.State
  unfolding deliver to_store
  store_message ctx raw s =
      let (failure, db', events') =
        deliver ctx.patterns (to_store ctx (unwrap_or s.mail_from []) raw) s.rcpts s.db s.events in
      let s' = record s { db = db'; events = events' } in
      elim failure [ some e ↦ (err e, s') | none ↦ (ok (length s.rcpts), s') ]
