-- ===== src/Smtp/Session/Notices.antt =====
-- The copies and the events of src/smtp/session.rs agree.
use anony_mail.Base.{
  ◌≡◌, sym, ap, ◌∙◌, inl, inr, Option, none, some, List, [], ◌∷◌, ◌++◌, map, Result-cases, ok, err,
}
use anony_mail.Base.Text.{Str}
use anony_mail.Model.{NewMessage, StoredMessage}
use anony_mail.Events.{MailEvent, from_stored, publish}
use anony_mail.Otp.{Patterns}
use anony_mail.Store.{Store, StoreError}
use anony_mail.Smtp.Session.Delivery.{deliver}
use mathlib.Core.List.{append_assoc, append-nil}

module _ (store : Store) where
  -- The copies that the store makes of a message, one recipient after another, up to the first
  -- refusal: what was saved for whom, the refusal if there was one, and the store behind it.
  unfoldable pub copies :
      NewMessage
      → List Str
      → store.State
      → List (Str × StoredMessage) × Option StoreError × store.State
  copies parsed [] db = ([], none, db)
  copies parsed (rcpt ∷ rcpts) db = elim (store.save_message db rcpt parsed).0 [
    | err e ↦ ([], some e, (store.save_message db rcpt parsed).1)
    | ok stored ↦
        let (saved, failure, db') = copies parsed rcpts (store.save_message db rcpt parsed).1 in
        ((rcpt, stored) ∷ saved, failure, db')
  ]

  -- Exactly one event is published for every copy that the store made, in that order, also when a
  -- later copy fails, and none for a copy that it did not make.
  pub deliver-copies :
      (patterns : Patterns) (parsed : NewMessage) (rcpts : List Str) (db : store.State)
      (events : List MailEvent)
      → deliver store patterns parsed rcpts db events ≡ (
        (copies parsed rcpts db).1,
        (copies parsed rcpts db).2,
        events ++ map (λ c. from_stored patterns c.0 c.1) (copies parsed rcpts db).0,
      )
  unfolding deliver publish copies
  deliver-copies patterns parsed [] db events = ap (λ x. (none, db, x)) (sym (append-nil events))
  deliver-copies patterns parsed (rcpt ∷ rcpts) db events =
      elim (Result-cases (store.save_message db rcpt parsed).0) [
        | inr (e, q) ↦
            rw (deliver, copies, q)
              (ap (λ x. (some e, (store.save_message db rcpt parsed).1, x))
                (sym (append-nil events)))
        | inl (stored, q) ↦
            let db' = (store.save_message db rcpt parsed).1 in
            let event = from_stored patterns rcpt stored in
            rw (deliver, copies, q)
              (deliver-copies patterns parsed rcpts db' (events ++ event ∷ [])
                ∙ ap (λ x. ((copies parsed rcpts db').1, (copies parsed rcpts db').2, x))
                    (append_assoc events (event ∷ []) _))
      ]
