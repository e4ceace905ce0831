-- ===== src/Smtp/Session/Order.antt =====
-- The order of a transaction in src/smtp/session.rs: a greeting, a sender, then recipients; and what
-- the handlers that write no message do to it.
use anony_mail.Base.{
  ℕ, ◌≤◌, ◌<◌, ◌≡◌, refl, inl, inr, true, false, ◌||◌, some, List, [], ◌∷◌, ◌++◌, arith, leb,
  or_true, leb-false, ==_iff, Bool-cases, Option-cases, is_some, is_none, length, length-append,
  contains, contains-append, nat_eq, str_eq,
}
use anony_mail.Base.Text.{Str, is_empty, trim, to_ascii_lowercase}
use anony_mail.Store.{Store}
use anony_mail.Smtp.Recipient.{
  RecipientCheck, accept, not_our_domain, no_mailbox, error, validate_recipient,
}
use anony_mail.Smtp.Session.{Context, Session, reset_tx, write_line}
use anony_mail.Smtp.Session.Replies.{write_ehlo}
use anony_mail.Smtp.Session.Handlers.{handle_mail, answer_check, handle_rcpt}

-- No recipient twice.
abbrev pub IsDistinct : List Str → Type 0
IsDistinct [] = Unit
IsDistinct (x ∷ xs) = (contains xs x ≡ false) × IsDistinct xs

IsDistinct-snoc :
    (xs : List Str) (a : Str) → IsDistinct xs → contains xs a ≡ false → IsDistinct (xs ++ a ∷ [])
unfolding contains
IsDistinct-snoc [] a d h = (refl, tt)
IsDistinct-snoc (x ∷ xs) a d h = (
  ground (arith, d.0, contains-append xs (a ∷ []) x, ==_iff a x, ==_iff x a),
  IsDistinct-snoc xs a d.1 (ground arith),
)

-- Recipients only with a sender, a sender only with a greeting, and recipients that are distinct and
-- no more than are configured.
pub record IsOrderly {Db : Type 0} (max : ℕ) (s : Session Db) : Type 0 where
  pub after_mail : (is_empty s.rcpts || is_some s.mail_from) ≡ true
  pub after_helo : (is_none s.mail_from || is_some s.helo) ≡ true
  pub few : length s.rcpts ≤ max
  pub distinct : IsDistinct s.rcpts

module _ (store : Store) (ctx : Context) where
  abbrev max : ℕ
  max = ctx.config.max_recipients

  pub reset-IsOrderly : (s : Session store.State) → IsOrderly max (reset_tx s)
  unfolding reset_tx
  reset-IsOrderly s = record {
    after_mail = refl;
    after_helo = refl;
    few = omega arith;
    distinct = tt;
  }

  -- Only these parts of the state count.
  pub same-IsOrderly :
      (s s' : Session store.State)
      → s'.helo ≡ s.helo
      → s'.mail_from ≡ s.mail_from
      → s'.rcpts ≡ s.rcpts
      → IsOrderly max s
      → IsOrderly max s'
  same-IsOrderly s s' h m r o = record {
    after_mail = rw (m, r) o.after_mail;
    after_helo = rw (m, h) o.after_helo;
    few = rw r o.few;
    distinct = rw r o.distinct;
  }

  pub write-IsOrderly :
      (reply : Str) (s : Session store.State) → IsOrderly max s → IsOrderly max (write_line reply s)
  unfolding write_line
  write-IsOrderly reply s o = same-IsOrderly s (write_line reply s) refl refl refl o

  pub ehlo-IsOrderly :
      (s : Session store.State) → IsOrderly max s → IsOrderly max (write_ehlo ctx s)
  unfolding write_ehlo
  ehlo-IsOrderly s o = same-IsOrderly s (write_ehlo ctx s) refl refl refl o

  begun-IsOrderly :
      (addr : Str) (s : Session store.State)
      → is_none s.helo ≡ false
      → IsOrderly max (record s { mail_from = some addr; rcpts = [] })
  begun-IsOrderly addr s h = record {
    after_mail = refl;
    after_helo = elim (Option-cases s.helo) [
      | inl e ↦ absurd (ground arith)
      | inr (x, e) ↦ rw e refl
    ];
    few = omega arith;
    distinct = tt;
  }

  pub handle_mail-IsOrderly :
      (addr : Str) (s : Session store.State) → IsOrderly max s → IsOrderly max (handle_mail addr s)
  unfolding handle_mail
  handle_mail-IsOrderly addr s o = elim (Bool-cases (is_none s.helo)) [
    | inl t ↦ rw t (write-IsOrderly _ s o)
    | inr f ↦ elim (Bool-cases (is_some s.mail_from)) [
      | inl t ↦ rw (f, t) (write-IsOrderly _ s o)
      | inr g ↦
          rw (f, g)
            (write-IsOrderly _ (record s { mail_from = some addr; rcpts = [] })
              (begun-IsOrderly addr s f))
    ]
  ]

  pushed-IsOrderly :
      (delivery : Str) (s : Session store.State)
      → is_none s.mail_from ≡ false
      → length s.rcpts < max
      → contains s.rcpts delivery ≡ false
      → IsOrderly max s
      → IsOrderly max (record s { rcpts = s.rcpts ++ delivery ∷ [] })
  pushed-IsOrderly delivery s m n c o = record {
    after_mail = elim (Option-cases s.mail_from) [
      | inl e ↦ absurd (ground arith)
      | inr (x, e) ↦ rw e (or_true (is_empty (s.rcpts ++ delivery ∷ [])))
    ];
    after_helo = o.after_helo;
    few = omega (arith, n, length-append s.rcpts (delivery ∷ []));
    distinct = IsDistinct-snoc s.rcpts delivery o.distinct c;
  }

  answer_check-IsOrderly :
      (check : RecipientCheck) (s : Session store.State)
      → is_none s.mail_from ≡ false
      → length s.rcpts < max
      → IsOrderly max s
      → IsOrderly max (answer_check check s)
  unfolding answer_check
  answer_check-IsOrderly (accept d) s m n o = elim (Bool-cases (contains s.rcpts d)) [
    | inl t ↦ rw t (write-IsOrderly _ s o)
    | inr f ↦
        rw f (
          write-IsOrderly _ (record s { rcpts = s.rcpts ++ d ∷ [] }) (pushed-IsOrderly d s m n f o))
  ]
  answer_check-IsOrderly not_our_domain s m n o = write-IsOrderly _ s o
  answer_check-IsOrderly no_mailbox s m n o = write-IsOrderly _ s o
  answer_check-IsOrderly error s m n o = write-IsOrderly _ s o

  pub handle_rcpt-IsOrderly :
      (addr : Str) (s : Session store.State)
      → IsOrderly max s
      → IsOrderly max (handle_rcpt store ctx addr s)
  unfolding handle_rcpt
  handle_rcpt-IsOrderly addr s o = elim (Bool-cases (is_none s.mail_from)) [
    | inl t ↦ rw t (write-IsOrderly _ s o)
    | inr f ↦ elim (Bool-cases (leb max (length s.rcpts))) [
      | inl t ↦ rw (f, t) (write-IsOrderly _ s o)
      | inr g ↦
          let checked =
            validate_recipient store ctx.config (ctx.clock s.commands) s.db
              (to_ascii_lowercase (trim addr)) in
          let s' : Session store.State = record s { db = checked.1 } in
          rw (f, g)
            (answer_check-IsOrderly checked.0 s' f (leb-false max (length s.rcpts) g)
              (same-IsOrderly s s' refl refl refl o))
    ]
  ]
