-- ===== src/Agreement/Answers/Replies.antt =====
-- The `MemoryStore` of src/store/memory.rs and the `SqliteStore` of src/store/sqlite.rs answer the
-- same about mailboxes, claims and devices, after the same calls.
use anony_mail.Base.{ℕ, ◌≡◌, refl, ap, ◌⊎◌, inl, inr, List, [], ◌∷◌}
use mathlib.Core.List.Perm
use mathlib.Core.List.{Perm}
use anony_mail.Model.{Time, Uuid, CustomDomain}
use anony_mail.Store.Memory.{Inner}
use anony_mail.Store.Memory.Claims as MemoryClaims
use anony_mail.Store.{MailboxQuotas}
use anony_mail.Store.Steps
use anony_mail.Store.Steps.{Call}
use anony_mail.Store.Memory.Backend as Memory
use anony_mail.Store.Memory.Backend.{MemoryStore, memory_store}
use anony_mail.Store.Sqlite.{UuidCodec, Db}
use anony_mail.Store.Sqlite.Backend as Sqlite
use anony_mail.Store.Sqlite.Backend.{SqliteStore, sqlite_store}
use anony_mail.Agreement.{Answer, mailbox, claim, claims, device, flag, number, of}
use anony_mail.Agreement.Mailboxes.{get_mailbox_same, mailbox_is_active_same, count_same}
use anony_mail.Agreement.Claims.{
  get_custom_domain_same, custom_domain_is_verified_same, list_custom_domains_to_recheck_same,
}
use anony_mail.Agreement.Devices.{get_attested_device_same}
use anony_mail.Agreement.Answers.{
  Question, get_mailbox, mailbox_is_active, count_active_mailboxes_by_device, get_custom_domain,
  custom_domain_is_verified, list_custom_domains_to_recheck, get_attested_device, result_of, answer,
}
use anony_mail.Agreement.Answers.Calls.{Paired, Replies, replies}

-- The same answer, or two lists of the same claims in orders that may differ.
abbrev pub Matches : Answer → Answer → Type 0
Matches a b =
    (a ≡ b)
    ⊎ ((xs : List CustomDomain) × (ys : List CustomDomain) × (a ≡ claims xs)
        × (b ≡ claims ys)
        × Perm xs ys)

module _ (uuid : UuidCodec) where
  Paired-calls :
      (cs : List Call) (m : MemoryStore) (s : SqliteStore)
      → Paired m s
      → Paired (Steps.calls memory_store cs m) (Steps.calls (sqlite_store uuid) cs s)
  unfolding Steps.calls Replies
  Paired-calls [] m s w = w
  Paired-calls (c ∷ cs) m s w =
      Paired-calls cs (Steps.call memory_store c m) (Steps.call (sqlite_store uuid) c s)
        (replies uuid c m s w).1

  answers :
      (q : Question) (m : MemoryStore) (s : SqliteStore)
      → Paired m s
      → Matches (answer memory_store q m) (answer (sqlite_store uuid) q s)
  unfolding answer Replies MemoryClaims.list_custom_domains_to_recheck
  answers (get_mailbox address) m s w = inl (ap mailbox (get_mailbox_same w.agrees address))
  answers (mailbox_is_active address t) m s w =
      inl (ap flag (mailbox_is_active_same w.agrees address t))
  answers (count_active_mailboxes_by_device h t) m s w = inl (ap number (count_same w.agrees h t))
  answers (get_custom_domain domain) m s w =
      inl (ap (of claim) (get_custom_domain_same w.agrees domain))
  answers (custom_domain_is_verified domain) m s w =
      inl (ap flag (custom_domain_is_verified_same w.agrees domain))
  answers (list_custom_domains_to_recheck t) m s w =
      let due = MemoryClaims.list_custom_domains_to_recheck (λ cs. cs) m.inner t in
      inr (
        m.arrange m.inner due,
        s.arrange s.db due,
        refl,
        ap (of claims) (list_custom_domains_to_recheck_same w.agrees (s.arrange s.db) t),
        Perm.trans (w.arranged m.inner due) (Perm.symm (w.arranged_rows s.db due)),
      )
  answers (get_attested_device key_id) m s w =
      inl (ap device (get_attested_device_same w.agrees key_id))
  answers (result_of c) m s w = inl (replies uuid c m s w).0

-- A memory store and a SQLite store that start empty, with the same clock, answer the same after the
-- same calls, whatever those are: to each question about mailboxes, claims and devices, and what
-- each call on them returns. The claims that are due for a check are compared without their order,
-- which each store chooses as it likes. Of a failure only whether it is a unique violation is
-- compared. The quotas and the identifiers of the two may differ.
pub stores_agree :
    (uuid : UuidCodec) (quotas quotas' : MailboxQuotas) (clock : ℕ → Time)
    (random random' : ℕ → Uuid) (arrange : Inner → List CustomDomain → List CustomDomain)
    (arrange' : Db → List CustomDomain → List CustomDomain) (cs : List Call) (q : Question)
    → ((inner : Inner) (ds : List CustomDomain) → Perm (arrange inner ds) ds)
    → ((db : Db) (ds : List CustomDomain) → Perm (arrange' db ds) ds)
    → Matches
        (answer memory_store q
          (Steps.calls memory_store cs (Memory.with_quotas quotas clock random arrange)))
        (answer (sqlite_store uuid) q (
          Steps.calls
            (sqlite_store uuid)
            cs
            (Sqlite.with_quotas (Sqlite.new clock random' arrange') quotas')))
stores_agree uuid quotas quotas' clock random random' arrange arrange' cs q any_order any_order' =
    answers uuid q _ _ (
      Paired-calls uuid cs _ _ record {
        agrees = record {
          mailboxes = refl;
          claims = refl;
          devices = refl;
          mailboxes_keyed = tt;
          claims_keyed = tt;
          devices_keyed = tt;
        };
        clock = refl;
        ticks = refl;
        arranged = any_order;
        arranged_rows = any_order';
      })
