-- ===== src/Store/Memory/QuotaBounds.antt =====
-- What `enforce_quotas` of src/store/memory.rs leaves in the mailbox that a message was saved to.
use anony_mail.Base.{
  ℕ, ◌+◌, ◌≤◌, ◌<◌, min, ◌≡◌, refl, sym, ap, ◌∙◌, ◌⊎◌, inl, inr, Bool, true, false, not, ◌&&◌, List,
  [], ◌∷◌, map, arith, ltb, if◌then◌else◌, ◌==◌, ==_refl, Bool-cases, length, take, drop, retain,
  length-append, length-take-le, take-append-drop, retain-append, length-retain-le, retain_comm,
  sum_by, sum_by-cong, sum_by-map, length-sum_by, length-retain, sum_by-retain, contains,
  contains-append, nat_eq, str_eq,
}
use anony_mail.Base.Sort.{sum_by-sort_by}
use anony_mail.Base.Text.{Str, is_empty}
use anony_mail.Base.Int.{pos_part}
use anony_mail.Model.{Uuid}
use anony_mail.Store.{MailboxQuotas}
use anony_mail.Store.Memory.{Inner, Entry}
use anony_mail.Store.Memory.Quota.{
  Sized, sized, newer_sized, in_mailbox, newest_first, ids, over_bytes, to_drop, enforce_quotas,
  u64_max,
}

-- The messages of one mailbox.
abbrev pub inbox : Inner → Str → List Entry
inbox inner address = retain (in_mailbox address) inner.messages

-- The bytes of the messages but one.
abbrev pub bytes_besides : Uuid → List Entry → ℕ
bytes_besides id = sum_by (λ e. if e.message.id == id then 0 else pos_part e.message.raw_size)

abbrev pub keeps : List Uuid → Uuid → Bool
keeps dropped id = not (contains dropped id)

-- What goes into the set is dropped, whatever else goes into it.
retain_dropped :
    (D : List Uuid) (xs : List Sized)
    → ((i : Uuid) → contains (ids xs) i ≡ true → contains D i ≡ true)
    → retain (λ s. keeps D s.id) xs ≡ []
unfolding retain contains
retain_dropped D [] h = refl
retain_dropped D (x ∷ xs) h =
    ground (arith, h x.id, ==_refl x.id, retain_dropped D xs (λ i m. h i (ground (arith, m))))

retain-nil : (xs : List Entry) → retain (λ e. keeps [] e.message.id) xs ≡ xs
unfolding retain contains
retain-nil [] = refl
retain-nil (x ∷ xs) = ap (◌∷◌ x) (retain-nil xs)

module _ (inner : Inner) (address : Str) (new_id : Uuid) (quotas : MailboxQuotas) where
  abbrev pub dropped : List Uuid
  dropped = to_drop quotas new_id (newest_first inner address)

  no_caps : (quotas.max_messages == 0 && quotas.max_bytes == 0) ≡ true → dropped ≡ []
  unfolding to_drop
  no_caps h = ground arith

  early_returns :
      (b : Bool) (D : List Uuid)
      → (b ≡ true → D ≡ [])
      → (if b then inner else if is_empty D then inner else record inner {
        messages = retain (λ e. not (contains D e.message.id)) inner.messages;
      }).messages
        ≡ retain (λ e. keeps D e.message.id) inner.messages
  early_returns true D h = rw (h refl) (sym (retain-nil inner.messages))
  early_returns false [] h = sym (retain-nil inner.messages)
  early_returns false (i ∷ D) h = refl

  -- With the early returns out of the way: the messages that are not in the set stay.
  pub messages-enforce_quotas :
      (enforce_quotas inner address new_id quotas).messages
      ≡ retain (λ e. keeps dropped e.message.id) inner.messages
  unfolding enforce_quotas
  messages-enforce_quotas = early_returns _ dropped no_caps

  inbox-enforce_quotas :
      inbox (enforce_quotas inner address new_id quotas) address
      ≡ retain (λ e. keeps dropped e.message.id) (inbox inner address)
  inbox-enforce_quotas = rw messages-enforce_quotas (retain_comm _ _ inner.messages)

  -- A measure of what stays, taken in the order of the walk.
  sum_kept :
      (f : Entry → ℕ) (g : Sized → ℕ)
      → ((e : Entry) → g (sized e) ≡ f e)
      → sum_by f (inbox (enforce_quotas inner address new_id quotas) address)
        ≡ sum_by (λ s. if keeps dropped s.id then g s else 0) (newest_first inner address)
  unfolding newest_first
  sum_kept f g h =
      ap (sum_by f) inbox-enforce_quotas
      ∙ sum_by-retain f _ entries
      ∙ sum_by-cong _ _ entries
          (λ e. ap (λ n. if keeps dropped e.message.id then n else 0) (sym (h e)))
      ∙ sym (sum_by-map (λ s. if keeps dropped s.id then g s else 0) sized entries)
      ∙ sym (sum_by-sort_by newer_sized _ (map sized entries))
    where
      entries : List Entry
      entries = inbox inner address

  -- The messages past the cap on their number are all in the set.
  past_cap :
      0 < quotas.max_messages
      → (i : Uuid) → contains (ids (drop quotas.max_messages (newest_first inner address))) i ≡ true
      → contains dropped i ≡ true
  unfolding to_drop
  past_cap h i m =
      let on : ltb 0 quotas.max_messages ≡ true = ground arith in rw (contains-append, on, m)

  -- After a save no more than `max_messages` stay in the mailbox.
  pub quota-count :
      0 < quotas.max_messages
      → length (inbox (enforce_quotas inner address new_id quotas) address) ≤ quotas.max_messages
  quota-count h = omega (
    arith,
    length-sum_by (inbox (enforce_quotas inner address new_id quotas) address),
    sum_kept (λ e. 1) (λ s. 1) (λ e. refl),
    length-retain keep newest,
    ap (λ l. length (retain keep l)) (take-append-drop n newest),
    ap length (retain-append keep (take n newest) (drop n newest)),
    length-append (retain keep (take n newest)) (retain keep (drop n newest)),
    ap length (retain_dropped dropped (drop n newest) (past_cap h)),
    length-retain-le keep (take n newest),
    length-take-le n newest,
  )
    where
      n : ℕ
      n = quotas.max_messages

      newest : List Sized
      newest = newest_first inner address

      keep : Sized → Bool
      keep s = keeps dropped s.id

abbrev counted : List Uuid → Uuid → Sized → ℕ
counted D new_id s = if keeps D s.id then (if s.id == new_id then 0 else s.size) else 0

-- One round of the walk, in numbers: `c` is what the round's message counts for.
fits_step :
    (max_bytes running size c k u : ℕ)
    → running ≤ u
    → ((c ≡ 0) ⊎ ((c ≤ size) × (min (running + size) u ≤ max_bytes)))
    → ((k ≡ 0) ⊎ (min (min (running + size) u + k) u ≤ max_bytes))
    → (c + k ≡ 0) ⊎ (min (running + (c + k)) u ≤ max_bytes)
fits_step max_bytes running size c k u r a b = omega arith

counted-le : (D : List Uuid) (new_id : Uuid) (s : Sized) → counted D new_id s ≤ s.size
counted-le D new_id s = ground arith

-- What one message counts for, by the test that the walk makes.
counted_cases :
    (max_bytes running' : ℕ) (new_id : Uuid) (D : List Uuid) (s : Sized)
    → ((ltb max_bytes running' && not (s.id == new_id)) ≡ true → contains D s.id ≡ true)
    → (counted D new_id s ≡ 0) ⊎ ((counted D new_id s ≤ s.size) × (running' ≤ max_bytes))
counted_cases max_bytes running' new_id D s h =
    elim (Bool-cases (ltb max_bytes running' && not (s.id == new_id))) [
      | inl t ↦ inl (ground (arith, h t))
      | inr f ↦ ground (arith, counted-le D new_id s)
    ]

-- The walk from a running total: what it leaves besides the new message fits, or is nothing.
over_bytes-fits :
    (max_bytes : ℕ) (new_id : Uuid) (D : List Uuid) (running : ℕ) (xs : List Sized)
    → running ≤ u64_max
    → ((i : Uuid)
        → contains (over_bytes max_bytes new_id running xs) i ≡ true
        → contains D i ≡ true)
    → (sum_by (counted D new_id) xs ≡ 0)
      ⊎ (min (running + sum_by (counted D new_id) xs) u64_max ≤ max_bytes)
unfolding over_bytes contains
over_bytes-fits max_bytes new_id D running [] r h = inl refl
over_bytes-fits max_bytes new_id D running (x ∷ xs) r h =
    fits_step max_bytes running x.size _ _ u64_max r
      (counted_cases max_bytes running' new_id D x
        (λ t. h x.id (rw t (ground (arith, ==_refl x.id)))))
      (over_bytes-fits max_bytes new_id D running' xs (omega arith)
        (λ i m. h i (ground (arith, m))))
  where
    running' : ℕ
    running' = min (running + x.size) u64_max

module _ (inner : Inner) (address : Str) (new_id : Uuid) (quotas : MailboxQuotas) where
  walk_dropped :
      0 < quotas.max_bytes
      → (i : Uuid)
      → contains (over_bytes quotas.max_bytes new_id 0 (newest_first inner address)) i ≡ true
      → contains (dropped inner address new_id quotas) i ≡ true
  unfolding to_drop
  walk_dropped h i m =
      let on : ltb 0 quotas.max_bytes ≡ true = ground arith in
      rw (contains-append, on, m) (ground arith)

  -- After a save the messages of the mailbox besides the new one fit the byte cap, by the
  -- saturating sum that the code takes.
  pub quota-bytes :
      0 < quotas.max_bytes
      → min
          (bytes_besides new_id (inbox (enforce_quotas inner address new_id quotas) address))
          u64_max
        ≤ quotas.max_bytes
  unfolding sized
  quota-bytes h = omega (
    arith,
    sum_kept inner address new_id quotas
        (λ e. if e.message.id == new_id then 0 else pos_part e.message.raw_size)
        (λ s. if s.id == new_id then 0 else s.size) (λ e. refl),
    over_bytes-fits quotas.max_bytes new_id (dropped inner address new_id quotas) 0
        (newest_first inner address) (omega arith) (walk_dropped h),
  )
