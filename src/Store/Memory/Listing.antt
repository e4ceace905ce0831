-- ===== src/Store/Memory/Listing.antt =====
-- The pages of `list_messages` of src/store/memory.rs.
use anony_mail.Base.{
  ℕ, zero, suc, ◌≤◌, ◌<◌, ◌≡◌, refl, ap, ◌↔◌, ◌⊎◌, inl, inr, Bool, true, false, ◌&&◌, Option, none,
  some, List, [], ◌∷◌, ◌++◌, map, arith, ltb, if◌then◌else◌, ◌==◌, ==_iff, Option-cases, length,
  take, drop, retain, find, length-take-le, take-append-drop, All, nat_eq, str_eq,
}
use mathlib.Core.List.{Perm, append-nil}
use mathlib.Core.Path.{subst}
use anony_mail.Base.Sort.{sort_by-perm, sort_by-IsSorted, IsSorted, IsOrder}
use anony_mail.Base.Text.{Str}
use anony_mail.Model.{Time, Uuid, MessageSummary}
use anony_mail.Store.Memory.{Inner, Entry}
use anony_mail.Store.Memory.Quota.{newer, in_mailbox}
use anony_mail.Store.Memory.Messages.{
  has_id, anchor_of, after_anchor, summary, newer_summary, list_messages,
}

newer_summary-IsOrder : IsOrder newer_summary
unfolding newer_summary
newer_summary-IsOrder = record { asym = λ a b h. ground arith; trans = λ a b c h k. ground arith }

-- The first time and identifier are later than the second: a later time, or the same time and a
-- larger identifier.
abbrev pub IsLater : Time → Uuid → Time → Uuid → Type 0
IsLater t i t' i' = (t' < t) ⊎ ((t ≡ t') × (i' < i))

-- Latest first: nothing stands behind a message that is later.
abbrev pub IsLatestFirst : List MessageSummary → Type 0
IsLatestFirst [] = Unit
IsLatestFirst (a ∷ page) =
    All (λ (b : MessageSummary). ¬ IsLater b.received_at b.id a.received_at a.id) page
    × IsLatestFirst page

newer_summary-IsLater :
    (a b : MessageSummary)
    → newer_summary b a ≡ false
    → ¬ IsLater b.received_at b.id a.received_at a.id
unfolding newer_summary
newer_summary-IsLater a b h (inl k) = ground arith
newer_summary-IsLater a b h (inr (k, l)) = ground arith

not-IsLater :
    (a : MessageSummary) (bs : List MessageSummary)
    → All (λ b. newer_summary b a ≡ false) bs
    → All (λ (b : MessageSummary). ¬ IsLater b.received_at b.id a.received_at a.id) bs
not-IsLater a [] h = tt
not-IsLater a (b ∷ bs) h = (newer_summary-IsLater a b h.0, not-IsLater a bs h.1)

IsSorted-IsLatestFirst :
    (page : List MessageSummary) → IsSorted newer_summary page → IsLatestFirst page
IsSorted-IsLatestFirst [] h = tt
IsSorted-IsLatestFirst (a ∷ page) h = (not-IsLater a page h.0, IsSorted-IsLatestFirst page h.1)

-- Behind the cursor: later than the message of the mailbox with the identifier that the cursor names.
-- Without a cursor, or where there is no such message, every message is.
abbrev pub IsBehind : Inner → Str → Option Uuid → Entry → Type 0
IsBehind inner address none e = Unit
IsBehind inner address (some id) e =
    (c : Entry)
    → find (λ (c : Entry). c.message.mailbox_address == address && c.message.id == id)
        inner.messages
      ≡ some c
    → IsLater e.message.received_at e.message.id c.message.received_at c.message.id

retain-retain :
    (p q : Entry → Bool) (xs : List Entry) → retain p (retain q xs) ≡ retain (λ e. q e && p e) xs
unfolding retain
retain-retain p q [] = refl
retain-retain p q (x ∷ xs) = ground (arith, retain-retain p q xs)

-- A page and what it leaves out are the messages of the mailbox behind the cursor, latest first; the
-- page keeps to the limit, and leaves something out only when it is full. A limit of 0 is none.
pub record IsPage (inner : Inner) (address : Str) (limit : ℕ) (since : Option Uuid)
    (page : List MessageSummary) : Type 0 where
  pub rest : List MessageSummary
  pub matches : Entry → Bool
  pub matching :
      (e : Entry)
      → (matches e ≡ true)
        ↔ ((e.message.mailbox_address ≡ address) × IsBehind inner address since e)
  pub complete : Perm (page ++ rest) (map summary (retain matches inner.messages))
  pub ordered : IsLatestFirst (page ++ rest)
  pub within : 0 < limit → length page ≤ limit
  pub full : (rest ≡ []) ⊎ ((0 < limit) × (length page ≡ limit))

full_page : (n : ℕ) (xs : List MessageSummary) → (drop n xs ≡ []) ⊎ (length (take n xs) ≡ n)
full_page zero xs = inr refl
full_page (suc n) [] = inl refl
full_page (suc n) (x ∷ xs) = elim (full_page n xs) [ inl e ↦ inl e | inr e ↦ inr (ap suc e) ]

is_match : Inner → Str → Option Uuid → Entry → Bool
is_match inner address since e =
    in_mailbox address e && after_anchor (anchor_of inner address since) e

newer_exact : (t t' : Time) (i i' : Uuid) → (newer (t, i) (t', i') ≡ true) ↔ IsLater t i t' i'
unfolding newer
newer_exact t t' i i' =
    (λ h. ground arith, λ h. elim h [ inl k ↦ ground arith | inr (k, l) ↦ ground arith ])

after_anchor_exact :
    (inner : Inner) (address : Str) (since : Option Uuid) (e : Entry)
    → (after_anchor (anchor_of inner address since) e ≡ true) ↔ IsBehind inner address since e
unfolding after_anchor anchor_of has_id
after_anchor_exact inner address none e = (λ h. tt, λ h. refl)
after_anchor_exact inner address (some id) e =
    elim (Option-cases (find (has_id address id) inner.messages)) [
      | inl n ↦ rw n (λ h. λ c k. absurd (ground arith), λ h. refl)
      | inr (c, n) ↦ rw n (
        λ h. λ d k.
            let same : c ≡ d = ground arith in
            subst
              (λ (x : Entry).
                IsLater e.message.received_at e.message.id x.message.received_at x.message.id)
              same
              ((newer_exact e.message.received_at c.message.received_at e.message.id c.message.id).0
                h),
        λ h.
            (newer_exact e.message.received_at c.message.received_at e.message.id c.message.id).1
              (h c refl),
      )
    ]

both : (p q : Bool) → (p && q ≡ true) ↔ ((p ≡ true) × (q ≡ true))
both p q = (λ h. (ground arith, ground arith), λ h. ground arith)

is_match_exact :
    (inner : Inner) (address : Str) (since : Option Uuid) (e : Entry)
    → (is_match inner address since e ≡ true)
      ↔ ((e.message.mailbox_address ≡ address) × IsBehind inner address since e)
unfolding is_match in_mailbox
is_match_exact inner address since e =
    let here = ==_iff e.message.mailbox_address address in
    let behind = after_anchor_exact inner address since e in
    let split = both (in_mailbox address e) (after_anchor (anchor_of inner address since) e) in
    (λ h. (here.0 (split.0 h).0, behind.0 (split.0 h).1), λ h. split.1 (here.1 h.0, behind.1 h.1))

limited-IsPage :
    (inner : Inner) (address : Str) (limit : ℕ) (since : Option Uuid) (xs : List MessageSummary)
    → Perm xs (map summary (retain (is_match inner address since) inner.messages))
    → IsSorted newer_summary xs
    → IsPage inner address limit since (if ltb 0 limit then take limit xs else xs)
limited-IsPage inner address zero since xs p s = record {
  rest = [];
  matches = is_match inner address since;
  matching = is_match_exact inner address since;
  complete = rw append-nil p;
  ordered = rw append-nil (IsSorted-IsLatestFirst xs s);
  within = λ h. absurd (omega arith);
  full = inl refl;
}
limited-IsPage inner address (suc n) since xs p s =
    let on : ltb 0 (suc n) ≡ true = ground arith in
    rw on (record {
      rest = drop (suc n) xs;
      matches = is_match inner address since;
      matching = is_match_exact inner address since;
      complete = rw (take-append-drop (suc n) xs) p;
      ordered = rw (take-append-drop (suc n) xs) (IsSorted-IsLatestFirst xs s);
      within = λ h. length-take-le (suc n) xs;
      full = elim (full_page (suc n) xs) [ inl e ↦ inl e | inr e ↦ inr (omega arith, e) ];
    })

-- Every listing is a page: the latest of the messages of the mailbox behind the cursor, latest first,
-- no more than the limit, and short of the limit only when nothing is left out.
pub list_messages-IsPage :
    (inner : Inner) (address : Str) (limit : ℕ) (since : Option Uuid)
    → IsPage inner address limit since (list_messages inner address limit since)
unfolding list_messages is_match
list_messages-IsPage inner address limit since =
    limited-IsPage inner address limit since _
      (rw
        (← retain-retain (after_anchor (anchor_of inner address since)) (in_mailbox address)
          inner.messages)
        (sort_by-perm newer_summary _))
      (sort_by-IsSorted newer_summary-IsOrder _)
