-- ===== src/Store/Memory/Spared.antt =====
-- What the quotas of src/store/memory.rs leave alone: the newest message, and other mailboxes'.
use anony_mail.Base.{
  ℕ, zero, suc, ◌+◌, ◌<◌, min, ◌≡◌, refl, true, false, List, [], ◌∷◌, map, arith, ltb,
  if◌then◌else◌, ◌==◌, drop, All, contains, contains-append, nat_eq, str_eq,
}
use anony_mail.Model.{Time, Uuid}
use anony_mail.Store.{MailboxQuotas}
use anony_mail.Store.Memory.{Entry}
use anony_mail.Store.Memory.Quota.{Sized, sized, newer_sized, ids, over_bytes, to_drop, u64_max}

-- No entry of the list carries the id.
abbrev pub Unused : Uuid → List Entry → Type 0
Unused id = All (λ e. (e.message.id == id) ≡ false)

abbrev pub OlderThan : Time → List Entry → Type 0
OlderThan now = All (λ e. e.message.received_at < now)

over_bytes-spares :
    (max_bytes : ℕ) (new_id : Uuid) (running : ℕ) (xs : List Sized)
    → contains (over_bytes max_bytes new_id running xs) new_id ≡ false
unfolding over_bytes contains
over_bytes-spares max_bytes new_id running [] = refl
over_bytes-spares max_bytes new_id running (x ∷ xs) =
    ground (arith, over_bytes-spares max_bytes new_id (min (running + x.size) u64_max) xs)

ids_of :
    (id : Uuid) (n : ℕ) (xs : List Sized)
    → All (λ s. (s.id == id) ≡ false) xs
    → contains (ids (drop n xs)) id ≡ false
unfolding contains
ids_of id zero [] h = refl
ids_of id zero (x ∷ xs) h = ground (arith, h.0, ids_of id zero xs h.1)
ids_of id (suc n) [] h = refl
ids_of id (suc n) (x ∷ xs) h = ids_of id n xs h.1

capped_ids :
    (n : ℕ) (s : Sized) (xs : List Sized)
    → All (λ t. (t.id == s.id) ≡ false) xs
    → contains (if ltb 0 n then ids (drop n (s ∷ xs)) else []) s.id ≡ false
unfolding contains
capped_ids zero s xs h = refl
capped_ids (suc n) s xs h = ground (arith, ids_of s.id n xs h)

capped_bytes :
    (max_bytes : ℕ) (s : Sized) (xs : List Sized)
    → contains (if ltb 0 max_bytes then over_bytes max_bytes s.id 0 (s ∷ xs) else []) s.id ≡ false
unfolding contains
capped_bytes max_bytes s xs = ground (arith, over_bytes-spares max_bytes s.id 0 (s ∷ xs))

-- A new message that is first in the order of the listing is not in the set to drop.
pub first_spared :
    (quotas : MailboxQuotas) (s : Sized) (xs : List Sized)
    → All (λ t. (t.id == s.id) ≡ false) xs
    → contains (to_drop quotas s.id (s ∷ xs)) s.id ≡ false
unfolding to_drop
first_spared quotas s xs h =
    rw (contains-append, capped_ids quotas.max_messages s xs h) (capped_bytes quotas.max_bytes s xs)

over_bytes-foreign :
    (max_bytes : ℕ) (new_id : Uuid) (running : ℕ) (i : Uuid) (xs : List Sized)
    → All (λ s. (s.id == i) ≡ false) xs
    → contains (over_bytes max_bytes new_id running xs) i ≡ false
unfolding over_bytes contains
over_bytes-foreign max_bytes new_id running i [] h = refl
over_bytes-foreign max_bytes new_id running i (x ∷ xs) h =
    ground
      (arith, h.0, over_bytes-foreign max_bytes new_id (min (running + x.size) u64_max) i xs h.1)

capped_foreign :
    (n : ℕ) (i : Uuid) (xs : List Sized)
    → All (λ s. (s.id == i) ≡ false) xs
    → contains (if ltb 0 n then ids (drop n xs) else []) i ≡ false
unfolding contains
capped_foreign n i xs h = ground (arith, ids_of i n xs h)

walk_foreign :
    (max_bytes : ℕ) (new_id i : Uuid) (xs : List Sized)
    → All (λ s. (s.id == i) ≡ false) xs
    → contains (if ltb 0 max_bytes then over_bytes max_bytes new_id 0 xs else []) i ≡ false
unfolding contains
walk_foreign max_bytes new_id i xs h = ground (arith, over_bytes-foreign max_bytes new_id 0 i xs h)

-- Only ids of the walked list go into the set.
pub to_drop-foreign :
    (quotas : MailboxQuotas) (new_id i : Uuid) (xs : List Sized)
    → All (λ s. (s.id == i) ≡ false) xs
    → contains (to_drop quotas new_id xs) i ≡ false
unfolding to_drop
to_drop-foreign quotas new_id i xs h =
    rw (contains-append, capped_foreign quotas.max_messages i xs h)
      (walk_foreign quotas.max_bytes new_id i xs h)

pub older-newer_sized :
    (e : Entry) (xs : List Entry)
    → OlderThan e.message.received_at xs
    → All (λ s. newer_sized (sized e) s ≡ true) (map sized xs)
unfolding newer_sized sized
older-newer_sized e [] o = tt
older-newer_sized e (x ∷ xs) o = (ground (arith, o.0), older-newer_sized e xs o.1)
