-- ===== src/Api/Auth/Compare.antt =====
-- The comparison in constant time of src/api/auth.rs.
use anony_mail.Base.{
  ℕ, ◌≡◌, refl, sym, ◌↔◌, Bool, true, false, not, [], ◌∷◌, arith, if◌then◌else◌, true-false, ◌==◌,
  ==_iff, ==_refl, length, nat_eq, str_eq,
}
use anony_mail.Base.Bits.{bit_or, bit_xor, bit_xor-zero, bit_xor_refl, bit_or-zero}
use anony_mail.Model.{Bytes}
use anony_mail.Api.Auth.{constant_time_eq, differences}

differences-zero :
    (acc : ℕ) (a b : Bytes) → length a ≡ length b → differences acc a b ≡ 0 → (acc ≡ 0) × (a ≡ b)
unfolding differences
differences-zero acc [] [] l h = (h, refl)
differences-zero acc [] (y ∷ ys) l h = absurd (omega arith)
differences-zero acc (x ∷ xs) [] l h = absurd (omega arith)
differences-zero acc (x ∷ xs) (y ∷ ys) l h =
    let (o, t) = differences-zero (bit_or acc (bit_xor x y)) xs ys (omega arith) h in
    let (z, e) = bit_or-zero acc (bit_xor x y) o in (z, λ i. bit_xor-zero x y e i ∷ t i)

differences_refl : (a : Bytes) → differences 0 a a ≡ 0
unfolding differences
differences_refl [] = refl
differences_refl (x ∷ xs) = rw (bit_xor_refl x) (differences_refl xs)

both_tests : (p q : Bool) → (if not p then false else q) ≡ true → (p ≡ true) × (q ≡ true)
both_tests true q h = (refl, h)
both_tests false q h = absurd (true-false (sym h))

-- Two byte strings pass the comparison in constant time exactly when they are equal: the check of
-- the lengths first and the fold over the pairs together miss no difference and see none where
-- there is none.
pub constant_time_eq_exact : (a b : Bytes) → (constant_time_eq a b ≡ true) ↔ (a ≡ b)
unfolding constant_time_eq
constant_time_eq_exact a b = (
  λ h.
      let (l, d) = both_tests (length a == length b) (differences 0 a b == 0) h in
      (differences-zero 0 a b ((==_iff (length a) (length b)).0 l) ((==_iff _ 0).0 d)).1,
  λ e. rw (sym e, ==_refl (length a), differences_refl a) refl,
)
