-- ===== src/Totp/Compare.antt =====
-- src/totp.rs: `constant_time_eq` against equality.
use auth_kit.Base.{ℕ, ◌≡◌, refl, ◌↔◌, true, [], ◌∷◌, length, Bytes, bit_or, bit_xor, arith}
use auth_kit.Base.Bits.{bit_xor-eq-zero_iff, bit_or-eq-zero}
use auth_kit.Totp.{xor_all, constant_time_eq}

xor_all_zero :
    (a b : Bytes) (acc : ℕ) → length a ≡ length b → xor_all acc a b ≡ 0 → (acc ≡ 0) × (a ≡ b)
unfolding xor_all
xor_all_zero [] [] acc len e = (e, refl)
xor_all_zero [] (y ∷ b) acc len e = absurd (omega arith)
xor_all_zero (x ∷ a) [] acc len e = absurd (omega arith)
xor_all_zero (x ∷ a) (y ∷ b) acc len e =
    let (folded, same) = xor_all_zero a b (bit_or acc (bit_xor x y)) (omega arith) e in
    let (before, here) = bit_or-eq-zero acc (bit_xor x y) folded in
    (before, cc (same, (bit_xor-eq-zero_iff x y).0 here))

xor_all_self : (a : Bytes) → xor_all 0 a a ≡ 0
unfolding xor_all
xor_all_self [] = refl
xor_all_self (x ∷ a) = rw ((bit_xor-eq-zero_iff x x).1 refl) (xor_all_self a)

-- The comparison that reads every byte answers true exactly on equal texts.
pub constant_time_eq_iff : (a b : Bytes) → (constant_time_eq a b ≡ true) ↔ (a ≡ b)
unfolding constant_time_eq
constant_time_eq_iff a b = (
  λ e. (xor_all_zero a b 0 (ground arith) (ground arith)).1,
  λ e. rw (← e) (ground (arith, xor_all_self a)),
)
