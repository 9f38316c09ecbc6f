-- ===== src/Base/Bits.antt =====
-- Facts about the bit operations: what a zero result says, and laws over a byte by evaluation.
use Prim.Native.Nat.{max, digits, differ, bit_or-bitwise, bit_xor-bitwise}
use auth_kit.Base.{
  ℕ, zero, suc, ◌/◌, ◌%◌, ◌≤◌, ◌<◌, ◌≡◌, refl, ◌↔◌, Bool, true, false, Bool-cases, inl, inr,
  if◌then◌else◌, bit_and, bit_or, bit_xor, arith, ◌==◌, ==_iff, IsByte,
}

-- The test holds of the first numbers, as many as the count says.
unfoldable pub holds_below : (ℕ → Bool) → ℕ → Bool
holds_below test zero = true
holds_below test (suc count) = if test count then holds_below test count else false

pub holds_below_lem :
    (test : ℕ → Bool) (count : ℕ)
    → holds_below test count ≡ true
    → (i : ℕ) → i < count
    → test i ≡ true
unfolding holds_below
holds_below_lem test zero all i small = absurd (omega arith)
holds_below_lem test (suc count) all i small = elim (Bool-cases (test count)) [
  | inl here ↦
      let earlier : i < count → test i ≡ true = holds_below_lem test count (rw here at all) i in
      ground (arith, earlier, here)
  | inr fails ↦ cc (rw fails at all)
]

xor_digits_zero : (n a b : ℕ) → a ≤ n → digits (λ d. d) differ n a b ≡ 0 → a ≡ b
xor_digits_zero zero zero b p e = omega arith
xor_digits_zero zero (suc a) b p e = absurd (omega arith)
xor_digits_zero (suc n) zero b p e = omega arith
xor_digits_zero (suc n) (suc a) b p e =
    let rest = xor_digits_zero n (suc a / 2) (b / 2) (omega arith) in ground (arith, rest)

differ_self : (d : ℕ) → differ d d ≡ 0
differ_self zero = refl
differ_self (suc d) = differ_self d

xor_digits_self : (n a : ℕ) → a ≤ n → digits (λ d. d) differ n a a ≡ 0
xor_digits_self zero zero p = refl
xor_digits_self zero (suc a) p = absurd (omega arith)
xor_digits_self (suc n) zero p = refl
xor_digits_self (suc n) (suc a) p =
    let rest = xor_digits_self n (suc a / 2) (omega arith) in
    ground (arith, rest, differ_self (suc a % 2))

pub bit_xor-eq-zero_iff : (a b : ℕ) → (bit_xor a b ≡ 0) ↔ (a ≡ b)
bit_xor-eq-zero_iff a b = (
  λ e. xor_digits_zero a a b (omega arith) (rw bit_xor-bitwise at e),
  λ e. rw (← e, bit_xor-bitwise) (xor_digits_self a a (omega arith)),
)

or_digits_zero : (n a b : ℕ) → a ≤ n → digits (λ d. d) max n a b ≡ 0 → (a ≡ 0) × (b ≡ 0)
or_digits_zero zero zero b p e = omega arith
or_digits_zero zero (suc a) b p e = absurd (omega arith)
or_digits_zero (suc n) zero b p e = omega arith
or_digits_zero (suc n) (suc a) b p e =
    let rest = or_digits_zero n (suc a / 2) (b / 2) (omega arith) in ground (arith, rest)

pub bit_or-eq-zero : (a b : ℕ) → bit_or a b ≡ 0 → (a ≡ 0) × (b ≡ 0)
bit_or-eq-zero a b e = or_digits_zero a a b (omega arith) (rw bit_or-bitwise at e)

nibble_table : holds_below (λ x. bit_and x 0x0f == x % 16) 256 ≡ true
unfolding holds_below
nibble_table = refl

sign_table : holds_below (λ x. bit_and x 0x7f == x % 128) 256 ≡ true
unfolding holds_below
sign_table = refl

pub bit_and_nibble : (x : ℕ) → IsByte x → bit_and x 0x0f ≡ x % 16
bit_and_nibble x h = (==_iff _ _).0 (holds_below_lem _ 256 nibble_table x h)

pub bit_and_sign : (x : ℕ) → IsByte x → bit_and x 0x7f ≡ x % 128
bit_and_sign x h = (==_iff _ _).0 (holds_below_lem _ 256 sign_table x h)
