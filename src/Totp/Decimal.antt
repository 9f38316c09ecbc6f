-- ===== src/Totp/Decimal.antt =====
-- src/totp.rs: the decimal printing that `format!` does for a code and for the numbers of the URI.
use native.Mathlib.Nat.{pow-suc}
use auth_kit.Base.{
  ℕ, zero, suc, ◌+◌, ◌-◌, ◌*◌, ◌/◌, ◌%◌, ◌^◌, ◌≤◌, ◌<◌, ◌≡◌, refl, ◌∙◌, inl, inr, [], ◌∷◌, ◌++◌,
  ltb, Bool-cases, length, length-append, length-replicate, replicate, All, All-append,
  All-replicate, Bytes, arith,
}
use auth_kit.Totp.{digits_from, to_decimal, pad_zeros}

abbrev pub IsDigit : ℕ → Type 0
IsDigit c = (b'0' ≤ c) × (c ≤ b'9')

-- The number that decimal digits stand for, after those before.
unfoldable pub of_decimal_from : ℕ → Bytes → ℕ
of_decimal_from acc [] = acc
of_decimal_from acc (c ∷ s) = of_decimal_from (acc * 10 + (c - b'0')) s

unfoldable pub of_decimal : Bytes → ℕ
unfolding of_decimal_from
of_decimal s = of_decimal_from 0 s

of_decimal_from_snoc :
    (acc : ℕ) (s : Bytes) (c : ℕ)
    → of_decimal_from acc (s ++ c ∷ []) ≡ of_decimal_from acc s * 10 + (c - b'0')
unfolding of_decimal_from
of_decimal_from_snoc acc [] c = refl
of_decimal_from_snoc acc (d ∷ s) c = of_decimal_from_snoc (acc * 10 + (d - b'0')) s c

digits_from-value : (fuel n : ℕ) → n < 10 ^ fuel → of_decimal_from 0 (digits_from fuel n) ≡ n
unfolding digits_from of_decimal_from
digits_from-value zero n h = omega arith
digits_from-value (suc fuel) n h = ground (
  arith,
  digits_from-value fuel (n / 10) (omega (arith, pow-suc 10 fuel)),
  of_decimal_from_snoc 0 (digits_from fuel (n / 10)) (b'0' + n % 10),
)

digits_from-IsDigit : (fuel n : ℕ) → All IsDigit (digits_from fuel n)
unfolding digits_from
digits_from-IsDigit zero n = tt
digits_from-IsDigit (suc fuel) n =
    let rest =
      All-append IsDigit (digits_from fuel (n / 10)) ((b'0' + n % 10) ∷ [])
        (digits_from-IsDigit fuel (n / 10)) (omega arith) in
    elim (Bool-cases (ltb n 10)) [ inl small ↦ rw small (ground arith) | inr large ↦ rw large rest ]

-- Only digits are printed.
pub to_decimal-IsDigit : (n : ℕ) → All IsDigit (to_decimal n)
unfolding to_decimal
to_decimal-IsDigit n = digits_from-IsDigit 20 n

-- A number below 10 ^ k prints in at most k digits.
length-digits_from : (fuel n k : ℕ) → n < 10 ^ suc k → length (digits_from fuel n) ≤ suc k
unfolding digits_from
length-digits_from zero n k h = omega arith
length-digits_from (suc fuel) n zero h = ground arith
length-digits_from (suc fuel) n (suc k) h = ground (
  arith,
  length-append (digits_from fuel (n / 10)) ((b'0' + n % 10) ∷ []),
  length-digits_from fuel (n / 10) k (omega (arith, pow-suc 10 (suc k))),
)

-- Printing and reading a `u64`.
pub of_decimal-to_decimal : (n : ℕ) → n < 2 ^ 64 → of_decimal (to_decimal n) ≡ n
unfolding of_decimal to_decimal
of_decimal-to_decimal n h = digits_from-value 20 n (omega arith)

of_decimal_from_zeros :
    (k : ℕ) (s : Bytes) → of_decimal_from 0 (replicate k b'0' ++ s) ≡ of_decimal_from 0 s
unfolding of_decimal_from
of_decimal_from_zeros zero s = refl
of_decimal_from_zeros (suc k) s = of_decimal_from_zeros k s

-- A number below 10 ^ width, padded: exactly `width` digits that stand for it.
pub pad_zeros-to_decimal :
    (width n : ℕ)
    → 0 < width
    → n < 10 ^ width
    → n < 2 ^ 64
    → (length (pad_zeros width (to_decimal n)) ≡ width)
      × All IsDigit (pad_zeros width (to_decimal n))
      × (of_decimal (pad_zeros width (to_decimal n)) ≡ n)
unfolding pad_zeros to_decimal of_decimal
pad_zeros-to_decimal zero n pos small fits = absurd (omega arith)
pad_zeros-to_decimal (suc k) n pos small fits =
    let short = length-digits_from 20 n k small in
    let zeros = suc k - length (digits_from 20 n) in
    (
      omega (
        arith,
        short,
        length-append (replicate zeros b'0') (digits_from 20 n),
        length-replicate {A = ℕ} zeros b'0',
      ),
      All-append IsDigit (replicate zeros b'0') (digits_from 20 n)
          (All-replicate IsDigit zeros b'0' (omega arith)) (digits_from-IsDigit 20 n),
      of_decimal_from_zeros zeros (digits_from 20 n) ∙ digits_from-value 20 n (omega arith),
    )
