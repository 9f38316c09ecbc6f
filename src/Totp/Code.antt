-- ===== src/Totp/Code.antt =====
-- src/totp.rs: what `hotp` returns, for every number of digits and in both builds.
use Prim.Native.Nat.{min}
use auth_kit.Base.{ℕ, ◌%◌, ◌^◌, ◌≤◌, ◌<◌, ◌≡◌, refl, ◌∙◌, length, All, Bytes, arith}
use auth_kit.Base.Outcome.{returns}
use auth_kit.Base.Panic.{◌>>=◌, Build, debug, release, fit_u32}
use auth_kit.Base.Words.{to_be_bytes}
use auth_kit.Totp.{
  TotpAlgorithm, sha1, sha256, sha512, output_len, Hmac, to_decimal, pad_zeros, check_length, hotp,
}
use auth_kit.Totp.Decimal.{IsDigit, of_decimal, pad_zeros-to_decimal}
use auth_kit.Totp.Truncation.{dynamic_code, truncate_lem, dynamic_code-lt}
use native.Mathlib.Nat.{pow-le-pow_right, one-le-pow}

-- The 31-bit number of RFC 4226 for a counter.
abbrev pub rfc_number : Hmac → Bytes → ℕ → TotpAlgorithm → ℕ
rfc_number h secret counter algorithm =
    dynamic_code (h.mac algorithm secret (to_be_bytes 8 counter))

twenty-le-output_len : (a : TotpAlgorithm) → 20 ≤ output_len a
twenty-le-output_len sha1 = omega arith
twenty-le-output_len sha256 = omega arith
twenty-le-output_len sha512 = omega arith

check_length_lem :
    (build : Build) (digest : Bytes) (n : ℕ)
    → length digest ≡ n
    → check_length build digest n ≡ returns tt
unfolding check_length
check_length_lem debug digest n h = ground arith
check_length_lem release digest n h = refl

-- `hotp` up to its power of ten.
hotp_lem :
    (h : Hmac) (build : Build) (secret : Bytes) (counter digits : ℕ) (algorithm : TotpAlgorithm)
    → hotp h build secret counter digits algorithm ≡ (
        fit_u32 build (10 ^ min digits 10) >>= λ modulus.
        returns (pad_zeros digits (to_decimal (rfc_number h secret counter algorithm % modulus))))
unfolding hotp
hotp_lem h build secret counter digits algorithm =
    let digest = h.mac algorithm secret (to_be_bytes 8 counter) in
    let len = h.length-mac algorithm secret (to_be_bytes 8 counter) in
    rw
      (
        check_length_lem build digest (output_len algorithm) len,
        truncate_lem digest (output_len algorithm) len (twenty-le-output_len algorithm)
            (h.mac-IsByte algorithm secret (to_be_bytes 8 counter)),
      )
      refl

fit_u32_lem : (build : Build) (n : ℕ) → n < 2 ^ 32 → fit_u32 build n ≡ returns n
unfolding fit_u32
fit_u32_lem debug n h = ground arith
fit_u32_lem release n h = ground arith

power-lt : (digits : ℕ) → digits ≤ 9 → 10 ^ digits < 2 ^ 32
power-lt digits h = omega (arith, pow-le-pow_right {n = 10} (omega arith) {i = digits} {j = 9} h)

min_ten : (digits : ℕ) → digits ≤ 9 → min digits 10 ≡ digits
min_ten digits h = omega arith

rem-lt-power : (n digits : ℕ) → n % 10 ^ digits < 10 ^ digits
rem-lt-power n digits = omega (arith, one-le-pow digits 10)

rem-le : (n m : ℕ) → n % m ≤ n
rem-le n m = grind arith

-- For 1 to 9 digits `hotp` never panics and does not depend on the build: it returns exactly that
-- many decimal digits, which stand for the number of RFC 4226 modulo the power of ten.
pub hotp_code :
    (h : Hmac) (build : Build) (secret : Bytes) (counter digits : ℕ) (algorithm : TotpAlgorithm)
    → 0 < digits
    → digits ≤ 9
    → (s : Bytes) × (hotp h build secret counter digits algorithm ≡ returns s)
      × (length s ≡ digits)
      × All IsDigit s
      × (of_decimal s ≡ rfc_number h secret counter algorithm % 10 ^ digits)
hotp_code h build secret counter digits algorithm some_digits few =
    let number = rfc_number h secret counter algorithm in
    let shown =
      pad_zeros-to_decimal digits (number % 10 ^ digits) some_digits (rem-lt-power number digits) (
        omega (
          arith,
          rem-le number (10 ^ digits),
          dynamic_code-lt (h.mac algorithm secret (to_be_bytes 8 counter)),
        )) in
    (
      pad_zeros digits (to_decimal (number % 10 ^ digits)),
      hotp_lem h build secret counter digits algorithm
          ∙ rw (min_ten digits few, fit_u32_lem build (10 ^ digits) (power-lt digits few)) refl,
      shown.0,
      shown.1,
      shown.2,
    )
