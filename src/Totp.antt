-- ===== src/Totp.antt =====
-- src/totp.rs: one-time passwords (HOTP and TOTP). `Decimal` prints numbers, `Secret` is the Base32
-- form of a secret, and `Uri` the enrollment URI.
pub mod Decimal
pub mod Truncation
pub mod Code
pub mod Compare
pub mod Window
pub mod Verify
pub mod Countdown
pub mod Secret
pub mod Uri
pub mod Enrolled
pub mod Suite
mod Tests
use Prim.Native.Nat.{min}
use auth_kit.Base.{
  ℕ, zero, suc, ◌+◌, ◌-◌, ◌/◌, ◌%◌, ◌^◌, ◌≡◌, Bool, true, false, Option, none, some, [], ◌∷◌, ◌++◌,
  ◌==◌, ltb, if◌then◌else◌, length, replicate, All, Bytes, codes, IsByte, bit_and, bit_or, bit_xor,
}
use auth_kit.Base.Int.{ℤ, pos, negsuc, sub_ℕ, ◌+ℤ◌}
use auth_kit.Base.Outcome.{Run, returns, panics}
use auth_kit.Base.Panic.{◌>>=◌, Build, debug, release, index, checked_div, fit_u32}
use auth_kit.Base.Words.{to_be_bytes, from_be_bytes}

pub data TotpAlgorithm : Type 0 where
  sha1 sha256 sha512 : TotpAlgorithm

-- `as_str`.
unfoldable pub as_str : TotpAlgorithm → Bytes
as_str sha1 = codes "SHA1"
as_str sha256 = codes "SHA256"
as_str sha512 = codes "SHA512"

-- `Display` of `TotpAlgorithm`.
unfoldable pub display_algorithm : TotpAlgorithm → Bytes
display_algorithm a = as_str a

-- `output_len`.
abbrev pub output_len : TotpAlgorithm → ℕ
output_len sha1 = 20
output_len sha256 = 32
output_len sha512 = 64

-- `DEFAULT_DIGITS`, `DEFAULT_PERIOD` and `DEFAULT_WINDOW`.
abbrev pub default_digits : ℕ
default_digits = 6

abbrev pub default_period : ℕ
default_period = 30

-- `DEFAULT_ALGORITHM`.
abbrev pub default_algorithm : TotpAlgorithm
default_algorithm = sha1

abbrev pub default_window : ℕ
default_window = 1

-- `TotpSecret`: the bytes of a `[u8; 20]`.
pub record TotpSecret : Type 0 where
  pub bytes : Bytes

-- The crates `hmac`, `sha1` and `sha2`: the MAC of a message under a key, of the algorithm's
-- length.
pub record Hmac : Type 0 where
  pub mac : TotpAlgorithm → Bytes → Bytes → Bytes
  pub length-mac :
      (a : TotpAlgorithm) (key message : Bytes) → length (mac a key message) ≡ output_len a
  pub mac-IsByte : (a : TotpAlgorithm) (key message : Bytes) → All IsByte (mac a key message)

-- The dynamic truncation of RFC 4226 §5.3 in `hotp`.
unfoldable pub truncate : Bytes → ℕ → Run ℕ
unfolding index
truncate digest digest_len = do
  last ← index digest (digest_len - 1)
  let offset = bit_and last 0x0f
  a ← index digest offset
  b ← index digest (offset + 1)
  c ← index digest (offset + 2)
  d ← index digest (offset + 3)
  returns (from_be_bytes (bit_and a 0x7f ∷ b ∷ c ∷ d ∷ []))

-- The decimal digits of a number; the fuel of 20 suffices for a `u64`.
unfoldable pub digits_from : ℕ → ℕ → Bytes
digits_from zero n = []
digits_from (suc fuel) n =
    let rest = digits_from fuel (n / 10) in
    if ltb n 10 then (b'0' + n) ∷ [] else rest ++ (b'0' + n % 10) ∷ []

unfoldable pub to_decimal : ℕ → Bytes
unfolding digits_from
to_decimal n = digits_from 20 n

-- `{:0>width$}`.
unfoldable pub pad_zeros : ℕ → Bytes → Bytes
pad_zeros width s = replicate (width - length s) b'0' ++ s

-- `debug_assert!(digest.len() == digest_len)`.
unfoldable pub check_length : Build → Bytes → ℕ → Run (Unit {0})
check_length debug digest digest_len = if length digest == digest_len then returns tt else panics
check_length release digest digest_len = returns tt

unfoldable pub hotp : Hmac → Build → Bytes → ℕ → ℕ → TotpAlgorithm → Run Bytes
hotp h build secret_bytes counter digits algorithm = do
  let digest = h.mac algorithm secret_bytes (to_be_bytes 8 counter)
  let digest_len = output_len algorithm
  _ ← check_length build digest digest_len
  bin_code ← truncate digest digest_len
  modulus ← fit_u32 build (10 ^ min digits 10)
  returns (pad_zeros digits (to_decimal (bin_code % modulus)))

-- `TotpSecret::at`.
unfoldable pub at : Hmac → Build → TotpSecret → ℕ → ℕ → ℕ → Run Bytes
at h build secret unix_secs period digits = do
  counter ← checked_div unix_secs period
  hotp h build secret.bytes counter digits sha1

-- The fold of `constant_time_eq`.
unfoldable pub xor_all : ℕ → Bytes → Bytes → ℕ
xor_all acc (x ∷ a) (y ∷ b) = xor_all (bit_or acc (bit_xor x y)) a b
xor_all acc _ _ = acc

unfoldable pub constant_time_eq : Bytes → Bytes → Bool
unfolding xor_all
constant_time_eq a b = if length a == length b then xor_all 0 a b == 0 else false

-- `u64::checked_add_signed`.
unfoldable pub checked_add_signed : ℕ → ℤ → Option ℕ
checked_add_signed n delta = elim (pos n +ℤ delta) [
  | negsuc _ ↦ none
  | pos m ↦ if ltb m (2 ^ 64) then some m else none
]

-- One code of the window against the candidate; `rest` is what the loop does next.
unfoldable pub try_code : Run Bytes → Bytes → Run Bool → Run Bool
try_code panics candidate rest = panics
try_code (returns expected) candidate rest =
    if constant_time_eq expected candidate then returns true else rest

-- The loop of `verify_with_window`, with the rounds left and the present `delta`.
unfoldable pub window_loop : (ℕ → Run Bytes) → Bytes → ℕ → ℕ → ℤ → Run Bool
unfolding try_code
window_loop code candidate counter_now zero delta = returns false
window_loop code candidate counter_now (suc rounds) delta =
    let rest = window_loop code candidate counter_now rounds (delta +ℤ pos 1) in
    elim (checked_add_signed counter_now delta) [
      | none ↦ rest
      | some c ↦ try_code (code c) candidate rest
    ]

unfoldable pub verify_with_window : Hmac → Build → TotpSecret → Bytes → ℕ → ℕ → ℕ → Run Bool
verify_with_window h build secret candidate unix_secs period window = do
  counter_now ← checked_div unix_secs period
  window_loop (λ c. hotp h build secret.bytes c default_digits sha1) candidate counter_now
      (window + window + 1) (sub_ℕ 0 window)

unfoldable pub verify : Hmac → Build → TotpSecret → Bytes → ℕ → ℕ → Run Bool
unfolding verify_with_window
verify h build secret candidate unix_secs period =
    verify_with_window h build secret candidate unix_secs period default_window

-- `seconds_remaining`.
unfoldable pub seconds_remaining : ℕ → ℕ → Run ℕ
seconds_remaining unix_secs period =
    if period == 0 then panics else returns (period - unix_secs % period)
