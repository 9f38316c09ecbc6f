-- ===== src/Totp/Tests.antt =====
-- Instances of the theorems about src/totp.rs, with a toy MAC and a toy Base32 in place of the
-- crates.
mod Runs
use auth_kit.Base.{
  ℕ, ◌+◌, ◌-◌, ◌*◌, ◌/◌, ◌%◌, ◌^◌, ◌≤◌, ◌<◌, ◌≡◌, ◌==◌, ◌↔◌, inl, refl, Bool, true, Option, none,
  some, [], ◌∷◌, map, length, length-replicate, replicate, All, All-replicate, Bytes, IsByte, codes,
  arith,
}
use auth_kit.Base.Outcome.{ok, returns}
use auth_kit.Base.Panic.{release, index, checked_div, fit_u32}
use auth_kit.Base.Str.{split_once}
use auth_kit.Base.Words.{to_be_bytes, from_be_bytes}
use auth_kit.Middleware.{query_param}
use auth_kit.Totp.{
  TotpSecret, Hmac, sha1, output_len, default_digits, truncate, hotp, at, verify_with_window,
  verify, seconds_remaining, digits_from, to_decimal, pad_zeros, check_length,
}
use auth_kit.Totp.Decimal.{IsDigit, of_decimal}
use auth_kit.Totp.Truncation.{dynamic_code, truncate_lem}
use auth_kit.Totp.Code.{rfc_number, hotp_code}
use auth_kit.Totp.Verify.{verify_with_window_iff}
use auth_kit.Totp.Countdown.{seconds_remaining_lem}
use auth_kit.Totp.Secret.{SecretCrates, IsBase32, upper, to_base32, from_base32}
use auth_kit.Totp.Secret.Spelling.{Spells, Spells-refl, space, lower, from_base32-to_base32}
use auth_kit.Totp.Enrolled.{read_uri, enrolled-verify}
use auth_kit.Totp.Uri.{urlencoding, enrollment_uri}
use auth_kit.Totp.Uri.Query.{uri_label, enrollment_uri-query}

-- The sum of the bytes of a message, as one byte.
sum_byte : Bytes → ℕ
sum_byte [] = 0
sum_byte (b ∷ s) = (b + sum_byte s) % 256

sum_byte-IsByte : (s : Bytes) → IsByte (sum_byte s)
unfolding sum_byte
sum_byte-IsByte [] = omega arith
sum_byte-IsByte (b ∷ s) = omega arith

-- A MAC that repeats that byte.
abbrev toy_mac : Hmac
toy_mac = record {
  mac = λ a key message. replicate (output_len a) (sum_byte message);
  length-mac = λ a key message. length-replicate (output_len a) (sum_byte message);
  mac-IsByte = λ a key message.
      All-replicate IsByte (output_len a) (sum_byte message) (sum_byte-IsByte message);
}

abbrev secret_20 : TotpSecret
secret_20 = record { bytes = replicate 20 0x10 }

abbrev digest_20 : Bytes
digest_20 =
    0x1f ∷ 0x86 ∷ 0x98 ∷ 0x69 ∷ 0x0e ∷ 0x02 ∷ 0xca ∷ 0x16 ∷ 0x61 ∷ 0x85 ∷ 0x50 ∷ 0xef ∷ 0x7f ∷ 0x19
    ∷ 0xda ∷ 0x8e ∷ 0x94 ∷ 0x5b ∷ 0x55 ∷ 0x5a ∷ []

-- The example of RFC 4226 §5.4.
rfc_example : dynamic_code digest_20 ≡ 0x50ef7f19
unfolding dynamic_code from_be_bytes
rfc_example = refl

truncate_lem_example : truncate digest_20 20 ≡ returns (dynamic_code digest_20)
truncate_lem_example = truncate_lem digest_20 20 refl (omega arith) (omega arith)

hotp_code_example :
    (s : Bytes) × (hotp toy_mac release secret_20.bytes 1 6 sha1 ≡ returns s)
    × (length s ≡ 6)
    × All IsDigit s
    × (of_decimal s ≡ rfc_number toy_mac secret_20.bytes 1 sha1 % 10 ^ 6)
hotp_code_example = hotp_code toy_mac release secret_20.bytes 1 6 sha1 (omega arith) (omega arith)

abbrev code_1 : Bytes
code_1 = codes "843009"

at_code_1 : at toy_mac release secret_20 45 30 default_digits ≡ returns code_1
unfolding at checked_div hotp check_length truncate index fit_u32 pad_zeros to_decimal digits_from
    to_be_bytes from_be_bytes sum_byte
at_code_1 = refl

verify_with_window_iff_example :
    ((b : Bool) × (verify_with_window toy_mac release secret_20 code_1 61 30 1 ≡ returns b))
    × ((verify_with_window toy_mac release secret_20 code_1 61 30 1 ≡ returns true) ↔ (
        (c : ℕ) × (c ≤ 61 / 30 + 1)
        × (61 / 30 ≤ c + 1)
        × (c < 2 ^ 64)
        × (hotp toy_mac release secret_20.bytes c default_digits sha1 ≡ returns code_1)))
verify_with_window_iff_example =
    verify_with_window_iff toy_mac release secret_20 code_1 61 30 1 (omega arith)

seconds_remaining_lem_example :
    (r : ℕ) × (seconds_remaining 45 30 ≡ returns r)
    × (0 < r)
    × (r ≤ 30)
    × ((d : ℕ)
        → d < r
        → at toy_mac release secret_20 (45 + d) 30 6 ≡ at toy_mac release secret_20 45 30 6)
    × (at toy_mac release secret_20 (45 + r) 30 6
        ≡ hotp toy_mac release secret_20.bytes (45 / 30 + 1) 6 sha1)
seconds_remaining_lem_example =
    seconds_remaining_lem toy_mac release secret_20 45 30 6 (omega arith)

-- Each byte as two letters from `A` to `P`.
letters : Bytes → Bytes
letters [] = []
letters (b ∷ s) = (b'A' + b / 16 % 16) ∷ (b'A' + b % 16) ∷ letters s

from_letters : Bytes → Option Bytes
from_letters [] = some []
from_letters (a ∷ []) = none
from_letters (a ∷ b ∷ s) = elim (from_letters s) [
  | none ↦ none
  | some t ↦ some (((a - b'A') * 16 + (b - b'A')) ∷ t)
]

from_letters-letters : (s : Bytes) → All IsByte s → from_letters (letters s) ≡ some s
unfolding letters from_letters
from_letters-letters [] h = refl
from_letters-letters (b ∷ s) h = ground (arith, from_letters-letters s h.1)

letters-IsBase32 : (s : Bytes) → All IsBase32 (letters s)
unfolding letters
letters-IsBase32 [] = tt
letters-IsBase32 (b ∷ s) =
    (inl (omega arith, omega arith), (inl (omega arith, omega arith), letters-IsBase32 s))

letters-nil : (s : Bytes) → letters s ≡ [] → s ≡ []
unfolding letters
letters-nil [] h = refl
letters-nil (b ∷ s) h = cc

abbrev toy_base32 : SecretCrates
toy_base32 = record {
  encode = λ padded s. letters s;
  decode = λ padded s. from_letters s;
  decode-encode = from_letters-letters;
  encode-IsBase32 = letters-IsBase32;
  encode-nil = letters-nil;
  to_uppercase = map upper;
  to_uppercase_ascii = λ s h. refl;
}

abbrev letters_39 : Bytes
letters_39 = codes "ABABABABABABABABABABABABABABABABABABABA"

-- The secret with a space before it and its first letter in lower case.
abbrev typed : Bytes
typed = 32 ∷ b'b' ∷ letters_39

typed-Spells : Spells typed (to_base32 toy_base32 secret_20)
unfolding to_base32 letters
typed-Spells = space (lower {c = b'B'} (omega arith) (omega arith) (Spells-refl letters_39))

from_base32-to_base32_example : from_base32 toy_base32 typed ≡ ok secret_20
from_base32-to_base32_example =
    from_base32-to_base32 toy_base32 secret_20 typed refl (omega arith) typed-Spells

enrollment_uri-query_example :
    (query : Bytes) × (split_once b'?'
        (enrollment_uri toy_base32 secret_20 (codes "a?b") (codes "My App") 30 6)
      ≡ some (uri_label (codes "a?b") (codes "My App"), query))
    × (query_param query (codes "secret") ≡ some (to_base32 toy_base32 secret_20))
    × (query_param query (codes "issuer") ≡ some (urlencoding (codes "My App")))
    × (query_param query (codes "period") ≡ some (to_decimal 30))
    × (query_param query (codes "digits") ≡ some (to_decimal 6))
    × (query_param query (codes "algorithm") ≡ some (codes "SHA1"))
enrollment_uri-query_example =
    enrollment_uri-query toy_base32 secret_20 (codes "a?b") (codes "My App") 30 6 (omega arith)
      (omega arith)

enrolled-verify_example :
    (read_uri toy_base32 (enrollment_uri toy_base32 secret_20 (codes "a?b") (codes "My App") 30 6)
      ≡ some (record { secret = secret_20; period = 30; digits = 6 }))
    × (code : Bytes) × (at toy_mac release secret_20 59 30 6 ≡ returns code)
    × (verify toy_mac release secret_20 code 61 30 ≡ returns (6 == default_digits))
enrolled-verify_example =
    enrolled-verify toy_base32 toy_mac release secret_20 (codes "a?b") (codes "My App") 30 6 59 61
      refl (omega arith) (omega arith) (omega arith) (omega arith) (omega arith) (omega arith)
      (omega arith) (omega arith) (omega arith) (omega arith)
