-- ===== src/Totp/Suite.antt =====
-- src/totp.rs: the module `tests`. A test answers whether all its assertions hold, or panics. The
-- MAC, the crates and the random secret of a test are arguments.
-- `verify_with_window_rejects_far_drift` has no model: it gives the literal `-1` for a `u64`.
pub mod Verdicts
use auth_kit.Base.{
  Bool, false, not, ◌&&◌, ◌==◌, Option, none, some, [], length, replicate, beq, Bytes, codes,
}
use auth_kit.Base.Find.{starts_with, contains_text}
use auth_kit.Base.Outcome.{Result, ok, err, Run, returns}
use auth_kit.Base.Panic.{◌>>=◌, Build}
use auth_kit.Totp.{
  TotpSecret, Hmac, sha1, sha256, sha512, as_str, display_algorithm, hotp, at, verify,
  verify_with_window, constant_time_eq, seconds_remaining,
}
use auth_kit.Totp.Secret.{
  TotpError, invalid_secret, invalid_code, SecretCrates, from_bytes, to_base32, from_base32,
  to_base64,
}
use auth_kit.Totp.Uri.{enrollment_uri}

-- `RFC6238_SECRET`.
abbrev pub rfc6238_secret : Bytes
rfc6238_secret = codes "12345678901234567890"

-- `unwrap()` gives the secret.
abbrev gives_secret : TotpSecret → Result TotpError TotpSecret → Bool
gives_secret secret (ok s) = beq secret.bytes s.bytes
gives_secret secret (err e) = false

-- The error is an invalid secret with this message.
abbrev is_invalid_secret : Bytes → Result TotpError TotpSecret → Bool
is_invalid_secret message (ok s) = false
is_invalid_secret message (err (invalid_secret m)) = beq message m
is_invalid_secret message (err invalid_code) = false

module _ (h : Hmac) (build : Build) where
  unfoldable pub rfc6238_test_vector_t0 : Run Bool
  rfc6238_test_vector_t0 = do
    code ← hotp h build rfc6238_secret 1 8 sha1
    returns (beq code (codes "94287082"))

  unfoldable pub rfc6238_test_vector_t30 : Run Bool
  rfc6238_test_vector_t30 = do
    code ← hotp h build rfc6238_secret 1 8 sha1
    returns (beq code (codes "46119246"))

  unfoldable pub rfc6238_test_vector_t59 : Run Bool
  rfc6238_test_vector_t59 = do
    code ← at h build (from_bytes rfc6238_secret) 59 30 8
    returns (beq code (codes "94287082"))

  unfoldable pub verify_accepts_current_code : Run Bool
  verify_accepts_current_code = do
    let secret = from_bytes rfc6238_secret
    code ← at h build secret 59 30 8
    verify h build secret code 59 30

  unfoldable pub verify_rejects_wrong_code : Run Bool
  verify_rejects_wrong_code = do
    accepted ← verify h build (from_bytes rfc6238_secret) (codes "00000000") 59 30
    returns (not accepted)

  -- The second assertion is made only where the first holds.
  unfoldable pub verify_with_window_accepts_drift : Run Bool
  verify_with_window_accepts_drift = do
    let secret = from_bytes rfc6238_secret
    code ← at h build secret 59 30 8
    back ← verify_with_window h build secret code 30 30 1
    forward ← verify_with_window h build secret code 89 30 1
    returns (back && forward)

module _ (k : SecretCrates) (secret : TotpSecret) where
  unfoldable pub secret_roundtrip_base32 : Bool
  secret_roundtrip_base32 = gives_secret secret (from_base32 k (to_base32 k secret))

  -- With the encoder and the decoder of `base64`; another length than 20 panics.
  unfoldable pub secret_roundtrip_base64 : (Bytes → Bytes) → (Bytes → Option Bytes) → Bool
  secret_roundtrip_base64 encode decode = elim (decode (to_base64 encode secret)) [
    | none ↦ false
    | some bytes ↦ length bytes == 20 && beq secret.bytes (from_bytes bytes).bytes
  ]

  -- With `str::to_lowercase`.
  unfoldable pub secret_from_base32_lowercase : (Bytes → Bytes) → Bool
  secret_from_base32_lowercase to_lowercase =
      let upper = to_base32 k secret in
      let lower = to_lowercase upper in
      gives_secret secret (from_base32 k upper) && gives_secret secret (from_base32 k lower)

module _ (k : SecretCrates) where
  unfoldable pub secret_from_base32_empty : Bool
  secret_from_base32_empty = is_invalid_secret (codes "empty base32 secret") (from_base32 k [])

  unfoldable pub secret_from_base32_wrong_length : Bool
  secret_from_base32_wrong_length =
      is_invalid_secret (codes "secret must be 160 bits")
        (from_base32 k (k.encode false (replicate 10 0)))

  unfoldable pub enrollment_uri_format : Bool
  enrollment_uri_format =
      let uri =
        enrollment_uri k (from_bytes (replicate 20 0x42)) (codes "alice@example.com")
          (codes "AuthKit") 30 6 in
      starts_with uri (codes "otpauth://totp/AuthKit:alice%40example.com")
      && (contains_text uri (codes "secret=")
          && (contains_text uri (codes "period=30")
              && (contains_text uri (codes "digits=6")
                  && (contains_text uri (codes "algorithm=SHA1")
                      && contains_text uri (codes "issuer=AuthKit")))))

unfoldable pub seconds_remaining_returns_correct_window : Run Bool
seconds_remaining_returns_correct_window = do
  a ← seconds_remaining 0 30
  b ← seconds_remaining 29 30
  c ← seconds_remaining 30 30
  d ← seconds_remaining 45 30
  returns (a == 30 && (b == 1 && (c == 30 && d == 15)))

unfoldable pub hotp_truncation_constant_time_eq : Bool
hotp_truncation_constant_time_eq =
    not (constant_time_eq (codes "123456") (codes "123457"))
    && (not (constant_time_eq (codes "12345") (codes "123456")) && constant_time_eq [] [])

unfoldable pub algorithm_str_roundtrip : Bool
algorithm_str_roundtrip =
    beq (as_str sha1) (codes "SHA1")
    && (beq (as_str sha256) (codes "SHA256")
        && (beq (as_str sha512) (codes "SHA512") && beq (display_algorithm sha1) (codes "SHA1")))
