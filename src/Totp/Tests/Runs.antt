-- ===== src/Totp/Tests/Runs.antt =====
-- Runs of the tests of src/totp.rs that need no MAC of SHA-1.
use auth_kit.Base.{
  ℕ, ◌+◌, ◌&&◌, leb, if◌then◌else◌, ◌≡◌, refl, Bool, true, some, List, [], ◌∷◌, map, beq,
}
use auth_kit.Base.Find.{starts_with, contains_text}
use auth_kit.Base.Outcome.{returns}
use auth_kit.Base.Str.{trim}
use auth_kit.Totp.{as_str, display_algorithm, constant_time_eq, seconds_remaining, to_decimal}
use auth_kit.Totp.Secret.{
  from_bytes, to_base32, from_base32, to_base64, remove_spaces, from_normalized, from_decoded,
}
use auth_kit.Totp.Uri.{urlencoding, enrollment_uri}
use auth_kit.Totp.Suite.{
  secret_roundtrip_base32, secret_roundtrip_base64, secret_from_base32_lowercase,
  secret_from_base32_empty, secret_from_base32_wrong_length, enrollment_uri_format,
  seconds_remaining_returns_correct_window, hotp_truncation_constant_time_eq,
  algorithm_str_roundtrip,
}
use auth_kit.Totp.Tests.{secret_20, toy_base32, letters, from_letters}

-- Lower case of an ASCII character.
abbrev lower_case : ℕ → ℕ
lower_case c = if leb b'A' c && leb c b'Z' then c + 32 else c

-- The verdicts of the tests, in their order.
abbrev verdicts : List Bool
verdicts =
    secret_roundtrip_base32 toy_base32 secret_20
    ∷ secret_roundtrip_base64 toy_base32 secret_20 (λ s. s) (λ s. some s)
    ∷ secret_from_base32_lowercase toy_base32 secret_20 (map lower_case)
    ∷ secret_from_base32_empty toy_base32
    ∷ secret_from_base32_wrong_length toy_base32
    ∷ enrollment_uri_format toy_base32
    ∷ hotp_truncation_constant_time_eq
    ∷ algorithm_str_roundtrip
    ∷ []

verdicts_run : verdicts ≡ true ∷ true ∷ true ∷ true ∷ true ∷ true ∷ true ∷ true ∷ []
unfolding secret_roundtrip_base32 secret_roundtrip_base64 secret_from_base32_lowercase
    secret_from_base32_empty secret_from_base32_wrong_length enrollment_uri_format
    hotp_truncation_constant_time_eq algorithm_str_roundtrip as_str display_algorithm
    constant_time_eq to_decimal from_bytes to_base32 from_base32 to_base64 remove_spaces
    from_normalized from_decoded urlencoding enrollment_uri starts_with contains_text trim letters
    from_letters beq
verdicts_run = refl

seconds_run : seconds_remaining_returns_correct_window ≡ returns true
unfolding seconds_remaining_returns_correct_window seconds_remaining
seconds_run = refl
