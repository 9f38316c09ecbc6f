-- ===== src/Totp/Uri.antt =====
-- src/totp.rs: percent-encoding and the `otpauth://` enrollment URI.
pub mod Encoding
pub mod Query
use auth_kit.Base.{
  ℕ, ◌+◌, ◌/◌, ◌%◌, ◌-◌, Bool, ◌||◌, ◌&&◌, [], ◌∷◌, ◌++◌, leb, ltb, ◌==◌, if◌then◌else◌, Bytes,
  codes,
}
use auth_kit.Totp.{TotpSecret, to_decimal}
use auth_kit.Totp.Secret.{SecretCrates, to_base32}

-- The characters that `urlencoding` leaves: letters, digits and `-`, `_`, `.`, `~`.
unfoldable pub is_unreserved : ℕ → Bool
is_unreserved b =
    (leb b'A' b && leb b b'Z')
    || ((leb b'a' b && leb b b'z')
        || ((leb b'0' b && leb b b'9') || (b == b'-' || (b == b'_' || (b == b'.' || b == b'~')))))

-- A digit of `{:02X}`.
unfoldable pub hex_digit : ℕ → ℕ
hex_digit n = if ltb n 10 then b'0' + n else b'A' + n - 10

unfoldable pub urlencoding : Bytes → Bytes
unfolding is_unreserved hex_digit
urlencoding [] = []
urlencoding (b ∷ s) =
    let rest = urlencoding s in
    if is_unreserved b then b ∷ rest else b'%' ∷ hex_digit (b / 16) ∷ hex_digit (b % 16) ∷ rest

unfoldable pub enrollment_uri : SecretCrates → TotpSecret → Bytes → Bytes → ℕ → ℕ → Bytes
enrollment_uri k secret account issuer period digits =
    codes "otpauth://totp/"
    ++ (urlencoding issuer
        ++ (codes ":"
            ++ (urlencoding account
                ++ (codes "?secret="
                    ++ (to_base32 k secret
                        ++ (codes "&issuer="
                            ++ (urlencoding issuer
                                ++ (codes "&period="
                                    ++ (to_decimal period
                                        ++ (codes "&digits="
                                            ++ (to_decimal digits
                                                ++ codes "&algorithm=SHA1")))))))))))
