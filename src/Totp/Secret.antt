-- ===== src/Totp/Secret.antt =====
-- src/totp.rs: the construction of a secret, its Base32 form, and the helpers around it.
pub mod Spaces
pub mod Spelling
use auth_kit.Base.{
  ℕ, ◌+◌, ◌-◌, ◌≤◌, ◌<◌, ◌≡◌, ◌⊎◌, Bool, true, false, ◌&&◌, Option, none, some, [], ◌∷◌, ◌++◌, map,
  leb, ◌==◌, if◌then◌else◌, length, All, Bytes, IsByte, codes,
}
use auth_kit.Base.Outcome.{Result, ok, err}
use auth_kit.Base.Str.{trim}
use auth_kit.Totp.{TotpSecret}

-- `TotpError`.
pub data TotpError : Type 0 where
  invalid_secret : Bytes → TotpError
  invalid_code : TotpError

-- A character of the Base32 alphabet of RFC 4648.
abbrev pub IsBase32 : ℕ → Type 0
IsBase32 c = ((b'A' ≤ c) × (c ≤ b'Z')) ⊎ ((b'2' ≤ c) × (c ≤ b'7'))

-- Upper case of an ASCII character.
abbrev pub upper : ℕ → ℕ
upper c = if leb b'a' c && leb c b'z' then c - 32 else c

-- What the code uses of the crate `base32` (with padding and without), and `str::to_uppercase`, of
-- which only the ASCII part is fixed here.
pub record SecretCrates : Type 0 where
  pub encode : Bool → Bytes → Bytes
  pub decode : Bool → Bytes → Option Bytes
  pub decode-encode : (b : Bytes) → All IsByte b → decode false (encode false b) ≡ some b
  pub encode-IsBase32 : (b : Bytes) → All IsBase32 (encode false b)
  pub encode-nil : (b : Bytes) → encode false b ≡ [] → b ≡ []
  pub to_uppercase : Bytes → Bytes
  pub to_uppercase_ascii : (s : Bytes) → All (λ c. c < 128) s → to_uppercase s ≡ map upper s

-- `replace(' ', "")`.
unfoldable pub remove_spaces : Bytes → Bytes
remove_spaces [] = []
remove_spaces (c ∷ s) = let rest = remove_spaces s in if c == 32 then rest else c ∷ rest

unfoldable pub to_base32 : SecretCrates → TotpSecret → Bytes
to_base32 k secret = k.encode false secret.bytes

or_else : Option Bytes → Option Bytes → Option Bytes
or_else none o = o
or_else (some b) o = some b

-- The end of `from_base32`, with what the two decoders gave.
unfoldable pub from_decoded : Option Bytes → Result TotpError TotpSecret
from_decoded none = err (invalid_secret (codes "invalid base32 encoding"))
from_decoded (some bytes) =
    if length bytes == 20
    then ok (record { bytes = bytes })
    else err (invalid_secret (codes "secret must be 160 bits"))

-- `is_empty` and the rest.
unfoldable pub from_normalized : SecretCrates → Bytes → Result TotpError TotpSecret
unfolding from_decoded or_else
from_normalized k [] = err (invalid_secret (codes "empty base32 secret"))
from_normalized k (c ∷ s) = from_decoded (or_else (k.decode false (c ∷ s)) (k.decode true (c ∷ s)))

unfoldable pub from_base32 : SecretCrates → Bytes → Result TotpError TotpSecret
unfolding from_normalized
from_base32 k s = from_normalized k (remove_spaces (k.to_uppercase (trim s)))

-- `from_bytes` and `as_bytes`.
unfoldable pub from_bytes : Bytes → TotpSecret
from_bytes bytes = record { bytes = bytes }

unfoldable pub as_bytes : TotpSecret → Bytes
as_bytes secret = secret.bytes

-- `to_base64`; the encoder of the crate `base64` is an argument.
unfoldable pub to_base64 : (Bytes → Bytes) → TotpSecret → Bytes
to_base64 encode secret = encode secret.bytes

-- `generate`: 20 bytes of the random generator, which is an argument with its state.
unfoldable pub generate : {S : Type 0} → (ℕ → S → Bytes × S) → S → TotpSecret × S
generate fill_bytes s = let (bytes, s') = fill_bytes 20 s in (record { bytes = bytes }, s')

-- `Display` of `TotpError`.
unfoldable pub display_error : TotpError → Bytes
display_error (invalid_secret m) = codes "invalid secret: " ++ m
display_error invalid_code = codes "invalid code"

-- `now_unix_secs`, with the seconds since the epoch, or `none` if the clock stands before it.
unfoldable pub now_unix_secs : Option ℕ → ℕ
now_unix_secs none = 0
now_unix_secs (some secs) = secs
