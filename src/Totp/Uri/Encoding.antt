-- ===== src/Totp/Uri/Encoding.antt =====
-- src/totp.rs: `urlencoding` against the percent-decoding of RFC 3986 §2.1.
use auth_kit.Base.{
  ℕ, ◌+◌, ◌*◌, ◌/◌, ◌%◌, ◌-◌, ◌<◌, ◌≡◌, ◌≢◌, refl, ap, ◌∙◌, true, false, inl, inr, Option, none,
  some, [], ◌∷◌, leb, ◌==◌, if◌then◌else◌, Bool-cases, All, Bytes, IsByte, arith,
}
use mathlib.Core.Option
use auth_kit.Totp.Uri.{is_unreserved, hex_digit, urlencoding}

-- The value of a hexadecimal digit.
unfoldable pub hex_value : ℕ → ℕ
hex_value c = if leb c b'9' then c - b'0' else c - b'A' + 10

-- Percent-decoding: `%` and two hexadecimal digits stand for a byte. `none` is a `%` with fewer
-- than two characters after it.
unfoldable pub percent_decode : Bytes → Option Bytes
percent_decode [] = some []
percent_decode (c ∷ []) = if c == b'%' then none else some (c ∷ [])
percent_decode (c ∷ h ∷ []) =
    let rest = percent_decode (h ∷ []) in if c == b'%' then none else Option.map (λ s. c ∷ s) rest
percent_decode (c ∷ h ∷ l ∷ s) =
    let after = percent_decode s in
    let rest = percent_decode (h ∷ l ∷ s) in
    if c == b'%'
    then Option.map (λ t. (hex_value h * 16 + hex_value l) ∷ t) after
    else Option.map (λ t. c ∷ t) rest

decode_escape :
    (h l : ℕ) (s t : Bytes)
    → percent_decode s ≡ some t
    → percent_decode (b'%' ∷ h ∷ l ∷ s) ≡ some ((hex_value h * 16 + hex_value l) ∷ t)
unfolding percent_decode
decode_escape h l s t e = rw e refl

decode_plain :
    (c : ℕ) (s t : Bytes)
    → c ≢ b'%'
    → percent_decode s ≡ some t
    → percent_decode (c ∷ s) ≡ some (c ∷ t)
unfolding percent_decode
decode_plain c [] t n e = ground arith
decode_plain c (h ∷ []) t n e = ground arith
decode_plain c (h ∷ l ∷ s) t n e = ground arith

hex_value-hex_digit : (n : ℕ) → n < 16 → hex_value (hex_digit n) ≡ n
unfolding hex_value hex_digit
hex_value-hex_digit n h = ground arith

unreserved-ne-percent : (b : ℕ) → is_unreserved b ≡ true → b ≢ b'%'
unfolding is_unreserved
unreserved-ne-percent b h = ground arith

urlencoding-escape :
    (b : ℕ) (s : Bytes)
    → is_unreserved b ≡ false
    → urlencoding (b ∷ s) ≡ b'%' ∷ hex_digit (b / 16) ∷ hex_digit (b % 16) ∷ urlencoding s
unfolding urlencoding
urlencoding-escape b s h = rw h refl

urlencoding-plain :
    (b : ℕ) (s : Bytes) → is_unreserved b ≡ true → urlencoding (b ∷ s) ≡ b ∷ urlencoding s
unfolding urlencoding
urlencoding-plain b s h = rw h refl

-- Percent-decoding gives back any byte string that `urlencoding` encoded.
pub percent_decode-urlencoding :
    (s : Bytes) → All IsByte s → percent_decode (urlencoding s) ≡ some s
percent_decode-urlencoding [] h = unfold percent_decode urlencoding in refl
percent_decode-urlencoding (b ∷ s) h =
    let ih = percent_decode-urlencoding s h.1 in
    elim (Bool-cases (is_unreserved b)) [
      | inl plain ↦
          ap percent_decode (urlencoding-plain b s plain)
          ∙ decode_plain b (urlencoding s) s (unreserved-ne-percent b plain) ih
      | inr escaped ↦
          let high = hex_value-hex_digit (b / 16) (omega (arith, h.0)) in
          let low = hex_value-hex_digit (b % 16) (omega arith) in
          ap percent_decode (urlencoding-escape b s escaped)
          ∙ decode_escape (hex_digit (b / 16)) (hex_digit (b % 16)) (urlencoding s) s ih
          ∙ ap (λ c. some (c ∷ s)) (omega (arith, high, low))
    ]

-- A byte of the encoding: unreserved, or `%`. No separator of a URI is one.
abbrev pub IsEncoded : ℕ → Type 0
IsEncoded c = (c ≢ b'&') × (c ≢ b'=') × (c ≢ b'?') × (c ≢ b'/') × (c ≢ b':') × (c < 128)

unreserved-IsEncoded : (b : ℕ) → is_unreserved b ≡ true → IsEncoded b
unfolding is_unreserved
unreserved-IsEncoded b h = ground arith

hex_digit-IsEncoded : (n : ℕ) → n < 16 → IsEncoded (hex_digit n)
unfolding hex_digit
hex_digit-IsEncoded n h = ground arith

-- An encoded text holds no separator of a URI and is ASCII.
pub urlencoding-IsEncoded : (s : Bytes) → All IsByte s → All IsEncoded (urlencoding s)
urlencoding-IsEncoded [] h = unfold urlencoding in tt
urlencoding-IsEncoded (b ∷ s) h =
    let rest = urlencoding-IsEncoded s h.1 in
    elim (Bool-cases (is_unreserved b)) [
      | inl plain ↦ rw (urlencoding-plain b s plain) (unreserved-IsEncoded b plain, rest)
      | inr escaped ↦ rw (urlencoding-escape b s escaped) (
        omega arith,
        (
          hex_digit-IsEncoded (b / 16) (omega (arith, h.0)),
          (hex_digit-IsEncoded (b % 16) (omega arith), rest),
        ),
      )
    ]
