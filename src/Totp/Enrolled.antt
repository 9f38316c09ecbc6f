-- ===== src/Totp/Enrolled.antt =====
-- src/totp.rs end to end: a device that knows nothing but the enrollment URI, and the server that made
-- it.
use auth_kit.Base.{
  ℕ, ◌+◌, ◌/◌, ◌^◌, ◌≤◌, ◌<◌, ◌≡◌, refl, sym, ap, ◌∙◌, inl, inr, Bool-cases, Option, none, some,
  ◌==◌, ==_iff, length, All, Bytes, IsByte, codes, arith,
}
use auth_kit.Base.Outcome.{Result, ok, err, returns}
use auth_kit.Base.Panic.{Build}
use auth_kit.Base.Str.{split_once}
use auth_kit.Middleware.{query_param}
use auth_kit.Totp.{TotpSecret, Hmac, sha1, at, verify, default_digits, to_decimal}
use auth_kit.Totp.Code.{hotp_code}
use auth_kit.Totp.Decimal.{of_decimal, of_decimal-to_decimal}
use auth_kit.Totp.Secret.{SecretCrates, TotpError, to_base32, from_base32}
use auth_kit.Totp.Secret.Spelling.{Spells-refl, from_base32-to_base32}
use auth_kit.Totp.Uri.{enrollment_uri}
use auth_kit.Totp.Uri.Query.{uri_label, enrollment_uri-query}
use auth_kit.Totp.Verify.{at_lem, verify-at, verify-at_other_digits}

-- What a device keeps of a URI.
pub record Enrollment : Type 0 where
  pub secret : TotpSecret
  pub period : ℕ
  pub digits : ℕ

abbrev of_result : Result TotpError TotpSecret → Option TotpSecret
of_result (ok s) = some s
of_result (err e) = none

-- A device reads the parameters after the `?`.
unfoldable pub read_uri : SecretCrates → Bytes → Option Enrollment
read_uri k uri = elim (split_once b'?' uri) [
  | none ↦ none
  | some (label, query) ↦ elim (query_param query (codes "secret")) [
    | none ↦ none
    | some text ↦ elim (of_result (from_base32 k text)) [
      | none ↦ none
      | some secret ↦ elim (query_param query (codes "period")) [
        | none ↦ none
        | some period ↦ elim (query_param query (codes "digits")) [
          | none ↦ none
          | some digits ↦
              some
                (record { secret = secret; period = of_decimal period; digits = of_decimal digits })
        ]
      ]
    ]
  ]
]

read_uri-parts :
    (k : SecretCrates) (uri label query text period digits : Bytes) (secret : TotpSecret)
    → split_once b'?' uri ≡ some (label, query)
    → query_param query (codes "secret") ≡ some text
    → from_base32 k text ≡ ok secret
    → query_param query (codes "period") ≡ some period
    → query_param query (codes "digits") ≡ some digits
    → read_uri k uri
      ≡ some (record { secret = secret; period = of_decimal period; digits = of_decimal digits })
unfolding read_uri
read_uri-parts k uri label query text period digits secret splits has_secret read has_period
      has_digits =
    ground (arith, splits, has_secret, read, has_period, has_digits)

read_uri-enrollment_uri :
    (k : SecretCrates) (secret : TotpSecret) (account issuer : Bytes) (period digits : ℕ)
    → length secret.bytes ≡ 20
    → All IsByte secret.bytes
    → All IsByte account
    → All IsByte issuer
    → period < 2 ^ 64
    → digits < 2 ^ 64
    → read_uri k (enrollment_uri k secret account issuer period digits)
      ≡ some (record { secret = secret; period = period; digits = digits })
read_uri-enrollment_uri k secret account issuer period digits long bytes h i p d =
    let (query, splits, has_secret, _, has_period, has_digits, _) =
      enrollment_uri-query k secret account issuer period digits h i in
    let text = to_base32 k secret in
    let read = from_base32-to_base32 k secret text long bytes (Spells-refl text) in
    read_uri-parts k (enrollment_uri k secret account issuer period digits)
      (uri_label account issuer) query text (to_decimal period) (to_decimal digits) secret splits
      has_secret read has_period has_digits
    ∙ ap some (device_cong secret (of_decimal-to_decimal period p) (of_decimal-to_decimal digits d))
  where
    device_cong :
        (s : TotpSecret) {p p' d d' : ℕ}
        → p ≡ p'
        → d ≡ d'
        → ◌≡◌ {A = Enrollment}
            (record { secret = s; period = p; digits = d })
            (record { secret = s; period = p'; digits = d' })
    device_cong s e f = rw (e, f) refl

-- A device that is enrolled by the URI of a secret of 20 bytes, for 1 to 9 digits and a positive
-- period, reads the secret, the period and the digits back, whatever bytes account and issuer are; the
-- code that it shows is accepted by `verify` in the same step and in the two next to it if the URI says
-- six digits, and refused if it says another number.
pub enrolled-verify :
    (k : SecretCrates) (h : Hmac) (build : Build) (secret : TotpSecret) (account issuer : Bytes)
    (period digits shown_at now : ℕ)
    → length secret.bytes ≡ 20
    → All IsByte secret.bytes
    → All IsByte account
    → All IsByte issuer
    → 0 < period
    → period < 2 ^ 64
    → 0 < digits
    → digits ≤ 9
    → shown_at < 2 ^ 64
    → shown_at / period ≤ now / period + 1
    → now / period ≤ shown_at / period + 1
    → (read_uri k (enrollment_uri k secret account issuer period digits)
        ≡ some (record { secret = secret; period = period; digits = digits }))
      × (code : Bytes) × (at h build secret shown_at period digits ≡ returns code)
      × (verify h build secret code now period ≡ returns (digits == default_digits))
enrolled-verify k h build secret account issuer period digits shown_at now long bytes a i
      some_period short some_digits few fits ahead behind =
    let read =
      read_uri-enrollment_uri k secret account issuer period digits long bytes a i short
        (omega (arith, few)) in
    elim (Bool-cases (digits == default_digits)) [
      | inl six ↦
          let same : digits ≡ default_digits = (==_iff digits default_digits).0 six in
          let r = hotp_code h build secret.bytes (shown_at / period) digits sha1 some_digits few in
          let shown : at h build secret shown_at period digits ≡ returns r.0 =
            at_lem h build secret shown_at period digits some_period ∙ r.1 in
          (
            read,
            r.0,
            shown,
            verify-at h build secret r.0 shown_at now period some_period fits ahead behind
                  (ap (λ d. at h build secret shown_at period d) (sym same) ∙ shown)
                ∙ ap returns (sym six),
          )
      | inr other ↦
          let (code, shown, refused) =
            verify-at_other_digits h build secret shown_at period digits some_period some_digits few
              (λ e. cc ((==_iff digits default_digits).1 e, other)) in
          (read, code, shown, refused now ∙ ap returns (sym other))
    ]
