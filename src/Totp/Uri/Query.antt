-- ===== src/Totp/Uri/Query.antt =====
-- src/totp.rs: what a reader of the enrollment URI finds in it, with `query_param` of
-- src/middleware/pkce_state_session.rs as the reader.
use auth_kit.Base.{
  ℕ, ◌≡◌, ◌≢◌, sym, ap, ◌∙◌, false, some, List, [], ◌∷◌, ◌++◌, append_assoc, All, All-append,
  All-weaken, Bytes, IsByte, beq, codes, arith,
}
use auth_kit.Base.Map.{get}
use auth_kit.Base.Str.{split_once, join}
use auth_kit.Base.Str.Laws.{split_once_at}
use auth_kit.Middleware.{query_param}
use auth_kit.Middleware.Params.{show_query, IsQueryPair, query_param-show_query}
use auth_kit.Totp.{TotpSecret, to_decimal}
use auth_kit.Totp.Decimal.{IsDigit, to_decimal-IsDigit}
use auth_kit.Totp.Secret.{SecretCrates, IsBase32, to_base32}
use auth_kit.Totp.Uri.{urlencoding, enrollment_uri}
use auth_kit.Totp.Uri.Encoding.{IsEncoded, urlencoding-IsEncoded}

base32-no-amp : (c : ℕ) → IsBase32 c → c ≢ b'&'
base32-no-amp c h = ground (arith, h)

to_base32-no-amp :
    (k : SecretCrates) (secret : TotpSecret) → All (λ c. c ≢ b'&') (to_base32 k secret)
unfolding to_base32
to_base32-no-amp k secret =
    All-weaken IsBase32 _ base32-no-amp (k.encode false secret.bytes)
      (k.encode-IsBase32 secret.bytes)

to_decimal-no-amp : (n : ℕ) → All (λ c. c ≢ b'&') (to_decimal n)
to_decimal-no-amp n =
    All-weaken IsDigit _ (λ c h. omega (arith, h.0, h.1)) (to_decimal n) (to_decimal-IsDigit n)

urlencoding-no-amp : (s : Bytes) → All IsByte s → All (λ c. c ≢ b'&') (urlencoding s)
urlencoding-no-amp s h =
    All-weaken IsEncoded _ (λ c e. e.0) (urlencoding s) (urlencoding-IsEncoded s h)

-- The parameters of the URI.
abbrev pub uri_pairs : SecretCrates → TotpSecret → Bytes → ℕ → ℕ → List (Bytes × Bytes)
uri_pairs k secret issuer period digits =
    (codes "secret", to_base32 k secret)
    ∷ (codes "issuer", urlencoding issuer)
    ∷ (codes "period", to_decimal period)
    ∷ (codes "digits", to_decimal digits)
    ∷ (codes "algorithm", codes "SHA1")
    ∷ []

-- What stands before the `?`.
abbrev pub uri_label : Bytes → Bytes → Bytes
uri_label account issuer =
    codes "otpauth://totp/" ++ (urlencoding issuer ++ (codes ":" ++ urlencoding account))

uri_pairs-IsQueryPair :
    (k : SecretCrates) (secret : TotpSecret) (issuer : Bytes) (period digits : ℕ)
    → All IsByte issuer
    → All IsQueryPair (uri_pairs k secret issuer period digits)
uri_pairs-IsQueryPair k secret issuer period digits h = (
  (omega arith, to_base32-no-amp k secret),
  (
    (omega arith, urlencoding-no-amp issuer h),
    (
      (omega arith, to_decimal-no-amp period),
      ((omega arith, to_decimal-no-amp digits), (omega arith, tt)),
    ),
  ),
)

enrollment_uri-parts :
    (k : SecretCrates) (secret : TotpSecret) (account issuer : Bytes) (period digits : ℕ)
    → enrollment_uri k secret account issuer period digits
      ≡ uri_label account issuer ++ b'?' ∷ show_query (uri_pairs k secret issuer period digits)
unfolding enrollment_uri show_query join
enrollment_uri-parts k secret account issuer period digits =
    ap (λ s. codes "otpauth://totp/" ++ s) (sym (append_assoc (urlencoding issuer) _ _))

uri_label-no-question :
    (account issuer : Bytes)
    → All IsByte account
    → All IsByte issuer
    → All (λ c. c ≢ b'?') (uri_label account issuer)
uri_label-no-question account issuer h k =
    let encoded : (s : Bytes) → All IsByte s → All (λ c. c ≢ b'?') (urlencoding s) =
      λ s b. All-weaken IsEncoded _ (λ c e. e.2) (urlencoding s) (urlencoding-IsEncoded s b) in
    All-append _ (codes "otpauth://totp/") _ (omega arith)
      (All-append _ (urlencoding issuer) _ (encoded issuer k) (omega arith, encoded account h))

-- The URI splits at its first `?` into the label, which holds the encoded issuer and account, and a
-- query in which `query_param` finds the secret in Base32, the encoded issuer, the period, the
-- digits and the algorithm, whatever characters the issuer and the account are made of.
pub enrollment_uri-query :
    (k : SecretCrates) (secret : TotpSecret) (account issuer : Bytes) (period digits : ℕ)
    → All IsByte account
    → All IsByte issuer
    → (query : Bytes) × (split_once b'?' (enrollment_uri k secret account issuer period digits)
        ≡ some (uri_label account issuer, query))
      × (query_param query (codes "secret") ≡ some (to_base32 k secret))
      × (query_param query (codes "issuer") ≡ some (urlencoding issuer))
      × (query_param query (codes "period") ≡ some (to_decimal period))
      × (query_param query (codes "digits") ≡ some (to_decimal digits))
      × (query_param query (codes "algorithm") ≡ some (codes "SHA1"))
unfolding get beq
enrollment_uri-query k secret account issuer period digits h i =
    let pairs = uri_pairs k secret issuer period digits in
    let good = uri_pairs-IsQueryPair k secret issuer period digits i in
    (
      show_query pairs,
      ap (split_once b'?') (enrollment_uri-parts k secret account issuer period digits)
          ∙ split_once_at b'?' (uri_label account issuer) (show_query pairs)
              (uri_label-no-question account issuer h i),
      query_param-show_query (codes "secret") pairs good,
      query_param-show_query (codes "issuer") pairs good,
      query_param-show_query (codes "period") pairs good,
      query_param-show_query (codes "digits") pairs good,
      query_param-show_query (codes "algorithm") pairs good,
    )
