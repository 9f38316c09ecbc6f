-- ===== src/Oidc/Discovery.antt =====
-- src/oidc.rs: what `discover` answers, and the address that it asks.
use auth_kit.Base.{
  ℕ, zero, suc, ◌≡◌, refl, sym, ap, ◌∙◌, ◌≢◌, ◌↔◌, inl, inr, subst, Bool-cases, [], ◌∷◌, ◌++◌,
  Bytes, beq, beq_iff, beq-false, codes, arith,
}
use auth_kit.Base.Outcome.{Result, ok, err, Result-cases}
use auth_kit.Base.Str.{trim_end_matches}
use auth_kit.Base.Str.Laws.{trim_end_matches-none, trim_end_matches-snoc}
use auth_kit.Oidc.{
  DiscoveryDoc, DiscoveryError, invalid_issuer_url, issuer_mismatch, OidcCrates, DiscoveryClient,
  discovery_path, receive, check_issuer, discover,
}

-- A path with slashes added at its end.
unfoldable pub slashes : ℕ → Bytes → Bytes
slashes zero s = s
slashes (suc n) s = slashes n s ++ b'/' ∷ []

check_issuer-ok :
    (issuer : Bytes) (doc doc' : DiscoveryDoc)
    → (check_issuer issuer doc' ≡ ok doc) ↔ ((doc' ≡ doc) × (doc'.issuer ≡ issuer))
unfolding check_issuer
check_issuer-ok issuer doc doc' = elim (Bool-cases (beq doc'.issuer issuer)) [
  | inl same ↦
      (λ h. (cc (rw same at h), (beq_iff doc'.issuer issuer).0 same), λ h. rw (same, h.0) refl)
  | inr other ↦ (λ h. cc (rw other at h), λ h. cc ((beq_iff doc'.issuer issuer).1 h.1, other))
]

module _ {Url Response W : Type 0} (c : OidcCrates Url Response W) (issuer : Bytes)
    (client : DiscoveryClient W) where
  -- The answer to the request for the document of an address.
  abbrev pub get_doc : Url → Result DiscoveryError DiscoveryDoc
  get_doc url =
      (receive c c.json_doc
        (c.send_url (c.set_path (discovery_path (c.path url)) url) client.network)).0

  -- What `discover` asks the network, and where it leaves it.
  abbrev asked : Url → W
  asked url =
      (receive c c.json_doc
        (c.send_url (c.set_path (discovery_path (c.path url)) url) client.network)).1

  -- An answer of `discover` is that of a bad issuer, of the request, or of the check of the issuer.
  discover_cases {ℓ} :
      (P : Result DiscoveryError DiscoveryDoc × DiscoveryClient W → Type ℓ)
      → ((e : Bytes)
          → c.parse issuer ≡ err e
          → P (err (invalid_issuer_url (e ++ codes ": " ++ issuer)), client))
      → ((url : Url) (e : DiscoveryError)
          → c.parse issuer ≡ ok url
          → get_doc url ≡ err e
          → P (err e, record client { network = asked url }))
      → ((url : Url) (doc : DiscoveryDoc)
          → c.parse issuer ≡ ok url
          → get_doc url ≡ ok doc
          → P (check_issuer issuer doc, record client { network = asked url }))
      → P (discover c issuer client)
  unfolding discover
  discover_cases P p1 p2 p3 = elim (Result-cases (c.parse issuer)) [
    | inl (e, bad) ↦ subst P (ground arith) (p1 e bad)
    | inr (url, good) ↦ elim (Result-cases (get_doc url)) [
      | inl (e, lost) ↦ subst P (ground arith) (p2 url e good lost)
      | inr (doc, got) ↦ subst P (ground arith) (p3 url doc good got)
    ]
  ]

  -- `discover` gives a document exactly when the issuer is a URL, the request to it with the path
  -- that `discovery_path` makes gives that document, and the document's issuer is the issuer asked
  -- for, byte for byte.
  pub discover_iff :
      (doc : DiscoveryDoc)
      → ((discover c issuer client).0 ≡ ok doc)
        ↔ ((url : Url) × (c.parse issuer ≡ ok url) × (get_doc url ≡ ok doc) × (doc.issuer ≡ issuer))
  discover_iff doc = (
    discover_cases
        (λ x.
          x.0 ≡ ok doc
          → (url : Url) × (c.parse issuer ≡ ok url)
            × (get_doc url ≡ ok doc)
            × (doc.issuer ≡ issuer))
        (λ e _ h. cc) (λ url e _ _ h. cc)
        (λ url doc' parsed got h.
          let (same, issued) = (check_issuer-ok issuer doc doc').0 h in
          (url, parsed, got ∙ ap ok same, sym (ap (λ d. d.issuer) same) ∙ issued)),
    λ (url, parsed, got, issued).
        discover_cases (λ x. x.0 ≡ ok doc) (λ e bad. cc)
          (λ url' e parsed' lost. let same : url ≡ url' = cc in cc (ap get_doc same))
          (λ url' doc' parsed' got'.
            let same : url ≡ url' = cc in
            let one : doc' ≡ doc = cc (ap get_doc same, got, got') in
            (check_issuer-ok issuer doc doc').1 (one, ap (λ d. d.issuer) one ∙ issued)),
  )

  -- A document of another issuer is refused with both issuers.
  pub discover-mismatch :
      (url : Url) (doc : DiscoveryDoc)
      → c.parse issuer ≡ ok url
      → get_doc url ≡ ok doc
      → doc.issuer ≢ issuer
      → (discover c issuer client).0 ≡ err (issuer_mismatch doc.issuer issuer)
  unfolding discover check_issuer
  discover-mismatch url doc parsed got other =
      ground (arith, parsed, got, beq-false doc.issuer issuer other)

-- However many slashes end the path of the issuer, the address is that of the path without them,
-- which ends in another character, and the well-known suffix.
pub discovery_path-slashes :
    (s : Bytes) (x n : ℕ)
    → x ≢ b'/'
    → discovery_path (slashes n (s ++ x ∷ []))
      ≡ (s ++ x ∷ []) ++ codes "/.well-known/openid-configuration"
unfolding discovery_path slashes
discovery_path-slashes s x zero other =
    ap (λ p. p ++ codes "/.well-known/openid-configuration") (trim_end_matches-none b'/' x s other)
discovery_path-slashes s x (suc n) other =
    ap (λ p. p ++ codes "/.well-known/openid-configuration")
      (trim_end_matches-snoc b'/' (slashes n (s ++ x ∷ [])))
    ∙ discovery_path-slashes s x n other

-- The path `/`, or none, gives the suffix.
pub discovery_path-root :
    (n : ℕ) → discovery_path (slashes n []) ≡ codes "/.well-known/openid-configuration"
unfolding discovery_path slashes trim_end_matches
discovery_path-root zero = refl
discovery_path-root (suc n) =
    ap (λ p. p ++ codes "/.well-known/openid-configuration")
      (trim_end_matches-snoc b'/' (slashes n []))
    ∙ discovery_path-root n
