-- ===== src/Oidc/Wire/Readable.antt =====
-- src/oidc.rs: which objects are read as a discovery document or as a key.
use auth_kit.Base.{◌↔◌, List, [], ◌∷◌, All, Bytes, codes}
use auth_kit.Base.Json.{object, Members, find, fits, field}
use auth_kit.Base.Json.Texts.{
  FieldKind, text, optional_text, texts, Accepts, Gives, required_iff, optional_iff,
  optional_default_iff, defaulted_iff, ◌&&&◌, chain_end,
}
use auth_kit.Oidc.Wire.{read_doc, read_jwk}

abbrev pub doc_fields : List (Bytes × FieldKind)
doc_fields =
    (codes "issuer", text)
    ∷ (codes "authorization_endpoint", optional_text)
    ∷ (codes "token_endpoint", optional_text)
    ∷ (codes "jwks_uri", optional_text)
    ∷ (codes "userinfo_endpoint", optional_text)
    ∷ (codes "end_session_endpoint", optional_text)
    ∷ (codes "introspection_endpoint", optional_text)
    ∷ (codes "revocation_endpoint", optional_text)
    ∷ (codes "response_types_supported", texts)
    ∷ (codes "subject_types_supported", texts)
    ∷ (codes "id_token_signing_alg_values_supported", texts)
    ∷ (codes "code_challenge_methods_supported", texts)
    ∷ (codes "scopes_supported", texts)
    ∷ (codes "claims_supported", texts)
    ∷ []

abbrev pub jwk_fields : List (Bytes × FieldKind)
jwk_fields =
    (codes "kty", text)
    ∷ (codes "use", optional_text)
    ∷ (codes "kid", optional_text)
    ∷ (codes "alg", optional_text)
    ∷ (codes "n", optional_text)
    ∷ (codes "e", optional_text)
    ∷ (codes "crv", optional_text)
    ∷ (codes "x", optional_text)
    ∷ (codes "y", optional_text)
    ∷ (codes "k", optional_text)
    ∷ (codes "x5c", texts)
    ∷ []

abbrev pub IsReadable : List (Bytes × FieldKind) → Members → Type 0
IsReadable fields m = All (λ (name, kind). Accepts kind (find name m)) fields

-- An object is read as a `DiscoveryDoc` exactly when its member `issuer` is a string, each of the
-- seven other endpoint fields is absent, `null` or a string, and each of the six list fields is
-- absent or an array of strings; none of the fourteen names may stand there twice.
pub read_doc_iff : (m : Members) → Gives (read_doc (object m)) ↔ IsReadable doc_fields m
unfolding read_doc fits field
read_doc_iff m = required_iff _ m &&& λ _. optional_iff _ m &&& λ _. optional_iff _ m &&& λ _.
    optional_iff _ m &&& λ _. optional_iff _ m &&& λ _. optional_iff _ m &&& λ _.
    optional_iff _ m &&& λ _. optional_iff _ m &&& λ _. defaulted_iff _ m &&& λ _.
    defaulted_iff _ m &&& λ _. defaulted_iff _ m &&& λ _.
    defaulted_iff _ m &&& λ _. defaulted_iff _ m &&& λ _. defaulted_iff _ m &&& λ _. chain_end

read_jwk_iff : (m : Members) → Gives (read_jwk (object m)) ↔ IsReadable jwk_fields m
unfolding read_jwk fits field
read_jwk_iff m = required_iff _ m &&& λ _. optional_default_iff _ m &&& λ _.
    optional_iff _ m &&& λ _. optional_iff _ m &&& λ _. optional_iff _ m &&& λ _.
    optional_iff _ m &&& λ _. optional_iff _ m &&& λ _. optional_iff _ m &&& λ _.
    optional_iff _ m &&& λ _. optional_iff _ m &&& λ _. defaulted_iff _ m &&& λ _. chain_end
