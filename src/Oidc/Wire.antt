-- ===== src/Oidc/Wire.antt =====
-- src/oidc.rs: the documents as JSON, as the derived `Deserialize` and `Serialize` read and write them.
pub mod Members
pub mod Readable
pub mod Keys
pub mod Discovered
use auth_kit.Base.{◌≡◌, ◌≢◌, Option, some, [], beq, codes}
use auth_kit.Base.Json.{
  Json, null, string, array, object, end, member, Serde, bytes_serde, vec_serde, field, fits, guard,
  find, find_again, ◌>>=◌, required, optional, optional_default, defaulted, string_value,
  list_value, option_json, to_elements,
}
use auth_kit.Base.Json.Laws.{written_fields}
use auth_kit.Oidc.{DiscoveryDoc, Jwk, JwksDoc}

-- The derived `Deserialize` of `DiscoveryDoc`.
unfoldable pub read_doc : Json → Option DiscoveryDoc
read_doc j = do
  _ ← guard (fits 14 j)
  issuer ← required (field 0 (codes "issuer") j)
  authorization_endpoint ← optional (field 1 (codes "authorization_endpoint") j)
  token_endpoint ← optional (field 2 (codes "token_endpoint") j)
  jwks_uri ← optional (field 3 (codes "jwks_uri") j)
  userinfo_endpoint ← optional (field 4 (codes "userinfo_endpoint") j)
  end_session_endpoint ← optional (field 5 (codes "end_session_endpoint") j)
  introspection_endpoint ← optional (field 6 (codes "introspection_endpoint") j)
  revocation_endpoint ← optional (field 7 (codes "revocation_endpoint") j)
  response_types_supported ←
      defaulted ⦃s = vec_serde bytes_serde⦄ [] (field 8 (codes "response_types_supported") j)
  subject_types_supported ←
      defaulted ⦃s = vec_serde bytes_serde⦄ [] (field 9 (codes "subject_types_supported") j)
  id_token_signing_alg_values_supported ←
      defaulted ⦃s = vec_serde bytes_serde⦄ []
        (field 10 (codes "id_token_signing_alg_values_supported") j)
  code_challenge_methods_supported ←
      defaulted ⦃s = vec_serde bytes_serde⦄ []
        (field 11 (codes "code_challenge_methods_supported") j)
  scopes_supported ←
      defaulted ⦃s = vec_serde bytes_serde⦄ [] (field 12 (codes "scopes_supported") j)
  claims_supported ←
      defaulted ⦃s = vec_serde bytes_serde⦄ [] (field 13 (codes "claims_supported") j)
  some (record {
    issuer = issuer;
    authorization_endpoint = authorization_endpoint;
    token_endpoint = token_endpoint;
    jwks_uri = jwks_uri;
    userinfo_endpoint = userinfo_endpoint;
    end_session_endpoint = end_session_endpoint;
    introspection_endpoint = introspection_endpoint;
    revocation_endpoint = revocation_endpoint;
    response_types_supported = response_types_supported;
    subject_types_supported = subject_types_supported;
    id_token_signing_alg_values_supported = id_token_signing_alg_values_supported;
    code_challenge_methods_supported = code_challenge_methods_supported;
    scopes_supported = scopes_supported;
    claims_supported = claims_supported;
  })

-- The derived `Serialize`.
unfoldable pub write_doc : DiscoveryDoc → Json
write_doc doc = object (
    member (codes "issuer") (string doc.issuer) (
      member (codes "authorization_endpoint") (option_json doc.authorization_endpoint) (
        member (codes "token_endpoint") (option_json doc.token_endpoint) (
          member (codes "jwks_uri") (option_json doc.jwks_uri) (
            member (codes "userinfo_endpoint") (option_json doc.userinfo_endpoint) (
              member (codes "end_session_endpoint") (option_json doc.end_session_endpoint) (
                member (codes "introspection_endpoint") (option_json doc.introspection_endpoint) (
                  member (codes "revocation_endpoint") (option_json doc.revocation_endpoint) (
                    member (codes "response_types_supported")
                      (array (to_elements doc.response_types_supported))
                      (member (codes "subject_types_supported")
                        (array (to_elements doc.subject_types_supported))
                        (member (codes "id_token_signing_alg_values_supported")
                          (array (to_elements doc.id_token_signing_alg_values_supported))
                          (member (codes "code_challenge_methods_supported")
                            (array (to_elements doc.code_challenge_methods_supported))
                            (member (codes "scopes_supported")
                              (array (to_elements doc.scopes_supported))
                              (member (codes "claims_supported")
                                (array (to_elements doc.claims_supported)) (end)))))))))))))))

-- A discovery document that was written as JSON is read back as it was.
pub read_doc-write_doc : (doc : DiscoveryDoc) → read_doc (write_doc doc) ≡ some doc
unfolding read_doc write_doc fits field find find_again beq required defaulted string_value
    list_value
read_doc-write_doc doc = simp written_fields

pub write_doc-null : (doc : DiscoveryDoc) → write_doc doc ≢ null
unfolding write_doc
write_doc-null doc e = cc

instance abbrev pub doc_serde : Serde DiscoveryDoc
doc_serde = record {
  to_json = write_doc;
  from_json = read_doc;
  from_json-to_json = read_doc-write_doc;
  to_json-null = write_doc-null;
}

-- The derived `Deserialize` of `Jwk`.
unfoldable pub read_jwk : Json → Option Jwk
read_jwk j = do
  _ ← guard (fits 11 j)
  kty ← required (field 0 (codes "kty") j)
  key_use ← optional_default (field 1 (codes "use") j)
  kid ← optional (field 2 (codes "kid") j)
  alg ← optional (field 3 (codes "alg") j)
  n' ← optional (field 4 (codes "n") j)
  e' ← optional (field 5 (codes "e") j)
  crv ← optional (field 6 (codes "crv") j)
  x' ← optional (field 7 (codes "x") j)
  y' ← optional (field 8 (codes "y") j)
  k' ← optional (field 9 (codes "k") j)
  x5c ← defaulted ⦃s = vec_serde bytes_serde⦄ [] (field 10 (codes "x5c") j)
  some (record {
    kty = kty;
    key_use = key_use;
    kid = kid;
    alg = alg;
    n = n';
    e = e';
    crv = crv;
    x = x';
    y = y';
    k = k';
    x5c = x5c;
  })

-- The derived `Serialize`.
unfoldable pub write_jwk : Jwk → Json
write_jwk key = object (
    member (codes "kty") (string key.kty) (
      member (codes "use") (option_json key.key_use) (
        member (codes "kid") (option_json key.kid) (
          member (codes "alg") (option_json key.alg) (
            member (codes "n") (option_json key.n) (
              member (codes "e") (option_json key.e) (
                member (codes "crv") (option_json key.crv) (
                  member (codes "x") (option_json key.x) (
                    member (codes "y") (option_json key.y) (
                      member (codes "k") (option_json key.k)
                        (member (codes "x5c") (array (to_elements key.x5c)) (end))))))))))))

pub read_jwk-write_jwk : (key : Jwk) → read_jwk (write_jwk key) ≡ some key
unfolding read_jwk write_jwk fits field find find_again beq required defaulted string_value
    list_value
read_jwk-write_jwk key = simp written_fields

pub write_jwk-null : (key : Jwk) → write_jwk key ≢ null
unfolding write_jwk
write_jwk-null key e = cc

instance abbrev pub jwk_serde : Serde Jwk
jwk_serde = record {
  to_json = write_jwk;
  from_json = read_jwk;
  from_json-to_json = read_jwk-write_jwk;
  to_json-null = write_jwk-null;
}

-- The derived `Deserialize` of `JwksDoc`.
unfoldable pub read_jwks : Json → Option JwksDoc
read_jwks j = do
  _ ← guard (fits 1 j)
  keys ← required ⦃s = vec_serde jwk_serde⦄ (field 0 (codes "keys") j)
  some (record { keys = keys })
