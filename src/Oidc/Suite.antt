-- ===== src/Oidc/Suite.antt =====
-- src/oidc.rs: the tests of the module `tests`, at the clock readings `fetched` and `now` where
-- one reads the clock. A test answers whether all its assertions hold; a JSON text is given as its value.
use auth_kit.Base.{
  ℕ, Bool, true, false, ◌&&◌, ◌||◌, Option, none, some, List, [], ◌∷◌, Bytes, beq, codes,
}
use auth_kit.Base.Outcome.{Result, ok, err}
use auth_kit.Base.Map.{insert}
use auth_kit.Base.Json.{
  Json, boolean, number, string, array, object, nil, cons, Members, end, member,
}
use auth_kit.Oidc.Wire.{read_doc, read_jwks}
use auth_kit.Oidc.Disabled.{DisabledError, not_enabled, new_disabled, discover_disabled}
use auth_kit.Oidc.{DiscoveryDoc, Jwk, CachedJwks, lookup, is_fresh}

abbrev is_some : Option Jwk → Bool
is_some none = false
is_some (some k) = true

abbrev is_none : Option Jwk → Bool
is_none none = true
is_none (some k) = false

abbrev suite_key : Jwk
suite_key = record {
  kty = codes "oct";
  key_use = some (codes "sig");
  kid = some (codes "kid-1");
  alg = some (codes "HS256");
  n = none;
  e = none;
  crv = none;
  x = none;
  y = none;
  k = some (codes "dGVzdA");
  x5c = [];
}

-- `fetched_at` is the reading `fetched`, and the last assertion reads `now`.
unfoldable pub cached_jwks_lookup_by_kid : ℕ → ℕ → Bool
cached_jwks_lookup_by_kid fetched now =
    let cached : CachedJwks = record {
      fetched_at = fetched;
      by_kid = insert (codes "kid-1") suite_key [];
    } in
    is_some (lookup (codes "kid-1") cached)
    && (is_none (lookup (codes "kid-missing") cached) && is_fresh now 60_000_000_000 cached)

abbrev is_not_enabled : Result DisabledError DiscoveryDoc → Bool
is_not_enabled (ok doc) = false
is_not_enabled (err not_enabled) = true

unfoldable pub no_feature_discover_returns_not_enabled : Bool
no_feature_discover_returns_not_enabled = elim new_disabled [
  | err e ↦ false
  | ok client ↦ is_not_enabled (discover_disabled (codes "https://example.com") client)
]

abbrev member_of : List Bytes → Bytes → Bool
member_of [] t = false
member_of (s ∷ ss) t = beq s t || member_of ss t

abbrev is_text : Option Bytes → Bytes → Bool
is_text none t = false
is_text (some s) t = beq s t

abbrev is_absent : Option Bytes → Bool
is_absent none = true
is_absent (some s) = false

abbrev single : Bytes → Json
single s = array (cons (string s) nil)

abbrev canonical_doc : Json
canonical_doc = object (
    member (codes "issuer") (string (codes "https://example.com")) (
      member (codes "authorization_endpoint") (string (codes "https://example.com/authorize")) (
        member (codes "token_endpoint") (string (codes "https://example.com/oauth/token")) (
          member (codes "jwks_uri") (string (codes "https://example.com/.well-known/jwks.json")) (
            member (codes "response_types_supported") (single (codes "code")) (
              member (codes "subject_types_supported") (single (codes "public")) (
                member (codes "id_token_signing_alg_values_supported") (single (codes "RS256")) (
                  member (codes "code_challenge_methods_supported") (single (codes "S256"))
                    end))))))))

-- `unwrap` panics where the document is refused: the test fails.
unfoldable pub discovery_doc_deserializes_canonical_example : Bool
discovery_doc_deserializes_canonical_example = elim (read_doc canonical_doc) [
  | none ↦ false
  | some doc ↦
      beq doc.issuer (codes "https://example.com")
      && (is_text doc.token_endpoint (codes "https://example.com/oauth/token")
          && member_of doc.code_challenge_methods_supported (codes "S256"))
]

abbrev pub extra_members : Members
extra_members = member (codes "issuer") (string (codes "https://example.com")) (
    member (codes "response_types_supported") (single (codes "code")) (
      member (codes "frontchannel_logout_supported") (boolean true) (
        member (codes "unknown_field_we_dont_know_about")
          (array
            (cons (number (codes "1")) (cons (number (codes "2")) (cons (number (codes "3")) nil))))
          end)))

unfoldable pub discovery_doc_tolerates_extra_fields : Bool
discovery_doc_tolerates_extra_fields = elim (read_doc (object extra_members)) [
  | none ↦ false
  | some doc ↦ beq doc.issuer (codes "https://example.com") && is_absent doc.token_endpoint
]

abbrev pub rsa_keys : Json
rsa_keys = object (
    member (codes "keys")
      (array (
        cons
          (object (
            member (codes "kty") (string (codes "RSA")) (
              member (codes "use") (string (codes "sig")) (
                member (codes "kid") (string (codes "test-key-1")) (
                  member (codes "alg") (string (codes "RS256")) (
                    member (codes "n")
                      (string
                        (codes "0vx7agoebGcQSuuPiLJXZptN9nndrQmbXEps2aiAFbWhM78LhWx4cbbfAAtVT86z"))
                      (member (codes "e") (string (codes "AQAB")) end)))))))
          nil))
      end)

abbrev is_test_key : List Jwk → Bool
is_test_key [] = false
is_test_key (key ∷ []) =
    beq key.kty (codes "RSA")
    && (is_text key.kid (codes "test-key-1") && is_text key.alg (codes "RS256"))
is_test_key (key ∷ key' ∷ keys) = false

-- The index `doc.keys[0]` is read once the length is known to be 1.
unfoldable pub jwks_doc_deserializes_rsa_key : Bool
jwks_doc_deserializes_rsa_key = elim (read_jwks rsa_keys) [
  | none ↦ false
  | some doc ↦ is_test_key doc.keys
]
