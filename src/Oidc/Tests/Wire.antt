-- ===== src/Oidc/Tests/Wire.antt =====
-- Instances of the theorems about the JSON documents of src/oidc.rs.
use auth_kit.Base.{
  ℕ, Bool, true, false, ◌||◌, List, All, ◌≢◌, beq, beq_iff, ◌≡◌, ◌↔◌, refl, none, some, [], ◌∷◌,
  Bytes, codes, ◌∙◌, arith,
}
use auth_kit.Base.Outcome.{ok}
use auth_kit.Oidc.{DiscoveryDoc, Jwk, receive, check_issuer, discovery_path, discover}
use auth_kit.Oidc.Suite.{extra_members}
use auth_kit.Base.Json.{
  once, cons, find, find_again, string, boolean, array, object, nil, Members, end, member,
  bytes_serde, field,
}
use auth_kit.Base.Json.Laws.{here, later}
use auth_kit.Base.Json.Texts.{FieldKind, Gives}
use auth_kit.Oidc.Wire.{read_doc, read_jwks, write_doc, jwk_serde, read_doc-write_doc}
use auth_kit.Oidc.Wire.Keys.{objects, AreKeysOf, read_jwks_iff}
use auth_kit.Oidc.Wire.Readable.{doc_fields, IsReadable, read_doc_iff}
use auth_kit.Oidc.Wire.Discovered.{Received, discover-Received}
use auth_kit.Oidc.Wire.Members.{read_doc-Adds}
use auth_kit.Oidc.Tests.{example_issuer, example_doc, web, client}

-- The object of the key of the third test.
abbrev rsa_members : Members
rsa_members = member (codes "kty") (string (codes "RSA")) (
    member (codes "use") (string (codes "sig")) (
      member (codes "kid") (string (codes "test-key-1"))
        (member (codes "e") (string (codes "AQAB")) end)))

abbrev rsa_document : Members
rsa_document = member (codes "keys") (array (cons (object rsa_members) nil)) end

abbrev rsa_key : Jwk
rsa_key = record {
  kty = codes "RSA";
  key_use = some (codes "sig");
  kid = some (codes "test-key-1");
  alg = none;
  n = none;
  e = some (codes "AQAB");
  crv = none;
  x = none;
  y = none;
  k = none;
  x5c = [];
}

rsa_keys_once : find (codes "keys") rsa_document ≡ once (array (objects (rsa_members ∷ [])))
unfolding find find_again beq objects
rsa_keys_once = refl

read_jwks_iff_example :
    (read_jwks (object rsa_document) ≡ some (record { keys = rsa_key ∷ [] }))
    ↔ AreKeysOf (rsa_members ∷ []) (rsa_key ∷ [])
read_jwks_iff_example =
    read_jwks_iff rsa_document (rsa_members ∷ []) (record { keys = rsa_key ∷ [] }) rsa_keys_once

read_doc_iff_example : Gives (read_doc (object extra_members)) ↔ IsReadable doc_fields extra_members
read_doc_iff_example = read_doc_iff extra_members

-- The members of the second test without and with the last one.
abbrev known_members : Members
known_members =
    member (codes "issuer") (string example_issuer)
      (member (codes "scopes_supported") (array nil) end)

abbrev more_members : Members
more_members = member (codes "issuer") (string example_issuer) (
    member (codes "frontchannel_logout_supported") (boolean true)
      (member (codes "scopes_supported") (array nil) end))

abbrev is_named : Bytes → List (Bytes × FieldKind) → Bool
is_named other [] = false
is_named other ((name, kind) ∷ fields) = beq other name || is_named other fields

unnamed :
    (other : Bytes) (fields : List (Bytes × FieldKind))
    → is_named other fields ≡ false
    → All (λ (name, kind). other ≢ name) fields
unnamed other [] h = tt
unnamed other ((name, kind) ∷ fields) h =
    (ground (arith, beq_iff other name), unnamed other fields (ground arith))

read_doc-Adds_example : read_doc (object more_members) ≡ read_doc (object known_members)
unfolding beq
read_doc-Adds_example =
    read_doc-Adds (codes "frontchannel_logout_supported") (boolean true) known_members more_members
      (unnamed (codes "frontchannel_logout_supported") doc_fields refl) (later here)

example_body :
    (w : ℕ) (d : DiscoveryDoc)
    → (web.json_doc tt w).0 ≡ ok d
    → read_doc (write_doc example_doc) ≡ some d
example_body w d h = read_doc-write_doc example_doc ∙ cc

discovered : (discover web example_issuer client).0 ≡ ok example_doc
unfolding discover receive check_issuer beq
discovered = refl

discover-Received_example :
    (url : Bytes) × (web.parse example_issuer ≡ ok url)
    × (r : Received web web.json_doc
        (web.send_url (web.set_path (discovery_path (web.path url)) url) client.network)
        example_doc)
    × (read_doc (write_doc example_doc) ≡ some example_doc)
    × (field 0 (codes "issuer") (write_doc example_doc) ≡ once (string example_issuer))
discover-Received_example =
    discover-Received web (λ r. write_doc example_doc) example_issuer client example_doc
      (λ r. example_body) discovered
