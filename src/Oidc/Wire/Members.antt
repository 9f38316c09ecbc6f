-- ===== src/Oidc/Wire/Members.antt =====
-- src/oidc.rs: members of a document or of a key that are none of its fields.
use auth_kit.Base.{◌≡◌, ◌≢◌, refl, All, Bytes, codes}
use auth_kit.Base.Json.{Json, object, Members, fits, field}
use auth_kit.Base.Json.Laws.{Adds, find-Adds}
use auth_kit.Oidc.Wire.{read_doc, read_jwk}
use auth_kit.Oidc.Wire.Readable.{doc_fields, jwk_fields}

-- A member whose name is none of the fields of `DiscoveryDoc`, wherever it stands in an object and
-- whatever its value is, changes nothing in what `DiscoveryDoc` reads of the object, a refusal
-- included.
pub read_doc-Adds :
    (other : Bytes) (j : Json) (m m' : Members)
    → All (λ (name, kind). other ≢ name) doc_fields
    → Adds other j m m'
    → read_doc (object m') ≡ read_doc (object m)
unfolding read_doc fits field
read_doc-Adds other j m m' u r =
    rw
      (
        find-Adds (codes "issuer") other j m m' u.0 r,
        find-Adds (codes "authorization_endpoint") other j m m' u.1.0 r,
        find-Adds (codes "token_endpoint") other j m m' u.1.1.0 r,
        find-Adds (codes "jwks_uri") other j m m' u.1.1.1.0 r,
        find-Adds (codes "userinfo_endpoint") other j m m' u.1.1.1.1.0 r,
        find-Adds (codes "end_session_endpoint") other j m m' u.1.1.1.1.1.0 r,
        find-Adds (codes "introspection_endpoint") other j m m' u.1.1.1.1.1.1.0 r,
        find-Adds (codes "revocation_endpoint") other j m m' u.1.1.1.1.1.1.1.0 r,
        find-Adds (codes "response_types_supported") other j m m' u.1.1.1.1.1.1.1.1.0 r,
        find-Adds (codes "subject_types_supported") other j m m' u.1.1.1.1.1.1.1.1.1.0 r,
        find-Adds (codes "id_token_signing_alg_values_supported") other j m m'
            u.1.1.1.1.1.1.1.1.1.1.0 r,
        find-Adds (codes "code_challenge_methods_supported") other j m m' u.1.1.1.1.1.1.1.1.1.1.1.0
            r,
        find-Adds (codes "scopes_supported") other j m m' u.1.1.1.1.1.1.1.1.1.1.1.1.0 r,
        find-Adds (codes "claims_supported") other j m m' u.1.1.1.1.1.1.1.1.1.1.1.1.1.0 r,
      )
      refl

read_jwk-Adds :
    (other : Bytes) (j : Json) (m m' : Members)
    → All (λ (name, kind). other ≢ name) jwk_fields
    → Adds other j m m'
    → read_jwk (object m') ≡ read_jwk (object m)
unfolding read_jwk fits field
read_jwk-Adds other j m m' u r =
    rw
      (
        find-Adds (codes "kty") other j m m' u.0 r,
        find-Adds (codes "use") other j m m' u.1.0 r,
        find-Adds (codes "kid") other j m m' u.1.1.0 r,
        find-Adds (codes "alg") other j m m' u.1.1.1.0 r,
        find-Adds (codes "n") other j m m' u.1.1.1.1.0 r,
        find-Adds (codes "e") other j m m' u.1.1.1.1.1.0 r,
        find-Adds (codes "crv") other j m m' u.1.1.1.1.1.1.0 r,
        find-Adds (codes "x") other j m m' u.1.1.1.1.1.1.1.0 r,
        find-Adds (codes "y") other j m m' u.1.1.1.1.1.1.1.1.0 r,
        find-Adds (codes "k") other j m m' u.1.1.1.1.1.1.1.1.1.0 r,
        find-Adds (codes "x5c") other j m m' u.1.1.1.1.1.1.1.1.1.1.0 r,
      )
      refl
