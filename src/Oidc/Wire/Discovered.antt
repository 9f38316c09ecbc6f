-- ===== src/Oidc/Wire/Discovered.antt =====
-- src/oidc.rs: `discover` on the bodies that the network gives.
use mathlib.Core.Option
use auth_kit.Base.{◌≡◌, refl, ap, ◌∙◌, inl, inr, some, Option, List, [], Bytes, codes, arith}
use auth_kit.Base.Outcome.{Result, ok, err, Result-cases}
use auth_kit.Base.Json.{
  Json, guard, fits, string, once, field, required, optional, defaulted, Found, vec_serde,
  bytes_serde,
}
use auth_kit.Base.Json.Holds.{settles}
use auth_kit.Base.Json.Texts.{required-once}
use auth_kit.Oidc.{DiscoveryDoc, OidcCrates, DiscoveryClient, discovery_path, receive, discover}
use auth_kit.Oidc.Discovery.{discover_iff}
use auth_kit.Oidc.Wire.{read_doc}

abbrev texts : Found → Option (List Bytes)
texts = defaulted ⦃s = vec_serde bytes_serde⦄ []

-- A value that is read as a document has the document's issuer as its field `issuer`.
read_doc-issuer :
    (j : Json) (doc : DiscoveryDoc)
    → read_doc j ≡ some doc
    → field 0 (codes "issuer") j ≡ once (string doc.issuer)
unfolding read_doc
read_doc-issuer j =
    settles {P = λ d. field 0 (codes "issuer") j ≡ once (string d.issuer)} (guard (fits 14 j))
      λ _ _. settles (required (field 0 (codes "issuer") j)) λ issuer e.
        settles (optional (field 1 (codes "authorization_endpoint") j)) λ _ _.
          settles (optional (field 2 (codes "token_endpoint") j)) λ _ _.
            settles (optional (field 3 (codes "jwks_uri") j)) λ _ _.
              settles (optional (field 4 (codes "userinfo_endpoint") j)) λ _ _.
                settles (optional (field 5 (codes "end_session_endpoint") j)) λ _ _.
                  settles (optional (field 6 (codes "introspection_endpoint") j)) λ _ _.
                    settles (optional (field 7 (codes "revocation_endpoint") j)) λ _ _.
                      settles (texts (field 8 (codes "response_types_supported") j)) λ _ _.
                        settles (texts (field 9 (codes "subject_types_supported") j)) λ _ _.
                          settles
                            (texts (field 10 (codes "id_token_signing_alg_values_supported") j))
                            λ _ _.
                              settles
                                (texts (field 11 (codes "code_challenge_methods_supported") j))
                                λ _ _.
                                  settles (texts (field 12 (codes "scopes_supported") j)) λ _ _.
                                    settles (texts (field 13 (codes "claims_supported") j)) λ _ _.
                                      λ d h.
                                        required-once (field 0 (codes "issuer") j) issuer e
                                        ∙ ap (λ d. once (string d.issuer)) (Option.some_inj.0 h)

module _ {Url Response W : Type 0} (c : OidcCrates Url Response W) where
  -- A request that gave a value: its response, with a status of success, and what was read of it.
  pub record Received {ℓ} {A : Type ℓ} (read : Response → W → Result Bytes A × W)
      (answer : Result Bytes Response × W) (a : A) : Type ℓ where
    pub response : Response
    pub network : W
    pub checked : Response
    pub sent : answer ≡ (ok response, network)
    pub succeeded : c.error_for_status response ≡ ok checked
    pub got : (read checked network).0 ≡ ok a

  receive-Received {ℓ} :
      {A : Type ℓ} (read : Response → W → Result Bytes A × W) (answer : Result Bytes Response × W)
      (a : A)
      → (receive c read answer).0 ≡ ok a
      → Received read answer a
  unfolding receive
  receive-Received read (err e, w) a h = cc
  receive-Received read (ok r, w) a h = elim (Result-cases (c.error_for_status r)) [
    | inl (e, bad) ↦ ground (arith, bad, h)
    | inr (r', good) ↦ elim (Result-cases (read r' w).0) [
      | inl (e, lost) ↦ ground (arith, good, lost, h)
      | inr (a', read_as) ↦
          let same : ok a' ≡ ok a = ground (arith, good, read_as, h) in
          record {
            response = r;
            network = w;
            checked = r';
            sent = refl;
            succeeded = good;
            got = read_as ∙ same;
          }
    ]
  ]

  -- For bodies that are read as their JSON values are: a document that `discover` gives is what is
  -- read of the body of a response, with a status of success, to the request for the well-known
  -- address of the issuer's URL, and that body's field `issuer` is the issuer asked for, byte for
  -- byte, there once.
  pub discover-Received :
      (body : Response → Json) (issuer : Bytes) (client : DiscoveryClient W) (doc : DiscoveryDoc)
      → ((r : Response) (w : W) (d : DiscoveryDoc)
          → (c.json_doc r w).0 ≡ ok d
          → read_doc (body r) ≡ some d)
      → (discover c issuer client).0 ≡ ok doc
      → (url : Url) × (c.parse issuer ≡ ok url)
        × (r : Received c.json_doc
            (c.send_url (c.set_path (discovery_path (c.path url)) url) client.network)
            doc)
        × (read_doc (body r.checked) ≡ some doc)
        × (field 0 (codes "issuer") (body r.checked) ≡ once (string issuer))
  discover-Received body issuer client doc reads h =
      let (url, parsed, got, same) = (discover_iff c issuer client doc).0 h in
      let r = receive-Received c.json_doc _ doc got in
      let read = reads r.checked r.network doc r.got in
      (url, parsed, r, read, read_doc-issuer _ doc read ∙ ap (λ s. once (string s)) same)
