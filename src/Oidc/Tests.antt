-- ===== src/Oidc/Tests.antt =====
-- Instances of the theorems about src/oidc.rs, with a network that counts its requests.
mod Wire
use auth_kit.Base.{
  ℕ, true, beq, suc, ◌-◌, ◌<◌, ◌≡◌, ◌⊎◌, refl, Option, none, some, [], ◌∷◌, Bytes, codes, arith,
}
use auth_kit.Base.Outcome.{ok}
use auth_kit.Oidc.{
  lookup, is_fresh, DiscoveryDoc, Jwk, JwksDoc, CachedJwks, OidcCrates, DiscoveryClient, index_keys,
  receive, fresh_keys, fetch_keys, jwks,
}
use auth_kit.Oidc.Cache.{get_keys, jwks-IsRecent, jwks-cached}
use auth_kit.Oidc.Disabled.{new_disabled, discover_disabled}
use auth_kit.Oidc.Suite.{
  cached_jwks_lookup_by_kid, no_feature_discover_returns_not_enabled,
  discovery_doc_deserializes_canonical_example, discovery_doc_tolerates_extra_fields,
  jwks_doc_deserializes_rsa_key,
}
use auth_kit.Base.Json.{
  bytes_serde, string_value, list_value, of_elements, fits, field, find, find_again, required,
  optional, optional_default, nullable, defaulted,
}
use auth_kit.Oidc.Wire.{read_doc, read_jwks, read_jwk, jwk_serde}
use auth_kit.Base.Map.{insert, get}
use auth_kit.Oidc.Tasks.{section, advance, System, Reach, begin, next, start, done, IsFetched}
use auth_kit.Oidc.Sources.{jwks-IsFetched}

abbrev example_issuer : Bytes
example_issuer = codes "https://example.com"

abbrev example_doc : DiscoveryDoc
example_doc = record {
  issuer = example_issuer;
  authorization_endpoint = none;
  token_endpoint = some (codes "https://example.com/oauth/token");
  jwks_uri = some (codes "https://example.com/.well-known/jwks.json");
  userinfo_endpoint = none;
  end_session_endpoint = none;
  introspection_endpoint = none;
  revocation_endpoint = none;
  response_types_supported = codes "code" ∷ [];
  subject_types_supported = [];
  id_token_signing_alg_values_supported = [];
  code_challenge_methods_supported = codes "S256" ∷ [];
  scopes_supported = [];
  claims_supported = [];
}

abbrev key : Bytes → Option Bytes → Jwk
key kty kid = record {
  kty = kty;
  key_use = none;
  kid = kid;
  alg = none;
  n = none;
  e = none;
  crv = none;
  x = none;
  y = none;
  k = none;
  x5c = [];
}

abbrev example_keys : JwksDoc
example_keys = record {
  keys =
      key (codes "RSA") (some (codes "kid-1"))
      ∷ key (codes "oct") none
      ∷ key (codes "EC") (some (codes "kid-1"))
      ∷ [];
}

-- A URL is its path, and every request succeeds.
abbrev web : OidcCrates Bytes (Unit {0}) ℕ
web = record {
  build = ok 0;
  parse = λ s. ok (codes "/");
  path = λ u. u;
  set_path = λ p u. p;
  send_url = λ u w. (ok tt, suc w);
  send_text = λ u w. (ok tt, suc w);
  error_for_status = λ r. ok r;
  json_doc = λ r w. (ok example_doc, w);
  json_keys = λ r w. (ok example_keys, w);
}

abbrev client : DiscoveryClient ℕ
client = record {
  network = 0;
  user_agent = codes "authkit/0.1.0";
  jwks_cache = none;
  cache_ttl = 600;
}

abbrev fetched : CachedJwks
fetched = record { fetched_at = 12; by_kid = index_keys example_keys }

uri : Bytes
uri = codes "https://example.com/.well-known/jwks.json"

first_answer : (jwks web 10 12 uri client).0 ≡ ok fetched
unfolding jwks fresh_keys fetch_keys receive
first_answer = refl

jwks-IsRecent_example :
    ((jwks web 10 12 uri client).1.jwks_cache ≡ some fetched)
    × ((10 - 12 < 600)
        ⊎ ((doc : JwksDoc) × ((get_keys web 10 12 uri client).0 ≡ ok doc)
            × (fetched ≡ record { fetched_at = 12; by_kid = index_keys doc })))
jwks-IsRecent_example = jwks-IsRecent web 10 12 uri client fetched first_answer

jwks-cached_example :
    jwks web 600 601 (codes "https://other.example/jwks.json") (jwks web 10 12 uri client).1
    ≡ (ok fetched, (jwks web 10 12 uri client).1)
unfolding jwks fresh_keys fetch_keys receive
jwks-cached_example =
    jwks-cached web 10 12 600 601 uri (codes "https://other.example/jwks.json") client fetched
      first_answer (omega arith)

-- Two tasks: both miss the cache, task 1 fetches and writes, then task 0.
abbrev uris : ℕ → Bytes
uris i = uri

abbrev both_fetched : System ℕ
both_fetched = advance web uris 15 0 (
    advance web uris 14 0 (
      advance web uris 13 1 (
        advance web uris 12 1 (
          advance web uris 11 1
            (advance web uris 10 0 (record { client = client; phases = λ i. start }))))))

abbrev both_reached : Reach web uris client both_fetched
both_reached = next (next (next (next (next (next begin 10 0) 11 1) 12 1) 13 1) 14 0) 15 0

abbrev fetched_later : CachedJwks
fetched_later = record { fetched_at = 14; by_kid = index_keys example_keys }

task_0_answer : both_fetched.phases 0 ≡ done (ok fetched_later)
unfolding advance section fresh_keys receive
task_0_answer = refl

jwks-IsFetched_example : IsFetched web both_reached fetched_later
jwks-IsFetched_example = jwks-IsFetched web uris refl both_reached 0 fetched_later task_0_answer

-- The five tests of the module, the one that reads the clock with two seconds between its readings.
suite_run :
    cached_jwks_lookup_by_kid 1_000_000_000 3_000_000_000
      ∷ no_feature_discover_returns_not_enabled
      ∷ discovery_doc_deserializes_canonical_example
      ∷ discovery_doc_tolerates_extra_fields
      ∷ jwks_doc_deserializes_rsa_key
      ∷ []
    ≡ true ∷ true ∷ true ∷ true ∷ true ∷ []
unfolding cached_jwks_lookup_by_kid no_feature_discover_returns_not_enabled lookup is_fresh insert
    get beq new_disabled discover_disabled discovery_doc_deserializes_canonical_example
    discovery_doc_tolerates_extra_fields jwks_doc_deserializes_rsa_key read_doc read_jwks read_jwk
    string_value list_value of_elements fits field find find_again required optional
    optional_default nullable defaulted
suite_run = refl
