-- ===== src/Oidc.antt =====
-- src/oidc.rs with the feature `oidc`: the documents, the key cache and the discovery client.
pub mod Discovery
pub mod Keys
pub mod Cache
pub mod Disabled
pub mod Tasks
pub mod Sources
pub mod Wire
pub mod Suite
mod Tests
use auth_kit.Base.{
  ℕ, ◌-◌, Bool, not, Option, none, some, List, [], ◌∷◌, ◌++◌, ltb, if◌then◌else◌, Bytes, beq, codes,
}
use auth_kit.Base.Map.{Map, get, insert}
use auth_kit.Base.Outcome.{Result, ok, err, Run, returns, panics}
use auth_kit.Base.Str.{trim_end_matches}

pub record DiscoveryDoc : Type 0 where
  pub issuer : Bytes
  pub authorization_endpoint : Option Bytes
  pub token_endpoint : Option Bytes
  pub jwks_uri : Option Bytes
  pub userinfo_endpoint : Option Bytes
  pub end_session_endpoint : Option Bytes
  pub introspection_endpoint : Option Bytes
  pub revocation_endpoint : Option Bytes
  pub response_types_supported : List Bytes
  pub subject_types_supported : List Bytes
  pub id_token_signing_alg_values_supported : List Bytes
  pub code_challenge_methods_supported : List Bytes
  pub scopes_supported : List Bytes
  pub claims_supported : List Bytes

-- The field `r#use` is `key_use`.
pub record Jwk : Type 0 where
  pub kty : Bytes
  pub key_use : Option Bytes
  pub kid : Option Bytes
  pub alg : Option Bytes
  pub n : Option Bytes
  pub e : Option Bytes
  pub crv : Option Bytes
  pub x : Option Bytes
  pub y : Option Bytes
  pub k : Option Bytes
  pub x5c : List Bytes

pub record JwksDoc : Type 0 where
  pub keys : List Jwk

-- An `Instant` and a `Duration` are nanoseconds, an instant from some fixed origin.
pub record CachedJwks : Type 0 where
  pub fetched_at : ℕ
  pub by_kid : Map Jwk

unfoldable pub lookup : Bytes → CachedJwks → Option Jwk
lookup kid c = get kid c.by_kid

-- `elapsed` stops at 0, as the subtraction here does.
unfoldable pub is_fresh : ℕ → ℕ → CachedJwks → Bool
is_fresh now ttl c = ltb (now - c.fetched_at) ttl

-- `DiscoveryError`; the errors of `url`, `reqwest` and `serde_json` are opaque.
pub data DiscoveryError : Type 0 where
  not_enabled : DiscoveryError
  invalid_issuer_url : Bytes → DiscoveryError
  invalid_discovery_url : Bytes → DiscoveryError
  http : Bytes → DiscoveryError
  json : Bytes → DiscoveryError
  issuer_mismatch : Bytes → Bytes → DiscoveryError

-- What the code calls of `url` and `reqwest`: `parse` gives the text of its error, and the network
-- is a state `W` that a request, and the reading of a response's body, may change.
pub record OidcCrates (Url Response W : Type 0) : Type 0 where
  pub build : Result Bytes W
  pub parse : Bytes → Result Bytes Url
  pub path : Url → Bytes
  pub set_path : Bytes → Url → Url
  pub send_url : Url → W → Result Bytes Response × W
  pub send_text : Bytes → W → Result Bytes Response × W
  pub error_for_status : Response → Result Bytes Response
  pub json_doc : Response → W → Result Bytes DiscoveryDoc × W
  pub json_keys : Response → W → Result Bytes JwksDoc × W

-- `DiscoveryClient`, with the state of the network in place of the HTTP client.
pub record DiscoveryClient (W : Type 0) : Type 0 where
  pub network : W
  pub user_agent : Bytes
  pub jwks_cache : Option CachedJwks
  pub cache_ttl : ℕ

-- `/.well-known/openid-configuration` under the path, less the slashes at its end.
unfoldable pub discovery_path : Bytes → Bytes
discovery_path path = trim_end_matches b'/' path ++ codes "/.well-known/openid-configuration"

-- The keys that have an id, with their ids.
unfoldable pub with_kid : List Jwk → List (Bytes × Jwk)
with_kid [] = []
with_kid (k ∷ ks) =
    let rest = with_kid ks in elim k.kid [ none ↦ rest | some kid ↦ (kid, k) ∷ rest ]

-- `collect` into a `HashMap`: the pairs are inserted in order.
unfoldable pub collect : List (Bytes × Jwk) → Map Jwk → Map Jwk
collect [] m = m
collect ((kid, k) ∷ ps) m = collect ps (insert kid k m)

unfoldable pub index_keys : JwksDoc → Map Jwk
unfolding with_kid collect
index_keys doc = collect (with_kid doc.keys) []

-- The end of `discover`.
unfoldable pub check_issuer : Bytes → DiscoveryDoc → Result DiscoveryError DiscoveryDoc
check_issuer issuer doc =
    if not (beq doc.issuer issuer) then err (issuer_mismatch doc.issuer issuer) else ok doc

-- The fast path of `jwks`: the cached keys, if they are fresh.
unfoldable pub fresh_keys : {W : Type 0} → ℕ → DiscoveryClient W → Option CachedJwks
unfolding is_fresh
fresh_keys now client = elim client.jwks_cache [
  | none ↦ none
  | some cached ↦ if is_fresh now client.cache_ttl cached then some cached else none
]

module _ {Url Response W : Type 0} (c : OidcCrates Url Response W) where
  -- `DiscoveryClient::new`; 600 seconds to live.
  unfoldable pub new : Result DiscoveryError (DiscoveryClient W)
  new = elim c.build [
    | err e ↦ err (http e)
    | ok w ↦ ok (record {
      network = w;
      user_agent = codes "authkit/0.1.0";
      jwks_cache = none;
      cache_ttl = 600000000000;
    })
  ]

  -- `DiscoveryClient::default`.
  unfoldable pub default_client : Run (DiscoveryClient W)
  unfolding new
  default_client = elim new [ err e ↦ panics | ok client ↦ returns client ]

  -- `send().await?.error_for_status()?.json().await?`, from the answer of `send`.
  unfoldable pub receive {ℓ} :
      {A : Type ℓ}
      → (Response → W → Result Bytes A × W)
      → Result Bytes Response × W
      → Result DiscoveryError A × W
  receive read (err e, w) = (err (http e), w)
  receive read (ok r, w) = elim (c.error_for_status r) [
    | err e ↦ (err (http e), w)
    | ok r' ↦ let (body, w') = read r' w in (elim body [ err e ↦ err (http e) | ok a ↦ ok a ], w')
  ]

  unfoldable pub discover :
      Bytes → DiscoveryClient W → Result DiscoveryError DiscoveryDoc × DiscoveryClient W
  unfolding receive check_issuer discovery_path
  discover issuer client = elim (c.parse issuer) [
    | err e ↦ (err (invalid_issuer_url (e ++ codes ": " ++ issuer)), client)
    | ok issuer_url ↦
        let discovery_url = c.set_path (discovery_path (c.path issuer_url)) issuer_url in
        let (answer, w) = receive c.json_doc (c.send_url discovery_url client.network) in
        (
          elim answer [ err e ↦ err e | ok doc ↦ check_issuer issuer doc ],
          record client { network = w },
        )
  ]

  -- The rest of `jwks`: a request, whose keys are put in the cache at the time `received`.
  unfoldable pub fetch_keys :
      ℕ → Bytes → DiscoveryClient W → Result DiscoveryError CachedJwks × DiscoveryClient W
  unfolding receive index_keys
  fetch_keys received jwks_uri client =
      let (answer, w) = receive c.json_keys (c.send_text jwks_uri client.network) in
      elim answer [
        | err e ↦ (err e, record client { network = w })
        | ok doc ↦
            let cached : CachedJwks = record { fetched_at = received; by_kid = index_keys doc } in
            (ok cached, record client { network = w; jwks_cache = some cached })
      ]

  -- `jwks` reads the clock at `now` and, after a request, at `received`.
  unfoldable pub jwks :
      ℕ → ℕ → Bytes → DiscoveryClient W → Result DiscoveryError CachedJwks × DiscoveryClient W
  unfolding fresh_keys fetch_keys
  jwks now received jwks_uri client = elim (fresh_keys now client) [
    | some cached ↦ (ok cached, client)
    | none ↦ fetch_keys received jwks_uri client
  ]

-- `DiscoveryClient::with_cache_ttl`.
unfoldable pub with_cache_ttl : {W : Type 0} → ℕ → DiscoveryClient W → DiscoveryClient W
with_cache_ttl ttl client = record client { cache_ttl = ttl }
