-- ===== src/Oidc/Cache.antt =====
-- src/oidc.rs: when `jwks` asks the network, and what the cache holds.
use auth_kit.Base.{
  ℕ, ◌-◌, ◌<◌, ◌≡◌, refl, sym, ap, ◌∙◌, ◌⊎◌, inl, inr, subst, none, some, Option-cases, Bytes,
  arith,
}
use auth_kit.Base.Outcome.{Result, ok, err, Result-cases}
use auth_kit.Oidc.{
  JwksDoc, CachedJwks, is_fresh, DiscoveryError, OidcCrates, DiscoveryClient, receive, index_keys,
  fresh_keys, fetch_keys, jwks,
}

fresh_keys_lem :
    {W : Type 0} (now : ℕ) (client : DiscoveryClient W) (cached : CachedJwks)
    → client.jwks_cache ≡ some cached
    → now - cached.fetched_at < client.cache_ttl
    → fresh_keys now client ≡ some cached
unfolding fresh_keys is_fresh
fresh_keys_lem now client cached e young = ground arith

pub fresh_keys-IsFresh :
    {W : Type 0} (now : ℕ) (client : DiscoveryClient W) (cached : CachedJwks)
    → fresh_keys now client ≡ some cached
    → (client.jwks_cache ≡ some cached) × (now - cached.fetched_at < client.cache_ttl)
unfolding fresh_keys is_fresh
fresh_keys-IsFresh now client cached e = elim (Option-cases client.jwks_cache) [
  | inl empty ↦ ground arith
  | inr (old, full) ↦ ground arith
]

module _ {Url Response W : Type 0} (c : OidcCrates Url Response W) (now received : ℕ) (uri : Bytes)
    (client : DiscoveryClient W) where
  -- The answer to the request for the keys, and the network after it.
  abbrev pub get_keys : Result DiscoveryError JwksDoc × W
  get_keys = receive c c.json_keys (c.send_text uri client.network)

  -- `jwks` takes fresh keys from the cache, fails in its request, or puts fetched keys in the
  -- cache.
  pub jwks_cases {ℓ} :
      (P : Result DiscoveryError CachedJwks × DiscoveryClient W → Type ℓ)
      → ((cached : CachedJwks) → fresh_keys now client ≡ some cached → P (ok cached, client))
      → ((e : DiscoveryError)
          → fresh_keys now client ≡ none
          → get_keys.0 ≡ err e
          → P (err e, record client { network = get_keys.1 }))
      → ((doc : JwksDoc)
          → fresh_keys now client ≡ none
          → get_keys.0 ≡ ok doc
          → let cached : CachedJwks = record { fetched_at = received; by_kid = index_keys doc } in
            P (ok cached, record client { network = get_keys.1; jwks_cache = some cached }))
      → P (jwks c now received uri client)
  unfolding jwks fetch_keys
  jwks_cases P p1 p2 p3 = elim (Option-cases (fresh_keys now client)) [
    | inr (cached, fresh) ↦ subst P (ground arith) (p1 cached fresh)
    | inl stale ↦ elim (Result-cases get_keys.0) [
      | inl (e, lost) ↦ subst P (ground arith) (p2 e stale lost)
      | inr (doc, got) ↦ subst P (ground arith) (p3 doc stale got)
    ]
  ]

  -- Whatever the keys that `jwks` answers, they are in the cache afterwards, and they are younger
  -- than the time to live or those of a document that the URI gave and that came at `received`.
  pub jwks-IsRecent :
      (cached : CachedJwks)
      → (jwks c now received uri client).0 ≡ ok cached
      → ((jwks c now received uri client).1.jwks_cache ≡ some cached)
        × ((now - cached.fetched_at < client.cache_ttl)
            ⊎ ((doc : JwksDoc) × (get_keys.0 ≡ ok doc)
                × (cached ≡ record { fetched_at = received; by_kid = index_keys doc })))
  jwks-IsRecent cached =
      jwks_cases
        (λ x.
          x.0 ≡ ok cached
          → (x.1.jwks_cache ≡ some cached)
            × ((now - cached.fetched_at < client.cache_ttl)
                ⊎ ((doc : JwksDoc) × (get_keys.0 ≡ ok doc)
                    × (cached ≡ record { fetched_at = received; by_kid = index_keys doc }))))
        (λ old fresh h.
          let same : old ≡ cached = cc in
          let (held, young) = fresh_keys-IsFresh now client cached (fresh ∙ ap some same) in
          (held, inl young))
        (λ e _ _ h. cc)
        (λ doc _ got h.
          let same : (record { fetched_at = received; by_kid = index_keys doc }) ≡ cached = cc in
          (ap some same, inr (doc, got, sym same)))

  -- A request that fails leaves the cache as it is.
  pub jwks-failure :
      (e : DiscoveryError)
      → (jwks c now received uri client).0 ≡ err e
      → (jwks c now received uri client).1.jwks_cache ≡ client.jwks_cache
  jwks-failure e =
      jwks_cases (λ x. x.0 ≡ err e → x.1.jwks_cache ≡ client.jwks_cache) (λ _ _ _. refl)
        (λ _ _ _ _. refl) (λ _ _ _ h. cc)

-- Once `jwks` has given keys, every call of it within the time to live gives the same keys, for
-- whatever URI, and changes nothing: no request is sent, and the keys may be those of another URI.
pub jwks-cached :
    {Url Response W : Type 0} (c : OidcCrates Url Response W) (now received now' received' : ℕ)
    (uri uri' : Bytes) (client : DiscoveryClient W) (cached : CachedJwks)
    → let after = jwks c now received uri client in
      after.0 ≡ ok cached
      → now' - cached.fetched_at < after.1.cache_ttl
      → jwks c now' received' uri' after.1 ≡ (ok cached, after.1)
jwks-cached c now received now' received' uri uri' client cached h young =
    let after = (jwks c now received uri client).1 in
    let held = (jwks-IsRecent c now received uri client cached h).0 in
    let fresh = fresh_keys_lem now' after cached held young in
    jwks_cases c now' received' uri' after (λ x. x ≡ (ok cached, after))
      (λ old kept. let same : old ≡ cached = cc in ap (λ o. (ok o, after)) same) (λ e stale. cc)
      (λ doc stale. cc)
