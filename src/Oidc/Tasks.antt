-- ===== src/Oidc/Tasks.antt =====
-- src/oidc.rs: calls of `jwks` by several tasks. The cache's lock is held for the look at the cache
-- and for the write, and not for the request in between.
use auth_kit.Base.{ℕ, ◌≡◌, ◌⊎◌, none, some, ◌==◌, if◌then◌else◌, Bytes, arith}
use auth_kit.Base.Outcome.{Result, ok, err}
use auth_kit.Oidc.{
  JwksDoc, CachedJwks, DiscoveryError, OidcCrates, DiscoveryClient, receive, index_keys, fresh_keys,
  jwks,
}
use auth_kit.Oidc.Cache.{jwks_cases}

-- Where a call is: before its look at the cache; before its request; before its write, with the
-- keys; done.
pub data Phase : Type 0 where
  start : Phase
  asking : Phase
  holding : CachedJwks → Phase
  done : Result DiscoveryError CachedJwks → Phase

-- What tasks share, and where each is.
pub record System (W : Type 0) : Type 0 where
  pub client : DiscoveryClient W
  pub phases : ℕ → Phase

-- The keys of a document that came at a time.
abbrev pub keys_of : ℕ → JwksDoc → CachedJwks
keys_of received doc = record { fetched_at = received; by_kid = index_keys doc }

module _ {Url Response W : Type 0} (c : OidcCrates Url Response W) where
  -- The next section of a call; it reads the clock at `time`.
  unfoldable pub section : ℕ → Bytes → Phase → DiscoveryClient W → Phase × DiscoveryClient W
  section time uri start client = elim (fresh_keys time client) [
    | some cached ↦ (done (ok cached), client)
    | none ↦ (asking, client)
  ]
  section time uri asking client =
      let (answer, w) = receive c c.json_keys (c.send_text uri client.network) in
      (
        elim answer [ err e ↦ done (err e) | ok doc ↦ holding (keys_of time doc) ],
        record client { network = w },
      )
  section time uri (holding cached) client =
      (done (ok cached), record client { jwks_cache = some cached })
  section time uri (done answer) client = (done answer, client)

  -- A call whose sections run with nothing in between is `jwks`.
  pub section-jwks :
      (now received written : ℕ) (uri : Bytes) (client : DiscoveryClient W)
      → let (p_1, y_1) = section now uri start client in
        let (p_2, y_2) = section received uri p_1 y_1 in
        section written uri p_2 y_2
        ≡ (done ((jwks c now received uri client).0), (jwks c now received uri client).1)
  unfolding section
  section-jwks now received written uri client =
      jwks_cases c now received uri client
        (λ r.
          let (p_1, y_1) = section now uri start client in
          let (p_2, y_2) = section received uri p_1 y_1 in
          section written uri p_2 y_2 ≡ (done r.0, r.1))
        (λ cached fresh. ground (arith, fresh)) (λ e stale lost. ground (arith, stale, lost))
        (λ doc stale got. ground (arith, stale, got))

  -- Task `i` runs its next section.
  unfoldable pub advance : (ℕ → Bytes) → ℕ → ℕ → System W → System W
  unfolding section
  advance uris time i y =
      let (p, client) = section time (uris i) (y.phases i) y.client in
      record { client = client; phases = λ j. if i == j then p else y.phases j }

  -- The systems that tasks may come to, each with one call, from a client, at any times.
  pub data Reach (uris : ℕ → Bytes) (client : DiscoveryClient W) : System W → Type 0 where
    begin : Reach uris client (record { client = client; phases = λ _. start })
    next :
        {y : System W}
        → Reach uris client y
        → (time i : ℕ) → Reach uris client (advance uris time i y)

  -- A section at `time`, of a call that had missed the cache, gets the keys: the request for the URI,
  -- over the network as the client has it, gives a whole document, and the keys are those of it.
  pub record Asks (time : ℕ) (uri : Bytes) (p : Phase) (client : DiscoveryClient W)
      (keys : CachedJwks) : Type 0 where
    pub doc : JwksDoc
    pub missed : p ≡ asking
    pub given : (receive c c.json_keys (c.send_text uri client.network)).0 ≡ ok doc
    pub same : keys ≡ keys_of time doc

  -- Some step of the run asked for the keys and got them.
  unfoldable pub IsFetched :
      {uris : ℕ → Bytes} {client : DiscoveryClient W} {y : System W}
      → Reach uris client y
      → CachedJwks
      → Type 0
  IsFetched begin keys = ⊥
  IsFetched {uris} (next {y} r time i) keys =
      Asks time (uris i) (y.phases i) y.client keys ⊎ IsFetched r keys
