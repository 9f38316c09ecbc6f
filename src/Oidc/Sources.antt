-- ===== src/Oidc/Sources.antt =====
-- src/oidc.rs: where the keys come from that concurrent calls of `jwks` answer.
use auth_kit.Base.{
  ℕ, ◌≡◌, refl, ap, ◌∙◌, ◌⊎◌, inl, inr, Bool-cases, Option, none, some, Option-cases, ◌==◌, Bytes,
  arith,
}
use auth_kit.Base.Outcome.{ok, err, Result-cases}
use auth_kit.Oidc.{CachedJwks, OidcCrates, DiscoveryClient, receive, fresh_keys}
use auth_kit.Oidc.Cache.{fresh_keys-IsFresh}
use auth_kit.Oidc.Tasks.{
  Phase, start, asking, holding, done, System, section, advance, Reach, begin, next, IsFetched,
  Asks,
}

-- The keys that a call has.
abbrev phase_keys : Phase → Option CachedJwks
phase_keys start = none
phase_keys asking = none
phase_keys (holding k) = some k
phase_keys (done (ok k)) = some k
phase_keys (done (err e)) = none

module _ {Url Response W : Type 0} (c : OidcCrates Url Response W) (uris : ℕ → Bytes) where
  -- What a section does to the keys of its call.
  section-phase :
      (time i : ℕ) (p : Phase) (client : DiscoveryClient W) (k : CachedJwks)
      → phase_keys (section c time (uris i) p client).0 ≡ some k
      → (phase_keys p ≡ some k) ⊎ ((client.jwks_cache ≡ some k) ⊎ Asks c time (uris i) p client k)
  unfolding section
  section-phase time i start client k e = elim (Option-cases (fresh_keys time client)) [
    | inl stale ↦ ground (arith, stale, e)
    | inr (cached, fresh) ↦
        let same : cached ≡ k = ground (arith, fresh, e) in
        inr (inl ((fresh_keys-IsFresh time client cached fresh).0 ∙ ap some same))
  ]
  section-phase time i asking client k e =
      elim (Result-cases (receive c c.json_keys (c.send_text (uris i) client.network)).0) [
        | inl (f, lost) ↦ ground (arith, lost, e)
        | inr (doc, got) ↦
            inr (
              inr (record { doc = doc; missed = refl; given = got; same = ground (arith, got, e) }))
      ]
  section-phase time i (holding keys) client k e = inl e
  section-phase time i (done answer) client k e = inl e

  -- What it does to the cache.
  section-cache :
      (time i : ℕ) (p : Phase) (client : DiscoveryClient W) (k : CachedJwks)
      → (section c time (uris i) p client).1.jwks_cache ≡ some k
      → (client.jwks_cache ≡ some k) ⊎ (phase_keys p ≡ some k)
  unfolding section
  section-cache time i start client k e = elim (Option-cases (fresh_keys time client)) [
    | inl stale ↦ inl (ground (arith, stale, e))
    | inr (cached, fresh) ↦ inl (ground (arith, fresh, e))
  ]
  section-cache time i asking client k e = inl e
  section-cache time i (holding keys) client k e = inr e
  section-cache time i (done answer) client k e = inl e

  -- All keys about are fetched.
  record IsSourced {client : DiscoveryClient W} {y : System W} (r : Reach c uris client y)
      : Type 0 where
    cached : (k : CachedJwks) → y.client.jwks_cache ≡ some k → IsFetched c r k
    called : (i : ℕ) (k : CachedJwks) → phase_keys (y.phases i) ≡ some k → IsFetched c r k

  next-IsSourced :
      {client : DiscoveryClient W} {y : System W}
      → (r : Reach c uris client y) (time i : ℕ) → IsSourced r
      → IsSourced (next r time i)
  unfolding advance IsFetched
  next-IsSourced {y} r time i v = record {
    cached = λ k e. elim (section-cache time i (y.phases i) y.client k e) [
      | inl old ↦ inr (v.cached k old)
      | inr mine ↦ inr (v.called i k mine)
    ];
    called = λ j k e. elim (Bool-cases (i == j)) [
      | inr other ↦ inr (v.called j k (rw other at e))
      | inl this ↦ elim (section-phase time i (y.phases i) y.client k (rw this at e)) [
        | inl old ↦ inr (v.called i k old)
        | inr (inl held) ↦ inr (v.cached k held)
        | inr (inr g) ↦ inl g
      ]
    ];
  }

  Reach-IsSourced :
      {client : DiscoveryClient W} {y : System W}
      → client.jwks_cache ≡ none
      → (r : Reach c uris client y) → IsSourced r
  Reach-IsSourced empty begin = record { cached = λ k e. cc; called = λ i k e. cc }
  Reach-IsSourced empty (next {y} r time i) = next-IsSourced r time i (Reach-IsSourced empty r)

  -- From a client with no keys, in whatever order the sections of concurrent calls of `jwks` run
  -- and whatever the clock shows, the keys that a call answers are those of one whole document,
  -- which a request of that run gave: one of the calls had missed the cache and asked for its own
  -- URI, over the network as the steps before had left it, and the keys' time is that of its step.
  pub jwks-IsFetched :
      {client : DiscoveryClient W} {y : System W}
      → client.jwks_cache ≡ none
      → (r : Reach c uris client y) (i : ℕ) (keys : CachedJwks) → y.phases i ≡ done (ok keys)
      → IsFetched c r keys
  jwks-IsFetched empty r i keys e = (Reach-IsSourced empty r).called i keys (ap phase_keys e)
