-- ===== src/SessionStore/Memory/History.antt =====
-- src/domain/session_store.rs: the store against the history of its calls, newest first. `latest`
-- is the specification: a log in which entries are never evicted.
use auth_kit.Base.{
  ℕ, ◌≡◌, refl, Bool, true, false, ◌&&◌, Option, none, some, arith, if◌then◌else◌, Bytes, beq, List,
  [], ◌∷◌, All, ◌∙◌,
}
use auth_kit.Base.Int.{ℤ, ◌+ℤ◌, ◌<ℤ◌, ◌≤ℤ◌}
use auth_kit.Base.Map.{get, IsDistinct}
use auth_kit.Base.Map.Laws.{get-insert, get-remove}
use auth_kit.Base.Outcome.{Result, ok, err, Run, returns, panics}
use auth_kit.SessionStore.{SessionStoreError, Crates}
use auth_kit.SessionStore.Memory.{
  Entry, InMemorySessionStore, with_capacity, evict_expired, bind_state, verify_state, revoke_state,
  Call, binds, verifies, revokes, step,
}
use auth_kit.SessionStore.Memory.Invariant.{
  IsWellFormed, bind_state_cases, with_capacity-IsWellFormed, step-IsWellFormed,
}
use auth_kit.SessionStore.Memory.View.{get-evict_expired, verify_state_iff}

-- The store after a history.
unfoldable pub run : Crates → List Call → InMemorySessionStore → InMemorySessionStore
run c [] s = s
run c (call ∷ cs) s = step c call (run c cs s)

abbrev pub is_done : Run (Result SessionStoreError (Unit {0})) → Bool
is_done (returns (ok u)) = true
is_done (returns (err e)) = false
is_done panics = false

-- The call reads the clock for an eviction at `now` at the latest.
abbrev pub IsBy : ℤ → Call → Type 0
IsBy now (binds t t' token session) = t ≤ℤ now
IsBy now (verifies t token session) = t ≤ℤ now
IsBy now (revokes token) = Unit

module _ (c : Crates) (ttl : ℤ) (n : ℕ) where
  abbrev pub state : List Call → InMemorySessionStore
  state cs = run c cs (with_capacity ttl n)

  -- The session and deadline of the last bind of the token that succeeded, unless a revocation of
  -- the token succeeded since.
  unfoldable pub latest : List Call → Bytes → Option Entry
  latest [] k = none
  latest (binds t t' token session ∷ cs) k =
      if is_done (bind_state c t t' token session (state cs)).0 && beq token k
      then some (record { session_id = session; expires_at = t' +ℤ ttl })
      else latest cs k
  latest (verifies now token session ∷ cs) k = latest cs k
  latest (revokes token ∷ cs) k =
      if is_done (revoke_state token (state cs)).0 && beq token k then none else latest cs k

  pub state-IsWellFormed : (cs : List Call) → IsWellFormed (state cs)
  unfolding run
  state-IsWellFormed [] = with_capacity-IsWellFormed ttl n
  state-IsWellFormed (call ∷ cs) = step-IsWellFormed c call (state cs) (state-IsWellFormed cs)

  bind_state-ttl :
      (t t' : ℤ) (token session : Bytes) (s : InMemorySessionStore)
      → (bind_state c t t' token session s).1.ttl ≡ s.ttl
  bind_state-ttl t t' token session s =
      bind_state_cases (λ r. r.1.ttl ≡ s.ttl) c t t' token session s (λ _. refl) (λ _ _. refl)
        (λ _ _ _. refl) (λ _ _ _ _. refl)

  state-ttl : (cs : List Call) → (state cs).ttl ≡ ttl
  unfolding run step with_capacity verify_state revoke_state
  state-ttl [] = refl
  state-ttl (binds t t' token session ∷ cs) =
      bind_state-ttl t t' token session (state cs) ∙ state-ttl cs
  state-ttl (verifies now token session ∷ cs) = ground (arith, state-ttl cs)
  state-ttl (revokes token ∷ cs) = ground (arith, state-ttl cs)

  -- What a bind leaves in the map, if the log agrees with the map before it.
  bind_state-get :
      (t t' : ℤ) (token session k : Bytes) (s : InMemorySessionStore) (older : Option Entry)
      (e : Entry)
      → IsDistinct s.inner
      → s.ttl ≡ ttl
      → (get k s.inner ≡ some e → older ≡ some e)
      → get k (bind_state c t t' token session s).1.inner ≡ some e
      → (if is_done (bind_state c t t' token session s).0 && beq token k
          then some (record { session_id = session; expires_at = t' +ℤ ttl })
          else older)
        ≡ some e
  bind_state-get t t' token session k s older e d same h =
      let evicted = get-evict_expired t k s.inner d in
      bind_state_cases
        (λ r.
          get k r.1.inner ≡ some e
          → (if is_done r.0 && beq token k
              then some (record { session_id = session; expires_at = t' +ℤ ttl })
              else older)
            ≡ some e)
        c t t' token session s (λ _ g. h g) (λ _ _ g. ground (arith, evicted))
        (λ _ _ _ g. ground (arith, evicted))
        (λ deadline _ _ sum g. ground (
          arith,
          evicted,
          get-insert token k (record { session_id = session; expires_at = deadline })
              (evict_expired t s.inner),
          c.add_sum t' s.ttl deadline sum,
        ))

  state-get :
      (cs : List Call) (k : Bytes) (e : Entry)
      → get k (state cs).inner ≡ some e
      → latest cs k ≡ some e
  unfolding run latest step verify_state revoke_state
  state-get [] k e h = unfold with_capacity get in cc
  state-get (binds t t' token session ∷ cs) k e h =
      bind_state-get t t' token session k (state cs) (latest cs k) e
        (state-IsWellFormed cs).distinct (state-ttl cs) (state-get cs k e) h
  state-get (verifies now token session ∷ cs) k e h = ground (
    arith,
    get-evict_expired now k (state cs).inner (state-IsWellFormed cs).distinct,
    state-get cs k e,
  )
  state-get (revokes token ∷ cs) k e h = ground (
    arith,
    get-remove token k (state cs).inner (state-IsWellFormed cs).distinct,
    state-get cs k e,
  )

  bind_state-keeps :
      (now t t' : ℤ) (token session k : Bytes) (s : InMemorySessionStore) (older : Option Entry)
      (e : Entry)
      → IsDistinct s.inner
      → s.ttl ≡ ttl
      → t ≤ℤ now
      → now <ℤ e.expires_at
      → (older ≡ some e → get k s.inner ≡ some e)
      → (if is_done (bind_state c t t' token session s).0 && beq token k
          then some (record { session_id = session; expires_at = t' +ℤ ttl })
          else older)
        ≡ some e
      → get k (bind_state c t t' token session s).1.inner ≡ some e
  bind_state-keeps now t t' token session k s older e d same past live h =
      let evicted = get-evict_expired t k s.inner d in
      bind_state_cases
        (λ r.
          (if is_done r.0 && beq token k
              then some (record { session_id = session; expires_at = t' +ℤ ttl })
              else older)
            ≡ some e
          → get k r.1.inner ≡ some e)
        c t t' token session s (λ _ g. h g) (λ _ _ g. ground (arith, evicted))
        (λ _ _ _ g. ground (arith, evicted))
        (λ deadline _ _ sum g. ground (
          arith,
          evicted,
          get-insert token k (record { session_id = session; expires_at = deadline })
              (evict_expired t s.inner),
          c.add_sum t' s.ttl deadline sum,
        ))

  state-keeps :
      (now : ℤ) (cs : List Call) (k : Bytes) (e : Entry)
      → All (IsBy now) cs
      → now <ℤ e.expires_at
      → latest cs k ≡ some e
      → get k (state cs).inner ≡ some e
  unfolding run latest step verify_state revoke_state
  state-keeps now [] k e past live h = cc
  state-keeps now (binds t t' token session ∷ cs) k e past live h =
      bind_state-keeps now t t' token session k (state cs) (latest cs k) e
        (state-IsWellFormed cs).distinct (state-ttl cs) past.0 live
        (state-keeps now cs k e past.1 live) h
  state-keeps now (verifies t token session ∷ cs) k e past live h = ground (
    arith,
    get-evict_expired t k (state cs).inner (state-IsWellFormed cs).distinct,
    state-keeps now cs k e past.1,
  )
  state-keeps now (revokes token ∷ cs) k e past live h = ground (
    arith,
    get-remove token k (state cs).inner (state-IsWellFormed cs).distinct,
    state-keeps now cs k e past.1,
  )

  -- After any history of a store from `with_capacity`, whatever its clock did, `verify_state`
  -- answers true only if the last successful bind of the token, with no successful revocation
  -- since, was to this session, and its clock reading plus the TTL is after now.
  pub verify_state_sound :
      (cs : List Call) (now : ℤ) (token session : Bytes)
      → (verify_state c now token session (state cs)).0 ≡ returns (ok true)
      → (e : Entry) × (latest cs token ≡ some e) × (e.session_id ≡ session) × (now <ℤ e.expires_at)
  verify_state_sound cs now token session h =
      let b = (verify_state_iff c now token session (state cs) (state-IsWellFormed cs)).0 h in
      (b.entry, state-get cs token b.entry b.found, b.same, b.live)

  -- After any history of a store from `with_capacity` in which no call read the clock later than
  -- now and the lock is usable: if the last successful bind of a token was not revoked and its
  -- deadline is after now, `verify_state` answers true for its session. Eviction and capacity lose
  -- no live entry.
  pub verify_state_complete :
      (cs : List Call) (now : ℤ) (token : Bytes) (e : Entry)
      → All (IsBy now) cs
      → (state cs).is_poisoned ≡ false
      → latest cs token ≡ some e
      → now <ℤ e.expires_at
      → (verify_state c now token e.session_id (state cs)).0 ≡ returns (ok true)
  verify_state_complete cs now token e past usable found live =
      (verify_state_iff c now token e.session_id (state cs) (state-IsWellFormed cs)).1 (record {
        usable = usable;
        entry = e;
        found = state-keeps now cs token e past live found;
        same = refl;
        live = live;
      })
