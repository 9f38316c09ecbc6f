-- ===== src/SessionStore/Memory/Poison.antt =====
-- src/domain/session_store.rs: the lock after a panic, and the capacity ceiling of `bind_state`.
use auth_kit.Base.{
  inl, inr, Bool-cases, ◌≤◌, ◌≡◌, refl, ◌≢◌, ◌↔◌, true, false, none, arith, length, Bytes, List, [],
  ◌∷◌,
}
use auth_kit.Base.Int.{ℤ}
use auth_kit.Base.Map.{get}
use auth_kit.Base.Map.Laws.{contains_key-get, get-contains_key}
use auth_kit.Base.Outcome.{err, returns, panics}
use auth_kit.SessionStore.{poisoned, at_capacity, Crates}
use auth_kit.SessionStore.Memory.{
  InMemorySessionStore, len, evict_expired, bind_state, verify_state, revoke_state, Call, binds,
  verifies, revokes, step,
}
use auth_kit.SessionStore.Memory.Invariant.{bind_state_cases}
use auth_kit.SessionStore.Memory.History.{run}

-- Every method reports that the lock is poisoned, whatever its arguments, and `len` is 0.
pub record IsBricked (c : Crates) (s : InMemorySessionStore) : Type 0 where
  pub no_bind : (t t' : ℤ) (k v : Bytes) → (bind_state c t t' k v s).0 ≡ returns (err poisoned)
  pub no_verify : (t : ℤ) (k v : Bytes) → (verify_state c t k v s).0 ≡ returns (err poisoned)
  pub no_revoke : (k : Bytes) → (revoke_state k s).0 ≡ returns (err poisoned)
  pub no_len : len s ≡ 0

step-poisoned :
    (c : Crates) (call : Call) (s : InMemorySessionStore) → s.is_poisoned ≡ true → step c call s ≡ s
unfolding step bind_state verify_state revoke_state
step-poisoned c (binds t t' token session) s h = ground arith
step-poisoned c (verifies t token session) s h = ground arith
step-poisoned c (revokes token) s h = ground arith

run-poisoned :
    (c : Crates) (cs : List Call) (s : InMemorySessionStore)
    → s.is_poisoned ≡ true
    → (run c cs s).is_poisoned ≡ true
unfolding run
run-poisoned c [] s h = h
run-poisoned c (call ∷ cs) s h =
    let later = run-poisoned c cs s h in ground (arith, step-poisoned c call (run c cs s) later)

IsBricked-of_poisoned :
    (c : Crates) (s : InMemorySessionStore) → s.is_poisoned ≡ true → IsBricked c s
unfolding bind_state verify_state revoke_state len
IsBricked-of_poisoned c s h = record {
  no_bind = λ t t' k v. ground arith;
  no_verify = λ t k v. ground arith;
  no_revoke = λ k. ground arith;
  no_len = ground arith;
}

-- A bind that panics does so under the lock.
bind_state_panics :
    (c : Crates) (t t' : ℤ) (token session : Bytes) (s : InMemorySessionStore)
    → (bind_state c t t' token session s).0 ≡ panics
    → (bind_state c t t' token session s).1.is_poisoned ≡ true
bind_state_panics c t t' token session s =
    bind_state_cases (λ r. r.0 ≡ panics → r.1.is_poisoned ≡ true) c t t' token session s (λ _ h. cc)
      (λ _ _ h. cc) (λ _ _ _ _. refl) (λ _ _ _ _ h. cc)

-- Once a bind has panicked on its deadline, the store is out of use for good: after any further
-- history of calls every method fails with `Poisoned`, and `len` is 0.
pub bind_state-IsBricked :
    (c : Crates) (t t' : ℤ) (token session : Bytes) (s : InMemorySessionStore) (later : List Call)
    → (bind_state c t t' token session s).0 ≡ panics
    → IsBricked c (run c later (bind_state c t t' token session s).1)
bind_state-IsBricked c t t' token session s later h =
    IsBricked-of_poisoned c _ (run-poisoned c later _ (bind_state_panics c t t' token session s h))

-- `bind_state` is refused for want of room exactly when the lock is usable, the store is bounded,
-- the token has no live entry, and the live entries of others reach the bound.
pub bind_state-at_capacity_iff :
    (c : Crates) (t t' : ℤ) (token session : Bytes) (s : InMemorySessionStore)
    → ((bind_state c t t' token session s).0 ≡ returns (err (at_capacity s.max_entries))) ↔ (
        (s.is_poisoned ≡ false)
        × (s.max_entries ≢ 0)
        × (s.max_entries ≤ length (evict_expired t s.inner))
        × (get token (evict_expired t s.inner) ≡ none))
unfolding bind_state
bind_state-at_capacity_iff c t t' token session s = (
  λ h. (
    ground arith,
    ground arith,
    ground arith,
    contains_key-get token (evict_expired t s.inner) (ground arith),
  ),
  λ h. ground (arith, h.0, h.1, h.2, get-contains_key token (evict_expired t s.inner) h.3),
)

-- `verify_state` does not panic.
pub verify_state-returns :
    (c : Crates) (now : ℤ) (token session : Bytes) (s : InMemorySessionStore)
    → (verify_state c now token session s).0 ≢ panics
unfolding verify_state
verify_state-returns c now token session s e = elim (Bool-cases s.is_poisoned) [
  | inl dead ↦ ground (arith, dead, e)
  | inr alive ↦ ground (arith, alive, e)
]
