-- ===== src/SessionStore/Memory/Invariant.antt =====
-- src/domain/session_store.rs: the invariant of `InMemorySessionStore` and what keeps it.
use auth_kit.Base.{
  ℕ, ◌≤◌, ◌≡◌, ◌⊎◌, inl, inr, true, false, none, some, arith, Bool, Bool-cases, length, Bytes,
}
use auth_kit.Base.Int.{ℤ}
use auth_kit.Base.Map.{Map, get, insert, remove, IsDistinct}
use auth_kit.Base.Map.Laws.{
  insert-IsDistinct, remove-IsDistinct, retain-IsDistinct, length-insert, length-remove-le,
  length-retain-le,
}
use auth_kit.Base.{Option-cases, subst}
use auth_kit.Base.Outcome.{Result, ok, err, Run, returns, panics}
use auth_kit.SessionStore.{SessionStoreError, poisoned, at_capacity, Crates}
use auth_kit.SessionStore.Memory.{
  Entry, InMemorySessionStore, with_capacity, is_live, evict_expired, is_full, matches, bind_state,
  verify_state, revoke_state, Call, binds, verifies, revokes, step,
}

-- A token has one entry, and a bounded store holds at most `max_entries` of them.
pub record IsWellFormed (s : InMemorySessionStore) : Type 0 where
  pub distinct : IsDistinct s.inner
  pub bounded : (s.max_entries ≡ 0) ⊎ (length s.inner ≤ s.max_entries)

pub with_capacity-IsWellFormed : (ttl : ℤ) (n : ℕ) → IsWellFormed (with_capacity ttl n)
unfolding with_capacity
with_capacity-IsWellFormed ttl n = record { distinct = tt; bounded = inr (omega arith) }

pub evict_expired-IsDistinct :
    (t : ℤ) (m : Map Entry) → IsDistinct m → IsDistinct (evict_expired t m)
unfolding evict_expired
evict_expired-IsDistinct t m d = retain-IsDistinct (is_live t) m d

length-evict_expired-le : (t : ℤ) (m : Map Entry) → length (evict_expired t m) ≤ length m
unfolding evict_expired
length-evict_expired-le t m = length-retain-le (is_live t) m

-- A bind ends in one of four ways; a statement about it holds if it holds of each.
pub bind_state_cases {ℓ} :
    (P : Run (Result SessionStoreError (Unit {0})) × InMemorySessionStore → Type ℓ) (c : Crates)
    (t t' : ℤ) (token session : Bytes) (s : InMemorySessionStore)
    → (s.is_poisoned ≡ true → P (returns (err poisoned), s))
    → (s.is_poisoned ≡ false
        → is_full s.max_entries token (evict_expired t s.inner) ≡ true
        → P (
          returns (err (at_capacity s.max_entries)),
          record s { inner = evict_expired t s.inner },
        ))
    → (s.is_poisoned ≡ false
        → is_full s.max_entries token (evict_expired t s.inner) ≡ false
        → c.add t' s.ttl ≡ none
        → P (panics, record s { inner = evict_expired t s.inner; is_poisoned = true }))
    → ((deadline : ℤ)
        → s.is_poisoned ≡ false
        → is_full s.max_entries token (evict_expired t s.inner) ≡ false
        → c.add t' s.ttl ≡ some deadline
        → P (
          returns (ok tt),
          record s {
            inner =
                insert token
                  (record { session_id = session; expires_at = deadline })
                  (evict_expired t s.inner);
          },
        ))
    → P (bind_state c t t' token session s)
unfolding bind_state
bind_state_cases P c t t' token session s p1 p2 p3 p4 = elim (Bool-cases s.is_poisoned) [
  | inl dead ↦ subst P (ground arith) (p1 dead)
  | inr alive ↦ elim (Bool-cases (is_full s.max_entries token (evict_expired t s.inner))) [
    | inl full ↦ subst P (ground arith) (p2 alive full)
    | inr room ↦ elim (Option-cases (c.add t' s.ttl)) [
      | inl over ↦ subst P (ground arith) (p3 alive room over)
      | inr (deadline, sum) ↦ subst P (ground arith) (p4 deadline alive room sum)
    ]
  ]
]

-- The two other calls fail on a poisoned lock, or do their work.
pub verify_state_cases {ℓ} :
    (P : Run (Result SessionStoreError Bool) × InMemorySessionStore → Type ℓ) (c : Crates) (now : ℤ)
    (token session : Bytes) (s : InMemorySessionStore)
    → (s.is_poisoned ≡ true → P (returns (err poisoned), s))
    → (s.is_poisoned ≡ false
        → P (
          returns (ok (matches c session (get token (evict_expired now s.inner)))),
          record s { inner = evict_expired now s.inner },
        ))
    → P (verify_state c now token session s)
unfolding verify_state
verify_state_cases P c now token session s p1 p2 = elim (Bool-cases s.is_poisoned) [
  | inl dead ↦ subst P (ground arith) (p1 dead)
  | inr alive ↦ subst P (ground arith) (p2 alive)
]

pub revoke_state_cases {ℓ} :
    (P : Run (Result SessionStoreError (Unit {0})) × InMemorySessionStore → Type ℓ) (token : Bytes)
    (s : InMemorySessionStore)
    → (s.is_poisoned ≡ true → P (returns (err poisoned), s))
    → (s.is_poisoned ≡ false → P (returns (ok tt), record s { inner = remove token s.inner }))
    → P (revoke_state token s)
unfolding revoke_state
revoke_state_cases P token s p1 p2 = elim (Bool-cases s.is_poisoned) [
  | inl dead ↦ subst P (ground arith) (p1 dead)
  | inr alive ↦ subst P (ground arith) (p2 alive)
]

evict_expired-IsWellFormed :
    (t : ℤ) (s : InMemorySessionStore)
    → IsWellFormed s
    → IsWellFormed (record s { inner = evict_expired t s.inner })
evict_expired-IsWellFormed t s v = record {
  distinct = evict_expired-IsDistinct t s.inner v.distinct;
  bounded = ground (arith, v.bounded, length-evict_expired-le t s.inner);
}

insert-IsWellFormed :
    (token : Bytes) (e : Entry) (s : InMemorySessionStore)
    → is_full s.max_entries token s.inner ≡ false
    → IsWellFormed s
    → IsWellFormed (record s { inner = insert token e s.inner })
unfolding is_full
insert-IsWellFormed token e s room v = record {
  distinct = insert-IsDistinct token e s.inner v.distinct;
  bounded = ground (arith, v.bounded, length-insert token e s.inner);
}

bind_state-IsWellFormed :
    (c : Crates) (t t' : ℤ) (token session : Bytes) (s : InMemorySessionStore)
    → IsWellFormed s
    → IsWellFormed (bind_state c t t' token session s).1
bind_state-IsWellFormed c t t' token session s v =
    let evicted = evict_expired-IsWellFormed t s v in
    bind_state_cases (λ r. IsWellFormed r.1) c t t' token session s (λ _. v) (λ _ _. evicted)
      (λ _ _ _. record { distinct = evicted.distinct; bounded = evicted.bounded })
      (λ deadline _ room _.
        insert-IsWellFormed token _ (record s { inner = evict_expired t s.inner }) room evicted)

pub verify_state-IsWellFormed :
    (c : Crates) (now : ℤ) (token session : Bytes) (s : InMemorySessionStore)
    → IsWellFormed s
    → IsWellFormed (verify_state c now token session s).1
unfolding verify_state
verify_state-IsWellFormed c now token session s v =
    ground (arith, evict_expired-IsWellFormed now s v)

revoke_state-IsWellFormed :
    (token : Bytes) (s : InMemorySessionStore)
    → IsWellFormed s
    → IsWellFormed (revoke_state token s).1
unfolding revoke_state
revoke_state-IsWellFormed token s v =
    ground
      (arith, v.bounded, remove-IsDistinct token s.inner v.distinct, length-remove-le token s.inner)

-- On a store with one entry to a token and, unless `max_entries` is 0, at most `max_entries`
-- entries, every call, also one that fails or panics, keeps it so.
pub step-IsWellFormed :
    (c : Crates) (call : Call) (s : InMemorySessionStore)
    → IsWellFormed s
    → IsWellFormed (step c call s)
unfolding step
step-IsWellFormed c (binds t t' token session) s v =
    bind_state-IsWellFormed c t t' token session s v
step-IsWellFormed c (verifies now token session) s v =
    verify_state-IsWellFormed c now token session s v
step-IsWellFormed c (revokes token) s v = revoke_state-IsWellFormed token s v
