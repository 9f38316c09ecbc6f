-- ===== src/SessionStore/Memory/View.antt =====
-- src/domain/session_store.rs: what each call does to the binding of a token.
use auth_kit.Base.{
  ◌≡◌, refl, ◌∙◌, ap, ◌↔◌, inl, inr, true, false, Option, none, some, arith, Bool-cases, Bytes,
}
use auth_kit.Base.Int.{ℤ, ◌<ℤ◌, ltb_ℤ_iff}
use auth_kit.Base.Map.{Map, get, IsDistinct, filter_value}
use auth_kit.Base.Map.Laws.{get-retain}
use auth_kit.Base.Outcome.{ok, err, returns}
use auth_kit.SessionStore.{poisoned, Crates}
use auth_kit.SessionStore.Memory.{
  Entry, InMemorySessionStore, is_live, evict_expired, matches, verify_state,
}
use auth_kit.SessionStore.Memory.Invariant.{IsWellFormed}

-- The store has a usable lock and holds, for the token, an entry of this session that outlives
-- `now`.
pub record IsBound (s : InMemorySessionStore) (now : ℤ) (token session : Bytes) : Type 0 where
  pub usable : s.is_poisoned ≡ false
  pub entry : Entry
  pub found : get token s.inner ≡ some entry
  pub same : entry.session_id ≡ session
  pub live : now <ℤ entry.expires_at

pub get-evict_expired :
    (t : ℤ) (k : Bytes) (m : Map Entry)
    → IsDistinct m
    → get k (evict_expired t m) ≡ filter_value (is_live t) (get k m)
unfolding evict_expired
get-evict_expired t k m d = get-retain (is_live t) k m d

pub matches-filter_value_iff :
    (c : Crates) (now : ℤ) (session : Bytes) (o : Option Entry)
    → (matches c session (filter_value (is_live now) o) ≡ true)
      ↔ ((e : Entry) × (o ≡ some e) × (e.session_id ≡ session) × (now <ℤ e.expires_at))
unfolding matches
matches-filter_value_iff c now session none = (λ h. cc, λ h. cc (h.1))
matches-filter_value_iff c now session (some e) = elim (Bool-cases (is_live now e)) [
  | inl l ↦ (
    λ h. (e, refl, (c.ct_eq_iff _ _).0 (rw (l, matches) at h), (ltb_ℤ_iff now e.expires_at).0 l),
    λ h. ground (arith, c.ct_eq_iff e.session_id session, h.1, h.2, l),
  )
  | inr d ↦ (λ h. ground (arith, d), λ h. ground (arith, h.1, h.3, d))
]

verify_state-result :
    (c : Crates) (now : ℤ) (token session : Bytes) (s : InMemorySessionStore)
    → IsWellFormed s
    → s.is_poisoned ≡ false
    → (verify_state c now token session s).0
      ≡ returns (ok (matches c session (filter_value (is_live now) (get token s.inner))))
unfolding verify_state
verify_state-result c now token session s v alive =
    ground (arith, get-evict_expired now token s.inner v.distinct)

verify_state-poisoned :
    (c : Crates) (now : ℤ) (token session : Bytes) (s : InMemorySessionStore)
    → s.is_poisoned ≡ true
    → (verify_state c now token session s).0 ≡ returns (err poisoned)
unfolding verify_state
verify_state-poisoned c now token session s dead = ground arith

-- On a store that keeps its invariant, `verify_state` answers true exactly when the lock is usable
-- and the token has an entry of this session whose deadline is after the time of the call.
pub verify_state_iff :
    (c : Crates) (now : ℤ) (token session : Bytes) (s : InMemorySessionStore)
    → IsWellFormed s
    → ((verify_state c now token session s).0 ≡ returns (ok true)) ↔ IsBound s now token session
verify_state_iff c now token session s v = elim (Bool-cases s.is_poisoned) [
  | inl dead ↦ (λ h. cc (verify_state-poisoned c now token session s dead), λ b. cc (b.usable))
  | inr alive ↦
      let law = matches-filter_value_iff c now session (get token s.inner) in
      let result = verify_state-result c now token session s v alive in
      (
        λ h.
            let (e, found, same, live) = law.0 (cc (result)) in
            record { usable = alive; entry = e; found = found; same = same; live = live },
        λ b. result ∙ ap (λ x. returns (ok x)) (law.1 (b.entry, b.found, b.same, b.live)),
      )
]
