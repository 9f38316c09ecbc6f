-- ===== src/SessionStore/Memory/Refinement.antt =====
-- src/domain/session_store.rs: the store against its specification, over any sequence of calls
-- whose clock does not run backwards.
use auth_kit.Base.{
  ℕ, ◌≡◌, refl, ap, sym, ◌∙◌, ◌↔◌, inl, inr, subst, true, false, none, Bytes, beq, Bool-cases, List,
  [], ◌∷◌,
}
use auth_kit.Base.Int.{ℤ, ◌≤ℤ◌}
use auth_kit.Base.Map.{get, filter_value}
use auth_kit.Base.Map.Laws.{get-remove}
use auth_kit.SessionStore.{Crates}
use auth_kit.SessionStore.Memory.{
  InMemorySessionStore, is_live, matches, bind_state, verify_state, revoke_state, binds, verifies,
  revokes, with_capacity, Call, step,
}
use auth_kit.SessionStore.Memory.Invariant.{
  IsWellFormed, bind_state_cases, verify_state_cases, revoke_state_cases,
  with_capacity-IsWellFormed, step-IsWellFormed,
}
use auth_kit.SessionStore.Memory.View.{get-evict_expired, matches-filter_value_iff}
use auth_kit.SessionStore.Memory.Spec.{
  of_unit, of_bool, Spec, IsLiveTo, Allows, bound, overflowed, answered, revoked, dead_bind,
  dead_verify, dead_revoke, reply, replies, Trace, nil, cons, reading, IsOrdered,
}
use auth_kit.SessionStore.Memory.Agreement.{
  Agrees, seen-evicted, usable-alive, usable-dead, evicted-Agrees, later-Agrees, full-refused,
  sum-lifetime, bound-Agrees,
}

module _ (c : Crates) (ttl : ℤ) (n : ℕ) (before : ℤ) (s : InMemorySessionStore) (a : Spec)
    (g : Agrees ttl n before s a) where
  bind-refines :
      (t t' : ℤ) (token session : Bytes)
      → before ≤ℤ t
      → let r = bind_state c t t' token session s in
        IsWellFormed r.1
        → (a' : Spec) × Allows c.add ttl n a (binds t t' token session) (of_unit r.0) a'
          × Agrees ttl n t r.1 a'
  bind-refines t t' token session first =
      bind_state_cases
        (λ r.
          IsWellFormed r.1
          → (a' : Spec) × Allows c.add ttl n a (binds t t' token session) (of_unit r.0) a'
            × Agrees ttl n t r.1 a')
        c t t' token session s
        (λ dead w. (
          a,
          dead_bind (usable-dead c ttl n before s a g dead),
          later-Agrees c ttl n before s a g t first,
        ))
        (λ alive full w. (
          a,
          full-refused c ttl n before s a g t t' token session first alive full,
          evicted-Agrees c ttl n before s a g t first w,
        ))
        (λ alive room over w. (
          record a { usable = false },
          overflowed (usable-alive c ttl n before s a g alive)
              (ap (c.add t') (sym g.lifetime) ∙ over),
          record {
            well = w;
            lifetime = g.lifetime;
            ceiling = g.ceiling;
            locked = refl;
            seen = λ now k later. seen-evicted c ttl n before s a g t now k first later;
          },
        ))
        (λ deadline alive room sum w. (
          _,
          bound (usable-alive c ttl n before s a g alive)
              (sum-lifetime c ttl n before s a g t' deadline sum),
          bound-Agrees c ttl n before s a g t t' deadline token session first sum w,
        ))

  verify-refines :
      (now : ℤ) (token session : Bytes)
      → before ≤ℤ now
      → let r = verify_state c now token session s in
        IsWellFormed r.1
        → Allows c.add ttl n a (verifies now token session) (of_bool r.0) a × Agrees ttl n now r.1 a
  verify-refines now token session first =
      verify_state_cases
        (λ r.
          IsWellFormed r.1
          → Allows c.add ttl n a (verifies now token session) (of_bool r.0) a
            × Agrees ttl n now r.1 a)
        c now token session s
        (λ dead w. (
          dead_verify (usable-dead c ttl n before s a g dead),
          later-Agrees c ttl n before s a g now first,
        ))
        (λ alive w.
          let evicted = get-evict_expired now token s.inner g.well.distinct in
          (
            answered _ (usable-alive c ttl n before s a g alive) (
                subst (λ o. (matches c session o ≡ true) ↔ IsLiveTo a now token session)
                  (sym (evicted ∙ g.seen now token first))
                  (matches-filter_value_iff c now session (a.bindings token))),
            evicted-Agrees c ttl n before s a g now first w,
          ))

  revoke-refines :
      (token : Bytes)
      → let r = revoke_state token s in
        IsWellFormed r.1
        → (a' : Spec) × Allows c.add ttl n a (revokes token) (of_unit r.0) a'
          × Agrees ttl n before r.1 a'
  revoke-refines token =
      revoke_state_cases
        (λ r.
          IsWellFormed r.1
          → (a' : Spec) × Allows c.add ttl n a (revokes token) (of_unit r.0) a'
            × Agrees ttl n before r.1 a')
        token s (λ dead w. (a, dead_revoke (usable-dead c ttl n before s a g dead), g))
        (λ alive w. (
          _,
          revoked (usable-alive c ttl n before s a g alive),
          record {
            well = w;
            lifetime = g.lifetime;
            ceiling = g.ceiling;
            locked = g.locked;
            seen = λ now k later.
                ap (filter_value (is_live now)) (get-remove token k s.inner g.well.distinct)
                ∙ elim (Bool-cases (beq token k)) [
                  | inl mine ↦ rw mine refl
                  | inr other ↦ rw other (g.seen now k later)
                ];
          },
        ))

-- A call on a store that agrees with the specification is one that the specification allows, and
-- leaves them in agreement.
step-refines :
    (c : Crates) (ttl : ℤ) (n : ℕ) (before : ℤ) (call : Call) (s : InMemorySessionStore) (a : Spec)
    → Agrees ttl n before s a
    → before ≤ℤ reading before call
    → (a' : Spec) × Allows c.add ttl n a call (reply c call s) a'
      × Agrees ttl n (reading before call) (step c call s) a'
unfolding step reply
step-refines c ttl n before (binds t t' token session) s a g first =
    bind-refines c ttl n before s a g t t' token session first
      (step-IsWellFormed c (binds t t' token session) s g.well)
step-refines c ttl n before (verifies now token session) s a g first =
    let (allowed, same) =
      verify-refines c ttl n before s a g now token session first
        (step-IsWellFormed c (verifies now token session) s g.well) in
    (a, allowed, same)
step-refines c ttl n before (revokes token) s a g first =
    revoke-refines c ttl n before s a g token (step-IsWellFormed c (revokes token) s g.well)

run-refines :
    (c : Crates) (ttl : ℤ) (n : ℕ) (before : ℤ) (cs : List Call) (s : InMemorySessionStore)
    (a : Spec)
    → Agrees ttl n before s a
    → IsOrdered before cs
    → Trace c.add ttl n a cs (replies c cs s)
unfolding replies
run-refines c ttl n before [] s a g h = nil
run-refines c ttl n before (call ∷ cs) s a g h =
    let (a', allowed, g') = step-refines c ttl n before call s a g h.0 in
    cons allowed (run-refines c ttl n (reading before call) cs (step c call s) a' g' h.1)

-- The specification's first state: nothing is bound.
abbrev pub no_bindings : Spec
no_bindings = record { bindings = λ k. none; usable = true }

with_capacity-Agrees :
    (ttl : ℤ) (n : ℕ) (before : ℤ) → Agrees ttl n before (with_capacity ttl n) no_bindings
unfolding with_capacity get
with_capacity-Agrees ttl n before = record {
  well = with_capacity-IsWellFormed ttl n;
  lifetime = refl;
  ceiling = refl;
  locked = refl;
  seen = λ now k later. refl;
}

-- The replies of a store from `with_capacity` to any list of calls whose clock does not run backwards
-- are replies that the specification allows: a bind binds until the token is bound again, revoked or
-- past its deadline, is refused only where the store is bounded, the token has no live binding and as
-- many tokens as the bound have one, and panics only where its deadline is out of range; each
-- verification answers whether the token is bound to that session; and after a panic every call
-- answers `Poisoned`.
pub with_capacity-refines :
    (c : Crates) (ttl : ℤ) (n : ℕ) (before : ℤ) (cs : List Call)
    → IsOrdered before cs
    → Trace c.add ttl n no_bindings cs (replies c cs (with_capacity ttl n))
with_capacity-refines c ttl n before cs h =
    run-refines c ttl n before cs (with_capacity ttl n) no_bindings
      (with_capacity-Agrees ttl n before) h
