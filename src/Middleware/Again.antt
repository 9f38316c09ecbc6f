-- ===== src/Middleware/Again.antt =====
-- src/middleware/pkce_state_session.rs: what a callback that was let through leaves in the store.
use auth_kit.Base.{◌≡◌, ◌∙◌, ap, sym, subst, some, Bool, true, ◌↔◌, Bytes, false, arith}
use auth_kit.Base.Int.{ℤ, ◌<ℤ◌}
use auth_kit.Base.Map.{get, filter_value}
use auth_kit.Base.Outcome.{Result, ok, Run, returns}
use auth_kit.SessionStore.{SessionStoreError, SessionStore, Crates}
use auth_kit.SessionStore.Memory.{
  Entry, InMemorySessionStore, is_live, in_memory, evict_expired, verify_state,
}
use auth_kit.SessionStore.Memory.Invariant.{IsWellFormed, verify_state-IsWellFormed}
use auth_kit.SessionStore.Memory.View.{IsBound, verify_state_iff, get-evict_expired}
use auth_kit.Middleware.{
  HttpCrates, Request, Response, allow, extract_state_token, extract_session_id,
  enforce_pkce_state_session,
}
use auth_kit.Middleware.Reached.{Asked, enforce-store}
use auth_kit.Middleware.Gate.{enforce_allow_iff}

verify_state-inner :
    (c : Crates) (now : ℤ) (token session : Bytes) (s : InMemorySessionStore)
    → s.is_poisoned ≡ false
    → let s' = (verify_state c now token session s).1 in
      (s'.inner ≡ evict_expired now s.inner) × (s'.is_poisoned ≡ false)
unfolding verify_state
verify_state-inner c now token session s alive = ground (arith, alive)

-- A binding that a verification found is there after it.
verify_state-IsBound :
    (c : Crates) (now : ℤ) (token session : Bytes) (s : InMemorySessionStore)
    → IsWellFormed s
    → (b : IsBound s now token session) → (later : ℤ) → later <ℤ b.entry.expires_at
    → IsBound (verify_state c now token session s).1 later token session
verify_state-IsBound c now token session s w b later ahead =
    let (left, usable) = verify_state-inner c now token session s b.usable in
    let live = b.live in
    let found = b.found in
    let evicted = get-evict_expired now token s.inner w.distinct in
    record {
      usable = usable;
      entry = b.entry;
      found =
          ap (get token) left
          ∙ evicted
          ∙ ap (filter_value (is_live now)) found
          ∙ ground (arith, live);
      same = b.same;
      live = ahead;
    }

-- The binding that a verification found is the one that is there after it.
verify_state-deadline :
    (c : Crates) (now later : ℤ) (token session : Bytes) (s : InMemorySessionStore)
    → IsWellFormed s
    → (b : IsBound s now token session)
    → IsBound (verify_state c now token session s).1 later token session
    → later <ℤ b.entry.expires_at
verify_state-deadline c now later token session s w b b' =
    let (left, usable) = verify_state-inner c now token session s b.usable in
    let live = b.live in
    let found = b.found in
    let evicted = get-evict_expired now token s.inner w.distinct in
    let kept : get token (evict_expired now s.inner) ≡ some b.entry =
      evicted ∙ ap (filter_value (is_live now)) found ∙ ground (arith, live) in
    let same : some b'.entry ≡ some b.entry = sym b'.found ∙ ap (get token) left ∙ kept in
    let one : b'.entry ≡ b.entry = cc (same) in
    subst (λ (x : Entry). later <ℤ x.expires_at) one b'.live

-- What the store answers to the token and the session that the request carries.
Asked-answer :
    {S : Type 0} (h : HttpCrates) (store : SessionStore S) (request : Request) (s : S)
    (answer : Run (Result SessionStoreError Bool)) (token session : Bytes)
    → extract_state_token h request ≡ some token
    → extract_session_id h request ≡ some session
    → Asked h store request s answer
    → (store.verify_state token session s).0 ≡ answer
Asked-answer h store request s answer token session f g a =
    let same_token : some a.token ≡ some token = sym a.has_token ∙ f in
    let same_session : some a.session ≡ some session = sym a.has_session ∙ g in
    ap (λ x. (store.verify_state x session s).0) (sym (cc (same_token)))
    ∙ ap (λ x. (store.verify_state a.token x s).0) (sym (cc (same_session)))
    ∙ a.answered

-- A callback that was let through does not use its binding up: the same request is let through
-- again exactly at the times before a deadline, which is after the time of the first.
pub callback_again_iff :
    (h : HttpCrates) (c : Crates) (next : Request → Response) (now : ℤ) (request : Request)
    (r : Response) (s : InMemorySessionStore)
    → IsWellFormed s
    → (enforce_pkce_state_session h (in_memory c now) next request s).0 ≡ returns (allow, r)
    → (deadline : ℤ) × (now <ℤ deadline)
      × ((later : ℤ)
          → ((enforce_pkce_state_session h
                (in_memory c later)
                next
                request
                (enforce_pkce_state_session h (in_memory c now) next request s).1).0
              ≡ returns (allow, r))
            ↔ (later <ℤ deadline))
callback_again_iff h c next now request r s w e =
    let (k, same) = (enforce_allow_iff h (in_memory c now) next request s r).0 e in
    let b = (verify_state_iff c now k.token k.session s w).0 k.answered in
    let s' = (verify_state c now k.token k.session s).1 in
    let w' = verify_state-IsWellFormed c now k.token k.session s w in
    let left =
      enforce-store h (in_memory c now) next request s k.token k.session k.has_token
        k.has_session in
    (
      b.entry.expires_at,
      b.live,
      λ later.
          let (to, from) =
            enforce_allow_iff h (in_memory c later) next request
              (enforce_pkce_state_session h (in_memory c now) next request s).1 r in
          let (found, finds) = verify_state_iff c later k.token k.session s' w' in
          (
            λ e'. verify_state-deadline c now later k.token k.session s w b (
                found (
                  ap (λ x. (verify_state c later k.token k.session x).0) (sym left)
                  ∙ Asked-answer h (in_memory c later) request
                      (enforce_pkce_state_session h (in_memory c now) next request s).1
                      (returns (ok true)) k.token k.session k.has_token k.has_session (to e').0)),
            λ ahead. from (
              record {
                token = k.token;
                session = k.session;
                has_token = k.has_token;
                has_session = k.has_session;
                answered =
                    ap (λ x. (verify_state c later k.token k.session x).0) left
                    ∙ finds (verify_state-IsBound c now k.token k.session s w b later ahead);
              },
              same,
            ),
          ),
    )
