-- ===== src/Middleware/Acceptance.antt =====
-- src/middleware/pkce_state_session.rs over src/domain/session_store.rs: the acceptance criteria of
-- FR-AUTHV-018 (specs/requirements/authkit-frnfr.md), all five in one.
use auth_kit.Base.{ℕ, ◌≡◌, refl, ◌⊎◌, inl, inr, false, some, List, Bytes, All}
use auth_kit.Base.Int.{ℤ, ◌<ℤ◌}
use auth_kit.Base.Outcome.{returns}
use auth_kit.SessionStore.{Crates}
use auth_kit.SessionStore.Memory.{Entry, in_memory, Call}
use auth_kit.SessionStore.Memory.History.{state, latest, IsBy, verify_state_complete}
use auth_kit.SessionStore.Memory.Poison.{verify_state-returns}
use auth_kit.Middleware.{
  HttpCrates, Request, Response, Reason, extract_state_token, extract_session_id, allow, reject,
  invalid_state_response, enforce_pkce_state_session,
}
use auth_kit.Middleware.Gate.{enforce_allow_iff, enforce_total}
use auth_kit.Middleware.Callback.{callback_sound}

module _ (h : HttpCrates) (c : Crates) (next : Request → Response) (ttl : ℤ) (n : ℕ) where
  -- The request carries a state token and the session to which the token was last bound, and the
  -- binding is neither revoked nor expired.
  pub record IsValid (cs : List Call) (now : ℤ) (request : Request) : Type 0 where
    pub token : Bytes
    pub entry : Entry
    pub has_token : extract_state_token h request ≡ some token
    pub has_session : extract_session_id h request ≡ some entry.session_id
    pub bound : latest c ttl n cs token ≡ some entry
    pub live : now <ℤ entry.expires_at

  valid-allow :
      (cs : List Call) (now : ℤ) (request : Request)
      → All (IsBy now) cs
      → (state c ttl n cs).is_poisoned ≡ false
      → IsValid cs now request
      → (enforce_pkce_state_session h (in_memory c now) next request (state c ttl n cs)).0
        ≡ returns (allow, next request)
  valid-allow cs now request past usable v =
      (enforce_allow_iff h (in_memory c now) next request (state c ttl n cs) (next request)).1 (
        record {
          token = v.token;
          session = v.entry.session_id;
          has_token = v.has_token;
          has_session = v.has_session;
          answered =
              verify_state_complete c ttl n cs now v.token v.entry past usable v.bound v.live;
        },
        refl,
      )

  -- With a store from `with_capacity` whose lock is usable and whose calls read the clock at most now,
  -- a callback either carries a token and the session to which it was last bound, with the binding
  -- neither revoked nor expired, and gets the handler's response; or it does not, and gets the fixed
  -- 401 with a `reject` record.
  pub callback_decides :
      (cs : List Call) (now : ℤ) (request : Request)
      → All (IsBy now) cs
      → (state c ttl n cs).is_poisoned ≡ false
      → let answer =
          (enforce_pkce_state_session h (in_memory c now) next request (state c ttl n cs)).0 in
        (IsValid cs now request × (answer ≡ returns (allow, next request)))
        ⊎ ((¬ IsValid cs now request)
            × (r : Reason) × (answer ≡ returns (reject r, invalid_state_response)))
  callback_decides cs now request past usable =
      elim (enforce_total h (in_memory c now) next request (state c ttl n cs)) [
        | inl allowed ↦
            let (token, e, has_token, has_session, bound, live) =
              callback_sound h c next ttl n cs now request (next request) allowed in
            inl (
              record {
                token = token;
                entry = e;
                has_token = has_token;
                has_session = has_session;
                bound = bound;
                live = live;
              },
              allowed,
            )
        | inr (inl (r, rejected)) ↦
            inr (λ v. cc (valid-allow cs now request past usable v, rejected), r, rejected)
        | inr (inr a) ↦
            absurd (verify_state-returns c now a.token a.session (state c ttl n cs) a.answered)
      ]
