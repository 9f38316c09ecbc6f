-- ===== src/Middleware/Integration.antt =====
-- tests/integration_test.rs: the tests of the public names, with one reading `now` of the clock for
-- a test. A test answers whether all its assertions hold; the store as a trait object is the
-- in-memory one.
use auth_kit.Base.{Bool, ◌&&◌, ◌==◌, none, some, beq, codes}
use auth_kit.Base.Find.{contains_text}
use auth_kit.Base.Int.{ℤ}
use auth_kit.SessionStore.{Crates}
use auth_kit.SessionStore.Memory.{default_store, with_ttl, verify_state, revoke_state}
use auth_kit.SessionStore.Memory.Suite.{
  is_true, is_false, is_ok, minus_second, binds_ok, verifies_to,
}
use auth_kit.Middleware.{Request, Response, content}
use auth_kit.Middleware.Suite.{SuiteCrates, body_text, oneshot, bound, has_status}

-- The route's handler in `oauth_router`.
abbrev callback_ok : Request → Response
callback_ok request = record { status = 200; body = content (codes "callback_ok") }

module _ (t : SuiteCrates) (c : Crates) (now : ℤ) where
  unfoldable pub integration_valid_callback_passes_through : Bool
  integration_valid_callback_passes_through =
      bound t c now default_store (codes "abc-123-state") (codes "user-session-42") λ store.
        oneshot t c now callback_ok store (codes "/oauth/callback?state=abc-123-state")
          (some (codes "session_id=user-session-42"))
          λ response.
            response.status == 200 && beq (body_text t c now response) (codes "callback_ok")

  unfoldable pub integration_unbound_state_rejected : Bool
  integration_unbound_state_rejected =
      oneshot t c now callback_ok default_store (codes "/oauth/callback?state=forged-state")
        (some (codes "session_id=user-session-42"))
        λ response.
          response.status == 401
          && (contains_text (body_text t c now response) (codes "invalid_state")
              && contains_text (body_text t c now response) (codes "CSRF check failed"))

  unfoldable pub integration_wrong_session_rejected : Bool
  integration_wrong_session_rejected =
      bound t c now default_store (codes "state-abc") (codes "session-A") λ store.
        oneshot t c now callback_ok store (codes "/oauth/callback?state=state-abc")
          (some (codes "session_id=session-B")) (has_status t c now 401)

  unfoldable pub integration_missing_state_rejected : Bool
  integration_missing_state_rejected =
      bound t c now default_store (codes "state-abc") (codes "session-1") λ store.
        oneshot t c now callback_ok store (codes "/oauth/callback")
          (some (codes "session_id=session-1")) (has_status t c now 401)

  unfoldable pub integration_missing_cookie_rejected : Bool
  integration_missing_cookie_rejected =
      bound t c now default_store (codes "state-abc") (codes "session-1") λ store.
        oneshot t c now callback_ok store (codes "/oauth/callback?state=state-abc") none
          (has_status t c now 401)

  unfoldable pub integration_authkit_session_cookie_alias : Bool
  integration_authkit_session_cookie_alias =
      bound t c now default_store (codes "state-x") (codes "sess-x") λ store.
        oneshot t c now callback_ok store (codes "/oauth/callback?state=state-x")
          (some (codes "authkit_session=sess-x")) (has_status t c now 200)

  unfoldable pub integration_authvault_session_cookie_alias : Bool
  integration_authvault_session_cookie_alias =
      bound t c now default_store (codes "state-y") (codes "sess-y") λ store.
        oneshot t c now callback_ok store (codes "/oauth/callback?state=state-y")
          (some (codes "authvault_session=sess-y")) (has_status t c now 200)

  unfoldable pub integration_sid_cookie_alias : Bool
  integration_sid_cookie_alias =
      bound t c now default_store (codes "state-z") (codes "sess-z") λ store.
        oneshot t c now callback_ok store (codes "/oauth/callback?state=state-z")
          (some (codes "sid=sess-z")) (has_status t c now 200)

module _ (c : Crates) (now : ℤ) where
  unfoldable pub integration_session_store_trait_lifecycle : Bool
  integration_session_store_trait_lifecycle =
      let (bound_1, s_1) = binds_ok c now default_store (codes "s1") (codes "sess-1") in
      let (answer_1, s_2) = verify_state c now (codes "s1") (codes "sess-1") s_1 in
      let (answer_2, s_3) = verify_state c now (codes "s1") (codes "sess-other") s_2 in
      let (answer_3, s_4) = verify_state c now (codes "unknown") (codes "sess-1") s_3 in
      let (bound_2, s_5) = binds_ok c now s_4 (codes "s1") (codes "sess-2") in
      let (answer_4, s_6) = verify_state c now (codes "s1") (codes "sess-2") s_5 in
      let (answer_5, s_7) = verify_state c now (codes "s1") (codes "sess-1") s_6 in
      let (revoked, s_8) = revoke_state (codes "s1") s_7 in
      let (answer_6, s_9) = verify_state c now (codes "s1") (codes "sess-2") s_8 in
      bound_1
      && (is_true answer_1
          && (is_false answer_2
              && (is_false answer_3
                  && (bound_2
                      && (is_true answer_4
                          && (is_false answer_5
                              && (is_ok revoked
                                  && (is_false answer_6
                                      && is_ok (revoke_state (codes "already-gone") s_9).0))))))))

  unfoldable pub integration_expired_entries_evicted : Bool
  integration_expired_entries_evicted =
      let (done, s) =
        binds_ok c now (with_ttl minus_second) (codes "expired-state") (codes "sess-1") in
      done && is_false (verifies_to c now s (codes "expired-state") (codes "sess-1"))
