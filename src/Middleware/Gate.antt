-- ===== src/Middleware/Gate.antt =====
-- src/middleware/pkce_state_session.rs: when `enforce_pkce_state_session` lets a request through,
-- over any session store.
use auth_kit.Base.{◌≡◌, sym, ap, ◌∙◌, ◌↔◌, ◌⊎◌, inl, inr, true, false, none, some, Bytes}
use auth_kit.Base.Outcome.{ok, err, returns, panics}
use auth_kit.SessionStore.{SessionStoreError, SessionStore}
use auth_kit.Middleware.{
  HttpCrates, Request, Response, extract_state_token, extract_session_id, Reason,
  missing_or_oversized_state, missing_session_cookie, state_session_mismatch, store_error, allow,
  reject, enforce_pkce_state_session, invalid_state_response,
}
use auth_kit.Middleware.Reached.{
  Asked, no_token, no_session, asked, decide_allow, decide_mismatch, decide_store_error,
  request_cases, Asked-of, of_Asked, token_missing, session_missing, decide_cases,
}

module _ {S : Type 0} (h : HttpCrates) (store : SessionStore S) (next : Request → Response) where
  -- The handler's response comes back, and an `allow` record is left, exactly when the request
  -- carries a token and a session and the store answers that they are bound.
  pub enforce_allow_iff :
      (request : Request) (s : S) (r : Response)
      → ((enforce_pkce_state_session h store next request s).0 ≡ returns (allow, r))
        ↔ (Asked h store request s (returns (ok true)) × (r ≡ next request))
  enforce_allow_iff request s r = (
    λ e.
        let k =
          Asked-of h store next request s (allow, r) (returns (ok true)) (λ x. cc) (λ x. cc)
            (λ a d. ((decide_allow h store next request a r).0 d).0) e in
        let reached = asked h store next request s k.token k.session k.has_token k.has_session in
        (
          k,
          ((decide_allow h store next request (store.verify_state k.token k.session s) r).0
              (sym (ap (λ x. x.0) reached) ∙ e)).1,
        ),
    λ (k, same).
        of_Asked h store next request s (allow, r) (returns (ok true))
          (λ a d. (decide_allow h store next request a r).1 (d, same)) k,
  )

  -- The 401 of each reason is returned exactly when: the request carries no token; it carries a
  -- token and no session; the store answers that they are not bound; the store answers that error.
  -- In the first two cases the store is not called.
  pub enforce_reject_iff :
      (request : Request) (s : S) (x : SessionStoreError)
      → let answer = enforce_pkce_state_session h store next request s in
        ((answer ≡ (returns (reject missing_or_oversized_state, invalid_state_response), s))
          ↔ (extract_state_token h request ≡ none))
        × ((answer ≡ (returns (reject missing_session_cookie, invalid_state_response), s)) ↔ (
            ((token : Bytes) × (extract_state_token h request ≡ some token))
            × (extract_session_id h request ≡ none)))
        × ((answer.0 ≡ returns (reject state_session_mismatch, invalid_state_response))
            ↔ Asked h store request s (returns (ok false)))
        × ((answer.0 ≡ returns (reject (store_error x), invalid_state_response))
            ↔ Asked h store request s (returns (err x)))
  enforce_reject_iff request s x = (
    (λ e. token_missing h store next request s (ap (λ r. r.0) e), no_token h store next request s),
    (
      λ e. session_missing h store next request s (ap (λ r. r.0) e),
      λ f. no_session h store next request s f.0.0 f.0.1 f.1,
    ),
    (
      Asked-of h store next request s _ (returns (ok false)) (λ y. cc) (λ y. cc)
          (λ a. (decide_mismatch h store next request a).0),
      of_Asked h store next request s _ (returns (ok false))
          (λ a. (decide_mismatch h store next request a).1),
    ),
    (
      Asked-of h store next request s _ (returns (err x)) (λ y. cc) (λ y. cc)
          (λ a. (decide_store_error h store next request a x).0),
      of_Asked h store next request s _ (returns (err x))
          (λ a. (decide_store_error h store next request a x).1),
    ),
  )

  -- Whatever the request and the store, the answer is the handler's response with an `allow`
  -- record, the fixed 401 with a `reject` record, or a panic of the store.
  pub enforce_total :
      (request : Request) (s : S)
      → ((enforce_pkce_state_session h store next request s).0 ≡ returns (allow, next request))
        ⊎ (((r : Reason) × ((enforce_pkce_state_session h store next request s).0
                ≡ returns (reject r, invalid_state_response)))
            ⊎ Asked h store request s panics)
  enforce_total request s = elim (request_cases h store next request) [
    | inl f ↦
        inr (inl (missing_or_oversized_state, ap (λ r. r.0) (no_token h store next request s f)))
    | inr (inl (token, f, g)) ↦
        inr (
          inl (missing_session_cookie, ap (λ r. r.0) (no_session h store next request s token f g)))
    | inr (inr (token, session, f, g)) ↦
        let reached = ap (λ r. r.0) (asked h store next request s token session f g) in
        elim (decide_cases h store next request (store.verify_state token session s)) [
          | inl e ↦ inl (reached ∙ e)
          | inr (inl (r, e)) ↦ inr (inl (r, reached ∙ e))
          | inr (inr e) ↦ inr (
              inr (record {
                token = token;
                session = session;
                has_token = f;
                has_session = g;
                answered = e;
              }))
        ]
  ]
