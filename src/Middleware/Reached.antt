-- ===== src/Middleware/Reached.antt =====
-- src/middleware/pkce_state_session.rs: what a request reaches in `enforce_pkce_state_session`, and
-- what each verdict says of it.
use auth_kit.Base.{
  ◌≡◌, refl, sym, ap, ◌∙◌, ◌≢◌, ◌↔◌, ◌⊎◌, inl, inr, Bool, true, false, none, some, Option-cases,
  Bytes, arith,
}
use auth_kit.Base.Outcome.{Result, ok, err, Run, returns, panics}
use auth_kit.SessionStore.{SessionStoreError, SessionStore}
use auth_kit.Middleware.{
  HttpCrates, Request, Response, extract_state_token, extract_session_id, Reason,
  missing_or_oversized_state, missing_session_cookie, state_session_mismatch, store_error, Audit,
  allow, reject, decide, enforce_pkce_state_session, invalid_state_response,
}

-- What the middleware finds in the request and asks of the store.
pub record Asked {S : Type 0} (h : HttpCrates) (store : SessionStore S) (request : Request) (s : S)
    (answer : Run (Result SessionStoreError Bool)) : Type 0 where
  pub token : Bytes
  pub session : Bytes
  pub has_token : extract_state_token h request ≡ some token
  pub has_session : extract_session_id h request ≡ some session
  pub answered : (store.verify_state token session s).0 ≡ answer

module _ {S : Type 0} (h : HttpCrates) (store : SessionStore S) (next : Request → Response) where
  pub no_token :
      (request : Request) (s : S)
      → extract_state_token h request ≡ none
      → enforce_pkce_state_session h store next request s
        ≡ (returns (reject missing_or_oversized_state, invalid_state_response), s)
  unfolding enforce_pkce_state_session
  no_token request s e = rw (e, enforce_pkce_state_session)

  pub no_session :
      (request : Request) (s : S) (token : Bytes)
      → extract_state_token h request ≡ some token
      → extract_session_id h request ≡ none
      → enforce_pkce_state_session h store next request s
        ≡ (returns (reject missing_session_cookie, invalid_state_response), s)
  unfolding enforce_pkce_state_session
  no_session request s token e f = rw (e, f, enforce_pkce_state_session)

  pub asked :
      (request : Request) (s : S) (token session : Bytes)
      → extract_state_token h request ≡ some token
      → extract_session_id h request ≡ some session
      → enforce_pkce_state_session h store next request s
        ≡ decide h store next request (store.verify_state token session s)
  unfolding enforce_pkce_state_session
  asked request s token session e f = rw (e, f, enforce_pkce_state_session)

  pub decide_allow :
      (request : Request) (a : Run (Result SessionStoreError Bool) × S) (r : Response)
      → ((decide h store next request a).0 ≡ returns (allow, r))
        ↔ ((a.0 ≡ returns (ok true)) × (r ≡ next request))
  unfolding decide
  decide_allow request (returns (ok true), s) r = (λ e. (refl, cc), λ e. ground (arith, e.1))
  decide_allow request (returns (ok false), s) r = (λ e. cc, λ e. cc (e.0))
  decide_allow request (returns (err x), s) r = (λ e. cc, λ e. cc (e.0))
  decide_allow request (panics, s) r = (λ e. cc, λ e. cc (e.0))

  pub decide_mismatch :
      (request : Request) (a : Run (Result SessionStoreError Bool) × S)
      → ((decide h store next request a).0
          ≡ returns (reject state_session_mismatch, invalid_state_response))
        ↔ (a.0 ≡ returns (ok false))
  unfolding decide
  decide_mismatch request (returns (ok true), s) = (λ e. cc, λ e. cc)
  decide_mismatch request (returns (ok false), s) = (λ e. refl, λ e. refl)
  decide_mismatch request (returns (err x), s) = (λ e. cc, λ e. cc)
  decide_mismatch request (panics, s) = (λ e. cc, λ e. cc)

  pub decide_store_error :
      (request : Request) (a : Run (Result SessionStoreError Bool) × S) (x : SessionStoreError)
      → ((decide h store next request a).0
          ≡ returns (reject (store_error x), invalid_state_response))
        ↔ (a.0 ≡ returns (err x))
  unfolding decide
  decide_store_error request (returns (ok true), s) x = (λ e. cc, λ e. cc)
  decide_store_error request (returns (ok false), s) x = (λ e. cc, λ e. cc)
  decide_store_error request (returns (err y), s) x = (λ e. cc, λ e. cc)
  decide_store_error request (panics, s) x = (λ e. cc, λ e. cc)

  -- A request fails to give a token, or gives one and no session, or gives both.
  pub request_cases :
      (request : Request)
      → (extract_state_token h request ≡ none)
        ⊎ (((token : Bytes) × (extract_state_token h request ≡ some token)
              × (extract_session_id h request ≡ none))
            ⊎ ((token : Bytes) × (session : Bytes) × (extract_state_token h request ≡ some token)
                × (extract_session_id h request ≡ some session)))
  request_cases request = elim (Option-cases (extract_state_token h request)) [
    | inl e ↦ inl e
    | inr (token, e) ↦ elim (Option-cases (extract_session_id h request)) [
      | inl f ↦ inr (inl (token, e, f))
      | inr (session, f) ↦ inr (inr (token, session, e, f))
    ]
  ]

  -- What a verdict that comes from the store's answer says of that answer.
  pub Asked-of :
      (request : Request) (s : S) (verdict : Audit × Response)
      (answer : Run (Result SessionStoreError Bool))
      → verdict ≢ (reject missing_or_oversized_state, invalid_state_response)
      → verdict ≢ (reject missing_session_cookie, invalid_state_response)
      → ((a : Run (Result SessionStoreError Bool) × S)
          → (decide h store next request a).0 ≡ returns verdict
          → a.0 ≡ answer)
      → (enforce_pkce_state_session h store next request s).0 ≡ returns verdict
      → Asked h store request s answer
  Asked-of request s verdict answer n1 n2 from e = elim (request_cases request) [
    | inl none_found ↦ absurd (n1 (cc (no_token request s none_found)))
    | inr (inl (token, f, g)) ↦ absurd (n2 (cc (no_session request s token f g)))
    | inr (inr (token, session, f, g)) ↦ record {
      token = token;
      session = session;
      has_token = f;
      has_session = g;
      answered =
          from (store.verify_state token session s)
            (sym (ap (λ r. r.0) (asked request s token session f g)) ∙ e);
    }
  ]

  pub of_Asked :
      (request : Request) (s : S) (verdict : Audit × Response)
      (answer : Run (Result SessionStoreError Bool))
      → ((a : Run (Result SessionStoreError Bool) × S)
          → a.0 ≡ answer
          → (decide h store next request a).0 ≡ returns verdict)
      → Asked h store request s answer
      → (enforce_pkce_state_session h store next request s).0 ≡ returns verdict
  of_Asked request s verdict answer to k =
      ap (λ r. r.0) (asked request s k.token k.session k.has_token k.has_session)
      ∙ to (store.verify_state k.token k.session s) k.answered

  decide_not_missing :
      (request : Request) (a : Run (Result SessionStoreError Bool) × S) (r : Reason)
      → (r ≡ missing_or_oversized_state) ⊎ (r ≡ missing_session_cookie)
      → (decide h store next request a).0 ≢ returns (reject r, invalid_state_response)
  unfolding decide
  decide_not_missing request (returns (ok true), s) r k e = cc
  decide_not_missing request (returns (ok false), s) r k e = ground (arith, k)
  decide_not_missing request (returns (err y), s) r k e = ground (arith, k)
  decide_not_missing request (panics, s) r k e = cc

  pub token_missing :
      (request : Request) (s : S)
      → (enforce_pkce_state_session h store next request s).0
        ≡ returns (reject missing_or_oversized_state, invalid_state_response)
      → extract_state_token h request ≡ none
  token_missing request s e = elim (request_cases request) [
    | inl f ↦ f
    | inr (inl (token, f, g)) ↦ cc (no_session request s token f g)
    | inr (inr (token, session, f, g)) ↦ absurd (
        decide_not_missing request (store.verify_state token session s) _ (inl refl)
          (sym (ap (λ r. r.0) (asked request s token session f g)) ∙ e))
  ]

  pub session_missing :
      (request : Request) (s : S)
      → (enforce_pkce_state_session h store next request s).0
        ≡ returns (reject missing_session_cookie, invalid_state_response)
      → ((token : Bytes) × (extract_state_token h request ≡ some token))
        × (extract_session_id h request ≡ none)
  session_missing request s e = elim (request_cases request) [
    | inl f ↦ cc (no_token request s f)
    | inr (inl (token, f, g)) ↦ ((token, f), g)
    | inr (inr (token, session, f, g)) ↦ absurd (
        decide_not_missing request (store.verify_state token session s) _ (inr refl)
          (sym (ap (λ r. r.0) (asked request s token session f g)) ∙ e))
  ]

  pub decide_cases :
      (request : Request) (a : Run (Result SessionStoreError Bool) × S)
      → ((decide h store next request a).0 ≡ returns (allow, next request))
        ⊎ (((r : Reason) × ((decide h store next request a).0
                ≡ returns (reject r, invalid_state_response)))
            ⊎ (a.0 ≡ panics))
  unfolding decide
  decide_cases request (returns (ok true), s) = inl refl
  decide_cases request (returns (ok false), s) = inr (inl (state_session_mismatch, refl))
  decide_cases request (returns (err x), s) = inr (inl (store_error x, refl))
  decide_cases request (panics, s) = inr (inr refl)

  decide-store :
      (request : Request) (a : Run (Result SessionStoreError Bool) × S)
      → (decide h store next request a).1 ≡ a.1
  unfolding decide
  decide-store request (returns (ok true), s) = refl
  decide-store request (returns (ok false), s) = refl
  decide-store request (returns (err e), s) = refl
  decide-store request (panics, s) = refl

  -- The store after a request that has a token and a session is the store after `verify_state`.
  pub enforce-store :
      (request : Request) (s : S) (token session : Bytes)
      → extract_state_token h request ≡ some token
      → extract_session_id h request ≡ some session
      → (enforce_pkce_state_session h store next request s).1
        ≡ (store.verify_state token session s).1
  enforce-store request s token session e f =
      ap (λ r. r.1) (asked request s token session e f)
      ∙ decide-store request (store.verify_state token session s)
