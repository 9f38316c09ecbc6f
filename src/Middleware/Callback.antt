-- ===== src/Middleware/Callback.antt =====
-- src/middleware/pkce_state_session.rs over src/domain/session_store.rs: an OAuth callback against
-- the history of the in-memory store.
use auth_kit.Base.{
  ℕ, ◌<◌, ◌≤◌, ◌≡◌, refl, sym, ap, ◌∙◌, ◌≢◌, false, some, List, Option-cases, inl, inr, length,
  Bytes, codes, All, arith,
}
use auth_kit.Base.Int.{ℤ, ◌<ℤ◌}
use auth_kit.Base.Map.{get}
use auth_kit.Base.Outcome.{returns}
use auth_kit.SessionStore.{Crates}
use auth_kit.SessionStore.Memory.{Entry, in_memory, Call}
use auth_kit.SessionStore.Memory.History.{
  state, latest, IsBy, verify_state_sound, verify_state_complete,
}
use auth_kit.Middleware.{
  HttpCrates, Request, Response, query_param, session_cookie, extract_state_token,
  extract_session_id, and_then, state_max_len, allow, enforce_pkce_state_session,
}
use auth_kit.Middleware.Params.{
  show_query, show_cookies, show_cookies-printable, IsQueryPair, IsCookiePair,
  query_param-show_query, cookie_value-show_cookies,
}
use auth_kit.Middleware.Gate.{enforce_allow_iff}

-- The token that the handler trusts is the decoded `state` parameter, in 1024 bytes at most.
pub extract_state_token_bounds :
    (h : HttpCrates) (request : Request) (token : Bytes)
    → extract_state_token h request ≡ some token
    → (length token ≤ state_max_len)
      × (query : Bytes) × (raw : Bytes) × (request.query ≡ some query)
      × (query_param query (codes "state") ≡ some raw)
      × (h.decode raw ≡ some token)
unfolding extract_state_token
extract_state_token_bounds h request token e = elim (Option-cases request.query) [
  | inl absent ↦ cc (rw (absent, and_then) at e)
  | inr (query, present) ↦ elim (Option-cases (query_param query (codes "state"))) [
    | inl missing ↦ ground (arith, present, missing, e)
    | inr (raw, named) ↦ elim (Option-cases (h.decode raw)) [
      | inl bad ↦ ground (arith, present, named, bad, e)
      | inr (decoded, good) ↦
          let same : decoded ≡ token = ground (arith, present, named, good, e) in
          (ground (arith, present, named, good, e), query, raw, present, named, rw (← same) good)
    ]
  ]
]

module _ (h : HttpCrates) (c : Crates) (next : Request → Response) (ttl : ℤ) (n : ℕ) where
  -- With a store from `with_capacity`, a callback reaches its handler only if the session of its
  -- cookie is the one to which the token was last bound, the binding was not revoked since, and its
  -- deadline is ahead: whatever happened to the store before.
  pub callback_sound :
      (cs : List Call) (now : ℤ) (request : Request) (r : Response)
      → (enforce_pkce_state_session h (in_memory c now) next request (state c ttl n cs)).0
        ≡ returns (allow, r)
      → (token : Bytes) × (e : Entry) × (extract_state_token h request ≡ some token)
        × (extract_session_id h request ≡ some e.session_id)
        × (latest c ttl n cs token ≡ some e)
        × (now <ℤ e.expires_at)
  callback_sound cs now request r x =
      let (k, same) =
        (enforce_allow_iff h (in_memory c now) next request (state c ttl n cs) r).0 x in
      let (e, logged, session, live) =
        verify_state_sound c ttl n cs now k.token k.session k.answered in
      (k.token, e, k.has_token, k.has_session ∙ ap some (sym session), logged, live)

-- A query text that the percent decoder leaves as it is.
abbrev pub IsUnescaped : Bytes → Type 0
IsUnescaped s = All (λ c. (c < 128) × (c ≢ b'%')) s

extract_state_token-show_query :
    (h : HttpCrates) (request : Request) (ps : List (Bytes × Bytes)) (token : Bytes)
    → All IsQueryPair ps
    → request.query ≡ some (show_query ps)
    → get (codes "state") ps ≡ some token
    → IsUnescaped token
    → length token ≤ state_max_len
    → extract_state_token h request ≡ some token
unfolding extract_state_token
extract_state_token-show_query h request ps token good asked found plain short =
    rw (asked, query_param-show_query (codes "state") ps good, found, h.decode_plain token plain)
      (ground arith)

extract_session_id-show_cookies :
    (h : HttpCrates) (request : Request) (ps : List (Bytes × Bytes)) (session : Bytes)
    → All IsCookiePair ps
    → request.cookie ≡ some (show_cookies ps)
    → get (codes "session_id") ps ≡ some session
    → extract_session_id h request ≡ some session
unfolding extract_session_id session_cookie
extract_session_id-show_cookies h request ps session good asked found =
    rw
      (
        asked,
        h.to_str_printable (show_cookies ps) (show_cookies-printable ps good),
        cookie_value-show_cookies (codes "session_id") ps good,
        found,
      )
      refl

module _ (h : HttpCrates) (c : Crates) (next : Request → Response) (ttl : ℤ) (n : ℕ) where
  -- With a store from `with_capacity`, a callback whose query and cookies are written from pairs,
  -- with an unescaped `state` of at most 1024 bytes and a `session_id` cookie, reaches its handler
  -- if the token was last bound to that session, the deadline is ahead, no call before read the
  -- clock later and the lock is usable.
  pub callback_complete :
      (cs : List Call) (now : ℤ) (request : Request) (query cookies : List (Bytes × Bytes))
      (token : Bytes) (e : Entry)
      → All IsQueryPair query
      → All IsCookiePair cookies
      → request.query ≡ some (show_query query)
      → request.cookie ≡ some (show_cookies cookies)
      → get (codes "state") query ≡ some token
      → get (codes "session_id") cookies ≡ some e.session_id
      → IsUnescaped token
      → length token ≤ state_max_len
      → All (IsBy now) cs
      → (state c ttl n cs).is_poisoned ≡ false
      → latest c ttl n cs token ≡ some e
      → now <ℤ e.expires_at
      → (enforce_pkce_state_session h (in_memory c now) next request (state c ttl n cs)).0
        ≡ returns (allow, next request)
  callback_complete cs now request query cookies token e q k has_query has_cookie found session
        plain short past usable bound live =
      (enforce_allow_iff h (in_memory c now) next request (state c ttl n cs) (next request)).1 (
        record {
          token = token;
          session = e.session_id;
          has_token =
              extract_state_token-show_query h request query token q has_query found plain short;
          has_session =
              extract_session_id-show_cookies h request cookies e.session_id k has_cookie session;
          answered = verify_state_complete c ttl n cs now token e past usable bound live;
        },
        refl,
      )
