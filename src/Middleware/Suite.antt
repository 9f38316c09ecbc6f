-- ===== src/Middleware/Suite.antt =====
-- src/middleware/pkce_state_session.rs: the module `tests`, with one reading `now` of the clock for
-- a test. A test answers whether all its assertions hold.
use auth_kit.Base.{
  ℕ, ◌+◌, Bool, false, ◌&&◌, ◌==◌, Option, none, some, ◌++◌, replicate, beq, Bytes, codes,
}
use auth_kit.Base.Find.{contains_text}
use auth_kit.Base.Int.{ℤ, negsuc}
use auth_kit.Base.Json.{Json, string, object, end, member}
use auth_kit.Base.Outcome.{ok, err, returns, panics}
use auth_kit.SessionStore.{Crates}
use auth_kit.SessionStore.Memory.{
  InMemorySessionStore, default_store, with_ttl, bind_state, in_memory,
}
use auth_kit.Middleware.{
  HttpCrates, Request, InvalidStateBody, json, content, Response, state_max_len,
  enforce_pkce_state_session,
}

-- `InvalidStateBody` as the derived `Serialize` writes it.
unfoldable pub write_body : InvalidStateBody → Json
write_body b = object (
    member (codes "error") (string b.error)
      (member (codes "description") (string b.description) end))

-- What the tests use of the crates beside the middleware: the query of a URI, or `none` where the
-- text is no URI, and the text of a JSON value.
pub record SuiteCrates : Type 0 where
  pub http : HttpCrates
  pub parse_uri : Bytes → Option (Option Bytes)
  pub to_string : Json → Bytes

-- The route's handler in `router`.
abbrev route_handler : Request → Response
route_handler request = record { status = 200; body = content (codes "ok") }

-- `Duration::seconds(-1)`.
abbrev minus_second : ℤ
minus_second = negsuc 999_999_999

abbrev callback_state_1 : Bytes
callback_state_1 = codes "/oauth/callback?state=state-1"

abbrev session_1_cookie : Option Bytes
session_1_cookie = some (codes "session_id=session-1")

module _ (t : SuiteCrates) (c : Crates) (now : ℤ) where
  unfoldable pub body_text : Response → Bytes
  unfolding write_body
  body_text response = elim response.body [ json b ↦ t.to_string (write_body b) | content s ↦ s ]

  -- `oneshot` of a router, with the handler of its route, on a request with a URI and a cookie; a
  -- panic fails the test.
  unfoldable pub oneshot :
      (Request → Response) → InMemorySessionStore → Bytes → Option Bytes → (Response → Bool) → Bool
  oneshot handler store uri cookie next = elim (t.parse_uri uri) [
    | none ↦ false
    | some query ↦
        elim (enforce_pkce_state_session t.http (in_memory c now) handler
          (record { query = query; cookie = cookie }) store).0 [
            | returns (audit, response) ↦ next response
            | panics ↦ false
          ]
  ]

  -- `bind_state(…).unwrap()`, and what the test does then.
  unfoldable pub bound : InMemorySessionStore → Bytes → Bytes → (InMemorySessionStore → Bool) → Bool
  bound store token session next =
      let (answer, store') = bind_state c now now token session store in
      elim answer [ returns (ok u) ↦ next store' | returns (err e) ↦ false | panics ↦ false ]

  abbrev pub has_status : ℕ → Response → Bool
  has_status status response = response.status == status

  unfoldable pub valid_binding_allows_callback : Bool
  unfolding oneshot bound body_text
  valid_binding_allows_callback = bound default_store (codes "state-1") (codes "session-1") λ store.
      oneshot route_handler store callback_state_1 session_1_cookie
        λ response. response.status == 200 && beq (body_text response) (codes "ok")

  unfoldable pub missing_state_is_rejected : Bool
  unfolding oneshot body_text
  missing_state_is_rejected =
      oneshot route_handler default_store (codes "/oauth/callback") session_1_cookie λ response.
        response.status == 401
        && (contains_text (body_text response) (codes "invalid_state")
            && contains_text (body_text response) (codes "CSRF check failed"))

  unfoldable pub missing_cookie_is_rejected : Bool
  unfolding oneshot bound
  missing_cookie_is_rejected =
      bound default_store (codes "state-1") (codes "session-1")
        λ store. oneshot route_handler store callback_state_1 none (has_status 401)

  unfoldable pub wrong_session_binding_is_rejected : Bool
  unfolding oneshot bound
  wrong_session_binding_is_rejected =
      bound default_store (codes "state-1") (codes "session-1") λ store.
        oneshot route_handler store callback_state_1 (some (codes "session_id=session-2"))
          (has_status 401)

  unfoldable pub expired_state_is_rejected : Bool
  unfolding oneshot bound
  expired_state_is_rejected =
      bound (with_ttl minus_second) (codes "state-1") (codes "session-1")
        λ store. oneshot route_handler store callback_state_1 session_1_cookie (has_status 401)

  unfoldable pub percent_encoded_state_matches_decoded_binding : Bool
  unfolding oneshot bound
  percent_encoded_state_matches_decoded_binding =
      bound default_store (codes "hello world") (codes "session-1") λ store.
        oneshot route_handler store (codes "/oauth/callback?state=hello%20world") session_1_cookie
          (has_status 200)

  unfoldable pub oversized_state_is_rejected : Bool
  unfolding oneshot bound
  oversized_state_is_rejected =
      let big_state = replicate (state_max_len + 1) b'x' in
      bound default_store big_state (codes "session-1") λ store.
        oneshot route_handler store (codes "/oauth/callback?state=" ++ big_state) session_1_cookie
          (has_status 401)

  unfoldable pub constant_time_compare_rejects_same_length_mismatch : Bool
  unfolding oneshot bound
  constant_time_compare_rejects_same_length_mismatch =
      bound default_store (codes "state-ct") (codes "aaaaaaaaaaaa") λ store.
        oneshot route_handler store (codes "/oauth/callback?state=state-ct")
          (some (codes "session_id=bbbbbbbbbbbb")) (has_status 401)
