-- ===== src/Middleware.antt =====
-- src/middleware/pkce_state_session.rs: the middleware that lets an OAuth callback through only if
-- its `state` is bound to the session of its cookie.
pub mod Params
pub mod Reached
pub mod Gate
pub mod Callback
pub mod Again
pub mod Acceptance
pub mod Suite
pub mod Integration
mod Tests
use auth_kit.Base.{
  ℕ, ◌<◌, ◌≡◌, ◌≢◌, Bool, true, false, Option, none, some, ltb, if◌then◌else◌, ◌++◌, ◌∷◌, length,
  All, Bytes, beq, codes,
}
use auth_kit.Base.Outcome.{Result, ok, err, Run, returns, panics}
use auth_kit.Base.Str.{split, split_once, find_map, trim}
use auth_kit.SessionStore.{SessionStoreError, SessionStore}

-- `STATE_MAX_LEN`.
abbrev pub state_max_len : ℕ
state_max_len = 1024

-- What the middleware uses of the crates `percent-encoding` and `http`: `decode` is
-- `percent_decode_str(…).decode_utf8()`, which leaves an ASCII text without `%` as it is, and
-- `to_str` is `HeaderValue::to_str`, which gives a value of visible characters and spaces as it is.
pub record HttpCrates : Type 0 where
  pub decode : Bytes → Option Bytes
  pub decode_plain : (s : Bytes) → All (λ c. (c < 128) × (c ≢ b'%')) s → decode s ≡ some s
  pub to_str : Bytes → Option Bytes
  pub to_str_printable : (s : Bytes) → All (λ c. (31 < c) × (c < 127)) s → to_str s ≡ some s

-- What the middleware reads of a request: `uri().query()` and the value of the first `Cookie`
-- header.
pub record Request : Type 0 where
  pub query : Option Bytes
  pub cookie : Option Bytes

-- `InvalidStateBody`.
pub record InvalidStateBody : Type 0 where
  pub error : Bytes
  pub description : Bytes

-- A response body: the JSON of an `InvalidStateBody`, or what a handler made.
pub data Body : Type 0 where
  json : InvalidStateBody → Body
  content : Bytes → Body

pub record Response : Type 0 where
  pub status : ℕ
  pub body : Body

-- `INVALID_STATE_DESCRIPTION`, with its dash as the UTF-8 bytes E2 80 94.
abbrev pub invalid_state_description : Bytes
invalid_state_description =
    codes "CSRF check failed " ++ 0xe2 ∷ 0x80 ∷ 0x94 ∷ codes " state not bound to session"

unfoldable pub invalid_state_response : Response
invalid_state_response = record {
  status = 401;
  body = json (record { error = codes "invalid_state"; description = invalid_state_description });
}

-- The closure of `query_param`.
unfoldable pub query_pair : Bytes → Bytes → Option Bytes
query_pair key pair = elim (split_once b'=' pair) [
  | none ↦ none
  | some (name, value) ↦ if beq name key then some value else none
]

unfoldable pub query_param : Bytes → Bytes → Option Bytes
query_param query key = find_map (query_pair key) (split b'&' query)

-- The closure of `cookie_value`.
unfoldable pub cookie_pair : Bytes → Bytes → Option Bytes
cookie_pair key pair = elim (split_once b'=' (trim pair)) [
  | none ↦ none
  | some (name, value) ↦ if beq (trim name) key then some (trim value) else none
]

unfoldable pub cookie_value : Bytes → Bytes → Option Bytes
cookie_value header key = find_map (cookie_pair key) (split b';' header)

-- `Option::or_else`.
abbrev pub or_else {ℓ} : {A : Type ℓ} → Option A → Option A → Option A
or_else none o = o
or_else (some a) o = some a

-- `Option::and_then`.
abbrev pub and_then {ℓ κ} : {A : Type ℓ} {B : Type κ} → Option A → (A → Option B) → Option B
and_then none f = none
and_then (some a) f = f a

-- The closure of `extract_session_id` on the cookie header.
unfoldable pub session_cookie : Bytes → Option Bytes
session_cookie cookie = or_else (cookie_value cookie (codes "session_id")) (
    or_else (cookie_value cookie (codes "authkit_session")) (
      or_else (cookie_value cookie (codes "authvault_session"))
        (cookie_value cookie (codes "sid"))))

unfoldable pub extract_session_id : HttpCrates → Request → Option Bytes
extract_session_id h request =
    and_then (and_then request.cookie (λ value. h.to_str value)) (λ cookie. session_cookie cookie)

unfoldable pub extract_state_token : HttpCrates → Request → Option Bytes
extract_state_token h request =
    and_then (and_then request.query (λ query. query_param query (codes "state"))) λ raw.
      and_then (h.decode raw)
        λ decoded. if ltb state_max_len (length decoded) then none else some decoded

-- The `reason` of an audit record.
pub data Reason : Type 0 where
  missing_or_oversized_state missing_session_cookie state_session_mismatch : Reason
  store_error : SessionStoreError → Reason

-- The audit record that a request leaves.
pub data Audit : Type 0 where
  allow : Audit
  reject : Reason → Audit

module _ {S : Type 0} (h : HttpCrates) (store : SessionStore S) (next : Request → Response) where
  -- The match on the answer of `verify_state`.
  unfoldable pub decide :
      Request → Run (Result SessionStoreError Bool) × S → Run (Audit × Response) × S
  decide request (returns (ok true), s) = (returns (allow, next request), s)
  decide request (returns (ok false), s) =
      (returns (reject state_session_mismatch, invalid_state_response), s)
  decide request (returns (err e), s) =
      (returns (reject (store_error e), invalid_state_response), s)
  decide request (panics, s) = (panics, s)

  unfoldable pub enforce_pkce_state_session : Request → S → Run (Audit × Response) × S
  unfolding decide
  enforce_pkce_state_session request s = elim (extract_state_token h request) [
    | none ↦ (returns (reject missing_or_oversized_state, invalid_state_response), s)
    | some state_token ↦ elim (extract_session_id h request) [
      | none ↦ (returns (reject missing_session_cookie, invalid_state_response), s)
      | some session_id ↦ decide request (store.verify_state state_token session_id s)
    ]
  ]
