-- ===== src/Fuzz.antt =====
-- fuzz/fuzz_target.rs: the fuzz target, which sends a callback through the middleware.
pub mod Header
pub mod Panics
mod Tests
use auth_kit.Base.{
  ◌/◌, ◌≤◌, ◌≡◌, ◌≢◌, ◌↔◌, ◌⊎◌, Bool, true, Option, none, some, [], ◌∷◌, ◌++◌, if◌then◌else◌,
  length, All, Bytes, codes,
}
use auth_kit.Base.Int.{ℤ}
use auth_kit.Base.Outcome.{Run, returns, panics}
use auth_kit.Base.Panic.{◌>>=◌}
use auth_kit.Base.Utf8.{is_utf8, split_at}
use auth_kit.SessionStore.{Crates}
use auth_kit.SessionStore.Memory.{default_store, bind_state, in_memory}
use auth_kit.Middleware.{HttpCrates, Request, content, Response, Audit, enforce_pkce_state_session}

-- What the target uses of the crates `http` and `tokio`: the query of a URI, or `none` where the
-- text is no URI; is the value of a header valid, which is so of tabs and of bytes from 32 on but
-- 127; and does a runtime start.
pub record FuzzCrates : Type 0 where
  pub parse_uri : Bytes → Option (Option Bytes)
  pub is_header_value : Bytes → Bool
  pub is_header_value_iff :
      (s : Bytes) → (is_header_value s ≡ true) ↔ All (λ c. (c ≡ 9) ⊎ ((32 ≤ c) × (c ≢ 127))) s
  pub new_runtime : Bool

-- The URI and the cookie of the request.
abbrev pub callback_uri : Bytes → Bytes
callback_uri query_val = codes "/oauth/callback?state=" ++ query_val

abbrev pub callback_cookie : Bytes → Bytes
callback_cookie cookie_val = codes "session_id=" ++ cookie_val

-- `Request::builder()` to `unwrap()`.
unfoldable pub build_request : FuzzCrates → Bytes → Bytes → Run Request
build_request f uri cookie = elim (f.parse_uri uri) [
  | none ↦ panics
  | some query ↦
      if f.is_header_value cookie
      then returns (record { query = query; cookie = some cookie })
      else panics
]

-- `Runtime::new().unwrap()`.
unfoldable pub start_runtime : FuzzCrates → Run (Unit {0})
start_runtime f = if f.new_runtime then returns tt else panics

-- The route's handler.
abbrev pub ok_handler : Request → Response
ok_handler request = record { status = 200; body = content (codes "ok") }

module _ (f : FuzzCrates) (h : HttpCrates) (c : Crates) (t t' now : ℤ) where
  -- From the bind on: the store binds at `t` and `t'`, and the middleware asks it at `now`.
  unfoldable pub send : Bytes → Bytes → Run (Audit × Response)
  unfolding build_request start_runtime
  send query_val cookie_val = do
    let (bound, store) = bind_state c t t' query_val cookie_val default_store
    _ ← bound
    request ← build_request f (callback_uri query_val) (callback_cookie cookie_val)
    _ ← start_runtime f
    (enforce_pkce_state_session h (in_memory c now) ok_handler request store).0

  -- The body of `fuzz_target!`; the response is dropped.
  unfoldable pub fuzz_target : Bytes → Run (Unit {0})
  unfolding send
  fuzz_target [] = returns tt
  fuzz_target (b ∷ s) =
      if is_utf8 (b ∷ s)
      then (split_at (b ∷ s) (length (b ∷ s) / 2) >>= λ (query_val, cookie_val).
          send query_val cookie_val >>= λ _. returns tt)
      else returns tt
