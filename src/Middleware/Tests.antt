-- ===== src/Middleware/Tests.antt =====
-- Runs of the middleware, after the tests of src/middleware/pkce_state_session.rs, and instances of
-- the theorems about it.
mod Runs
use auth_kit.Base.{
  ◌≡◌, ◌⊎◌, refl, ◌↔◌, true, false, none, some, List, [], ◌∷◌, arith, codes, Bytes, beq, beq_iff,
}
use auth_kit.Base.Int.{ℤ, pos, ◌+ℤ◌, ◌<ℤ◌}
use auth_kit.Base.Map.{get, contains_key, insert, retain}
use auth_kit.Base.Outcome.{ok, err, Run, returns}
use auth_kit.Base.Str.{split, split_once, find_map, trim, join}
use auth_kit.SessionStore.{Crates, poisoned}
use auth_kit.SessionStore.Memory.{
  Entry, InMemorySessionStore, with_capacity, in_memory, evict_expired, bind_state, Call, binds,
  step,
}
use auth_kit.SessionStore.Memory.History.{run, latest, state}
use auth_kit.Middleware.{
  HttpCrates, Request, Response, content, query_pair, query_param, cookie_pair, cookie_value,
  extract_state_token, extract_session_id, Audit, Reason, allow, reject, missing_or_oversized_state,
  missing_session_cookie, state_session_mismatch, store_error, enforce_pkce_state_session,
  invalid_state_response,
}
use auth_kit.Middleware.Params.{show_query, show_cookies}
use auth_kit.Middleware.Reached.{Asked}
use auth_kit.Middleware.Gate.{enforce_allow_iff, enforce_reject_iff}
use auth_kit.Middleware.Callback.{callback_sound, callback_complete}
use auth_kit.Middleware.Again.{callback_again_iff}
use auth_kit.Middleware.Acceptance.{IsValid, callback_decides}
use auth_kit.SessionStore.Memory.Invariant.{with_capacity-IsWellFormed, step-IsWellFormed}

abbrev http : HttpCrates
http = record {
  decode = λ s. some s;
  decode_plain = λ s h. refl;
  to_str = λ s. some s;
  to_str_printable = λ s h. refl;
}

add_sum_lem : (t d u : ℤ) → some (t +ℤ d) ≡ some u → u ≡ t +ℤ d
add_sum_lem t d u h = cc

abbrev crates : Crates
crates = record {
  add = λ t d. some (t +ℤ d);
  add_sum = add_sum_lem;
  ct_eq = beq;
  ct_eq_iff = beq_iff;
}

-- The handler of the source's tests.
abbrev handler : Request → Response
handler request = record { status = 200; body = content (codes "ok") }

abbrev state_1 : Bytes
state_1 = codes "state-1"

abbrev session_1 : Bytes
session_1 = codes "session-1"

abbrev query_pairs : List (Bytes × Bytes)
query_pairs = (codes "code", codes "c=d") ∷ (codes "state", state_1) ∷ []

abbrev cookie_pairs : List (Bytes × Bytes)
cookie_pairs = (codes "theme", codes "dark") ∷ (codes "session_id", session_1) ∷ []

abbrev callback : Request
callback = record {
  query = some (codes "code=c=d&state=state-1");
  cookie = some (codes "theme=dark; session_id=session-1");
}

abbrev bound_history : List Call
bound_history = binds (pos 1) (pos 2) state_1 session_1 ∷ []

abbrev bound_entry : Entry
bound_entry = record { session_id = session_1; expires_at = pos 92 }

-- The middleware over the in-memory store, at time 50.
abbrev enforce : Request → InMemorySessionStore → Run (Audit × Response) × InMemorySessionStore
enforce = enforce_pkce_state_session http (in_memory crates (pos 50)) handler

query_run : query_param (codes "a=1&state=&state=2&flag") (codes "state") ≡ some []
unfolding query_param query_pair find_map split split_once beq
query_run = refl

cookie_run : cookie_value (codes "a=b;  sid = x ;c") (codes "sid") ≡ some (codes "x")
unfolding cookie_value cookie_pair find_map split split_once trim beq
cookie_run = refl

missing_run :
    (enforce (record { query = none; cookie = none }) (with_capacity (pos 90) 2)).0
    ≡ returns (reject missing_or_oversized_state, invalid_state_response)
unfolding enforce_pkce_state_session extract_state_token
missing_run = refl

enforce_allow_iff_example :
    ((enforce callback (with_capacity (pos 90) 2)).0 ≡ returns (allow, handler callback)) ↔ (
      Asked http (in_memory crates (pos 50)) callback (with_capacity (pos 90) 2) (returns (ok true))
      × (handler callback ≡ handler callback))
enforce_allow_iff_example =
    enforce_allow_iff http (in_memory crates (pos 50)) handler callback (with_capacity (pos 90) 2)
      (handler callback)

latest_run : latest crates (pos 90) 2 bound_history state_1 ≡ some bound_entry
unfolding latest bind_state run step with_capacity evict_expired retain insert contains_key beq ◌+ℤ◌
latest_run = refl

usable_run : (state crates (pos 90) 2 bound_history).is_poisoned ≡ false
unfolding bind_state run step with_capacity evict_expired retain insert contains_key beq ◌+ℤ◌
usable_run = refl

callback_query : callback.query ≡ some (show_query query_pairs)
unfolding show_query join
callback_query = refl

callback_cookie : callback.cookie ≡ some (show_cookies cookie_pairs)
unfolding show_cookies join
callback_cookie = refl

state_pair : get (codes "state") query_pairs ≡ some state_1
unfolding get beq
state_pair = refl

session_pair : get (codes "session_id") cookie_pairs ≡ some session_1
unfolding get beq
session_pair = refl

callback_complete_example :
    (enforce callback (state crates (pos 90) 2 bound_history)).0 ≡ returns (allow, handler callback)
callback_complete_example =
    callback_complete http crates handler (pos 90) 2 bound_history (pos 50) callback query_pairs
      cookie_pairs state_1 bound_entry (omega arith) (omega arith) callback_query callback_cookie
      state_pair session_pair (omega arith) (omega arith) (omega arith) usable_run latest_run
      (omega arith)

callback_sound_example :
    (token : Bytes) × (e : Entry) × (extract_state_token http callback ≡ some token)
    × (extract_session_id http callback ≡ some e.session_id)
    × (latest crates (pos 90) 2 bound_history token ≡ some e)
    × (pos 50 <ℤ e.expires_at)
callback_sound_example =
    callback_sound http crates handler (pos 90) 2 bound_history (pos 50) callback (handler callback)
      callback_complete_example

abbrev empty_store : InMemorySessionStore
empty_store = with_capacity (pos 90) 2

enforce_reject_iff_example :
    let answer = enforce callback empty_store in
    ((answer ≡ (returns (reject missing_or_oversized_state, invalid_state_response), empty_store))
      ↔ (extract_state_token http callback ≡ none))
    × ((answer ≡ (returns (reject missing_session_cookie, invalid_state_response), empty_store)) ↔ (
        ((token : Bytes) × (extract_state_token http callback ≡ some token))
        × (extract_session_id http callback ≡ none)))
    × ((answer.0 ≡ returns (reject state_session_mismatch, invalid_state_response))
        ↔ Asked http (in_memory crates (pos 50)) callback empty_store (returns (ok false)))
    × ((answer.0 ≡ returns (reject (store_error poisoned), invalid_state_response))
        ↔ Asked http (in_memory crates (pos 50)) callback empty_store (returns (err poisoned)))
enforce_reject_iff_example =
    enforce_reject_iff http (in_memory crates (pos 50)) handler callback empty_store poisoned

callback_again_iff_example :
    let s = step crates (binds (pos 1) (pos 2) state_1 session_1) (with_capacity (pos 90) 2) in
    (deadline : ℤ) × (pos 50 <ℤ deadline)
    × ((later : ℤ)
        → ((enforce_pkce_state_session http
              (in_memory crates later)
              handler
              callback
              (enforce callback s).1).0
            ≡ returns (allow, handler callback))
          ↔ (later <ℤ deadline))
unfolding run
callback_again_iff_example =
    callback_again_iff http crates handler (pos 50) callback (handler callback)
      (step crates (binds (pos 1) (pos 2) state_1 session_1) (with_capacity (pos 90) 2))
      (step-IsWellFormed crates (binds (pos 1) (pos 2) state_1 session_1) (with_capacity (pos 90) 2)
        (with_capacity-IsWellFormed (pos 90) 2))
      callback_complete_example

-- A later call for the session of another user.
abbrev stolen : Request
stolen = record {
  query = some (codes "state=state-1");
  cookie = some (codes "session_id=session-2");
}

callback_decides_example :
    let answer = (enforce stolen (state crates (pos 90) 2 bound_history)).0 in
    (IsValid http crates handler (pos 90) 2 bound_history (pos 50) stolen
      × (answer ≡ returns (allow, handler stolen)))
    ⊎ ((¬ IsValid http crates handler (pos 90) 2 bound_history (pos 50) stolen)
        × (r : Reason) × (answer ≡ returns (reject r, invalid_state_response)))
callback_decides_example =
    callback_decides http crates handler (pos 90) 2 bound_history (pos 50) stolen (omega arith)
      usable_run
