-- ===== src/Middleware/Tests/Runs.antt =====
-- Runs of the tests of src/middleware/pkce_state_session.rs, with a percent-decoder.
use auth_kit.Base.{
  ◌<◌, ◌≡◌, ◌≢◌, refl, Bool, true, Option, none, some, List, [], ◌∷◌, ◌++◌, All, Bytes, beq, arith,
}
use auth_kit.Base.Find.{contains_text}
use auth_kit.Base.Int.{pos, ◌+ℤ◌}
use auth_kit.Base.Json.{
  Json, null, boolean, number, string, array, object, Elements, nil, cons, Members, end, member,
}
use auth_kit.Base.Map.{get, contains_key, insert, remove, retain}
use auth_kit.Base.Str.{split, split_once, find_map, trim}
use auth_kit.SessionStore.Memory.{
  default_store, with_capacity, with_ttl, bind_state, verify_state, revoke_state, matches,
  evict_expired,
}
use auth_kit.Totp.Uri.Encoding.{percent_decode, hex_value}
use auth_kit.Middleware.{
  query_pair, query_param, cookie_pair, cookie_value, extract_state_token, extract_session_id,
  session_cookie, enforce_pkce_state_session, invalid_state_response,
}
use auth_kit.Middleware.Suite.{
  SuiteCrates, oneshot, bound, body_text, write_body, valid_binding_allows_callback,
  missing_state_is_rejected, missing_cookie_is_rejected, wrong_session_binding_is_rejected,
  expired_state_is_rejected, percent_encoded_state_matches_decoded_binding,
  oversized_state_is_rejected, constant_time_compare_rejects_same_length_mismatch,
}
use auth_kit.Middleware.Integration.{
  integration_valid_callback_passes_through, integration_unbound_state_rejected,
  integration_wrong_session_rejected, integration_missing_state_rejected,
  integration_missing_cookie_rejected, integration_session_store_trait_lifecycle,
  integration_expired_entries_evicted, integration_authkit_session_cookie_alias,
  integration_authvault_session_cookie_alias, integration_sid_cookie_alias,
}
use auth_kit.Middleware.Tests.{crates}

percent_decode-plain : (s : Bytes) → All (λ c. (c < 128) × (c ≢ b'%')) s → percent_decode s ≡ some s
unfolding percent_decode
percent_decode-plain [] h = refl
percent_decode-plain (c ∷ []) h = ground (arith, h.0)
percent_decode-plain (c ∷ d ∷ []) h = ground (arith, h.0, percent_decode-plain (d ∷ []) h.1)
percent_decode-plain (c ∷ d ∷ e ∷ s) h = ground (arith, h.0, percent_decode-plain (d ∷ e ∷ s) h.1)

-- The strings of a value, one after the other.
mutual
  text_of : Json → Bytes
  text_of (string s) = s
  text_of null = []
  text_of (boolean b) = []
  text_of (number n) = n
  text_of (array xs) = text_of_elements xs
  text_of (object m) = text_of_members m

  text_of_elements : Elements → Bytes
  text_of_elements nil = []
  text_of_elements (cons x xs) = text_of x ++ text_of_elements xs

  text_of_members : Members → Bytes
  text_of_members end = []
  text_of_members (member key v m) = text_of v ++ text_of_members m

-- A URI is its path and what comes after the first question mark.
query_of : Option (Bytes × Bytes) → Option Bytes
query_of none = none
query_of (some (path, query)) = some query

abbrev suite_crates : SuiteCrates
suite_crates = record {
  http = record {
    decode = percent_decode;
    decode_plain = percent_decode-plain;
    to_str = λ s. some s;
    to_str_printable = λ s h. refl;
  };
  parse_uri = λ s. some (query_of (split_once b'?' s));
  to_string = text_of;
}

-- The verdicts of the tests, in their order.
abbrev verdicts : List Bool
verdicts =
    valid_binding_allows_callback suite_crates crates (pos 5)
    ∷ missing_state_is_rejected suite_crates crates (pos 5)
    ∷ missing_cookie_is_rejected suite_crates crates (pos 5)
    ∷ wrong_session_binding_is_rejected suite_crates crates (pos 5)
    ∷ expired_state_is_rejected suite_crates crates (pos 5)
    ∷ percent_encoded_state_matches_decoded_binding suite_crates crates (pos 5)
    ∷ oversized_state_is_rejected suite_crates crates (pos 5)
    ∷ constant_time_compare_rejects_same_length_mismatch suite_crates crates (pos 5)
    ∷ []

verdicts_run : verdicts ≡ true ∷ true ∷ true ∷ true ∷ true ∷ true ∷ true ∷ true ∷ []
unfolding valid_binding_allows_callback missing_state_is_rejected missing_cookie_is_rejected
    wrong_session_binding_is_rejected expired_state_is_rejected
    percent_encoded_state_matches_decoded_binding oversized_state_is_rejected
    constant_time_compare_rejects_same_length_mismatch body_text write_body text_of query_of
    percent_decode hex_value default_store with_capacity with_ttl bind_state verify_state matches
    evict_expired get contains_key insert retain query_pair query_param cookie_pair cookie_value
    extract_state_token extract_session_id session_cookie enforce_pkce_state_session
    invalid_state_response split split_once find_map trim beq ◌+ℤ◌ contains_text
verdicts_run = refl

-- The verdicts of tests/integration_test.rs, in their order.
abbrev integration_verdicts : List Bool
integration_verdicts =
    integration_valid_callback_passes_through suite_crates crates (pos 5)
    ∷ integration_unbound_state_rejected suite_crates crates (pos 5)
    ∷ integration_wrong_session_rejected suite_crates crates (pos 5)
    ∷ integration_missing_state_rejected suite_crates crates (pos 5)
    ∷ integration_missing_cookie_rejected suite_crates crates (pos 5)
    ∷ integration_session_store_trait_lifecycle crates (pos 5)
    ∷ integration_expired_entries_evicted crates (pos 5)
    ∷ integration_authkit_session_cookie_alias suite_crates crates (pos 5)
    ∷ integration_authvault_session_cookie_alias suite_crates crates (pos 5)
    ∷ integration_sid_cookie_alias suite_crates crates (pos 5)
    ∷ []

integration_run :
    integration_verdicts ≡ true ∷ true ∷ true ∷ true ∷ true ∷ true ∷ true ∷ true ∷ true ∷ true ∷ []
unfolding integration_valid_callback_passes_through integration_unbound_state_rejected
    integration_wrong_session_rejected integration_missing_state_rejected
    integration_missing_cookie_rejected integration_session_store_trait_lifecycle
    integration_expired_entries_evicted integration_authkit_session_cookie_alias
    integration_authvault_session_cookie_alias integration_sid_cookie_alias oneshot bound body_text
    write_body text_of query_of percent_decode hex_value default_store with_capacity with_ttl
    bind_state verify_state revoke_state matches evict_expired get contains_key insert remove retain
    query_pair query_param cookie_pair cookie_value extract_state_token extract_session_id
    session_cookie enforce_pkce_state_session invalid_state_response split split_once find_map trim
    beq ◌+ℤ◌ contains_text
integration_run = refl
