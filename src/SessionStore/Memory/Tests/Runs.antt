-- ===== src/SessionStore/Memory/Tests/Runs.antt =====
-- Runs of the tests of src/domain/session_store.rs.
use auth_kit.Base.{◌≡◌, refl, Bool, true, some, List, [], ◌∷◌, beq, beq_iff}
use auth_kit.Base.Int.{ℤ, pos, ◌+ℤ◌}
use auth_kit.Base.Map.{get, contains_key, insert, remove, retain}
use auth_kit.SessionStore.{Crates}
use auth_kit.SessionStore.Memory.{
  default_store, with_capacity, with_ttl, len, is_empty, bind_state, verify_state, revoke_state,
  matches, evict_expired,
}
use auth_kit.SessionStore.Memory.Suite.{
  bind_and_verify_state_succeeds, verify_wrong_session_fails, verify_missing_state_fails,
  revoke_state_removes_binding, expired_state_is_rejected,
  rebinding_state_overwrites_previous_session,
  constant_time_compare_rejects_same_length_wrong_session,
  capacity_rejects_overflow_but_allows_rebind, capacity_zero_means_unbounded, new_store_is_empty,
  expired_store,
}
use auth_kit.Totp.{to_decimal}

add_sum_lem : (t d u : ℤ) → some (t +ℤ d) ≡ some u → u ≡ t +ℤ d
add_sum_lem t d u h = cc

-- Every sum is in range.
abbrev wide_crates : Crates
wide_crates = record {
  add = λ t d. some (t +ℤ d);
  add_sum = add_sum_lem;
  ct_eq = beq;
  ct_eq_iff = beq_iff;
}

-- The verdicts of the tests.
abbrev verdicts : List Bool
verdicts =
    new_store_is_empty wide_crates (pos 5)
    ∷ bind_and_verify_state_succeeds wide_crates (pos 5)
    ∷ verify_wrong_session_fails wide_crates (pos 5)
    ∷ verify_missing_state_fails wide_crates (pos 5)
    ∷ revoke_state_removes_binding wide_crates (pos 5)
    ∷ expired_state_is_rejected wide_crates (pos 5)
    ∷ rebinding_state_overwrites_previous_session wide_crates (pos 5)
    ∷ constant_time_compare_rejects_same_length_wrong_session wide_crates (pos 5)
    ∷ capacity_rejects_overflow_but_allows_rebind wide_crates (pos 5)
    ∷ capacity_zero_means_unbounded wide_crates (pos 5)
    ∷ []

verdicts_run : verdicts ≡ true ∷ true ∷ true ∷ true ∷ true ∷ true ∷ true ∷ true ∷ true ∷ true ∷ []
unfolding bind_and_verify_state_succeeds verify_wrong_session_fails verify_missing_state_fails
    revoke_state_removes_binding expired_state_is_rejected
    rebinding_state_overwrites_previous_session
    constant_time_compare_rejects_same_length_wrong_session
    capacity_rejects_overflow_but_allows_rebind capacity_zero_means_unbounded new_store_is_empty
    expired_store default_store with_capacity with_ttl len is_empty bind_state verify_state
    revoke_state matches evict_expired get contains_key insert remove retain to_decimal beq ◌+ℤ◌
verdicts_run = refl
