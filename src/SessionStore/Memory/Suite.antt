-- ===== src/SessionStore/Memory/Suite.antt =====
-- src/domain/session_store.rs: the module `tests`, with one reading `now` of the clock for a test.
-- A test answers whether all its assertions hold.
use auth_kit.Base.{ℕ, zero, suc, ◌*◌, Bool, true, false, not, ◌&&◌, ◌==◌, ◌++◌, codes, Bytes}
use auth_kit.Base.Int.{ℤ, pos, negsuc}
use auth_kit.Base.Outcome.{Result, ok, err, Run, returns, panics}
use auth_kit.SessionStore.{SessionStoreError, poisoned, at_capacity, Crates}
use auth_kit.SessionStore.Memory.{
  InMemorySessionStore, with_capacity, with_ttl, default_store, len, is_empty, bind_state,
  verify_state, revoke_state,
}
use auth_kit.Totp.{to_decimal}

-- `unwrap()` gives `true`.
abbrev pub is_true : Run (Result SessionStoreError Bool) → Bool
is_true (returns (ok b)) = b
is_true (returns (err e)) = false
is_true panics = false

-- `unwrap()` gives `false`.
abbrev pub is_false : Run (Result SessionStoreError Bool) → Bool
is_false (returns (ok b)) = not b
is_false (returns (err e)) = false
is_false panics = false

-- `unwrap()` of a unit.
abbrev pub is_ok : Run (Result SessionStoreError (Unit {0})) → Bool
is_ok (returns (ok u)) = true
is_ok (returns (err e)) = false
is_ok panics = false

abbrev is_at_capacity : ℕ → Run (Result SessionStoreError (Unit {0})) → Bool
is_at_capacity n (returns (ok u)) = false
is_at_capacity n (returns (err poisoned)) = false
is_at_capacity n (returns (err (at_capacity m))) = m == n
is_at_capacity n panics = false

-- `Duration::seconds(-1)` and `Duration::minutes(15)`.
abbrev pub minus_second : ℤ
minus_second = negsuc 999_999_999

abbrev quarter : ℤ
quarter = pos (15 * 60 * 1_000_000_000)

unfoldable pub expired_store : InMemorySessionStore
expired_store = with_ttl minus_second

module _ (c : Crates) (now : ℤ) where
  abbrev pub binds_ok : InMemorySessionStore → Bytes → Bytes → Bool × InMemorySessionStore
  binds_ok s token session = let (r, s') = bind_state c now now token session s in (is_ok r, s')

  abbrev pub verifies_to :
      InMemorySessionStore → Bytes → Bytes → Run (Result SessionStoreError Bool)
  verifies_to s token session = (verify_state c now token session s).0

  unfoldable pub bind_and_verify_state_succeeds : Bool
  bind_and_verify_state_succeeds =
      let (done, s) = binds_ok default_store (codes "state-1") (codes "session-1") in
      done && is_true (verifies_to s (codes "state-1") (codes "session-1"))

  unfoldable pub verify_wrong_session_fails : Bool
  verify_wrong_session_fails =
      let (done, s) = binds_ok default_store (codes "state-1") (codes "session-1") in
      done && is_false (verifies_to s (codes "state-1") (codes "session-2"))

  unfoldable pub verify_missing_state_fails : Bool
  verify_missing_state_fails =
      is_false (verifies_to default_store (codes "missing-state") (codes "session-1"))

  unfoldable pub revoke_state_removes_binding : Bool
  revoke_state_removes_binding =
      let (done, s) = binds_ok default_store (codes "state-1") (codes "session-1") in
      let (r, s') = revoke_state (codes "state-1") s in
      done && (is_ok r && is_false (verifies_to s' (codes "state-1") (codes "session-1")))

  unfoldable pub expired_state_is_rejected : Bool
  unfolding expired_store
  expired_state_is_rejected =
      let (done, s) = binds_ok expired_store (codes "state-1") (codes "session-1") in
      done && is_false (verifies_to s (codes "state-1") (codes "session-1"))

  unfoldable pub rebinding_state_overwrites_previous_session : Bool
  rebinding_state_overwrites_previous_session =
      let (done, s) = binds_ok default_store (codes "state-1") (codes "session-1") in
      let (again, s') = binds_ok s (codes "state-1") (codes "session-2") in
      let (r, s'') = verify_state c now (codes "state-1") (codes "session-1") s' in
      done
      && (again && (is_false r && is_true (verifies_to s'' (codes "state-1") (codes "session-2"))))

  unfoldable pub constant_time_compare_rejects_same_length_wrong_session : Bool
  constant_time_compare_rejects_same_length_wrong_session =
      let (done, s) = binds_ok default_store (codes "state-x") (codes "aaaaaaaaaaaa") in
      let (r, s') = verify_state c now (codes "state-x") (codes "bbbbbbbbbbbb") s in
      done && (is_false r && is_true (verifies_to s' (codes "state-x") (codes "aaaaaaaaaaaa")))

  unfoldable pub new_store_is_empty : Bool
  new_store_is_empty = len default_store == 0 && is_empty default_store

  unfoldable pub capacity_rejects_overflow_but_allows_rebind : Bool
  capacity_rejects_overflow_but_allows_rebind =
      let (done_1, s_1) = binds_ok (with_capacity quarter 2) (codes "s1") (codes "sess-1") in
      let (done_2, s_2) = binds_ok s_1 (codes "s2") (codes "sess-2") in
      let (r, s_3) = bind_state c now now (codes "s3") (codes "sess-3") s_2 in
      let (again, s_4) = binds_ok s_3 (codes "s1") (codes "sess-1-rebound") in
      let (bound, s_5) = verify_state c now (codes "s1") (codes "sess-1-rebound") s_4 in
      done_1
      && (done_2
          && (len s_2 == 2 && (is_at_capacity 2 r && (again && (is_true bound && len s_5 == 2)))))

  -- The loop of `capacity_zero_means_unbounded`, from `i` on, with the rounds left.
  bind_all : ℕ → ℕ → Bool × InMemorySessionStore → Bool × InMemorySessionStore
  bind_all zero i y = y
  bind_all (suc rounds) i (done, s) =
      let (more, s') = binds_ok s (codes "s" ++ to_decimal i) (codes "sess-" ++ to_decimal i) in
      bind_all rounds (suc i) (done && more, s')

  unfoldable pub capacity_zero_means_unbounded : Bool
  unfolding bind_all
  capacity_zero_means_unbounded =
      let (done, s) = bind_all 128 0 (true, with_capacity quarter 0) in done && len s == 128
