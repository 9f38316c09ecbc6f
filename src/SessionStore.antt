-- ===== src/SessionStore.antt =====
-- src/domain/session_store.rs: the port that binds OAuth state tokens to server sessions.
-- `Memory` models its in-memory adapter.
pub mod Memory
use auth_kit.Base.{ℕ, ◌≡◌, ◌↔◌, Bool, true, Option, some, Bytes}
use auth_kit.Base.Int.{ℤ, ◌+ℤ◌}
use auth_kit.Base.Outcome.{Result, Run}

-- `SessionStoreError`.
pub data SessionStoreError : Type 0 where
  poisoned : SessionStoreError
  at_capacity : ℕ → SessionStoreError

-- The trait `SessionStore`, for a store whose state is `S`. A method takes the state, as `&self`
-- hides a lock, and returns its result with the new state.
pub record SessionStore (S : Type 0) : Type 0 where
  pub bind_state : Bytes → Bytes → S → Run (Result SessionStoreError (Unit {0})) × S
  pub verify_state : Bytes → Bytes → S → Run (Result SessionStoreError Bool) × S
  pub revoke_state : Bytes → S → Run (Result SessionStoreError (Unit {0})) × S

-- What the adapter uses of the crates `chrono` and `subtle`. An instant is a count of nanoseconds
-- from the Unix epoch. `DateTime + TimeDelta` is the sum, or panics where that is out of range
-- (`none`). `ct_eq` is equality of byte strings.
pub record Crates : Type 0 where
  pub add : ℤ → ℤ → Option ℤ
  pub add_sum : (t d u : ℤ) → add t d ≡ some u → u ≡ t +ℤ d
  pub ct_eq : Bytes → Bytes → Bool
  pub ct_eq_iff : (a b : Bytes) → (ct_eq a b ≡ true) ↔ (a ≡ b)
