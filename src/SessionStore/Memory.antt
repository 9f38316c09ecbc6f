-- ===== src/SessionStore/Memory.antt =====
-- src/domain/session_store.rs: `InMemorySessionStore`. The mutex is the flag `is_poisoned`: a panic
-- while the guard is held sets it, and `lock` fails from then on. Each reading of the clock is an
-- argument.
pub mod Invariant
pub mod View
pub mod History
pub mod Spec
pub mod Live
pub mod Agreement
pub mod Refinement
pub mod Suite
pub mod Poison
mod Tests
use auth_kit.Base.{
  ℕ, ◌*◌, Bool, true, false, not, ◌&&◌, Option, none, some, [], ◌==◌, leb, if◌then◌else◌, length,
  Bytes,
}
use auth_kit.Base.Int.{ℤ, pos, ltb_ℤ}
use auth_kit.Base.Map.{Map, get, contains_key, insert, remove, retain}
use auth_kit.Base.Outcome.{Result, ok, err, Run, returns, panics}
use auth_kit.SessionStore.{SessionStoreError, poisoned, at_capacity, SessionStore, Crates}

pub record Entry : Type 0 where
  pub session_id : Bytes
  pub expires_at : ℤ

pub record InMemorySessionStore : Type 0 where
  pub inner : Map Entry
  pub is_poisoned : Bool
  pub ttl : ℤ
  pub max_entries : ℕ

-- `DEFAULT_MAX_ENTRIES`.
abbrev pub default_max_entries : ℕ
default_max_entries = 65_536

-- `with_capacity`.
unfoldable pub with_capacity : ℤ → ℕ → InMemorySessionStore
with_capacity ttl max_entries = record {
  inner = [];
  is_poisoned = false;
  ttl = ttl;
  max_entries = max_entries;
}

-- `with_ttl`.
unfoldable pub with_ttl : ℤ → InMemorySessionStore
unfolding with_capacity
with_ttl ttl = with_capacity ttl default_max_entries

-- `default`, which `new` calls: a TTL of 15 minutes.
unfoldable pub default_store : InMemorySessionStore
unfolding with_capacity
default_store = with_capacity (pos (15 * 60 * 1_000_000_000)) default_max_entries

-- `len`: 0 if the lock is poisoned.
unfoldable pub len : InMemorySessionStore → ℕ
len s = if s.is_poisoned then 0 else length s.inner

-- `is_empty`.
unfoldable pub is_empty : InMemorySessionStore → Bool
unfolding len
is_empty s = len s == 0

-- The test that `evict_expired` retains by.
abbrev pub is_live : ℤ → Entry → Bool
is_live now e = ltb_ℤ now e.expires_at

unfoldable pub evict_expired : ℤ → Map Entry → Map Entry
evict_expired now m = retain (is_live now) m

-- The guard of `bind_state` on the number of entries, after eviction.
unfoldable pub is_full : ℕ → Bytes → Map Entry → Bool
is_full max_entries token m =
    not (max_entries == 0) && leb max_entries (length m) && not (contains_key token m)

-- The end of `bind_state`: the deadline is computed, which may panic under the lock, and the entry
-- is inserted.
unfoldable pub store_entry :
    Bytes
    → Bytes
    → Option ℤ
    → InMemorySessionStore
    → Run (Result SessionStoreError (Unit {0})) × InMemorySessionStore
store_entry token session none s = (panics, record s { is_poisoned = true })
store_entry token session (some deadline) s = (
  returns (ok tt),
  record s {
    inner = insert token (record { session_id = session; expires_at = deadline }) s.inner;
  },
)

-- `map.get(token).map(ct_eq).unwrap_or(false)`.
unfoldable pub matches : Crates → Bytes → Option Entry → Bool
matches c session none = false
matches c session (some e) = c.ct_eq e.session_id session

-- `bind_state` reads the clock at `t` for the eviction and at `t'` for the deadline.
unfoldable pub bind_state :
    Crates
    → ℤ
    → ℤ
    → Bytes
    → Bytes
    → InMemorySessionStore
    → Run (Result SessionStoreError (Unit {0})) × InMemorySessionStore
unfolding store_entry is_full
bind_state c t t' token session s =
    let map = evict_expired t s.inner in
    if s.is_poisoned
    then (returns (err poisoned), s)
    else if is_full s.max_entries token map
    then (returns (err (at_capacity s.max_entries)), record s { inner = map })
    else store_entry token session (c.add t' s.ttl) (record s { inner = map })

unfoldable pub verify_state :
    Crates
    → ℤ
    → Bytes
    → Bytes
    → InMemorySessionStore
    → Run (Result SessionStoreError Bool) × InMemorySessionStore
verify_state c now token session s =
    let map = evict_expired now s.inner in
    if s.is_poisoned
    then (returns (err poisoned), s)
    else (returns (ok (matches c session (get token map))), record s { inner = map })

unfoldable pub revoke_state :
    Bytes → InMemorySessionStore → Run (Result SessionStoreError (Unit {0})) × InMemorySessionStore
revoke_state token s =
    if s.is_poisoned
    then (returns (err poisoned), s)
    else (returns (ok tt), record s { inner = remove token s.inner })

-- `impl SessionStore for InMemorySessionStore`, in a call that reads the clock at `now`.
abbrev pub in_memory : Crates → ℤ → SessionStore InMemorySessionStore
in_memory c now = record {
  bind_state = bind_state c now now;
  verify_state = verify_state c now;
  revoke_state = revoke_state;
}

-- A call of the port with the clock readings that it makes.
pub data Call : Type 0 where
  binds : ℤ → ℤ → Bytes → Bytes → Call
  verifies : ℤ → Bytes → Bytes → Call
  revokes : Bytes → Call

-- The store after a call.
unfoldable pub step : Crates → Call → InMemorySessionStore → InMemorySessionStore
step c (binds t t' token session) s = (bind_state c t t' token session s).1
step c (verifies now token session) s = (verify_state c now token session s).1
step c (revokes token) s = (revoke_state token s).1
