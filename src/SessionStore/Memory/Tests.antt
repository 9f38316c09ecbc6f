-- ===== src/SessionStore/Memory/Tests.antt =====
-- Runs of the in-memory store, after the tests of src/domain/session_store.rs, and instances of the
-- theorems about it.
mod Runs
use auth_kit.Base.{
  ◌≡◌, refl, true, false, Option, none, some, List, [], ◌∷◌, arith, codes, Bytes, beq, beq_iff,
}
use auth_kit.Base.Int.{ℤ, pos, negsuc, ◌+ℤ◌, ◌<ℤ◌, ltb_ℤ}
use auth_kit.Base.Map.{get, contains_key, insert, retain}
use auth_kit.Base.Outcome.{ok, err, returns, panics}
use auth_kit.SessionStore.{at_capacity, Crates}
use auth_kit.SessionStore.Memory.{
  Entry, with_capacity, evict_expired, matches, bind_state, verify_state, revoke_state, Call, binds,
  verifies, step,
}
use auth_kit.SessionStore.Memory.Invariant.{
  IsWellFormed, with_capacity-IsWellFormed, step-IsWellFormed,
}
use auth_kit.SessionStore.Memory.History.{run, latest, verify_state_sound, verify_state_complete}
use auth_kit.SessionStore.Memory.Spec.{replies, Trace}
use auth_kit.SessionStore.Memory.Refinement.{no_bindings, with_capacity-refines}
use auth_kit.SessionStore.Memory.Poison.{IsBricked, bind_state-IsBricked}

-- `add` over the range of the instants up to 1000.
short_add : ℤ → ℤ → Option ℤ
short_add t d = elim (ltb_ℤ (t +ℤ d) (pos 1000)) [ true ↦ some (t +ℤ d) | false ↦ none ]

short_add_sum : (t d u : ℤ) → short_add t d ≡ some u → u ≡ t +ℤ d
unfolding short_add
short_add_sum t d u h = ground arith

abbrev crates : Crates
crates = record { add = short_add; add_sum = short_add_sum; ct_eq = beq; ct_eq_iff = beq_iff }

abbrev state_1 : Bytes
state_1 = codes "state-1"

abbrev session_1 : Bytes
session_1 = codes "session-1"

abbrev history : List Call
history =
    verifies (pos 30) state_1 session_1
    ∷ binds (pos 21) (pos 22) state_1 session_1
    ∷ binds (pos 10) (pos 11) (codes "s2") (codes "t2")
    ∷ []

-- The run of `capacity_rejects_overflow_but_allows_rebind`, with one entry.
capacity_run :
    (bind_state crates
      (pos 1)
      (pos 1)
      (codes "b")
      session_1
      (run crates (binds (pos 0) (pos 0) state_1 session_1 ∷ []) (with_capacity (pos 9) 1))).0
    ≡ returns (err (at_capacity 1))
unfolding bind_state run step with_capacity evict_expired retain insert contains_key beq short_add
    ◌+ℤ◌
capacity_run = refl

-- The run of `expired_state_is_rejected`: a TTL of -1.
expired_run :
    (verify_state crates
      (pos 0)
      state_1
      session_1
      (run crates (binds (pos 0) (pos 0) state_1 session_1 ∷ []) (with_capacity (negsuc 0) 1))).0
    ≡ returns (ok false)
unfolding bind_state verify_state run step with_capacity evict_expired retain insert contains_key
    get matches beq short_add ◌+ℤ◌
expired_run = refl

step-IsWellFormed_example :
    IsWellFormed (step crates (binds (pos 0) (pos 1) state_1 session_1) (with_capacity (pos 9) 2))
step-IsWellFormed_example =
    step-IsWellFormed crates (binds (pos 0) (pos 1) state_1 session_1) (with_capacity (pos 9) 2)
      (with_capacity-IsWellFormed (pos 9) 2)

latest_run :
    latest crates (pos 15) 2 history state_1
    ≡ some (record { session_id = session_1; expires_at = pos 37 })
unfolding latest bind_state verify_state revoke_state run step with_capacity evict_expired retain
    insert contains_key get matches beq short_add ◌+ℤ◌
latest_run = refl

history_usable : (run crates history (with_capacity (pos 15) 2)).is_poisoned ≡ false
unfolding bind_state verify_state revoke_state run step with_capacity evict_expired retain insert
    contains_key get matches beq short_add ◌+ℤ◌
history_usable = refl

verify_state_complete_example :
    (verify_state crates
      (pos 36)
      state_1
      session_1
      (run crates history (with_capacity (pos 15) 2))).0
    ≡ returns (ok true)
verify_state_complete_example =
    verify_state_complete crates (pos 15) 2 history (pos 36) state_1
      (record { session_id = session_1; expires_at = pos 37 }) (omega arith) history_usable
      latest_run (omega arith)

verify_state_sound_example :
    (e : Entry) × (latest crates (pos 15) 2 history state_1 ≡ some e)
    × (e.session_id ≡ session_1)
    × (pos 36 <ℤ e.expires_at)
verify_state_sound_example =
    verify_state_sound crates (pos 15) 2 history (pos 36) state_1 session_1
      verify_state_complete_example

-- A TTL under which every deadline is out of range.
overflow_run :
    (bind_state crates (pos 0) (pos 0) state_1 session_1 (with_capacity (pos 5000) 2)).0 ≡ panics
unfolding bind_state with_capacity evict_expired retain contains_key short_add ◌+ℤ◌
overflow_run = refl

bind_state-IsBricked_example : IsBricked crates (
    run crates history
      (bind_state crates (pos 0) (pos 0) state_1 session_1 (with_capacity (pos 5000) 2)).1)
bind_state-IsBricked_example =
    bind_state-IsBricked crates (pos 0) (pos 0) state_1 session_1 (with_capacity (pos 5000) 2)
      history overflow_run

abbrev calls : List Call
calls =
    binds (pos 1) (pos 2) state_1 session_1
    ∷ verifies (pos 3) state_1 session_1
    ∷ binds (pos 4) (pos 5) (codes "s2") (codes "t2")
    ∷ []

with_capacity-refines_example :
    Trace crates.add (pos 9) 1 no_bindings calls (replies crates calls (with_capacity (pos 9) 1))
with_capacity-refines_example =
    with_capacity-refines crates (pos 9) 1 (pos 0) calls
      (omega arith, (omega arith, (omega arith, tt)))
