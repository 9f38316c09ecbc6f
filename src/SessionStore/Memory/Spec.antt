-- ===== src/SessionStore/Memory/Spec.antt =====
-- src/domain/session_store.rs: the store against what the port promises. The specification is a
-- function from tokens to bindings, which never forgets an entry, has no order and no
-- representation, and may refuse a bind of a new token.
use auth_kit.Base.{
  ◌≤◌, length, All, ℕ, ◌≡◌, ◌≢◌, ◌↔◌, Bool, true, false, Option, none, some, if◌then◌else◌, Bytes,
  beq, List, [], ◌∷◌,
}
use auth_kit.Base.Int.{ℤ, ◌+ℤ◌, ◌<ℤ◌, ◌≤ℤ◌}
use auth_kit.Base.Outcome.{Result, ok, err, Run, returns, panics}
use auth_kit.SessionStore.{SessionStoreError, poisoned, at_capacity, Crates}
use auth_kit.SessionStore.Memory.{
  Entry, InMemorySessionStore, bind_state, verify_state, revoke_state, Call, binds, verifies,
  revokes, step,
}

-- What a call answers.
pub data Reply : Type 0 where
  of_unit : Run (Result SessionStoreError (Unit {0})) → Reply
  of_bool : Run (Result SessionStoreError Bool) → Reply

unfoldable pub reply : Crates → Call → InMemorySessionStore → Reply
reply c (binds t t' token session) s = of_unit (bind_state c t t' token session s).0
reply c (verifies now token session) s = of_bool (verify_state c now token session s).0
reply c (revokes token) s = of_unit (revoke_state token s).0

-- The replies to calls, oldest first.
unfoldable pub replies : Crates → List Call → InMemorySessionStore → List Reply
replies c [] s = []
replies c (call ∷ cs) s = reply c call s ∷ replies c cs (step c call s)

-- The specification's state.
pub record Spec : Type 0 where
  pub bindings : Bytes → Option Entry
  pub usable : Bool

abbrev pub set_binding : (Bytes → Option Entry) → Bytes → Option Entry → Bytes → Option Entry
set_binding b token e k = if beq token k then e else b k

-- The token is bound, past `now`.
abbrev pub IsLive : Spec → ℤ → Bytes → Type 0
IsLive a now token = (e : Entry) × (a.bindings token ≡ some e) × (now <ℤ e.expires_at)

abbrev pub NoDuplicates : List Bytes → Type 0
NoDuplicates [] = Unit
NoDuplicates (k ∷ ks) = All (λ j. k ≢ j) ks × NoDuplicates ks

-- The token is bound to the session, past `now`.
abbrev pub IsLiveTo : Spec → ℤ → Bytes → Bytes → Type 0
IsLiveTo a now token session =
    (e : Entry) × (a.bindings token ≡ some e) × (e.session_id ≡ session) × (now <ℤ e.expires_at)

-- What a store of a TTL and a bound may reply to a call, and what it then is; `add` is the addition of
-- a TTL to a reading of the clock.
pub data Allows (add : ℤ → ℤ → Option ℤ) (ttl : ℤ) (n : ℕ) (a : Spec)
    : Call → Reply → Spec → Type 0 where
  bound :
      {t t' : ℤ} {token session : Bytes}
      → a.usable ≡ true
      → add t' ttl ≡ some (t' +ℤ ttl)
      → Allows add ttl n a (binds t t' token session) (of_unit (returns (ok tt))) (record a {
        bindings =
            set_binding a.bindings token
              (some (record { session_id = session; expires_at = t' +ℤ ttl }));
      })
  refused :
      {t t' : ℤ} {token session : Bytes}
      → a.usable ≡ true
      → n ≢ 0
      → (ks : List Bytes) → NoDuplicates ks
      → n ≤ length ks
      → All (IsLive a t) ks
      → ((other : Bytes) → IsLiveTo a t token other → ⊥)
      → Allows add ttl n a (binds t t' token session) (of_unit (returns (err (at_capacity n)))) a
  overflowed :
      {t t' : ℤ} {token session : Bytes}
      → a.usable ≡ true
      → add t' ttl ≡ none
      → Allows add ttl n a (binds t t' token session) (of_unit panics) (record a { usable = false })
  answered :
      {now : ℤ} {token session : Bytes} (b : Bool)
      → a.usable ≡ true
      → (b ≡ true) ↔ IsLiveTo a now token session
      → Allows add ttl n a (verifies now token session) (of_bool (returns (ok b))) a
  revoked :
      {token : Bytes}
      → a.usable ≡ true
      → Allows add ttl n a
          (revokes token)
          (of_unit (returns (ok tt)))
          (record a { bindings = set_binding a.bindings token none })
  dead_bind :
      {t t' : ℤ} {token session : Bytes}
      → a.usable ≡ false
      → Allows add ttl n a (binds t t' token session) (of_unit (returns (err poisoned))) a
  dead_verify :
      {now : ℤ} {token session : Bytes}
      → a.usable ≡ false
      → Allows add ttl n a (verifies now token session) (of_bool (returns (err poisoned))) a
  dead_revoke :
      {token : Bytes}
      → a.usable ≡ false
      → Allows add ttl n a (revokes token) (of_unit (returns (err poisoned))) a

-- The replies that the specification allows to a list of calls.
pub data Trace (add : ℤ → ℤ → Option ℤ) (ttl : ℤ) (n : ℕ)
    : Spec → List Call → List Reply → Type 0 where
  nil : {a : Spec} → Trace add ttl n a [] []
  cons :
      {a a' : Spec} {call : Call} {r : Reply} {cs : List Call} {rs : List Reply}
      → Allows add ttl n a call r a'
      → Trace add ttl n a' cs rs
      → Trace add ttl n a (call ∷ cs) (r ∷ rs)

-- The reading by which a call evicts, or that of the call before.
abbrev pub reading : ℤ → Call → ℤ
reading before (binds t t' token session) = t
reading before (verifies now token session) = now
reading before (revokes token) = before

-- No call reads the clock for an eviction earlier than the call before it.
abbrev pub IsOrdered : ℤ → List Call → Type 0
IsOrdered before [] = Unit
IsOrdered before (call ∷ cs) = (before ≤ℤ reading before call) × IsOrdered (reading before call) cs
