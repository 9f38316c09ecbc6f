-- ===== src/WebAuthn/Race.antt =====
-- src/webauthn.rs: `verify_registration` by several threads. The scan for the id takes the read
-- lock of the registry, and the write of the credential takes the write lock after that one is
-- released, so other threads run in between.
use auth_kit.Base.{
  ℕ, zero, suc, ◌+◌, ◌≤◌, ◌≡◌, refl, sym, ap, ◌∙◌, inl, inr, ◌⊎◌, ◌++◌, Bool, true, false,
  Bool-cases, if◌then◌else◌, List, [], ◌∷◌, Bytes, beq, beq_iff, arith,
}
use auth_kit.Base.Map.{Map}
use auth_kit.Base.Outcome.{Result, ok, err}
use auth_kit.WebAuthn.{WebAuthnError, credential_already_exists, WebAuthnCredential}
use auth_kit.WebAuthn.Registry.{is_registered, push_credential, register}
use auth_kit.WebAuthn.Registry.Laws.{count_id, is_registered-count_id, count_id-push_credential}

-- Where a registration is: before the read lock, between the two locks, or done.
pub data Phase : Type 0 where
  waiting : Phase
  scanned : Phase
  done : Result WebAuthnError WebAuthnCredential → Phase

-- A thread that registers a credential for a user.
pub record Thread : Type 0 where
  pub user : Bytes
  pub cred : WebAuthnCredential
  pub phase : Phase

pub record World : Type 0 where
  pub credentials : Map (List WebAuthnCredential)
  pub threads : List Thread

-- What a thread does under the next lock that it takes.
unfoldable pub locked :
    Bytes
    → WebAuthnCredential
    → Phase
    → Map (List WebAuthnCredential)
    → Phase × Map (List WebAuthnCredential)
locked user c waiting m =
    (if is_registered c.credential_id m then done (err credential_already_exists) else scanned, m)
locked user c scanned m = (done (ok c), push_credential user c m)
locked user c (done answer) m = (done answer, m)

-- The thread of the index takes its next lock.
unfoldable pub advance_threads :
    ℕ → List Thread → Map (List WebAuthnCredential) → List Thread × Map (List WebAuthnCredential)
unfolding locked
advance_threads i [] m = ([], m)
advance_threads zero (t ∷ ts) m =
    let (phase, m') = locked t.user t.cred t.phase m in (record t { phase = phase } ∷ ts, m')
advance_threads (suc i) (t ∷ ts) m = let (ts', m') = advance_threads i ts m in (t ∷ ts', m')

unfoldable pub advance : ℕ → World → World
advance i w =
    let (threads, credentials) = advance_threads i w.threads w.credentials in
    record { credentials = credentials; threads = threads }

-- The threads take their locks in the order of a schedule.
unfoldable pub run_schedule : List ℕ → World → World
run_schedule [] w = w
run_schedule (i ∷ is) w = run_schedule is (advance i w)

-- How many threads may still write a credential of the id.
is_open : Phase → Bool
is_open waiting = true
is_open scanned = true
is_open (done answer) = false

unfoldable pub open_count : Bytes → List Thread → ℕ
unfolding is_open
open_count id [] = 0
open_count id (t ∷ ts) =
    if beq t.cred.credential_id id
    then (if is_open t.phase then suc (open_count id ts) else open_count id ts)
    else open_count id ts

-- The two locked sections of a thread, with nothing in between, are `register`.
pub locked-register :
    (user : Bytes) (c : WebAuthnCredential) (m : Map (List WebAuthnCredential))
    → let scan = locked user c waiting m in
      let write = locked user c scan.0 scan.1 in
      (write.0 ≡ done ((register user c m).0)) × (write.1 ≡ (register user c m).1)
unfolding locked register
locked-register user c m = elim (Bool-cases (is_registered c.credential_id m)) [
  | inl old ↦ rw old (refl, refl)
  | inr new ↦ rw new (refl, refl)
]

-- One locked section of a thread.
locked-count :
    (id user : Bytes) (c : WebAuthnCredential) (phase : Phase) (m : Map (List WebAuthnCredential))
    (ts : List Thread)
    → let after = locked user c phase m in
      count_id id after.1 + open_count id (record { user = user; cred = c; phase = after.0 } ∷ ts)
      ≤ count_id id m + open_count id (record { user = user; cred = c; phase = phase } ∷ ts)
unfolding locked open_count is_open
locked-count id user c waiting m ts = elim (Bool-cases (is_registered c.credential_id m)) [
  | inl old ↦ rw old (ground arith)
  | inr new ↦ rw new (ground arith)
]
locked-count id user c scanned m ts = ground (arith, count_id-push_credential id user c m)
locked-count id user c (done answer) m ts = omega arith

open_count-tail :
    (id : Bytes) (ts' ts : List Thread) (t : Thread) (a b : ℕ)
    → a + open_count id ts' ≤ b + open_count id ts
    → a + open_count id (t ∷ ts') ≤ b + open_count id (t ∷ ts)
unfolding open_count
open_count-tail id ts' ts t a b h = ground arith

advance_threads-count :
    (id : Bytes) (i : ℕ) (ts : List Thread) (m : Map (List WebAuthnCredential))
    → let after = advance_threads i ts m in
      count_id id after.1 + open_count id after.0 ≤ count_id id m + open_count id ts
unfolding advance_threads
advance_threads-count id i [] m = omega arith
advance_threads-count id zero (t ∷ ts) m = locked-count id t.user t.cred t.phase m ts
advance_threads-count id (suc i) (t ∷ ts) m =
    open_count-tail id (advance_threads i ts m).0 ts t (count_id id (advance_threads i ts m).1)
      (count_id id m) (advance_threads-count id i ts m)

-- Whatever the order in which the threads take the locks, the credentials of an id and the threads
-- that may still write one never become more: each registration adds at most one.
pub run_schedule-count :
    (id : Bytes) (is : List ℕ) (w : World)
    → count_id id (run_schedule is w).credentials + open_count id (run_schedule is w).threads
      ≤ count_id id w.credentials + open_count id w.threads
unfolding run_schedule advance
run_schedule-count id [] w = omega arith
run_schedule-count id (i ∷ is) w =
    let here = advance_threads-count id i w.threads w.credentials in
    let later = run_schedule-count id is (advance i w) in omega (arith, here, later)

count_id-push_credential_twice :
    (id user user' : Bytes) (c c' : WebAuthnCredential) (m : Map (List WebAuthnCredential))
    → c.credential_id ≡ id
    → c'.credential_id ≡ id
    → count_id id m ≡ 0
    → count_id id (push_credential user' c' (push_credential user c m)) ≡ 2
count_id-push_credential_twice id user user' c c' m named named' none_yet = ground (
  arith,
  count_id-push_credential id user c m,
  count_id-push_credential id user' c' (push_credential user c m),
  (beq_iff c.credential_id id).1 named,
  (beq_iff c'.credential_id id).1 named',
  none_yet,
)

-- Each of the two threads once, in either order.
abbrev pub IsBoth : List ℕ → Type 0
IsBoth is = (is ≡ 0 ∷ 1 ∷ []) ⊎ (is ≡ 1 ∷ 0 ∷ [])

-- Two threads register credentials of one id, for one user or two, and no credential has the id
-- before. In each of the four orders in which both scan before either writes, both answers are
-- successes, and the registry has two credentials of the id.
pub run_schedule-duplicate :
    (user user' : Bytes) (c c' : WebAuthnCredential) (m : Map (List WebAuthnCredential))
    (scans writes : List ℕ)
    → c.credential_id ≡ c'.credential_id
    → count_id c.credential_id m ≡ 0
    → IsBoth scans
    → IsBoth writes
    → let w = run_schedule (scans ++ writes) (record {
      credentials = m;
      threads =
          record { user = user; cred = c; phase = waiting }
          ∷ record { user = user'; cred = c'; phase = waiting }
          ∷ [];
    }) in
      (w.threads ≡ (
        record { user = user; cred = c; phase = done (ok c) }
        ∷ record { user = user'; cred = c'; phase = done (ok c') }
        ∷ []))
      × (count_id c.credential_id w.credentials ≡ 2)
unfolding run_schedule advance advance_threads locked
run_schedule-duplicate user user' c c' m scans writes same none_yet both_scan both_write =
    let id = c.credential_id in
    let new = (is_registered-count_id id m).1 none_yet in
    let new' : is_registered c'.credential_id m ≡ false =
      ap (λ i. is_registered i m) (sym same) ∙ new in
    let first = count_id-push_credential_twice id user user' c c' m refl (sym same) none_yet in
    let second = count_id-push_credential_twice id user' user c' c m (sym same) refl none_yet in
    elim both_scan [
      | inl s ↦ elim both_write [
        | inl w ↦ rw (s, w, new, new') (refl, first)
        | inr w ↦ rw (s, w, new, new') (refl, second)
      ]
      | inr s ↦ elim both_write [
        | inl w ↦ rw (s, w, new, new') (refl, first)
        | inr w ↦ rw (s, w, new, new') (refl, second)
      ]
    ]
