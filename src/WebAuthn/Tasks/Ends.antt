-- ===== src/WebAuthn/Tasks/Ends.antt =====
-- src/webauthn.rs: how many sections a call has, whatever runs beside it.
use auth_kit.Base.{
  ℕ, suc, ◌-◌, ◌≤◌, ◌≡◌, refl, subst, inl, inr, Bool-cases, if◌then◌else◌, List, [], ◌∷◌, ◌==◌,
  ==_iff, Bytes, codes, arith,
}
use auth_kit.Base.Map.{Map}
use auth_kit.Base.Outcome.{Result, ok, err}
use auth_kit.SessionStore.{SessionStoreError}
use auth_kit.WebAuthn.{WebAuthnError, WebAuthnCredential, WebAuthnConfig}
use auth_kit.WebAuthn.Checks.{
  WebAuthnCrates, challenge_key, challenge_purpose, check_registration, check_authentication,
}
use auth_kit.WebAuthn.Registry.{is_registered, verify_signature}
use auth_kit.WebAuthn.Verifier.{ChallengeStore}
use auth_kit.WebAuthn.Replay.{Call, generates, registers, authenticates}
use auth_kit.WebAuthn.Tasks.{
  Answer, gives_challenge, accepted, Phase, start, verified, scanned, counted, done, System, after,
  after_store_call, set_count, generate_section, verify_section, register_section,
  authenticate_section, section, advance,
}

-- The most sections that a call in the phase has left; a phase that the call never comes to has
-- more than it has at the start.
abbrev sections_left : Call → Phase → ℕ
sections_left c (done answer) = 0
sections_left (generates bytes user operation) start = 1
sections_left (generates bytes user operation) verified = 4
sections_left (generates bytes user operation) scanned = 4
sections_left (generates bytes user operation) (counted b) = 4
sections_left (registers now user ch auth json id key) start = 3
sections_left (registers now user ch auth json id key) verified = 2
sections_left (registers now user ch auth json id key) scanned = 1
sections_left (registers now user ch auth json id key) (counted b) = 4
sections_left (authenticates user ch auth json id) start = 3
sections_left (authenticates user ch auth json id) verified = 2
sections_left (authenticates user ch auth json id) scanned = 4
sections_left (authenticates user ch auth json id) (counted b) = 1

left-after_store_call :
    {A : Type 0} (c : Call) (r : Result SessionStoreError A) (p : Phase) (n : ℕ)
    → sections_left c p ≤ n
    → sections_left c (after_store_call r p) ≤ n
unfolding after_store_call
left-after_store_call c (err e) p n h = omega arith
left-after_store_call c (ok a) p n h = h

left-after :
    {A : Type 0} (c : Call) (r : Result WebAuthnError A) (next : A → Phase) (n : ℕ)
    → ((a : A) → sections_left c (next a) ≤ n)
    → sections_left c (after r next) ≤ n
unfolding after
left-after c (err e) next n h = omega arith
left-after c (ok a) next n h = h a

module _ {S R : Type 0} (k : WebAuthnCrates) (o : ChallengeStore S R)
    (config : WebAuthnConfig) where
  left-verify_section :
      (c : Call) (operation user ch : Bytes) (r : Result WebAuthnError (Unit {0})) (s : S) (n : ℕ)
      → sections_left c verified ≤ n
      → sections_left c (verify_section k o config operation user ch r s).0 ≤ n
  unfolding verify_section
  left-verify_section c operation user ch (err e) s n h = omega arith
  left-verify_section c operation user ch (ok u) s n h = left-after_store_call c _ verified n h

  -- A section of a call leaves it with one section less.
  section-left :
      (c : Call) (p : Phase) (s : S) (m : Map (List WebAuthnCredential))
      → sections_left c p ≤ 3
      → sections_left c (section k o config c p s m).0 ≤ sections_left c p - 1
  unfolding section generate_section register_section authenticate_section
  section-left (generates bytes user operation) start s m h =
      left-after_store_call (generates bytes user operation)
        (o.bind_state (challenge_key config operation user) (k.encode bytes) challenge_purpose
          config.challenge_ttl_secs s).0
        (done (gives_challenge (k.encode bytes))) 0 (omega arith)
  section-left (generates bytes user operation) verified s m h = absurd (omega arith)
  section-left (generates bytes user operation) scanned s m h = absurd (omega arith)
  section-left (generates bytes user operation) (counted b) s m h = absurd (omega arith)
  section-left (generates bytes user operation) (done a) s m h = omega arith
  section-left (registers now user ch auth json id key) start s m h =
      left-verify_section (registers now user ch auth json id key) (codes "create") user ch
        (check_registration k config ch auth json) s 2 (omega arith)
  section-left (registers now user ch auth json id key) verified s m h =
      elim (Bool-cases (is_registered id m)) [
        | inl old ↦ rw old (omega arith)
        | inr new ↦ rw new (omega arith)
      ]
  section-left (registers now user ch auth json id key) scanned s m h = omega arith
  section-left (registers now user ch auth json id key) (counted b) s m h = absurd (omega arith)
  section-left (registers now user ch auth json id key) (done a) s m h = omega arith
  section-left (authenticates user ch auth json id) start s m h =
      left-verify_section (authenticates user ch auth json id) (codes "get") user ch
        (check_authentication k config ch auth json) s 2 (omega arith)
  section-left (authenticates user ch auth json id) verified s m h =
      left-after (authenticates user ch auth json id) (set_count user id auth m).0 (λ b. counted b)
        1 (λ b. omega arith)
  section-left (authenticates user ch auth json id) scanned s m h = absurd (omega arith)
  section-left (authenticates user ch auth json id) (counted b) s m h =
      left-after (authenticates user ch auth json id) (verify_signature b auth json)
        (λ _. done accepted) 0 (λ u. omega arith)
  section-left (authenticates user ch auth json id) (done a) s m h = omega arith

left-done : (c : Call) (p : Phase) → sections_left c p ≤ 0 → (answer : Answer) × (p ≡ done answer)
left-done c (done answer) h = (answer, refl)
left-done (generates bytes user operation) start h = absurd (omega arith)
left-done (generates bytes user operation) verified h = absurd (omega arith)
left-done (generates bytes user operation) scanned h = absurd (omega arith)
left-done (generates bytes user operation) (counted b) h = absurd (omega arith)
left-done (registers now user ch auth json id key) start h = absurd (omega arith)
left-done (registers now user ch auth json id key) verified h = absurd (omega arith)
left-done (registers now user ch auth json id key) scanned h = absurd (omega arith)
left-done (registers now user ch auth json id key) (counted b) h = absurd (omega arith)
left-done (authenticates user ch auth json id) start h = absurd (omega arith)
left-done (authenticates user ch auth json id) verified h = absurd (omega arith)
left-done (authenticates user ch auth json id) scanned h = absurd (omega arith)
left-done (authenticates user ch auth json id) (counted b) h = absurd (omega arith)

left-start : (c : Call) → sections_left c start ≤ 3
left-start (generates bytes user operation) = omega arith
left-start (registers now user ch auth json id key) = omega arith
left-start (authenticates user ch auth json id) = omega arith

-- How often a schedule runs a task.
unfoldable pub turns : ℕ → List ℕ → ℕ
turns i [] = 0
turns i (j ∷ is) = if j == i then suc (turns i is) else turns i is

module _ {S R : Type 0} (k : WebAuthnCrates) (o : ChallengeStore S R) (config : WebAuthnConfig)
    (calls : ℕ → Call) where
  -- The tasks run their sections in the order of a schedule.
  unfoldable pub run_tasks : List ℕ → System S → System S
  run_tasks [] y = y
  run_tasks (i ∷ is) y = run_tasks is (advance k o config calls i y)

  advance-left :
      (i j : ℕ) (y : System S)
      → sections_left (calls i) (y.phases i) ≤ 3
      → sections_left (calls i) ((advance k o config calls j y).phases i)
        ≤ sections_left (calls i) (y.phases i) - (if j == i then 1 else 0)
  unfolding advance
  advance-left i j y h = elim (Bool-cases (j == i)) [
    | inr other ↦ rw other (omega arith)
    | inl this ↦
        let same : j ≡ i = (==_iff j i).0 this in
        rw this (
          subst
            (λ l.
              sections_left (calls l) (y.phases l) ≤ 3
              → sections_left (calls l)
                  (section k o config (calls j) (y.phases j) y.store y.credentials).0
                ≤ sections_left (calls l) (y.phases l) - 1)
            same (section-left k o config (calls j) (y.phases j) y.store y.credentials) h)
  ]

  run_tasks-left :
      (i : ℕ) (is : List ℕ) (y : System S)
      → sections_left (calls i) (y.phases i) ≤ 3
      → sections_left (calls i) ((run_tasks is y).phases i)
        ≤ sections_left (calls i) (y.phases i) - turns i is
  unfolding run_tasks turns
  run_tasks-left i [] y h = omega arith
  run_tasks-left i (j ∷ is) y h =
      let step = advance-left i j y h in
      elim (Bool-cases (j == i)) [
        | inl this ↦
            let one = rw this at step in
            rw this (
              omega (
                arith,
                one,
                run_tasks-left i is (advance k o config calls j y) (omega (arith, one, h)),
              ))
        | inr other ↦
            let none_less = rw other at step in
            rw other (
              omega (
                arith,
                none_less,
                run_tasks-left i is (advance k o config calls j y) (omega (arith, none_less, h)),
              ))
      ]

  -- In every schedule of any number of concurrent calls, a call has answered once it has had three
  -- turns, however many the others have had and whatever they and the store do.
  pub run_tasks-answers :
      (is : List ℕ) (s : S) (m : Map (List WebAuthnCredential)) (i : ℕ)
      → 3 ≤ turns i is
      → (answer : Answer) × ((run_tasks is
              (record { store = s; credentials = m; phases = λ _. start })).phases
            i
          ≡ done answer)
  run_tasks-answers is s m i enough =
      let y : System S = record { store = s; credentials = m; phases = λ _. start } in
      left-done (calls i) ((run_tasks is y).phases i)
        (omega (arith, run_tasks-left i is y (left-start (calls i)), left-start (calls i), enough))
