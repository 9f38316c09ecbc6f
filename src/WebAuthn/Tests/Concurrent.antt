-- ===== src/WebAuthn/Tests/Concurrent.antt =====
-- Instances of the theorems about concurrent calls of src/webauthn.rs.
use auth_kit.Base.{
  ℕ, zero, suc, ◌≤◌, ◌≡◌, ◌≢◌, refl, inl, inr, ◌++◌, some, Bytes, List, [], ◌∷◌, codes, beq, arith,
}
use auth_kit.Base.Map.{get, insert}
use auth_kit.Base.Outcome.{ok}
use auth_kit.WebAuthn.Checks.{
  check_rp_id, check_client_data, check_authentication, check_registration, contains,
}
use auth_kit.WebAuthn.Registry.{
  find_credential, set_sign_count, verify_signature, is_registered, push_credential,
  list_credentials,
}
use auth_kit.WebAuthn.Registry.Laws.{count_id}
use auth_kit.WebAuthn.Registry.Growth.{Grows}
use auth_kit.WebAuthn.Replay.{Call, registers, authenticates}
use auth_kit.WebAuthn.Race.{Thread, waiting, done, run_schedule, run_schedule-duplicate}
use auth_kit.WebAuthn.Tasks
use auth_kit.WebAuthn.Tasks.{
  accepted, System, start, set_count, after, after_store_call, verify_section, authenticate_section,
  register_section, section, advance,
}
use auth_kit.WebAuthn.Tasks.Reach.{Reach, begin, next, Reach-Grows}
use auth_kit.WebAuthn.Tasks.Single.{IsSole, registered_once}
use auth_kit.WebAuthn.Tasks.Ends.{turns, run_tasks}
use auth_kit.WebAuthn.Tasks.Soundness.{HasKey, accepted_sound}
use auth_kit.WebAuthn.Tasks.Success.{run_tasks-accepts}
use auth_kit.WebAuthn.Registry.Counts.{credential}
use auth_kit.WebAuthn.{AuthenticatorData}
use auth_kit.WebAuthn.Tasks.Once.{accepted_once}
use auth_kit.WebAuthn.Tests.{alice_key, with_alice, crates, counting_store, config, auth_data}

abbrev two_threads : List Thread
two_threads =
    record { user = codes "alice"; cred = alice_key; phase = waiting }
    ∷ record { user = codes "bob"; cred = alice_key; phase = waiting }
    ∷ []

run_schedule-duplicate_example :
    let w =
      run_schedule
        ((0 ∷ 1 ∷ []) ++ 1 ∷ 0 ∷ [])
        (record { credentials = []; threads = two_threads }) in
    (w.threads ≡ (
      record { user = codes "alice"; cred = alice_key; phase = done (ok alice_key) }
      ∷ record { user = codes "bob"; cred = alice_key; phase = done (ok alice_key) }
      ∷ []))
    × (count_id (1 ∷ 2 ∷ []) w.credentials ≡ 2)
unfolding count_id
run_schedule-duplicate_example =
    run_schedule-duplicate (codes "alice") (codes "bob") alice_key alice_key [] (0 ∷ 1 ∷ [])
      (1 ∷ 0 ∷ []) refl refl (inl refl) (inr refl)

abbrev login : ℕ → Call
login count =
    authenticates (codes "alice") (codes "challenge") (auth_data count) (codes "webauthn.get")
      (1 ∷ 2 ∷ [])

-- Task 0 logs in with count 5, and the others with count 6.
abbrev logins : ℕ → Call
logins zero = login 5
logins (suc i) = login 6

abbrev both_logged_in : System ℕ
both_logged_in = advance crates counting_store config logins 1 (
    advance crates counting_store config logins 0 (
      advance crates counting_store config logins 1 (
        advance crates counting_store config logins 0 (
          advance crates counting_store config logins 0 (
            advance crates counting_store config logins 1
              (record { store = 0; credentials = with_alice.credentials; phases = λ i. start }))))))

abbrev both_reached :
    Reach crates counting_store config logins 0 with_alice.credentials both_logged_in
both_reached = next (next (next (next (next (next begin 1) 0) 0) 1) 0) 1

task_0_accepted : both_logged_in.phases 0 ≡ Tasks.done accepted
unfolding advance section authenticate_section verify_section set_count after after_store_call
    check_authentication check_rp_id check_client_data contains beq find_credential set_sign_count
    verify_signature get insert
task_0_accepted = refl

task_1_accepted : both_logged_in.phases 1 ≡ Tasks.done accepted
unfolding advance section authenticate_section verify_section set_count after after_store_call
    check_authentication check_rp_id check_client_data contains beq find_credential set_sign_count
    verify_signature get insert
task_1_accepted = refl

Reach-Grows_example : Grows with_alice.credentials both_logged_in.credentials
Reach-Grows_example = Reach-Grows crates counting_store config logins both_reached

accepted_once_example : ◌≢◌ {A = ℕ} 5 6
accepted_once_example =
    accepted_once crates counting_store config logins both_reached 0 1 (codes "alice") (1 ∷ 2 ∷ [])
      (codes "challenge") (codes "challenge") (codes "webauthn.get") (codes "webauthn.get")
      (auth_data 5) (auth_data 6) (omega arith) refl refl task_0_accepted task_1_accepted

accepted_sound_example :
    (check_authentication crates config (codes "challenge") (auth_data 5) (codes "webauthn.get")
      ≡ ok tt)
    × (key : Bytes) × (key ≢ [])
    × HasKey (codes "alice") (1 ∷ 2 ∷ []) (auth_data 5) key both_logged_in.credentials
accepted_sound_example =
    accepted_sound crates counting_store config (codes "alice") (codes "challenge") (auth_data 5)
      (codes "webauthn.get") (1 ∷ 2 ∷ []) logins 0 refl both_reached task_0_accepted

-- Task 0 registers an id for `bob`, and the others log in.
abbrev mixed : ℕ → Call
mixed zero =
    registers (codes "now") (codes "bob") (codes "challenge") (auth_data 0)
      (codes "webauthn.create") (5 ∷ []) (6 ∷ [])
mixed (suc i) = login 6

mixed-IsSole : IsSole (5 ∷ []) mixed
mixed-IsSole zero zero p q = refl
mixed-IsSole zero (suc j) p q = cc
mixed-IsSole (suc i) j p q = cc

abbrev mixed_system : System ℕ
mixed_system = advance crates counting_store config mixed 0 (
    advance crates counting_store config mixed 1 (
      advance crates counting_store config mixed 0 (
        advance crates counting_store config mixed 1 (
          advance crates counting_store config mixed 0
            (record { store = 0; credentials = with_alice.credentials; phases = λ i. start })))))

registered_run : count_id (5 ∷ []) mixed_system.credentials ≡ 1
unfolding advance section register_section authenticate_section verify_section set_count after
    after_store_call check_registration check_authentication check_rp_id check_client_data contains
    beq find_credential set_sign_count verify_signature get insert is_registered push_credential
    list_credentials count_id
registered_run = refl

registered_once_example : count_id (5 ∷ []) mixed_system.credentials ≤ 1
unfolding count_id beq
registered_once_example =
    registered_once crates counting_store config (5 ∷ []) mixed mixed-IsSole (omega arith)
      (next (next (next (next (next begin 0) 1) 0) 1) 0)

-- Task 0 logs in, and the others register one id for `bob`.
abbrev single_login : ℕ → Call
single_login zero = login 6
single_login (suc i) =
    registers (codes "now") (codes "bob") (codes "challenge") (auth_data 0)
      (codes "webauthn.create") (5 ∷ []) (6 ∷ [])

login_checked :
    check_authentication crates config (codes "challenge") (auth_data 6) (codes "webauthn.get")
    ≡ ok tt
unfolding check_authentication check_rp_id check_client_data contains beq
login_checked = refl

alice_held : credential (codes "alice") (1 ∷ 2 ∷ []) with_alice.credentials ≡ some alice_key
unfolding credential list_credentials find_credential get beq
alice_held = refl

login_alone :
    (j : ℕ) (ch : Bytes) (auth : AuthenticatorData) (json : Bytes)
    → single_login j ≡ authenticates (codes "alice") ch auth json (1 ∷ 2 ∷ [])
    → j ≡ 0
login_alone zero ch auth json e = refl
login_alone (suc j) ch auth json e = cc

run_tasks-accepts_example :
    (run_tasks crates counting_store config single_login
        (1 ∷ 0 ∷ 2 ∷ 0 ∷ 1 ∷ 1 ∷ 0 ∷ [])
        (record { store = 0; credentials = with_alice.credentials; phases = λ _. start })).phases
      0
    ≡ Tasks.done accepted
unfolding turns
run_tasks-accepts_example =
    run_tasks-accepts crates counting_store config (codes "alice") (1 ∷ 2 ∷ []) alice_key
      (codes "challenge") (codes "webauthn.get") (auth_data 6) login_checked (λ s. (tt, refl))
      (omega arith) (λ e. cc) single_login 0 refl login_alone (1 ∷ 0 ∷ 2 ∷ 0 ∷ 1 ∷ 1 ∷ 0 ∷ []) 0
      with_alice.credentials alice_held (omega arith)
