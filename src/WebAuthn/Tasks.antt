-- ===== src/WebAuthn/Tasks.antt =====
-- src/webauthn.rs: the calls of a verifier by several tasks at once. A call is a sequence of
-- sections; each holds a lock, that of the session store or that of the registry, and between two
-- sections of one call any sections of others may run. `Race` looks at two registrations of one id.
pub mod Counting
pub mod Reach
pub mod Stamp
pub mod Once
pub mod Single
pub mod Ends
pub mod Success
pub mod Soundness
use auth_kit.Base.{ℕ, none, some, List, leb, ◌==◌, if◌then◌else◌, Bytes, codes}
use auth_kit.Base.Map.{Map, get, insert}
use auth_kit.Base.Outcome.{Result, ok, err}
use auth_kit.SessionStore.{SessionStoreError}
use auth_kit.WebAuthn.{
  WebAuthnError, credential_already_exists, credential_not_found, session_store, AuthenticatorData,
  WebAuthnCredential, WebAuthnConfig,
}
use auth_kit.WebAuthn.Checks.{
  WebAuthnCrates, challenge_key, challenge_purpose, check_registration, check_authentication,
}
use auth_kit.WebAuthn.Registry.{
  is_registered, push_credential, find_credential, set_sign_count, verify_signature,
}
use auth_kit.WebAuthn.Registration.{new_credential}
use auth_kit.WebAuthn.Verifier.{ChallengeStore}
use auth_kit.WebAuthn.Replay.{Call, generates, registers, authenticates}

-- What a call answers.
pub data Answer : Type 0 where
  gives_challenge : Bytes → Answer
  gives_credential : WebAuthnCredential → Answer
  accepted : Answer
  failed : WebAuthnError → Answer

-- Where a call is: before its first section; after the section in the session store; after the scan
-- of the registry; after the write of a sign count, with the public key; done.
pub data Phase : Type 0 where
  start : Phase
  verified : Phase
  scanned : Phase
  counted : Bytes → Phase
  done : Answer → Phase

-- The section of `verify_authentication` that holds the write lock: the key of the credential,
-- whose count it has set.
unfoldable pub set_count :
    Bytes
    → Bytes
    → AuthenticatorData
    → Map (List WebAuthnCredential)
    → Result WebAuthnError Bytes × Map (List WebAuthnCredential)
set_count user_id id auth m = elim (get user_id m) [
  | none ↦ (err credential_not_found, m)
  | some creds ↦ elim (find_credential id creds) [
    | none ↦ (err credential_not_found, m)
    | some cred ↦
        if leb auth.sign_count cred.sign_count
        then (err credential_not_found, m)
        else (ok cred.public_key, insert user_id (set_sign_count id auth.sign_count creds) m)
  ]
]

-- The end of a section that may fail.
unfoldable pub after : {A : Type 0} → Result WebAuthnError A → (A → Phase) → Phase
after (err e) next = done (failed e)
after (ok a) next = next a

-- The end of a section in the session store.
unfoldable pub after_store_call : {A : Type 0} → Result SessionStoreError A → Phase → Phase
after_store_call (err e) next = done (failed (session_store e))
after_store_call (ok a) next = next

-- What tasks share, and where each is.
pub record System (S : Type 0) : Type 0 where
  pub store : S
  pub credentials : Map (List WebAuthnCredential)
  pub phases : ℕ → Phase

-- The phases with one changed.
abbrev pub set_phase : (ℕ → Phase) → ℕ → Phase → ℕ → Phase
set_phase phases i p j = if i == j then p else phases j

module _ {S R : Type 0} (k : WebAuthnCrates) (o : ChallengeStore S R)
    (config : WebAuthnConfig) where
  unfoldable pub generate_section : Bytes → Bytes → Bytes → Phase → S → Phase × S
  unfolding after_store_call
  generate_section bytes user operation start s =
      let (answer, s') =
        o.bind_state (challenge_key config operation user) (k.encode bytes) challenge_purpose
          config.challenge_ttl_secs s in
      (after_store_call answer (done (gives_challenge (k.encode bytes))), s')
  generate_section bytes user operation verified s = (verified, s)
  generate_section bytes user operation scanned s = (scanned, s)
  generate_section bytes user operation (counted key) s = (counted key, s)
  generate_section bytes user operation (done answer) s = (done answer, s)

  -- The checks and the section in the session store of the two other operations.
  unfoldable pub verify_section :
      Bytes → Bytes → Bytes → Result WebAuthnError (Unit {0}) → S → Phase × S
  unfolding after_store_call
  verify_section operation user challenge (err e) s = (done (failed e), s)
  verify_section operation user challenge (ok u) s =
      let (answer, s') =
        o.verify_state (challenge_key config operation user) challenge challenge_purpose s in
      (after_store_call answer verified, s')

  unfoldable pub register_section :
      Bytes
      → Bytes
      → Bytes
      → AuthenticatorData
      → Bytes
      → Bytes
      → Bytes
      → Phase
      → S
      → Map (List WebAuthnCredential)
      → Phase × S × Map (List WebAuthnCredential)
  unfolding verify_section
  register_section now user challenge auth json id key start s m =
      let (p, s') =
        verify_section (codes "create") user challenge
          (check_registration k config challenge auth json) s in
      (p, s', m)
  register_section now user challenge auth json id key verified s m =
      (if is_registered id m then done (failed credential_already_exists) else scanned, s, m)
  register_section now user challenge auth json id key scanned s m =
      let c = new_credential now auth id key in
      (done (gives_credential c), s, push_credential user c m)
  register_section now user challenge auth json id key (counted b) s m = (counted b, s, m)
  register_section now user challenge auth json id key (done answer) s m = (done answer, s, m)

  unfoldable pub authenticate_section :
      Bytes
      → Bytes
      → AuthenticatorData
      → Bytes
      → Bytes
      → Phase
      → S
      → Map (List WebAuthnCredential)
      → Phase × S × Map (List WebAuthnCredential)
  unfolding verify_section set_count after
  authenticate_section user challenge auth json id start s m =
      let (p, s') =
        verify_section (codes "get") user challenge
          (check_authentication k config challenge auth json) s in
      (p, s', m)
  authenticate_section user challenge auth json id verified s m =
      let (key, m') = set_count user id auth m in (after key (λ b. counted b), s, m')
  authenticate_section user challenge auth json id scanned s m = (scanned, s, m)
  authenticate_section user challenge auth json id (counted b) s m =
      (after (verify_signature b auth json) (λ _. done accepted), s, m)
  authenticate_section user challenge auth json id (done answer) s m = (done answer, s, m)

  -- The next section of a call.
  unfoldable pub section :
      Call → Phase → S → Map (List WebAuthnCredential) → Phase × S × Map (List WebAuthnCredential)
  unfolding generate_section register_section authenticate_section
  section (generates bytes user operation) p s m =
      let (p', s') = generate_section bytes user operation p s in (p', s', m)
  section (registers now user challenge auth json id key) p s m =
      register_section now user challenge auth json id key p s m
  section (authenticates user challenge auth json id) p s m =
      authenticate_section user challenge auth json id p s m

  -- Task `i` runs its next section.
  unfoldable pub advance : (ℕ → Call) → ℕ → System S → System S
  unfolding section
  advance calls i y =
      let (p, s, m) = section (calls i) (y.phases i) y.store y.credentials in
      record { store = s; credentials = m; phases = set_phase y.phases i p }
