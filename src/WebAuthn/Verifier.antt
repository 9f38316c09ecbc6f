-- ===== src/WebAuthn/Verifier.antt =====
-- src/webauthn.rs: `WebAuthnVerifier`. The locks are never poisoned, as no code panics under them.
use auth_kit.Base.{ℕ, none, List, [], Bytes, codes}
use auth_kit.Base.Map.{Map}
use auth_kit.Base.Outcome.{Result, ok, err}
use auth_kit.SessionStore.{SessionStoreError}
use auth_kit.WebAuthn.{
  WebAuthnError, session_store, AuthenticatorData, WebAuthnCredential, WebAuthnConfig,
}
use auth_kit.WebAuthn.Checks.{
  WebAuthnCrates, challenge_key, challenge_purpose, check_registration, check_authentication,
}
use auth_kit.WebAuthn.Registry.{register, authenticate}

-- The session store as this module calls it: a key, a challenge, a purpose and, to bind, a time to
-- live in seconds; the last argument of each call is `None` and is left out. The answer of
-- `verify_state` is of any type `R`, as the calls drop it.
pub record ChallengeStore (S R : Type 0) : Type 0 where
  pub bind_state : Bytes → Bytes → Bytes → ℕ → S → Result SessionStoreError (Unit {0}) × S
  pub verify_state : Bytes → Bytes → Bytes → S → Result SessionStoreError R × S

pub record WebAuthnVerifier (S : Type 0) : Type 0 where
  pub config : WebAuthnConfig
  pub store : S
  pub credentials : Map (List WebAuthnCredential)

-- `WebAuthnVerifier::new`.
unfoldable pub new : {S : Type 0} → WebAuthnConfig → S → WebAuthnVerifier S
new config store = record { config = config; store = store; credentials = [] }

module _ {S R : Type 0} (k : WebAuthnCrates) (o : ChallengeStore S R) where
  -- `?` on the answer of `verify_state`, and what comes after it.
  unfoldable pub after_store :
      {A : Type 0}
      → WebAuthnVerifier S
      → Result SessionStoreError R × S
      → (Map (List WebAuthnCredential) → Result WebAuthnError A × Map (List WebAuthnCredential))
      → Result WebAuthnError A × WebAuthnVerifier S
  after_store v (err e, s) next = (err (session_store e), record v { store = s })
  after_store v (ok r, s) next =
      let (result, credentials) = next v.credentials in
      (result, record v { store = s; credentials = credentials })

  -- The challenge is the encoding of the 32 random `bytes`.
  unfoldable pub generate_challenge :
      Bytes → Bytes → Bytes → WebAuthnVerifier S → Result WebAuthnError Bytes × WebAuthnVerifier S
  generate_challenge bytes user_id operation v =
      let challenge = k.encode bytes in
      let (answer, s) =
        o.bind_state (challenge_key v.config operation user_id) challenge challenge_purpose
          v.config.challenge_ttl_secs v.store in
      (elim answer [ err e ↦ err (session_store e) | ok _ ↦ ok challenge ], record v { store = s })

  -- The time at which the credential is created is an argument.
  unfoldable pub verify_registration :
      Bytes
      → Bytes
      → Bytes
      → AuthenticatorData
      → Bytes
      → Bytes
      → Bytes
      → WebAuthnVerifier S
      → Result WebAuthnError WebAuthnCredential × WebAuthnVerifier S
  unfolding after_store
  verify_registration now user_id challenge auth json credential_id public_key v =
      elim (check_registration k v.config challenge auth json) [
        | err e ↦ (err e, v)
        | ok _ ↦
            after_store v
              (o.verify_state (challenge_key v.config (codes "create") user_id) challenge
                challenge_purpose v.store)
              (register user_id (record {
                credential_id = credential_id;
                public_key = public_key;
                sign_count = auth.sign_count;
                label = none;
                created_at = now;
              }))
      ]

  unfoldable pub verify_authentication :
      Bytes
      → Bytes
      → AuthenticatorData
      → Bytes
      → Bytes
      → WebAuthnVerifier S
      → Result WebAuthnError (Unit {0}) × WebAuthnVerifier S
  unfolding after_store
  verify_authentication user_id challenge auth json credential_id v =
      elim (check_authentication k v.config challenge auth json) [
        | err e ↦ (err e, v)
        | ok _ ↦
            after_store v
              (o.verify_state (challenge_key v.config (codes "get") user_id) challenge
                challenge_purpose v.store)
              (authenticate user_id credential_id auth json)
      ]
