-- ===== src/WebAuthn/Tasks/Counting.antt =====
-- src/webauthn.rs: the section that writes a sign count.
use auth_kit.Base.{◌≡◌, Bool-cases, Option-cases, inl, inr, List, leb, Bytes, arith}
use auth_kit.Base.Map.{Map, get}
use auth_kit.Base.Outcome.{ok, err}
use auth_kit.WebAuthn.{AuthenticatorData, WebAuthnCredential}
use auth_kit.WebAuthn.Registry.{find_credential, verify_signature, use_credential, authenticate}
use auth_kit.WebAuthn.Tasks.{set_count}

-- The write of a count, and then the check of the signature, are `authenticate`.
pub set_count-authenticate :
    (user id : Bytes) (auth : AuthenticatorData) (json : Bytes) (m : Map (List WebAuthnCredential))
    → authenticate user id auth json m ≡ (
      (elim (set_count user id auth m).0 [
        | err e ↦ err e
        | ok key ↦ verify_signature key auth json
      ]),
      (set_count user id auth m).1,
    )
unfolding authenticate use_credential set_count
set_count-authenticate user id auth json m = elim (Option-cases (get user m)) [
  | inl unknown ↦ ground (arith, unknown)
  | inr (creds, known) ↦ elim (Option-cases (find_credential id creds)) [
    | inl missing ↦ ground (arith, known, missing)
    | inr (cred, found) ↦ elim (Bool-cases (leb auth.sign_count cred.sign_count)) [
      | inl stale ↦ ground (arith, known, found, stale)
      | inr newer ↦ ground (arith, known, found, newer)
    ]
  ]
]
