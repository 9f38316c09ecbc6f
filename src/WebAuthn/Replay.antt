-- ===== src/WebAuthn/Replay.antt =====
-- src/webauthn.rs: any sequence of calls of one verifier, and what no sequence can undo.
use auth_kit.Base.{some, ◌≤◌, ◌≡◌, sym, ◌∙◌, ◌≢◌, List, [], ◌∷◌, Bytes, arith}
use auth_kit.Base.Map.{Map}
use auth_kit.Base.Outcome.{ok}
use auth_kit.WebAuthn.{AuthenticatorData, WebAuthnCredential}
use auth_kit.WebAuthn.Checks.{WebAuthnCrates}
use auth_kit.WebAuthn.Registry.{register, authenticate}
use auth_kit.WebAuthn.Registry.Laws.{IsUnique, register-IsUnique}
use auth_kit.WebAuthn.Registry.Counts.{authenticate-IsUnique}
use auth_kit.WebAuthn.Registry.Growth.{
  Grows, Grows-refl, Grows-trans, register-Grows, authenticate-Grows,
}
use auth_kit.WebAuthn.Verifier.{
  ChallengeStore, WebAuthnVerifier, generate_challenge, verify_registration, verify_authentication,
}
use auth_kit.WebAuthn.Registration.{new_credential, registration_cases}
use auth_kit.WebAuthn.Authentication.{
  authentication_cases, verify_authentication_iff, verify_authentication-count,
}

-- The calls of a verifier that change its state, with their arguments.
pub data Call : Type 0 where
  generates : Bytes → Bytes → Bytes → Call
  registers : Bytes → Bytes → Bytes → AuthenticatorData → Bytes → Bytes → Bytes → Call
  authenticates : Bytes → Bytes → AuthenticatorData → Bytes → Bytes → Call

module _ {S R : Type 0} (k : WebAuthnCrates) (o : ChallengeStore S R) where
  unfoldable pub step : Call → WebAuthnVerifier S → WebAuthnVerifier S
  step (generates bytes user operation) v = (generate_challenge k o bytes user operation v).1
  step (registers now user challenge auth json id key) v =
      (verify_registration k o now user challenge auth json id key v).1
  step (authenticates user challenge auth json id) v =
      (verify_authentication k o user challenge auth json id v).1

  unfoldable pub run : List Call → WebAuthnVerifier S → WebAuthnVerifier S
  run [] v = v
  run (c ∷ cs) v = run cs (step c v)

  -- What holds of the registry as it is, after a registration and after an authentication holds
  -- after a call.
  step_cases {ℓ} :
      (P : Map (List WebAuthnCredential) → Type ℓ) (c : Call) (v : WebAuthnVerifier S)
      → P v.credentials
      → ((user : Bytes) (x : WebAuthnCredential) → P (register user x v.credentials).1)
      → ((user id : Bytes) (auth : AuthenticatorData) (json : Bytes)
          → P (authenticate user id auth json v.credentials).1)
      → P (step c v).credentials
  unfolding step generate_challenge
  step_cases P (generates bytes user operation) v p q r = p
  step_cases P (registers now user challenge auth json id key) v p q r =
      registration_cases k o now user challenge auth json id key v (λ x. P x.1.credentials)
        (λ _ _. p) (λ _ _ _. p) (λ _ _ _. q user (new_credential now auth id key))
  step_cases P (authenticates user challenge auth json id) v p q r =
      authentication_cases k o user challenge auth json id v (λ x. P x.1.credentials) (λ _ _. p)
        (λ _ _ _. p) (λ _ _ _. r user id auth json)

  -- Whatever is called, in whatever order, one call after the other, with whatever arguments, and
  -- whatever the session store answers: if no credential id is registered twice before, none is
  -- after.
  pub run-IsUnique :
      (cs : List Call) (v : WebAuthnVerifier S)
      → IsUnique v.credentials
      → IsUnique (run cs v).credentials
  unfolding run
  run-IsUnique [] v u = u
  run-IsUnique (c ∷ cs) v u = run-IsUnique cs (step c v) (
      step_cases IsUnique c v u (λ user x. register-IsUnique user x v.credentials u)
        (λ user id auth json. authenticate-IsUnique user id auth json v.credentials u))

  -- After any sequence of calls, each run to its end, every user still has, for every id, the
  -- credential that was found for it before, with the same key and a sign count at least as high.
  pub run-Grows :
      (cs : List Call) (v : WebAuthnVerifier S) → Grows v.credentials (run cs v).credentials
  unfolding run
  run-Grows [] v = Grows-refl v.credentials
  run-Grows (c ∷ cs) v =
      Grows-trans v.credentials (step c v).credentials (run cs (step c v)).credentials
        (step_cases (Grows v.credentials) c v (Grows-refl v.credentials)
          (λ user x. register-Grows user x v.credentials)
          (λ user id auth json. authenticate-Grows user id auth json v.credentials))
        (run-Grows cs (step c v))

  -- Once an authentication has succeeded, no later authentication of the same user with the same
  -- credential id succeeds whose sign count is not above that of the first, whatever calls come in
  -- between, each run to its end, and whatever its challenge, client data and flags are: an
  -- assertion is not accepted twice.
  pub verify_authentication-no_replay :
      (user id challenge challenge' json json' : Bytes) (auth auth' : AuthenticatorData)
      (cs : List Call) (v : WebAuthnVerifier S)
      → (verify_authentication k o user challenge auth json id v).0 ≡ ok tt
      → auth'.sign_count ≤ auth.sign_count
      → (verify_authentication k o user challenge' auth' json' id
          (run cs (verify_authentication k o user challenge auth json id v).1)).0
        ≢ ok tt
  verify_authentication-no_replay user id challenge challenge' json json' auth auth' cs v first
        stale e =
      let next = (verify_authentication k o user challenge auth json id v).1 in
      let (c, held, counted) =
        verify_authentication-count k o user challenge auth json id v first in
      let (d, later, l) = run-Grows cs next user id c held in
      let a = (verify_authentication_iff k o user challenge' auth' json' id (run cs next)).0 e in
      let same : some d ≡ some a.cred = sym later ∙ a.held in
      ground (arith, same, a.newer, counted, l.counted)
