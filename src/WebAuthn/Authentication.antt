-- ===== src/WebAuthn/Authentication.antt =====
-- src/webauthn.rs: when `verify_authentication` succeeds.
use auth_kit.Base.{
  ◌<◌, ◌≡◌, refl, ◌≢◌, ◌↔◌, inl, inr, subst, true, Option, none, some, List, [], ◌∷◌, Option-cases,
  Bytes, codes, arith,
}
use auth_kit.Base.Map.{Map, get}
use auth_kit.Base.Outcome.{Result, ok, err, Result-cases}
use auth_kit.SessionStore.{SessionStoreError}
use auth_kit.WebAuthn.{WebAuthnError, session_store, AuthenticatorData, WebAuthnCredential}
use auth_kit.WebAuthn.Checks.{
  WebAuthnCrates, challenge_key, challenge_purpose, check_authentication,
}
use auth_kit.WebAuthn.Checks.Laws.{IsClientData, check_authentication_iff}
use auth_kit.WebAuthn.Registry.{
  list_credentials, find_credential, verify_signature, use_credential, authenticate,
}
use auth_kit.WebAuthn.Registry.Counts.{credential}
use auth_kit.WebAuthn.Registry.Growth.{authenticate-Authenticated}
use auth_kit.WebAuthn.Verifier.{ChallengeStore, WebAuthnVerifier, verify_authentication}

module _ {S R : Type 0} (k : WebAuthnCrates) (o : ChallengeStore S R) (user challenge : Bytes)
    (auth : AuthenticatorData) (json id : Bytes) (v : WebAuthnVerifier S) where
  -- The answer of the session store, to which the verifier comes after its checks.
  abbrev pub get_answer : Result SessionStoreError R × S
  get_answer =
      o.verify_state (challenge_key v.config (codes "get") user) challenge challenge_purpose v.store

  -- An authentication fails in its checks, fails in the store, or goes on to the registry.
  pub authentication_cases {ℓ} :
      (P : Result WebAuthnError (Unit {0}) × WebAuthnVerifier S → Type ℓ)
      → ((e : WebAuthnError)
          → check_authentication k v.config challenge auth json ≡ err e
          → P (err e, v))
      → ((e : SessionStoreError)
          → check_authentication k v.config challenge auth json ≡ ok tt
          → get_answer.0 ≡ err e
          → P (err (session_store e), record v { store = get_answer.1 }))
      → ((r : R)
          → check_authentication k v.config challenge auth json ≡ ok tt
          → get_answer.0 ≡ ok r
          → let used = authenticate user id auth json v.credentials in
            P (used.0, record v { store = get_answer.1; credentials = used.1 }))
      → P (verify_authentication k o user challenge auth json id v)
  unfolding verify_authentication
  authentication_cases P p1 p2 p3 =
      elim (Result-cases (check_authentication k v.config challenge auth json)) [
        | inl (e, bad) ↦ subst P (ground arith) (p1 e bad)
        | inr (u, good) ↦ elim (Result-cases get_answer.0) [
          | inl (e, refused) ↦ subst P (ground arith) (p2 e good refused)
          | inr (r, accepted) ↦ subst P (ground arith) (p3 r good accepted)
        ]
      ]

  -- What an authentication asks for.
  pub record IsAuthentic : Type 0 where
    pub rp_id : auth.rp_id_hash ≡ k.digest v.config.rp_id
    pub present : auth.flags.up ≡ true
    pub client : IsClientData k v.config (codes "webauthn.get") challenge json
    pub answer : R
    pub answered : get_answer.0 ≡ ok answer
    pub cred : WebAuthnCredential
    pub held : credential user id v.credentials ≡ some cred
    pub newer : cred.sign_count < auth.sign_count
    pub keyed : cred.public_key ≢ []

  verify_signature-keyed : (key : Bytes) → key ≢ [] → verify_signature key auth json ≡ ok tt
  unfolding verify_signature
  verify_signature-keyed [] n = absurd (n refl)
  verify_signature-keyed (b ∷ key) n = refl

  authenticate-ok :
      (m : Map (List WebAuthnCredential)) (c : WebAuthnCredential)
      → credential user id m ≡ some c
      → c.sign_count < auth.sign_count
      → c.public_key ≢ []
      → (authenticate user id auth json m).0 ≡ ok tt
  unfolding authenticate use_credential credential list_credentials
  authenticate-ok m c held newer keyed = elim (Option-cases (get user m)) [
    | inl unknown ↦ absurd (unknown_user (unfold find_credential in ground (arith, unknown, held)))
    | inr (cs, known) ↦
        let found : find_credential id cs ≡ some c = ground (arith, known, held) in
        ground (arith, known, found, verify_signature-keyed c.public_key keyed)
  ]
    where
      unknown_user : ◌≡◌ {A = Option WebAuthnCredential} none (some c) → ⊥
      unknown_user e = cc

  -- `verify_authentication` succeeds exactly when the hash is that of the relying party, the user
  -- is flagged present, the client data is that of an authentication with this challenge and an
  -- allowed origin, the session store does not fail (whatever its answer is), and the user has a
  -- credential of the id with a key that is not empty and a lower sign count.
  pub verify_authentication_iff :
      ((verify_authentication k o user challenge auth json id v).0 ≡ ok tt) ↔ IsAuthentic
  verify_authentication_iff = (
    authentication_cases (λ x. x.0 ≡ ok tt → IsAuthentic) (λ e _ h. cc) (λ e _ _ h. cc)
        (λ r checked answered h.
          let (hash, up, client) =
            (check_authentication_iff k v.config challenge auth json).0 checked in
          let a = authenticate-Authenticated user id auth json v.credentials h in
          record {
            rp_id = hash;
            present = up;
            client = client;
            answer = r;
            answered = answered;
            cred = a.cred;
            held = a.held;
            newer = a.newer;
            keyed = a.keyed;
          }),
    λ g.
        let checked =
          (check_authentication_iff k v.config challenge auth json).1
            (g.rp_id, g.present, g.client) in
        authentication_cases (λ x. x.0 ≡ ok tt) (λ e bad. cc)
          (λ e _ refused. cc (refused, g.answered))
          (λ r _ _. authenticate-ok v.credentials g.cred g.held g.newer g.keyed),
  )

  -- After a success the credential holds the count of the assertion.
  pub verify_authentication-count :
      (verify_authentication k o user challenge auth json id v).0 ≡ ok tt
      → (c : WebAuthnCredential) × (credential user id
            (verify_authentication k o user challenge auth json id v).1.credentials
          ≡ some c)
        × (c.sign_count ≡ auth.sign_count)
  verify_authentication-count =
      authentication_cases
        (λ x.
          x.0 ≡ ok tt
          → (c : WebAuthnCredential) × (credential user id x.1.credentials ≡ some c)
            × (c.sign_count ≡ auth.sign_count))
        (λ e _ h. cc) (λ e _ _ h. cc)
        (λ r _ _ h.
          let a = authenticate-Authenticated user id auth json v.credentials h in
          (record a.cred { sign_count = auth.sign_count }, a.left, refl))
