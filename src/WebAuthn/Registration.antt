-- ===== src/WebAuthn/Registration.antt =====
-- src/webauthn.rs: when `verify_registration` registers a credential, and what it changes.
use auth_kit.Base.{
  ◌≡◌, refl, ◌↔◌, inl, inr, subst, true, false, none, List, [], ◌∷◌, ◌++◌, if◌then◌else◌,
  Bool-cases, Bytes, beq, codes, arith,
}
use auth_kit.Base.Map.{Map}
use auth_kit.Base.Outcome.{Result, ok, err, Result-cases}
use auth_kit.SessionStore.{SessionStoreError}
use auth_kit.WebAuthn.{WebAuthnError, session_store, AuthenticatorData, WebAuthnCredential}
use auth_kit.WebAuthn.Checks.{WebAuthnCrates, challenge_key, challenge_purpose, check_registration}
use auth_kit.WebAuthn.Checks.Laws.{IsClientData, check_registration_iff}
use auth_kit.WebAuthn.Registry.{list_credentials, is_registered, push_credential, register}
use auth_kit.WebAuthn.Registry.Laws.{count_id, is_registered-count_id}
use auth_kit.WebAuthn.Registry.Counts.{list_credentials-insert}
use auth_kit.WebAuthn.Verifier.{ChallengeStore, WebAuthnVerifier, verify_registration}

-- The credential that a registration makes.
abbrev pub new_credential : Bytes → AuthenticatorData → Bytes → Bytes → WebAuthnCredential
new_credential now auth id key = record {
  credential_id = id;
  public_key = key;
  sign_count = auth.sign_count;
  label = none;
  created_at = now;
}

module _ {S R : Type 0} (k : WebAuthnCrates) (o : ChallengeStore S R) (now user challenge : Bytes)
    (auth : AuthenticatorData) (json id key : Bytes) (v : WebAuthnVerifier S) where
  -- The answer of the session store, to which the verifier comes after its checks.
  abbrev pub create_answer : Result SessionStoreError R × S
  create_answer =
      o.verify_state (challenge_key v.config (codes "create") user) challenge challenge_purpose
        v.store

  -- A registration fails in its checks, fails in the store, or goes on to the registry.
  pub registration_cases {ℓ} :
      (P : Result WebAuthnError WebAuthnCredential × WebAuthnVerifier S → Type ℓ)
      → ((e : WebAuthnError)
          → check_registration k v.config challenge auth json ≡ err e
          → P (err e, v))
      → ((e : SessionStoreError)
          → check_registration k v.config challenge auth json ≡ ok tt
          → create_answer.0 ≡ err e
          → P (err (session_store e), record v { store = create_answer.1 }))
      → ((r : R)
          → check_registration k v.config challenge auth json ≡ ok tt
          → create_answer.0 ≡ ok r
          → let registered = register user (new_credential now auth id key) v.credentials in
            P (registered.0, record v { store = create_answer.1; credentials = registered.1 }))
      → P (verify_registration k o now user challenge auth json id key v)
  unfolding verify_registration
  registration_cases P p1 p2 p3 =
      elim (Result-cases (check_registration k v.config challenge auth json)) [
        | inl (e, bad) ↦ subst P (ground arith) (p1 e bad)
        | inr (u, good) ↦ elim (Result-cases create_answer.0) [
          | inl (e, refused) ↦ subst P (ground arith) (p2 e good refused)
          | inr (r, accepted) ↦ subst P (ground arith) (p3 r good accepted)
        ]
      ]

  register-ok :
      (m : Map (List WebAuthnCredential)) (c x : WebAuthnCredential)
      → ((register user x m).0 ≡ ok c) ↔ ((is_registered x.credential_id m ≡ false) × (c ≡ x))
  unfolding register
  register-ok m c x = elim (Bool-cases (is_registered x.credential_id m)) [
    | inl old ↦ (λ h. cc (rw old at h), λ h. cc (h.0))
    | inr new ↦ (λ h. (new, cc (rw new at h)), λ h. rw (new, h.1) refl)
  ]

  -- What a registration asks for.
  pub record IsRegistrable : Type 0 where
    pub rp_id : auth.rp_id_hash ≡ k.digest v.config.rp_id
    pub present : auth.flags.up ≡ true
    pub verified : auth.flags.uv ≡ true
    pub client : IsClientData k v.config (codes "webauthn.create") challenge json
    pub answer : R
    pub answered : create_answer.0 ≡ ok answer
    pub fresh : count_id id v.credentials ≡ 0

  pub registrable :
      (r : R)
      → check_registration k v.config challenge auth json ≡ ok tt
      → create_answer.0 ≡ ok r
      → is_registered id v.credentials ≡ false
      → IsRegistrable
  registrable r checked answered new =
      let (hash, up, uv, client) =
        (check_registration_iff k v.config challenge auth json).0 checked in
      record {
        rp_id = hash;
        present = up;
        verified = uv;
        client = client;
        answer = r;
        answered = answered;
        fresh = (is_registered-count_id id v.credentials).0 new;
      }

  -- `verify_registration` gives a credential exactly when the hash is that of the relying party,
  -- the user is flagged present and verified, the client data is that of a registration with this
  -- challenge and an allowed origin, the session store does not fail (whatever its answer is), and
  -- no user has a credential of the id; the credential is then the new one.
  pub verify_registration_iff :
      (c : WebAuthnCredential)
      → ((verify_registration k o now user challenge auth json id key v).0 ≡ ok c)
        ↔ (IsRegistrable × (c ≡ new_credential now auth id key))
  verify_registration_iff c = (
    registration_cases (λ x. x.0 ≡ ok c → IsRegistrable × (c ≡ new_credential now auth id key))
        (λ e _ h. cc) (λ e _ _ h. cc)
        (λ r checked answered h.
          let (new, same) = (register-ok v.credentials c (new_credential now auth id key)).0 h in
          (registrable r checked answered new, same)),
    λ (g, same).
        let checked =
          (check_registration_iff k v.config challenge auth json).1
            (g.rp_id, g.present, g.verified, g.client) in
        registration_cases (λ x. x.0 ≡ ok c) (λ e bad. cc) (λ e _ refused. cc (refused, g.answered))
          (λ r _ _.
            (register-ok v.credentials c (new_credential now auth id key)).1
              ((is_registered-count_id id v.credentials).1 g.fresh, same)),
  )

  register-effect :
      (m : Map (List WebAuthnCredential)) (x : WebAuthnCredential)
      → ((c : WebAuthnCredential) (other : Bytes)
          → (register user x m).0 ≡ ok c
          → list_credentials other (register user x m).1 ≡ (
              if beq user other
              then list_credentials user m ++ c ∷ []
              else list_credentials other m))
        × ((e : WebAuthnError) → (register user x m).0 ≡ err e → (register user x m).1 ≡ m)
  unfolding register push_credential
  register-effect m x = elim (Bool-cases (is_registered x.credential_id m)) [
    | inl old ↦ (λ c other h. cc (rw old at h), λ e h. rw old refl)
    | inr new ↦ (
      λ c other h.
          let same : x ≡ c = cc (rw new at h) in
          rw (new, ← same)
            (list_credentials-insert user other (list_credentials user m ++ x ∷ []) m),
      λ e h. cc (rw new at h),
    )
  ]

  -- A registration that succeeds appends its credential to the user's list and leaves every other
  -- user's list; one that fails, for whatever reason, leaves the registry as it is.
  pub verify_registration-effect :
      let answer = verify_registration k o now user challenge auth json id key v in
      ((c : WebAuthnCredential) (other : Bytes)
        → answer.0 ≡ ok c
        → list_credentials other answer.1.credentials ≡ (
            if beq user other
            then list_credentials user v.credentials ++ c ∷ []
            else list_credentials other v.credentials))
      × ((e : WebAuthnError) → answer.0 ≡ err e → answer.1.credentials ≡ v.credentials)
  verify_registration-effect =
      let effect = register-effect v.credentials (new_credential now auth id key) in
      (
        λ c other.
            registration_cases
              (λ x.
                x.0 ≡ ok c
                → list_credentials other x.1.credentials ≡ (
                    if beq user other
                    then list_credentials user v.credentials ++ c ∷ []
                    else list_credentials other v.credentials))
              (λ e _ h. cc) (λ e _ _ h. cc) (λ r _ _ h. effect.0 c other h),
        λ e.
            registration_cases (λ x. x.0 ≡ err e → x.1.credentials ≡ v.credentials) (λ _ _ _. refl)
              (λ _ _ _ _. refl) (λ r _ _ h. effect.1 e h),
      )
