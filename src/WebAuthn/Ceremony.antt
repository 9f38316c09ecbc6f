-- ===== src/WebAuthn/Ceremony.antt =====
-- src/webauthn.rs: a registration, and an authentication with its credential any time later.
use auth_kit.Base.{
  ◌≤◌, ◌<◌, ◌≡◌, ◌≢◌, refl, subst, ◌↔◌, sym, ap, ◌∙◌, inl, inr, some, Bool-cases, List, [], ◌∷◌,
  ◌++◌, Bytes, beq, beq_refl, codes, arith,
}
use auth_kit.Base.Map.{Map}
use auth_kit.Base.Outcome.{ok}
use auth_kit.WebAuthn.{AuthenticatorData, WebAuthnCredential}
use auth_kit.WebAuthn.Checks.{
  WebAuthnCrates, challenge_key, challenge_purpose, check_authentication,
}
use auth_kit.WebAuthn.Checks.Laws.{check_authentication_iff}
use auth_kit.WebAuthn.Registry.{
  list_credentials, push_credential, register, is_registered, find_credential,
}
use auth_kit.WebAuthn.Registry.Laws.{count_list, count_id, count_id-insert, is_registered-count_id}
use auth_kit.WebAuthn.Registry.Counts.{credential, list_credentials-insert}
use auth_kit.WebAuthn.Verifier.{
  ChallengeStore, WebAuthnVerifier, verify_registration, verify_authentication,
}
use auth_kit.WebAuthn.Registration.{new_credential, registration_cases}
use auth_kit.WebAuthn.Authentication.{verify_authentication_iff}
use auth_kit.WebAuthn.Replay.{Call, run, run-Grows}

find_credential-append_new :
    (id : Bytes) (cs : List WebAuthnCredential) (c : WebAuthnCredential)
    → count_list id cs ≡ 0
    → c.credential_id ≡ id
    → find_credential id (cs ++ c ∷ []) ≡ some c
unfolding count_list find_credential
find_credential-append_new id [] c free same = rw (same, beq_refl id) refl
find_credential-append_new id (x ∷ cs) c free same = elim (Bool-cases (beq x.credential_id id)) [
  | inl taken ↦ absurd (omega (arith, rw taken at free))
  | inr other ↦ rw other (find_credential-append_new id cs c (rw other at free) same)
]

-- A free id is free in every user's list.
count_list-list_credentials :
    (id user : Bytes) (m : Map (List WebAuthnCredential))
    → count_id id m ≡ 0
    → count_list id (list_credentials user m) ≡ 0
count_list-list_credentials id user m free =
    unfold count_list in omega (arith, count_id-insert id user [] m, free)

-- A registration that goes through leaves its credential where it is looked for.
register-credential :
    (user : Bytes) (c x : WebAuthnCredential) (m : Map (List WebAuthnCredential))
    → (register user x m).0 ≡ ok c
    → credential user x.credential_id (register user x m).1 ≡ some x
unfolding register push_credential credential
register-credential user c x m e = elim (Bool-cases (is_registered x.credential_id m)) [
  | inl old ↦ cc (rw old at e)
  | inr new ↦
      let free = (is_registered-count_id x.credential_id m).0 new in
      rw new (
        ap (find_credential x.credential_id) (
          list_credentials-insert user user (list_credentials user m ++ x ∷ []) m
          ∙ rw (beq_refl user) refl)
        ∙ find_credential-append_new x.credential_id (list_credentials user m) x
            (count_list-list_credentials x.credential_id user m free) refl)
]

module _ {S R : Type 0} (k : WebAuthnCrates) (o : ChallengeStore S R) (user id : Bytes) where
  registered-credential :
      (now ch : Bytes) (auth : AuthenticatorData) (json key : Bytes) (v : WebAuthnVerifier S)
      (c : WebAuthnCredential)
      → (verify_registration k o now user ch auth json id key v).0 ≡ ok c
      → credential user id (verify_registration k o now user ch auth json id key v).1.credentials
        ≡ some (new_credential now auth id key)
  registered-credential now ch auth json key v c =
      registration_cases k o now user ch auth json id key v
        (λ x.
          x.0 ≡ ok c → credential user id x.1.credentials ≡ some (new_credential now auth id key))
        (λ e _ h. cc) (λ e _ _ h. cc)
        (λ r _ _ h. register-credential user c (new_credential now auth id key) v.credentials h)

  -- An authentication with a credential that the user has.
  authenticates_iff :
      (ch : Bytes) (auth : AuthenticatorData) (json : Bytes) (v : WebAuthnVerifier S)
      (d : WebAuthnCredential) (r : R)
      → credential user id v.credentials ≡ some d
      → d.public_key ≢ []
      → check_authentication k v.config ch auth json ≡ ok tt
      → (o.verify_state (challenge_key v.config (codes "get") user) ch challenge_purpose v.store).0
        ≡ ok r
      → ((verify_authentication k o user ch auth json id v).0 ≡ ok tt)
        ↔ (d.sign_count < auth.sign_count)
  authenticates_iff ch auth json v d r held keyed checked answered =
      let (hash, up, client) = (check_authentication_iff k v.config ch auth json).0 checked in
      let (to, from) = verify_authentication_iff k o user ch auth json id v in
      (
        λ e.
            let g = to e in
            let same : g.cred ≡ d = cc (g.held, held) in
            subst (λ x. x.sign_count < auth.sign_count) same g.newer,
        λ newer. from (record {
          rp_id = hash;
          present = up;
          client = client;
          answer = r;
          answered = answered;
          cred = d;
          held = held;
          newer = newer;
          keyed = keyed;
        }),
      )

  -- A credential that was registered with a key that is not empty can be used from then on: after
  -- the registration and any calls, the user has a credential of the id with that key, and a count
  -- no lower than at the registration, and an authentication with it whose data pass the checks,
  -- and for which the session store does not fail, succeeds exactly when its sign count is higher.
  pub ceremony_iff :
      (now ch ch' : Bytes) (auth auth' : AuthenticatorData) (json json' key : Bytes)
      (v : WebAuthnVerifier S) (c : WebAuthnCredential) (cs : List Call) (r : R)
      → (verify_registration k o now user ch auth json id key v).0 ≡ ok c
      → key ≢ []
      → let v' = run k o cs (verify_registration k o now user ch auth json id key v).1 in
        check_authentication k v'.config ch' auth' json' ≡ ok tt
        → (o.verify_state
            (challenge_key v'.config (codes "get") user)
            ch'
            challenge_purpose
            v'.store).0
          ≡ ok r
        → (d : WebAuthnCredential) × (credential user id v'.credentials ≡ some d)
          × (d.public_key ≡ key)
          × (auth.sign_count ≤ d.sign_count)
          × (((verify_authentication k o user ch' auth' json' id v').0 ≡ ok tt)
              ↔ (d.sign_count < auth'.sign_count))
  ceremony_iff now ch ch' auth auth' json json' key v c cs r e keyed checked answered =
      let v_1 = (verify_registration k o now user ch auth json id key v).1 in
      let (d, held, later) =
        run-Grows k o cs v_1 user id (new_credential now auth id key)
          (registered-credential now ch auth json key v c e) in
      (
        d,
        held,
        later.same_key,
        later.counted,
        authenticates_iff ch' auth' json' (run k o cs v_1) d r held
            (λ empty. keyed (sym later.same_key ∙ empty)) checked answered,
      )
