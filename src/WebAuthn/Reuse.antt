-- ===== src/WebAuthn/Reuse.antt =====
-- src/webauthn.rs: registrations that use one challenge twice.
use auth_kit.Base.{◌≡◌, ◌≢◌, ◌↔◌, refl, inl, inr, Bool-cases, List, Bytes, beq, beq_iff, codes}
use auth_kit.Base.Map.{Map}
use auth_kit.Base.Outcome.{ok}
use auth_kit.WebAuthn.{AuthenticatorData, WebAuthnCredential}
use auth_kit.WebAuthn.Checks.{WebAuthnCrates, challenge_key, challenge_purpose, check_registration}
use auth_kit.WebAuthn.Registry.{is_registered, register}
use auth_kit.WebAuthn.Registry.Laws.{count_id, is_registered-count_id, count_id-push_credential}
use auth_kit.WebAuthn.Verifier.{ChallengeStore, WebAuthnVerifier, verify_registration}
use auth_kit.WebAuthn.Registration.{
  new_credential, create_answer, registration_cases, registrable, verify_registration_iff,
}

-- The registration of one id leaves another free.
register-free :
    (user : Bytes) (c : WebAuthnCredential) (id' : Bytes) (m : Map (List WebAuthnCredential))
    → c.credential_id ≢ id'
    → count_id id' m ≡ 0
    → count_id id' (register user c m).1 ≡ 0
unfolding register
register-free user c id' m other free = elim (Bool-cases (is_registered c.credential_id m)) [
  | inl old ↦ rw old free
  | inr new ↦
      let pushed = count_id-push_credential id' user c m in
      let same = beq_iff c.credential_id id' in
      elim (Bool-cases (beq c.credential_id id')) [
        | inl equal ↦ absurd (other (same.0 equal))
        | inr apart ↦ rw (new, pushed, apart) free
      ]
]

module _ {S R : Type 0} (k : WebAuthnCrates) (o : ChallengeStore S R) (user challenge : Bytes) where
  -- With data that pass the checks and a free id, a registration depends on the store alone.
  registers_iff :
      (now : Bytes) (auth : AuthenticatorData) (json id key : Bytes) (v : WebAuthnVerifier S)
      → check_registration k v.config challenge auth json ≡ ok tt
      → count_id id v.credentials ≡ 0
      → ((verify_registration k o now user challenge auth json id key v).0
          ≡ ok (new_credential now auth id key))
        ↔ ((r : R) × ((o.verify_state
                (challenge_key v.config (codes "create") user)
                challenge
                challenge_purpose
                v.store).0
              ≡ ok r))
  registers_iff now auth json id key v checked free =
      let (to, from) =
        verify_registration_iff k o now user challenge auth json id key v
          (new_credential now auth id key) in
      (
        λ e. let (g, _) = to e in (g.answer, g.answered),
        λ (r, answered). from (
          registrable k o now user challenge auth json id key v r checked answered
              ((is_registered-count_id id v.credentials).1 free),
          refl,
        ),
      )

  -- A challenge is not used up by the verifier: after a registration that succeeded, another with
  -- the same challenge, whose data pass the checks and whose id is another and free, succeeds
  -- exactly when the session store does not fail at the challenge again.
  pub verify_registration_reused_iff :
      (now now' : Bytes) (auth auth' : AuthenticatorData) (json json' id id' key key' : Bytes)
      (v : WebAuthnVerifier S) (c : WebAuthnCredential)
      → (verify_registration k o now user challenge auth json id key v).0 ≡ ok c
      → check_registration k v.config challenge auth' json' ≡ ok tt
      → id ≢ id'
      → count_id id' v.credentials ≡ 0
      → let v' = (verify_registration k o now user challenge auth json id key v).1 in
        ((verify_registration k o now' user challenge auth' json' id' key' v').0
          ≡ ok (new_credential now' auth' id' key'))
        ↔ ((r : R) × ((o.verify_state
                (challenge_key v.config (codes "create") user)
                challenge
                challenge_purpose
                v'.store).0
              ≡ ok r))
  verify_registration_reused_iff now now' auth auth' json json' id id' key key' v c e checked other
        free =
      registration_cases k o now user challenge auth json id key v
        (λ x.
          x.0 ≡ ok c
          → ((verify_registration k o now' user challenge auth' json' id' key' x.1).0
              ≡ ok (new_credential now' auth' id' key'))
            ↔ ((r : R) × ((o.verify_state (challenge_key v.config (codes "create") user) challenge
                    challenge_purpose x.1.store).0
                  ≡ ok r)))
        (λ e _ h. cc) (λ e _ _ h. cc)
        (λ r _ _ h.
          registers_iff now' auth' json' id' key'
            (record v {
              store = (create_answer k o now user challenge auth json id key v).1;
              credentials = (register user (new_credential now auth id key) v.credentials).1;
            })
            checked
            (register-free user (new_credential now auth id key) id' v.credentials other free))
        e
