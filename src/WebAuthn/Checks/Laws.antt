-- ===== src/WebAuthn/Checks/Laws.antt =====
-- src/webauthn.rs: when the checks of the two ceremonies pass.
use auth_kit.Base.{◌≡◌, ◌↔◌, ◌⊎◌, inl, inr, true, List, [], ◌∷◌, Bytes, beq_iff, codes, arith}
use auth_kit.Base.Outcome.{ok, Result-cases}
use auth_kit.WebAuthn.{AuthenticatorData, CollectedClientData, WebAuthnConfig}
use auth_kit.WebAuthn.Checks.{
  WebAuthnCrates, contains, check_rp_id, check_client_data, check_registration,
  check_authentication,
}

-- The text is one of the list.
abbrev pub IsListed : Bytes → List Bytes → Type 0
IsListed o [] = ⊥
IsListed o (x ∷ xs) = (x ≡ o) ⊎ IsListed o xs

-- The client data is that of this ceremony: its type, its challenge, an allowed origin.
pub record IsClientData (k : WebAuthnCrates) (config : WebAuthnConfig) (ty challenge json : Bytes)
    : Type 0 where
  pub client_data : CollectedClientData
  pub parsed : k.from_str json ≡ ok client_data
  pub typed : client_data.ty ≡ ty
  pub challenged : client_data.challenge ≡ challenge
  pub allowed : IsListed client_data.origin config.allowed_origins

contains_iff : (o : Bytes) (xs : List Bytes) → (contains xs o ≡ true) ↔ IsListed o xs
unfolding contains
contains_iff o [] = (λ h. cc, λ h. elim h [ ])
contains_iff o (x ∷ xs) =
    let ih = contains_iff o xs in
    (λ h. ground (arith, beq_iff x o, ih), λ h. ground (arith, beq_iff x o, ih))

module _ (k : WebAuthnCrates) (config : WebAuthnConfig) where
  of_IsClientData :
      (ty challenge json : Bytes)
      → IsClientData k config ty challenge json
      → check_client_data k config ty challenge json ≡ ok tt
  unfolding check_client_data
  of_IsClientData ty challenge json c = ground (
    arith,
    c.parsed,
    (beq_iff c.client_data.ty ty).1 c.typed,
    (beq_iff c.client_data.challenge challenge).1 c.challenged,
    (contains_iff c.client_data.origin config.allowed_origins).1 c.allowed,
  )

  pub check_client_data_iff :
      (ty challenge json : Bytes)
      → (check_client_data k config ty challenge json ≡ ok tt)
        ↔ IsClientData k config ty challenge json
  unfolding check_client_data
  check_client_data_iff ty challenge json = elim (Result-cases (k.from_str json)) [
    | inl (m, bad) ↦ (λ h. ground (arith, bad, h), λ d. ground (arith, bad, d.parsed))
    | inr (d, good) ↦
        let law = contains_iff d.origin config.allowed_origins in
        (
          λ h. record {
            client_data = d;
            parsed = good;
            typed = (beq_iff d.ty ty).0 (ground (arith, good, h));
            challenged = (beq_iff d.challenge challenge).0 (ground (arith, good, h));
            allowed = law.0 (ground (arith, good, h));
          },
          λ c. of_IsClientData ty challenge json c,
        )
  ]

  check_rp_id_iff :
      (auth : AuthenticatorData)
      → (check_rp_id k config auth ≡ ok tt) ↔ (auth.rp_id_hash ≡ k.digest config.rp_id)
  unfolding check_rp_id
  check_rp_id_iff auth =
      let law = beq_iff auth.rp_id_hash (k.digest config.rp_id) in
      (λ h. ground (arith, law, h), λ h. ground (arith, law, h))

  -- The checks of a registration pass exactly when the hash is that of the relying party, user
  -- presence and verification are flagged, and the client data is that of a registration.
  pub check_registration_iff :
      (challenge : Bytes) (auth : AuthenticatorData) (json : Bytes)
      → (check_registration k config challenge auth json ≡ ok tt) ↔ (
          (auth.rp_id_hash ≡ k.digest config.rp_id)
          × (auth.flags.up ≡ true)
          × (auth.flags.uv ≡ true)
          × IsClientData k config (codes "webauthn.create") challenge json)
  unfolding check_registration
  check_registration_iff challenge auth json =
      let rp = check_rp_id_iff auth in
      let data_iff = check_client_data_iff (codes "webauthn.create") challenge json in
      elim (Result-cases (check_rp_id k config auth)) [
        | inl (e, bad) ↦ (λ h. ground (arith, bad, h), λ h. cc (rp.1 h.0))
        | inr (u, good) ↦ (
          λ h. (
            rp.0 good,
            ground (arith, good, h),
            ground (arith, good, h),
            data_iff.0 (ground (arith, good, h)),
          ),
          λ h. ground (arith, good, h.1, h.2, data_iff.1 h.3),
        )
      ]

  -- Those of an authentication do not ask for user verification.
  pub check_authentication_iff :
      (challenge : Bytes) (auth : AuthenticatorData) (json : Bytes)
      → (check_authentication k config challenge auth json ≡ ok tt) ↔ (
          (auth.rp_id_hash ≡ k.digest config.rp_id)
          × (auth.flags.up ≡ true)
          × IsClientData k config (codes "webauthn.get") challenge json)
  unfolding check_authentication
  check_authentication_iff challenge auth json =
      let rp = check_rp_id_iff auth in
      let data_iff = check_client_data_iff (codes "webauthn.get") challenge json in
      elim (Result-cases (check_rp_id k config auth)) [
        | inl (e, bad) ↦ (λ h. ground (arith, bad, h), λ h. cc (rp.1 h.0))
        | inr (u, good) ↦ (
          λ h. (rp.0 good, ground (arith, good, h), data_iff.0 (ground (arith, good, h))),
          λ h. ground (arith, good, h.1, data_iff.1 h.2),
        )
      ]
