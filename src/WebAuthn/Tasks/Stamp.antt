-- ===== src/WebAuthn/Tasks/Stamp.antt =====
-- src/webauthn.rs: which section of a call sets a sign count, and what it finds and leaves.
use auth_kit.Base.{
  ℕ, ◌≤◌, ◌<◌, ◌≡◌, refl, ap, subst, ◌∙◌, ◌⊎◌, inl, inr, Bool, true, false, Bool-cases, Option,
  none, some, Option-cases, List, leb, if◌then◌else◌, Bytes, beq_refl, codes, arith,
}
use auth_kit.Base.Map.{Map, get, insert}
use auth_kit.Base.Outcome.{Result, ok, err, Result-cases}
use auth_kit.WebAuthn.{
  WebAuthnError, credential_not_found, AuthenticatorData, WebAuthnCredential, WebAuthnConfig,
}
use auth_kit.WebAuthn.Checks.{
  WebAuthnCrates, check_authentication, challenge_key, challenge_purpose,
}
use auth_kit.WebAuthn.Registry.{find_credential, set_sign_count, verify_signature}
use auth_kit.WebAuthn.Registry.Counts.{credential, list_credentials-get}
use auth_kit.WebAuthn.Registry.Growth.{credential-set}
use auth_kit.WebAuthn.Verifier.{ChallengeStore}
use auth_kit.WebAuthn.Replay.{Call, generates, registers, authenticates}
use auth_kit.WebAuthn.Tasks.{
  gives_challenge, gives_credential, accepted, failed, Phase, start, verified, scanned, counted,
  done, set_count, after, after_store_call, verify_section, authenticate_section, section,
}

-- The user, the credential id and the count of an assertion.
pub record Stamp : Type 0 where
  pub user : Bytes
  pub id : Bytes
  pub count : ℕ

-- The stamp of an authentication that has set its count and not failed since.
abbrev pub past_count : Phase → Bool
past_count start = false
past_count verified = false
past_count scanned = false
past_count (counted b) = true
past_count (done accepted) = true
past_count (done (gives_challenge c)) = false
past_count (done (gives_credential c)) = false
past_count (done (failed e)) = false

abbrev pub stamp : Call → Phase → Option Stamp
stamp (generates bytes user operation) p = none
stamp (registers now user ch auth json id key) p = none
stamp (authenticates user ch auth json id) p =
    if past_count p then some (record { user = user; id = id; count = auth.sign_count }) else none

-- The credential of a stamp holds its count or a higher one.
abbrev pub Holds : Map (List WebAuthnCredential) → Stamp → Type 0
Holds m x =
    (c : WebAuthnCredential) × (credential x.user x.id m ≡ some c) × (x.count ≤ c.sign_count)

-- The count of the stamp is higher than the one held.
abbrev pub Exceeds : Map (List WebAuthnCredential) → Stamp → Type 0
Exceeds m x =
    (c : WebAuthnCredential) × (credential x.user x.id m ≡ some c) × (c.sign_count < x.count)

pub set_count_cases {ℓ} :
    (P : Result WebAuthnError Bytes × Map (List WebAuthnCredential) → Type ℓ) (user id : Bytes)
    (auth : AuthenticatorData) (m : Map (List WebAuthnCredential))
    → P (err credential_not_found, m)
    → ((creds : List WebAuthnCredential) (cred : WebAuthnCredential)
        → get user m ≡ some creds
        → find_credential id creds ≡ some cred
        → cred.sign_count < auth.sign_count
        → P (ok cred.public_key, insert user (set_sign_count id auth.sign_count creds) m))
    → P (set_count user id auth m)
unfolding set_count
set_count_cases P user id auth m p1 p2 = elim (Option-cases (get user m)) [
  | inl unknown ↦ subst P (ground arith) p1
  | inr (creds, known) ↦ elim (Option-cases (find_credential id creds)) [
    | inl missing ↦ subst P (ground arith) p1
    | inr (cred, found) ↦ elim (Bool-cases (leb auth.sign_count cred.sign_count)) [
      | inl stale ↦ subst P (ground arith) p1
      | inr newer ↦
          subst P (ground (arith, known, found, newer)) (p2 creds cred known found (ground arith))
    ]
  ]
]

pub set_count-ok :
    (user id : Bytes) (auth : AuthenticatorData) (b : Bytes) (m : Map (List WebAuthnCredential))
    → (set_count user id auth m).0 ≡ ok b
    → let x : Stamp = record { user = user; id = id; count = auth.sign_count } in
      Exceeds m x × Holds (set_count user id auth m).1 x
unfolding credential
set_count-ok user id auth b m =
    let x : Stamp = record { user = user; id = id; count = auth.sign_count } in
    set_count_cases (λ r. r.0 ≡ ok b → Exceeds m x × Holds r.1 x) user id auth m (λ e. cc)
      λ creds cred known found newer _. (
        (cred, ap (find_credential id) (list_credentials-get user m creds known) ∙ found, newer),
        (
          record cred { sign_count = auth.sign_count },
          credential-set user id auth.sign_count m creds cred known found user id
              ∙ rw (beq_refl user, beq_refl id) refl,
          omega arith,
        ),
      )

module _ {S R : Type 0} (k : WebAuthnCrates) (o : ChallengeStore S R)
    (config : WebAuthnConfig) where
  -- A section gives a call a stamp only by the write of a count.
  pub section-stamp :
      (c : Call) (p : Phase) (s : S) (m : Map (List WebAuthnCredential)) (x : Stamp)
      → stamp c (section k o config c p s m).0 ≡ some x
      → (stamp c p ≡ some x) ⊎ (Exceeds m x × Holds (section k o config c p s m).2 x)
  unfolding section authenticate_section
  section-stamp (generates bytes user operation) p s m x e = cc
  section-stamp (registers now user ch auth json id key) p s m x e = cc
  section-stamp (authenticates user ch auth json id) start s m x e =
      elim (Result-cases (check_authentication k config ch auth json)) [
        | inl (f, bad) ↦ unfold verify_section in ground (arith, bad, e)
        | inr (u, good) ↦
            elim (Result-cases
              (o.verify_state (challenge_key config (codes "get") user) ch challenge_purpose s).0) [
                | inl (f, lost) ↦
                    unfold verify_section after_store_call in ground (arith, good, lost, e)
                | inr (r, got) ↦
                    unfold verify_section after_store_call in ground (arith, good, got, e)
              ]
      ]
  section-stamp (authenticates user ch auth json id) verified s m x e =
      elim (Result-cases (set_count user id auth m).0) [
        | inl (f, fails) ↦ unfold after in ground (arith, fails, e)
        | inr (b, works) ↦
            let same : some (record { user = user; id = id; count = auth.sign_count }) ≡ some x =
              unfold after in ground (arith, works, e) in
            inr (
              subst (λ y. Exceeds m y × Holds (set_count user id auth m).1 y) (cc (same))
                (set_count-ok user id auth b m works))
      ]
  section-stamp (authenticates user ch auth json id) scanned s m x e = cc
  section-stamp (authenticates user ch auth json id) (counted b) s m x e =
      elim (Result-cases (verify_signature b auth json)) [
        | inl (f, fails) ↦ unfold after in ground (arith, fails, e)
        | inr (u, works) ↦ inl (unfold after in ground (arith, works, e))
      ]
  section-stamp (authenticates user ch auth json id) (done a) s m x e = inl e
