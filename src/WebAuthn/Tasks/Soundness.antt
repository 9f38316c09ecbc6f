-- ===== src/WebAuthn/Tasks/Soundness.antt =====
-- src/webauthn.rs: what an accepted authentication has passed, among any other calls.
use auth_kit.Base.{
  ℕ, ◌≤◌, ◌≡◌, ◌≢◌, refl, sym, ◌∙◌, subst, inl, inr, Bool-cases, some, List, [], ◌==◌, ==_iff,
  Bytes, beq_refl, codes, arith,
}
use auth_kit.Base.Map.{Map}
use auth_kit.Base.Outcome.{Result-cases, ok}
use auth_kit.WebAuthn.{AuthenticatorData, WebAuthnCredential, WebAuthnConfig}
use auth_kit.WebAuthn.Checks.{
  WebAuthnCrates, challenge_key, challenge_purpose, check_authentication,
}
use auth_kit.WebAuthn.Registry.{verify_signature}
use auth_kit.WebAuthn.Registry.Counts.{credential}
use auth_kit.WebAuthn.Registry.Growth.{Grows, credential-set, verify_signature-ok}
use auth_kit.WebAuthn.Verifier.{ChallengeStore}
use auth_kit.WebAuthn.Replay.{Call, authenticates}
use auth_kit.WebAuthn.Tasks.{
  gives_challenge, gives_credential, accepted, failed, Phase, start, verified, scanned, counted,
  done, System, set_count, after, after_store_call, verify_section, authenticate_section, section,
  advance,
}
use auth_kit.WebAuthn.Tasks.Stamp.{set_count_cases}
use auth_kit.WebAuthn.Tasks.Reach.{Reach, begin, next, advance-Grows}

-- The user has the credential with the key, and a count at least as high.
pub record HasKey (user id : Bytes) (auth : AuthenticatorData) (key : Bytes)
    (m : Map (List WebAuthnCredential)) : Type 0 where
  pub cred : WebAuthnCredential
  pub held : credential user id m ≡ some cred
  pub keyed : cred.public_key ≡ key
  pub counted : auth.sign_count ≤ cred.sign_count

HasKey-Grows :
    (user id : Bytes) (auth : AuthenticatorData) (key : Bytes)
    (m m' : Map (List WebAuthnCredential))
    → Grows m m'
    → HasKey user id auth key m
    → HasKey user id auth key m'
HasKey-Grows user id auth key m m' g h =
    let (d, held, l) = g user id h.cred h.held in
    record {
      cred = d;
      held = held;
      keyed = l.same_key ∙ h.keyed;
      counted = omega (arith, h.counted, l.counted);
    }

set_count-HasKey :
    (user id : Bytes) (auth : AuthenticatorData) (key : Bytes) (m : Map (List WebAuthnCredential))
    → (set_count user id auth m).0 ≡ ok key
    → HasKey user id auth key (set_count user id auth m).1
set_count-HasKey user id auth key m =
    set_count_cases (λ r. r.0 ≡ ok key → HasKey user id auth key r.1) user id auth m (λ e. cc)
      λ creds cred known found newer e. record {
        cred = record cred { sign_count = auth.sign_count };
        held =
            credential-set user id auth.sign_count m creds cred known found user id
            ∙ rw (beq_refl user, beq_refl id) refl;
        keyed = cc;
        counted = omega arith;
      }

module _ {S R : Type 0} (k : WebAuthnCrates) (o : ChallengeStore S R) (config : WebAuthnConfig)
    (user ch : Bytes) (auth : AuthenticatorData) (json id : Bytes) where
  abbrev Passed : Type 0
  Passed = check_authentication k config ch auth json ≡ ok tt

  -- What is true of an authentication in each of its phases.
  abbrev IsSound : Phase → Map (List WebAuthnCredential) → Type 0
  IsSound start m = Unit {0}
  IsSound verified m = Passed
  IsSound scanned m = ⊥
  IsSound (counted key) m = Passed × HasKey user id auth key m
  IsSound (done accepted) m = Passed × (key : Bytes) × (key ≢ []) × HasKey user id auth key m
  IsSound (done (gives_challenge c)) m = Unit {0}
  IsSound (done (gives_credential c)) m = Unit {0}
  IsSound (done (failed e)) m = Unit {0}

  IsSound-Grows :
      (p : Phase) (m m' : Map (List WebAuthnCredential)) → Grows m m' → IsSound p m → IsSound p m'
  IsSound-Grows start m m' g h = tt
  IsSound-Grows verified m m' g h = h
  IsSound-Grows scanned m m' g h = h
  IsSound-Grows (counted key) m m' g h = (h.0, HasKey-Grows user id auth key m m' g h.1)
  IsSound-Grows (done accepted) m m' g (passed, key, keyed, h) =
      (passed, key, keyed, HasKey-Grows user id auth key m m' g h)
  IsSound-Grows (done (gives_challenge c)) m m' g h = tt
  IsSound-Grows (done (gives_credential c)) m m' g h = tt
  IsSound-Grows (done (failed e)) m m' g h = tt

  section-IsSound :
      (p : Phase) (s : S) (m : Map (List WebAuthnCredential))
      → IsSound p m
      → let r = section k o config (authenticates user ch auth json id) p s m in IsSound r.0 r.2
  unfolding section authenticate_section verify_section after_store_call after
  section-IsSound start s m h = elim (Result-cases (check_authentication k config ch auth json)) [
    | inl (e, bad) ↦ rw bad tt
    | inr (u, good) ↦
        elim (Result-cases
          (o.verify_state (challenge_key config (codes "get") user) ch challenge_purpose s).0) [
            | inl (e, lost) ↦ rw (good, lost) tt
            | inr (r, got) ↦ rw (good, got) good
          ]
  ]
  section-IsSound verified s m h = elim (Result-cases (set_count user id auth m).0) [
    | inl (e, fails) ↦ rw fails tt
    | inr (key, works) ↦ rw works (h, set_count-HasKey user id auth key m works)
  ]
  section-IsSound scanned s m h = h
  section-IsSound (counted key) s m h = elim (Result-cases (verify_signature key auth json)) [
    | inl (e, fails) ↦ rw fails tt
    | inr (u, works) ↦ rw works (h.0, key, verify_signature-ok key auth json works, h.1)
  ]
  section-IsSound (done answer) s m h = h

  module _ (calls : ℕ → Call) (i : ℕ) (mine : calls i ≡ authenticates user ch auth json id) where
    advance-IsSound :
        (j : ℕ) (y : System S)
        → IsSound (y.phases i) y.credentials
        → IsSound
            ((advance k o config calls j y).phases i)
            (advance k o config calls j y).credentials
    unfolding advance
    advance-IsSound j y h = elim (Bool-cases (j == i)) [
      | inl this ↦
          let same : j ≡ i = (==_iff j i).0 this in
          rw this (
            subst
              (λ l.
                let r = section k o config (calls l) (y.phases l) y.store y.credentials in
                IsSound r.0 r.2)
              (sym same) (rw mine (section-IsSound (y.phases i) y.store y.credentials h)))
      | inr other ↦ rw other (
          IsSound-Grows (y.phases i) y.credentials
            (section k o config (calls j) (y.phases j) y.store y.credentials).2
            (advance-Grows k o config calls j y) h)
    ]

    Reach-IsSound :
        {s : S} {m : Map (List WebAuthnCredential)} {y : System S}
        → Reach k o config calls s m y
        → IsSound (y.phases i) y.credentials
    Reach-IsSound begin = tt
    Reach-IsSound (next {y} r j) = advance-IsSound j y (Reach-IsSound r)

    -- An authentication that is accepted, whatever calls run beside it and in whatever order their
    -- sections run, has data that pass the checks, and from then on the user has the credential of
    -- the id, with a key that is not empty and a count at least as high as that of the assertion.
    pub accepted_sound :
        {s : S} {m : Map (List WebAuthnCredential)} {y : System S}
        → Reach k o config calls s m y
        → y.phases i ≡ done accepted
        → (check_authentication k config ch auth json ≡ ok tt)
          × (key : Bytes) × (key ≢ [])
          × HasKey user id auth key y.credentials
    accepted_sound {y} r ends = subst (λ p. IsSound p y.credentials) ends (Reach-IsSound r)
