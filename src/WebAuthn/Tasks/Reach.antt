-- ===== src/WebAuthn/Tasks/Reach.antt =====
-- src/webauthn.rs: what every order of the tasks keeps.
use auth_kit.Base.{ℕ, ap, subst, List, [], Bytes}
use auth_kit.Base.Map.{Map}
use auth_kit.WebAuthn.{AuthenticatorData, WebAuthnCredential, WebAuthnConfig}
use auth_kit.WebAuthn.Checks.{WebAuthnCrates}
use auth_kit.WebAuthn.Registry.Growth.{
  Grows, Grows-refl, Grows-trans, push_credential-Grows, authenticate-Grows,
}
use auth_kit.WebAuthn.Registration.{new_credential}
use auth_kit.WebAuthn.Verifier.{ChallengeStore}
use auth_kit.WebAuthn.Replay.{Call, generates, registers, authenticates}
use auth_kit.WebAuthn.Tasks.{
  Phase, start, verified, scanned, counted, done, System, set_count, register_section,
  authenticate_section, section, advance,
}
use auth_kit.WebAuthn.Tasks.Counting.{set_count-authenticate}

module _ {S R : Type 0} (k : WebAuthnCrates) (o : ChallengeStore S R) (config : WebAuthnConfig)
    (calls : ℕ → Call) where
  -- The systems that tasks may come to, each with one call, from a store and a registry.
  pub data Reach (s : S) (m : Map (List WebAuthnCredential)) : System S → Type 0 where
    begin : Reach s m (record { store = s; credentials = m; phases = λ _. start })
    next : {y : System S} → Reach s m y → (i : ℕ) → Reach s m (advance k o config calls i y)

set_count-Grows :
    (user id : Bytes) (auth : AuthenticatorData) (m : Map (List WebAuthnCredential))
    → Grows m (set_count user id auth m).1
set_count-Grows user id auth m =
    subst (Grows m) (ap (λ r. r.1) (set_count-authenticate user id auth [] m))
      (authenticate-Grows user id auth [] m)

module _ {S R : Type 0} (k : WebAuthnCrates) (o : ChallengeStore S R)
    (config : WebAuthnConfig) where
  pub section-Grows :
      (c : Call) (p : Phase) (s : S) (m : Map (List WebAuthnCredential))
      → Grows m (section k o config c p s m).2
  unfolding section register_section authenticate_section
  section-Grows (generates bytes user operation) p s m = Grows-refl m
  section-Grows (registers now user ch auth json id key) start s m = Grows-refl m
  section-Grows (registers now user ch auth json id key) verified s m = Grows-refl m
  section-Grows (registers now user ch auth json id key) scanned s m =
      push_credential-Grows user (new_credential now auth id key) m
  section-Grows (registers now user ch auth json id key) (counted b) s m = Grows-refl m
  section-Grows (registers now user ch auth json id key) (done a) s m = Grows-refl m
  section-Grows (authenticates user ch auth json id) start s m = Grows-refl m
  section-Grows (authenticates user ch auth json id) verified s m = set_count-Grows user id auth m
  section-Grows (authenticates user ch auth json id) scanned s m = Grows-refl m
  section-Grows (authenticates user ch auth json id) (counted b) s m = Grows-refl m
  section-Grows (authenticates user ch auth json id) (done a) s m = Grows-refl m

  pub advance-Grows :
      (calls : ℕ → Call) (i : ℕ) (y : System S)
      → Grows y.credentials (advance k o config calls i y).credentials
  unfolding advance
  advance-Grows calls i y = section-Grows (calls i) (y.phases i) y.store y.credentials

  -- In whatever order the sections of any number of concurrent calls run, every user still has, for
  -- every id, the credential that was found for it at the beginning, with the same key and a sign
  -- count at least as high.
  pub Reach-Grows :
      (calls : ℕ → Call) {s : S} {m : Map (List WebAuthnCredential)} {y : System S}
      → Reach k o config calls s m y
      → Grows m y.credentials
  Reach-Grows calls {s} {m} begin = Grows-refl m
  Reach-Grows calls {s} {m} (next {y} r i) =
      Grows-trans m y.credentials (advance k o config calls i y).credentials (Reach-Grows calls r)
        (advance-Grows calls i y)
