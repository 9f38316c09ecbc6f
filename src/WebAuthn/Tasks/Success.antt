-- ===== src/WebAuthn/Tasks/Success.antt =====
-- src/webauthn.rs: an authentication that nothing else disturbs, among any other calls.
use auth_kit.Base.{
  ℕ, ◌≤◌, ◌<◌, ◌≡◌, ◌≢◌, refl, sym, ap, ◌∙◌, subst, inl, inr, Bool-cases, Option-cases, some, List,
  [], ◌∷◌, ◌==◌, ==_iff, Bytes, beq, beq_iff, codes, arith,
}
use auth_kit.Base.Map.{Map, get}
use auth_kit.Base.Outcome.{ok}
use auth_kit.WebAuthn.{AuthenticatorData, WebAuthnCredential, WebAuthnConfig}
use auth_kit.WebAuthn.Checks.{
  WebAuthnCrates, challenge_key, challenge_purpose, check_authentication,
}
use auth_kit.WebAuthn.Registry.{list_credentials, find_credential, verify_signature}
use auth_kit.WebAuthn.Registry.Counts.{credential, list_credentials-get}
use auth_kit.WebAuthn.Registry.Growth.{push_credential-keeps, credential-set}
use auth_kit.WebAuthn.Registration.{new_credential}
use auth_kit.WebAuthn.Verifier.{ChallengeStore}
use auth_kit.WebAuthn.Replay.{Call, generates, registers, authenticates}
use auth_kit.WebAuthn.Tasks.{
  accepted, Phase, start, verified, scanned, counted, done, System, set_count, after,
  after_store_call, verify_section, register_section, authenticate_section, section, advance,
}
use auth_kit.WebAuthn.Tasks.Stamp.{set_count_cases}
use auth_kit.WebAuthn.Tasks.Ends.{turns, run_tasks, run_tasks-answers}

set_count-held :
    (user id : Bytes) (auth : AuthenticatorData) (m : Map (List WebAuthnCredential))
    (c : WebAuthnCredential)
    → credential user id m ≡ some c
    → c.sign_count < auth.sign_count
    → (set_count user id auth m).0 ≡ ok c.public_key
unfolding set_count credential list_credentials find_credential
set_count-held user id auth m c held newer = elim (Option-cases (get user m)) [
  | inl unknown ↦ ground (arith, unknown, held)
  | inr (creds, known) ↦
      let found = ap (find_credential id) (sym (list_credentials-get user m creds known)) ∙ held in
      ground (arith, known, found, newer)
]

set_count-other :
    (user id user' id' : Bytes) (auth : AuthenticatorData) (m : Map (List WebAuthnCredential))
    (c : WebAuthnCredential)
    → (user' ≡ user → id' ≢ id)
    → credential user id m ≡ some c
    → credential user id (set_count user' id' auth m).1 ≡ some c
set_count-other user id user' id' auth m c other held =
    set_count_cases (λ r. credential user id r.1 ≡ some c) user' id' auth m held
      λ creds cred known found newer.
        credential-set user' id' auth.sign_count m creds cred known found user id
        ∙ elim (Bool-cases (beq user' user)) [
          | inr apart ↦ rw apart held
          | inl mine ↦ elim (Bool-cases (beq id' id)) [
            | inr apart ↦ rw (mine, apart) held
            | inl this ↦ absurd (other ((beq_iff user' user).0 mine) ((beq_iff id' id).0 this))
          ]
        ]

verify_signature-keyed :
    (key : Bytes) (auth : AuthenticatorData) (json : Bytes)
    → key ≢ []
    → verify_signature key auth json ≡ ok tt
unfolding verify_signature
verify_signature-keyed [] auth json h = absurd (h refl)
verify_signature-keyed (b ∷ key) auth json h = refl

module _ {S R : Type 0} (k : WebAuthnCrates) (o : ChallengeStore S R) (config : WebAuthnConfig)
    (user id : Bytes) (cred : WebAuthnCredential) where
  -- What is true while the call is on its way to success.
  abbrev OnTrack : Phase → Map (List WebAuthnCredential) → Type 0
  OnTrack start m = credential user id m ≡ some cred
  OnTrack verified m = credential user id m ≡ some cred
  OnTrack scanned m = ⊥
  OnTrack (counted b) m = b ≡ cred.public_key
  OnTrack (done answer) m = answer ≡ accepted

  -- A section of a call that is no authentication with the credential leaves the credential.
  section-keeps :
      (c : Call) (p : Phase) (s : S) (m : Map (List WebAuthnCredential))
      → ((ch : Bytes) (auth : AuthenticatorData) (json : Bytes)
          → c ≢ authenticates user ch auth json id)
      → credential user id m ≡ some cred
      → credential user id (section k o config c p s m).2 ≡ some cred
  unfolding section register_section authenticate_section
  section-keeps (generates bytes u operation) p s m other held = held
  section-keeps (registers now u ch auth json i key) start s m other held = held
  section-keeps (registers now u ch auth json i key) verified s m other held = held
  section-keeps (registers now u ch auth json i key) scanned s m other held =
      push_credential-keeps u (new_credential now auth i key) m user id cred held
  section-keeps (registers now u ch auth json i key) (counted b) s m other held = held
  section-keeps (registers now u ch auth json i key) (done a) s m other held = held
  section-keeps (authenticates u ch auth json i) start s m other held = held
  section-keeps (authenticates u ch auth json i) verified s m other held =
      set_count-other user id u i auth m cred (λ e f. other ch auth json (rw (e, f) refl)) held
  section-keeps (authenticates u ch auth json i) scanned s m other held = held
  section-keeps (authenticates u ch auth json i) (counted b) s m other held = held
  section-keeps (authenticates u ch auth json i) (done a) s m other held = held

  OnTrack-kept :
      (p : Phase) (m m' : Map (List WebAuthnCredential))
      → (credential user id m ≡ some cred → credential user id m' ≡ some cred)
      → OnTrack p m
      → OnTrack p m'
  OnTrack-kept start m m' kept t = kept t
  OnTrack-kept verified m m' kept t = kept t
  OnTrack-kept scanned m m' kept t = t
  OnTrack-kept (counted b) m m' kept t = t
  OnTrack-kept (done answer) m m' kept t = t

  module _ (ch json : Bytes) (auth : AuthenticatorData)
      (checked : check_authentication k config ch auth json ≡ ok tt)
      (answers : (s : S)
        → (r : R) × ((o.verify_state
              (challenge_key config (codes "get") user)
              ch
              challenge_purpose
              s).0
            ≡ ok r))
      (newer : cred.sign_count < auth.sign_count) (keyed : cred.public_key ≢ []) where
    section-OnTrack :
        (p : Phase) (s : S) (m : Map (List WebAuthnCredential))
        → OnTrack p m
        → let (p', _, m') = section k o config (authenticates user ch auth json id) p s m in
          OnTrack p' m'
    unfolding section authenticate_section verify_section after_store_call after
    section-OnTrack start s m t = rw (checked, (answers s).1) t
    section-OnTrack verified s m t = rw (set_count-held user id auth m cred t newer) refl
    section-OnTrack scanned s m t = t
    section-OnTrack (counted b) s m t =
        rw (verify_signature-keyed b auth json (λ e. keyed (sym t ∙ e))) refl
    section-OnTrack (done answer) s m t = t

    module _ (calls : ℕ → Call) (i : ℕ) (mine : calls i ≡ authenticates user ch auth json id)
        (sole : (j : ℕ) (ch' : Bytes) (auth' : AuthenticatorData) (json' : Bytes)
          → calls j ≡ authenticates user ch' auth' json' id
          → j ≡ i) where
      advance-OnTrack :
          (j : ℕ) (y : System S)
          → OnTrack (y.phases i) y.credentials
          → OnTrack
              ((advance k o config calls j y).phases i)
              (advance k o config calls j y).credentials
      unfolding advance
      advance-OnTrack j y t = elim (Bool-cases (j == i)) [
        | inl this ↦
            let same : j ≡ i = (==_iff j i).0 this in
            rw this (
              subst
                (λ l.
                  let r = section k o config (calls l) (y.phases l) y.store y.credentials in
                  OnTrack r.0 r.2)
                (sym same) (rw mine (section-OnTrack (y.phases i) y.store y.credentials t)))
        | inr other ↦
            let m' = (section k o config (calls j) (y.phases j) y.store y.credentials).2 in
            rw other (
              OnTrack-kept (y.phases i) y.credentials m'
                (section-keeps (calls j) (y.phases j) y.store y.credentials
                  (λ ch' auth' json' e. cc ((==_iff j i).1 (sole j ch' auth' json' e), other)))
                t)
      ]

      run_tasks-OnTrack :
          (is : List ℕ) (y : System S)
          → OnTrack (y.phases i) y.credentials
          → OnTrack
              ((run_tasks k o config calls is y).phases i)
              (run_tasks k o config calls is y).credentials
      unfolding run_tasks
      run_tasks-OnTrack [] y t = t
      run_tasks-OnTrack (j ∷ is) y t =
          run_tasks-OnTrack is (advance k o config calls j y) (advance-OnTrack j y t)

      -- An authentication whose data pass the checks, with a key that is not empty and a count above
      -- that of the credential which the user has at the beginning, is accepted once it has had
      -- three turns, in every schedule of any number of other calls of any users, if the session
      -- store never fails on its challenge and no other call authenticates with the credential.
      pub run_tasks-accepts :
          (is : List ℕ) (s : S) (m : Map (List WebAuthnCredential))
          → credential user id m ≡ some cred
          → 3 ≤ turns i is
          → (run_tasks k o config calls is
                (record { store = s; credentials = m; phases = λ _. start })).phases
              i
            ≡ done accepted
      run_tasks-accepts is s m held enough =
          let y : System S = record { store = s; credentials = m; phases = λ _. start } in
          let (answer, ends) = run_tasks-answers k o config calls is s m i enough in
          let t = run_tasks-OnTrack is y held in
          ends
          ∙ ap (λ a. done a)
              (subst (λ p. OnTrack p (run_tasks k o config calls is y).credentials) ends t)
