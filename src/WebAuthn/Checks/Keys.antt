-- ===== src/WebAuthn/Checks/Keys.antt =====
-- src/webauthn.rs: the keys under which challenges are stored.
use auth_kit.Base.{heads, arith, ◌≡◌, sym, ap, ◌∙◌, ◌⊎◌, inl, inr, [], ◌∷◌, ◌++◌, Bytes, codes}
use auth_kit.WebAuthn.{WebAuthnConfig}
use auth_kit.WebAuthn.Checks.{challenge_key}

append-cancel : (a b c : Bytes) → a ++ b ≡ a ++ c → b ≡ c
append-cancel [] b c e = e
append-cancel (x ∷ a) b c e = append-cancel a b c (cc (e))

-- The two operations of the verifier.
abbrev pub IsOperation : Bytes → Type 0
IsOperation operation = (operation ≡ codes "create") ⊎ (operation ≡ codes "get")

challenge_key-user :
    (config : WebAuthnConfig) (operation user user' : Bytes)
    → challenge_key config operation user ≡ challenge_key config operation user'
    → user ≡ user'
unfolding challenge_key
challenge_key-user config operation user user' e =
    let rest = append-cancel (codes "webauthn:") _ _ e in
    let named = append-cancel operation _ _ rest in
    let party = append-cancel (codes ":") _ _ named in
    let tail = append-cancel config.rp_id _ _ party in append-cancel (codes ":") _ _ tail

challenge_key-apart :
    (config : WebAuthnConfig) (user user' : Bytes)
    → challenge_key config (codes "create") user ≡ challenge_key config (codes "get") user'
    → ⊥
unfolding challenge_key
challenge_key-apart config user user' e =
    let h : 99 ≡ 103 = heads 99 103 _ _ (append-cancel (codes "webauthn:") _ _ e) in
    omega (arith, h)

-- Under one configuration the challenges of two ceremonies are stored under one key only if the
-- ceremonies are of one operation, `create` or `get`, and of one user: no challenge for a user
-- stands where that of another user, or of the other operation, is looked for.
pub challenge_key-injective :
    (config : WebAuthnConfig) (operation operation' user user' : Bytes)
    → IsOperation operation
    → IsOperation operation'
    → challenge_key config operation user ≡ challenge_key config operation' user'
    → (operation ≡ operation') × (user ≡ user')
challenge_key-injective config operation operation' user user' p q e = elim p [
  | inl creates ↦ elim q [
    | inl creates' ↦
        let same : operation' ≡ operation = creates' ∙ sym creates in
        (
          sym same,
          challenge_key-user config operation user user'
              (e ∙ ap (λ o. challenge_key config o user') same),
        )
    | inr gets' ↦ absurd (
        challenge_key-apart config user user' (
          ap (λ o. challenge_key config o user) (sym creates)
          ∙ e
          ∙ ap (λ o. challenge_key config o user') gets'))
  ]
  | inr gets ↦ elim q [
    | inl creates' ↦ absurd (
        challenge_key-apart config user' user (
          ap (λ o. challenge_key config o user') (sym creates')
          ∙ sym e
          ∙ ap (λ o. challenge_key config o user) gets))
    | inr gets' ↦
        let same : operation' ≡ operation = gets' ∙ sym gets in
        (
          sym same,
          challenge_key-user config operation user user'
              (e ∙ ap (λ o. challenge_key config o user') same),
        )
  ]
]
