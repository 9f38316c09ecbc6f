-- ===== src/WebAuthn/Registry/Counts.antt =====
-- src/webauthn.rs: the sign counts in the registry under its two writes.
use auth_kit.Base.{
  ℕ, ◌<◌, ◌≡◌, refl, ap, ◌≢◌, inl, inr, subst, Option, some, List, [], ◌∷◌, ◌++◌, leb,
  if◌then◌else◌, Bool-cases, Option-cases, Bytes, beq, beq_iff, arith,
}
use auth_kit.Base.Map.{Map, get, insert}
use auth_kit.Base.Map.Laws.{get-insert}
use auth_kit.Base.Outcome.{Result, err}
use auth_kit.WebAuthn.{WebAuthnError, credential_not_found, AuthenticatorData, WebAuthnCredential}
use auth_kit.WebAuthn.Registry.{
  list_credentials, find_credential, set_sign_count, verify_signature, use_credential, authenticate,
}
use auth_kit.WebAuthn.Registry.Laws.{
  count_list, count_id, IsUnique, count_id-insert, count_list-set_sign_count,
}

-- An authentication against the registry changes nothing and fails, or finds a credential with a
-- lower count and sets it.
pub authenticate_cases {ℓ} :
    (P : Result WebAuthnError (Unit {0}) × Map (List WebAuthnCredential) → Type ℓ) (user id : Bytes)
    (auth : AuthenticatorData) (json : Bytes) (m : Map (List WebAuthnCredential))
    → P (err credential_not_found, m)
    → ((creds : List WebAuthnCredential) (cred : WebAuthnCredential)
        → get user m ≡ some creds
        → find_credential id creds ≡ some cred
        → cred.sign_count < auth.sign_count
        → P (
          verify_signature cred.public_key auth json,
          insert user (set_sign_count id auth.sign_count creds) m,
        ))
    → P (authenticate user id auth json m)
unfolding authenticate use_credential
authenticate_cases P user id auth json m p1 p2 = elim (Option-cases (get user m)) [
  | inl unknown ↦ subst P (ground arith) p1
  | inr (creds, known) ↦ elim (Option-cases (find_credential id creds)) [
    | inl missing ↦ subst P (ground arith) p1
    | inr (cred, found) ↦ elim (Bool-cases (leb auth.sign_count cred.sign_count)) [
      | inl stale ↦ subst P (ground arith) p1
      | inr newer ↦
          subst P (ground (arith, known, found, newer)) (p2 creds cred known found (ground arith))
    ]
  ]
]

pub list_credentials-get :
    (user : Bytes) (m : Map (List WebAuthnCredential)) (cs : List WebAuthnCredential)
    → get user m ≡ some cs
    → list_credentials user m ≡ cs
unfolding list_credentials
list_credentials-get user m cs e = ground arith

-- An authentication leaves the number of credentials of every id.
pub count_id-authenticate :
    (user id : Bytes) (auth : AuthenticatorData) (json : Bytes) (m : Map (List WebAuthnCredential))
    (i : Bytes)
    → count_id i (authenticate user id auth json m).1 ≡ count_id i m
count_id-authenticate user id auth json m i =
    authenticate_cases (λ r. count_id i r.1 ≡ count_id i m) user id auth json m refl
      λ creds cred known _ _. omega (
        arith,
        count_id-insert i user (set_sign_count id auth.sign_count creds) m,
        count_list-set_sign_count i id auth.sign_count creds,
        ap (count_list i) (list_credentials-get user m creds known),
      )

pub authenticate-IsUnique :
    (user id : Bytes) (auth : AuthenticatorData) (json : Bytes) (m : Map (List WebAuthnCredential))
    → IsUnique m
    → IsUnique (authenticate user id auth json m).1
authenticate-IsUnique user id auth json m u i =
    omega (arith, u i, count_id-authenticate user id auth json m i)

-- The user's credential of an id.
unfoldable pub credential :
    Bytes → Bytes → Map (List WebAuthnCredential) → Option WebAuthnCredential
credential user id m = find_credential id (list_credentials user m)

pub find_credential-append :
    (id : Bytes) (a b : List WebAuthnCredential) (c : WebAuthnCredential)
    → find_credential id a ≡ some c
    → find_credential id (a ++ b) ≡ some c
unfolding find_credential
find_credential-append id [] b c e = cc
find_credential-append id (x ∷ a) b c e = ground (arith, find_credential-append id a b c)

pub find_credential-set_self :
    (id : Bytes) (n : ℕ) (cs : List WebAuthnCredential) (c : WebAuthnCredential)
    → find_credential id cs ≡ some c
    → find_credential id (set_sign_count id n cs) ≡ some (record c { sign_count = n })
unfolding find_credential set_sign_count
find_credential-set_self id n [] c e = cc
find_credential-set_self id n (x ∷ cs) c e = ground (arith, find_credential-set_self id n cs c)

pub find_credential-set_ne :
    (id id' : Bytes) (n : ℕ) (cs : List WebAuthnCredential)
    → id' ≢ id
    → find_credential id (set_sign_count id' n cs) ≡ find_credential id cs
unfolding find_credential set_sign_count
find_credential-set_ne id id' n [] ne = refl
find_credential-set_ne id id' n (x ∷ cs) ne = ground (
  arith,
  find_credential-set_ne id id' n cs ne,
  beq_iff x.credential_id id,
  beq_iff x.credential_id id',
)

-- A write of one user's list, seen at any user.
pub list_credentials-insert :
    (user other : Bytes) (cs : List WebAuthnCredential) (m : Map (List WebAuthnCredential))
    → list_credentials other (insert user cs m)
      ≡ (if beq user other then cs else list_credentials other m)
unfolding list_credentials
list_credentials-insert user other cs m = ground (arith, get-insert user other cs m)
