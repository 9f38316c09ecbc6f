-- ===== src/WebAuthn/Registry.antt =====
-- src/webauthn.rs: the credential registry, a map from users to their credentials.
pub mod Laws
pub mod Counts
pub mod Growth
use auth_kit.Base.{
  ℕ, Bool, true, false, Option, none, some, List, [], ◌∷◌, ◌++◌, leb, if◌then◌else◌, Bytes, beq,
}
use auth_kit.Base.Map.{Map, get, insert}
use auth_kit.Base.Outcome.{Result, ok, err, ◌>>=◌}
use auth_kit.WebAuthn.{
  WebAuthnError, credential_already_exists, credential_not_found, AuthenticatorData,
  WebAuthnCredential,
}

-- A user's credentials; none for an unknown user.
unfoldable pub list_credentials : Bytes → Map (List WebAuthnCredential) → List WebAuthnCredential
list_credentials user_id m = elim (get user_id m) [ none ↦ [] | some cs ↦ cs ]

has_id : Bytes → List WebAuthnCredential → Bool
has_id id [] = false
has_id id (c ∷ cs) = if beq c.credential_id id then true else has_id id cs

-- Step 5 of `verify_registration`, over the credentials of all users.
unfoldable pub is_registered : Bytes → Map (List WebAuthnCredential) → Bool
unfolding has_id
is_registered id [] = false
is_registered id ((user, cs) ∷ m) = if has_id id cs then true else is_registered id m

-- Step 6: `entry(user_id).or_default().push(credential)`.
unfoldable pub push_credential :
    Bytes → WebAuthnCredential → Map (List WebAuthnCredential) → Map (List WebAuthnCredential)
push_credential user_id c m = insert user_id (list_credentials user_id m ++ c ∷ []) m

-- Steps 5 and 6.
unfoldable pub register :
    Bytes
    → WebAuthnCredential
    → Map (List WebAuthnCredential)
    → Result WebAuthnError WebAuthnCredential × Map (List WebAuthnCredential)
register user_id c m =
    if is_registered c.credential_id m
    then (err credential_already_exists, m)
    else (ok c, push_credential user_id c m)

-- The first credential of the id, as `find` gives it.
unfoldable pub find_credential : Bytes → List WebAuthnCredential → Option WebAuthnCredential
find_credential id [] = none
find_credential id (c ∷ cs) = if beq c.credential_id id then some c else find_credential id cs

-- `cred.sign_count = n` through the reference that `find` gave.
unfoldable pub set_sign_count : Bytes → ℕ → List WebAuthnCredential → List WebAuthnCredential
set_sign_count id n [] = []
set_sign_count id n (c ∷ cs) =
    if beq c.credential_id id then record c { sign_count = n } ∷ cs else c ∷ set_sign_count id n cs

-- The placeholder `verify_signature`: it asks for a public key that is not empty.
unfoldable pub verify_signature :
    Bytes → AuthenticatorData → Bytes → Result WebAuthnError (Unit {0})
verify_signature [] auth json = err credential_not_found
verify_signature (b ∷ key) auth json = ok tt

-- Step 5 of `verify_authentication` with the credential found, and step 6.
unfoldable pub use_credential :
    Bytes
    → Bytes
    → AuthenticatorData
    → Bytes
    → List WebAuthnCredential
    → WebAuthnCredential
    → Map (List WebAuthnCredential)
    → Result WebAuthnError (Unit {0}) × Map (List WebAuthnCredential)
use_credential user_id id auth json creds cred m =
    if leb auth.sign_count cred.sign_count then (err credential_not_found, m) else (
      verify_signature cred.public_key auth json,
      insert user_id (set_sign_count id auth.sign_count creds) m,
    )

-- Steps 5 and 6 of `verify_authentication`.
unfoldable pub authenticate :
    Bytes
    → Bytes
    → AuthenticatorData
    → Bytes
    → Map (List WebAuthnCredential)
    → Result WebAuthnError (Unit {0}) × Map (List WebAuthnCredential)
authenticate user_id id auth json m = elim (get user_id m) [
  | none ↦ (err credential_not_found, m)
  | some creds ↦ elim (find_credential id creds) [
    | none ↦ (err credential_not_found, m)
    | some cred ↦ use_credential user_id id auth json creds cred m
  ]
]
