-- ===== src/WebAuthn/Checks.antt =====
-- src/webauthn.rs: the checks that need no state.
pub mod Laws
pub mod Keys
use auth_kit.Base.{Bool, true, false, List, [], ◌∷◌, ◌++◌, if◌then◌else◌, Bytes, beq, codes}
use auth_kit.Base.Map.{get}
use auth_kit.Base.Outcome.{Result, ok, err, ◌>>=◌}
use auth_kit.WebAuthn.{
  WebAuthnError, challenge_not_found, rp_id_hash_mismatch, user_presence_not_set,
  user_verification_not_set, client_data_json, AuthenticatorData, CollectedClientData,
  WebAuthnConfig,
}

-- The crates `sha2`, `base64` and `serde_json`: the hash of a text, URL-safe Base64, and the client
-- data of a JSON text or an error.
pub record WebAuthnCrates : Type 0 where
  pub digest : Bytes → Bytes
  pub encode : Bytes → Bytes
  pub from_str : Bytes → Result Bytes CollectedClientData

-- `if … { return Err(e); }`.
abbrev pub require : Bool → WebAuthnError → Result WebAuthnError (Unit {0})
require true e = ok tt
require false e = err e

-- `?` on a `serde_json` result.
abbrev pub json_error : Result Bytes CollectedClientData → Result WebAuthnError CollectedClientData
json_error (ok d) = ok d
json_error (err m) = err (client_data_json m)

unfoldable pub contains : List Bytes → Bytes → Bool
contains [] o = false
contains (x ∷ xs) o = if beq x o then true else contains xs o

-- The key under which a challenge is stored: `webauthn:<operation>:<rp_id>:<user_id>`.
unfoldable pub challenge_key : WebAuthnConfig → Bytes → Bytes → Bytes
challenge_key config operation user_id =
    codes "webauthn:" ++ (operation ++ (codes ":" ++ (config.rp_id ++ (codes ":" ++ user_id))))

abbrev pub challenge_purpose : Bytes
challenge_purpose = codes "webauthn-challenge"

module _ (k : WebAuthnCrates) where
  -- The check of the relying party's hash.
  unfoldable pub check_rp_id : WebAuthnConfig → AuthenticatorData → Result WebAuthnError (Unit {0})
  check_rp_id config auth =
      let expected = k.digest config.rp_id in
      require (beq auth.rp_id_hash expected)
        (rp_id_hash_mismatch (k.encode expected) (k.encode auth.rp_id_hash))

  -- The checks of the client data: its type, challenge and origin.
  unfoldable pub check_client_data :
      WebAuthnConfig → Bytes → Bytes → Bytes → Result WebAuthnError (Unit {0})
  check_client_data config ty challenge json = do
    client_data ← json_error (k.from_str json)
    _ ← require (beq client_data.ty ty) challenge_not_found
    _ ← require (beq client_data.challenge challenge) challenge_not_found
    require (contains config.allowed_origins client_data.origin) challenge_not_found

  -- Steps 1 to 3 of `verify_registration`.
  unfoldable pub check_registration :
      WebAuthnConfig → Bytes → AuthenticatorData → Bytes → Result WebAuthnError (Unit {0})
  check_registration config challenge auth json = do
    _ ← check_rp_id config auth
    _ ← require auth.flags.up user_presence_not_set
    _ ← require auth.flags.uv user_verification_not_set
    check_client_data config (codes "webauthn.create") challenge json

  -- Steps 1 to 3 of `verify_authentication`.
  unfoldable pub check_authentication :
      WebAuthnConfig → Bytes → AuthenticatorData → Bytes → Result WebAuthnError (Unit {0})
  check_authentication config challenge auth json = do
    _ ← check_rp_id config auth
    _ ← require auth.flags.up user_presence_not_set
    check_client_data config (codes "webauthn.get") challenge json
