-- ===== src/WebAuthn.antt =====
-- src/webauthn.rs: the WebAuthn verifier. `AuthData` models the flags and the authenticator data,
-- `Verifier` the operations; the other modules prove what the operations do.
pub mod AuthData
pub mod Checks
pub mod Wire
pub mod Registry
pub mod Verifier
pub mod Registration
pub mod Authentication
pub mod Replay
pub mod Race
pub mod Reuse
pub mod Ceremony
pub mod Tasks
pub mod Helpers
pub mod Suite
mod Tests
use auth_kit.Base.{ℕ, Bool, Option, List, Bytes}
use auth_kit.SessionStore.{SessionStoreError}

-- `WebAuthnError`; the errors of `base64` and `serde_json` are opaque.
pub data WebAuthnError : Type 0 where
  challenge_not_found : WebAuthnError
  rp_id_hash_mismatch : Bytes → Bytes → WebAuthnError
  user_presence_not_set : WebAuthnError
  user_verification_not_set : WebAuthnError
  credential_already_exists : WebAuthnError
  credential_not_found : WebAuthnError
  session_store : SessionStoreError → WebAuthnError
  base64 : Bytes → WebAuthnError
  client_data_json : Bytes → WebAuthnError

pub record AuthenticatorDataFlags : Type 0 where
  pub up : Bool
  pub uv : Bool
  pub be : Bool
  pub bs : Bool
  pub at : Bool
  pub ed : Bool

pub record AuthenticatorData : Type 0 where
  pub rp_id_hash : Bytes
  pub flags : AuthenticatorDataFlags
  pub sign_count : ℕ

pub record TokenBinding : Type 0 where
  pub status : Bytes
  pub id : Option Bytes

pub record CollectedClientData : Type 0 where
  pub ty : Bytes
  pub challenge : Bytes
  pub origin : Bytes
  pub cross_origin : Bool
  pub token_binding : Option TokenBinding

pub record WebAuthnCredential : Type 0 where
  pub credential_id : Bytes
  pub public_key : Bytes
  pub sign_count : ℕ
  pub label : Option Bytes
  pub created_at : Bytes

pub record WebAuthnConfig : Type 0 where
  pub rp_id : Bytes
  pub allowed_origins : List Bytes
  pub challenge_ttl_secs : ℕ

-- `WebAuthnConfig::new`.
unfoldable pub new_config : Bytes → List Bytes → WebAuthnConfig
new_config rp_id allowed_origins = record {
  rp_id = rp_id;
  allowed_origins = allowed_origins;
  challenge_ttl_secs = 60;
}
