-- ===== src/WebAuthn/Suite.antt =====
-- src/webauthn.rs: the module `tests`. A test answers whether all its assertions hold. The random
-- bytes of its challenges, its time, the store and the crates are arguments.
use auth_kit.Base.{
  ℕ, Bool, true, false, ◌&&◌, ◌==◌, Option, none, some, List, [], ◌∷◌, length, replicate, bit_or,
  Bytes, codes,
}
use auth_kit.Base.Outcome.{Result, ok, err, Run, returns, panics}
use auth_kit.Base.Json.{Json, string, boolean, object, end, member}
use auth_kit.WebAuthn.{
  WebAuthnError, challenge_not_found, rp_id_hash_mismatch, user_presence_not_set,
  credential_not_found, session_store, AuthenticatorDataFlags, AuthenticatorData,
  WebAuthnCredential, new_config,
}
use auth_kit.WebAuthn.AuthData.{from_byte, to_byte, parse}
use auth_kit.WebAuthn.Checks.{WebAuthnCrates}
use auth_kit.WebAuthn.Registry.{list_credentials}
use auth_kit.WebAuthn.Verifier.{
  ChallengeStore, WebAuthnVerifier, new, generate_challenge, verify_registration,
  verify_authentication,
}

-- `unwrap()` and `unwrap_err()`, with what the test does next.
abbrev pub unwrap {ℓ κ} : {E : Type ℓ} {A : Type κ} → Result E A → (A → Bool) → Bool
unwrap (ok a) next = next a
unwrap (err e) next = false

abbrev pub unwrap_err {ℓ κ} : {E : Type ℓ} {A : Type κ} → Result E A → (E → Bool) → Bool
unwrap_err (ok a) next = false
unwrap_err (err e) next = next e

-- The `matches!` of the tests.
abbrev is_rp_id_hash_mismatch : WebAuthnError → Bool
is_rp_id_hash_mismatch (rp_id_hash_mismatch a b) = true
is_rp_id_hash_mismatch _ = false

abbrev is_user_presence_not_set : WebAuthnError → Bool
is_user_presence_not_set user_presence_not_set = true
is_user_presence_not_set _ = false

abbrev is_challenge_not_found : WebAuthnError → Bool
is_challenge_not_found challenge_not_found = true
is_challenge_not_found _ = false

abbrev is_session_store : WebAuthnError → Bool
is_session_store (session_store e) = true
is_session_store _ = false

abbrev is_credential_not_found : WebAuthnError → Bool
is_credential_not_found credential_not_found = true
is_credential_not_found _ = false

unfoldable pub fixture : {S : Type 0} → S → WebAuthnVerifier S
fixture store =
    new (new_config (codes "auth.example.com") (codes "https://app.example.com" ∷ [])) store

unfoldable pub fake_auth_data : WebAuthnCrates → Bytes → AuthenticatorData
fake_auth_data k rp_id = record {
  rp_id_hash = k.digest rp_id;
  flags = record { up = true; uv = true; be = false; bs = false; at = false; ed = false };
  sign_count = 1;
}

-- `tests::client_data` as a value, with its members in the order of the source.
unfoldable pub client_data : Bytes → Bytes → Bytes → Json
client_data ty challenge origin = object (
    member (codes "type") (string ty) (
      member (codes "challenge") (string challenge) (
        member (codes "origin") (string origin)
          (member (codes "crossOrigin") (boolean false) end))))

-- What the tests use of the crates: the text of a JSON value, and the decoder of `base64`.
pub record SuiteCrates : Type 0 where
  pub crates : WebAuthnCrates
  pub to_string : Json → Bytes
  pub decode : Bytes → Option Bytes

abbrev alice : Bytes
alice = codes "alice"

abbrev cred_id : Bytes
cred_id = codes "cred-id"

abbrev rp_id : Bytes
rp_id = codes "auth.example.com"

abbrev app_origin : Bytes
app_origin = codes "https://app.example.com"

module _ {S R : Type 0} (t : SuiteCrates) (o : ChallengeStore S R)
    (now bytes bytes' bytes'' : Bytes) (s : S) where
  unfoldable pub generate_challenge_returns_32_byte_url_safe_b64 : Bool
  unfolding fixture
  generate_challenge_returns_32_byte_url_safe_b64 =
      unwrap (generate_challenge t.crates o bytes alice (codes "create") (fixture s)).0
        λ c. elim (t.decode c) [ none ↦ false | some b ↦ length b == 32 ]

  -- A challenge for `alice` and a registration with it; the test goes on with the challenge, the
  -- answer and the verifier.
  register_alice :
      AuthenticatorData
      → Bytes
      → (Bytes → Result WebAuthnError WebAuthnCredential × WebAuthnVerifier S → Bool)
      → Bool
  unfolding fixture
  register_alice auth origin next =
      let (made, v) = generate_challenge t.crates o bytes alice (codes "create") (fixture s) in
      unwrap made λ challenge. next challenge (
        verify_registration t.crates o now alice challenge auth
          (t.to_string (client_data (codes "webauthn.create") challenge origin)) cred_id
          (codes "public-key") v)

  unfoldable pub verify_registration_happy_path : Bool
  unfolding register_alice fake_auth_data
  verify_registration_happy_path =
      register_alice (fake_auth_data t.crates rp_id) app_origin λ challenge (r, v).
        unwrap r λ cred. cred.sign_count == 1 && length (list_credentials alice v.credentials) == 1

  unfoldable pub verify_registration_rp_id_mismatch_rejected : Bool
  unfolding register_alice fake_auth_data
  verify_registration_rp_id_mismatch_rejected =
      register_alice (fake_auth_data t.crates (codes "evil.example.com")) app_origin
        λ challenge (r, v). unwrap_err r is_rp_id_hash_mismatch

  unfoldable pub verify_registration_no_user_presence_rejected : Bool
  unfolding register_alice fake_auth_data
  verify_registration_no_user_presence_rejected =
      let auth = fake_auth_data t.crates rp_id in
      register_alice (record auth { flags = record auth.flags { up = false } }) app_origin
        λ challenge (r, v). unwrap_err r is_user_presence_not_set

  unfoldable pub verify_registration_origin_not_allowed : Bool
  unfolding register_alice fake_auth_data
  verify_registration_origin_not_allowed =
      register_alice (fake_auth_data t.crates rp_id) (codes "https://evil.example.com")
        λ challenge (r, v). unwrap_err r is_challenge_not_found

  unfoldable pub verify_registration_challenge_replay_rejected : Bool
  unfolding register_alice fake_auth_data
  verify_registration_challenge_replay_rejected =
      let auth = fake_auth_data t.crates rp_id in
      register_alice auth app_origin λ challenge (r, v). unwrap r λ _.
        unwrap_err
          (verify_registration t.crates o now alice challenge (record auth { sign_count = 2 })
            (t.to_string (client_data (codes "webauthn.create") challenge app_origin))
            (codes "cred-id-2") (codes "public-key-2") v).0
          is_session_store

  -- A challenge for `alice` and an authentication with it and the sign count 5.
  authenticate_alice :
      Bytes
      → WebAuthnVerifier S
      → (Result WebAuthnError (Unit {0}) × WebAuthnVerifier S → Bool)
      → Bool
  unfolding fake_auth_data
  authenticate_alice random v next =
      let (made, v') = generate_challenge t.crates o random alice (codes "get") v in
      unwrap made λ challenge. next (
        verify_authentication t.crates o alice challenge
          (record (fake_auth_data t.crates rp_id) { sign_count = 5 })
          (t.to_string (client_data (codes "webauthn.get") challenge app_origin)) cred_id v')

  -- `creds[0]` panics where there is no credential.
  first_has_count : ℕ → List WebAuthnCredential → Bool
  first_has_count n [] = false
  first_has_count n (c ∷ cs) = c.sign_count == n

  unfoldable pub verify_authentication_happy_path_increments_sign_count : Bool
  unfolding register_alice authenticate_alice fake_auth_data first_has_count
  verify_authentication_happy_path_increments_sign_count =
      register_alice (fake_auth_data t.crates rp_id) app_origin λ challenge (r, v). unwrap r λ _.
        authenticate_alice bytes' v
          λ (a, v'). unwrap a λ _. first_has_count 5 (list_credentials alice v'.credentials)

  unfoldable pub verify_authentication_replay_rejected_by_sign_count : Bool
  unfolding register_alice authenticate_alice fake_auth_data
  verify_authentication_replay_rejected_by_sign_count =
      register_alice (fake_auth_data t.crates rp_id) app_origin λ challenge (r, v). unwrap r λ _.
        authenticate_alice bytes' v λ (a, v'). unwrap a λ _.
          authenticate_alice bytes'' v' λ (again, v''). unwrap_err again is_credential_not_found

abbrev suite_flags : AuthenticatorDataFlags
suite_flags = record { up = true; uv = true; be = false; bs = true; at = true; ed = false }

abbrev same_bool : Bool → Bool → Bool
same_bool true b = b
same_bool false true = false
same_bool false false = true

-- The derived equality of the flags.
abbrev same_flags : AuthenticatorDataFlags → AuthenticatorDataFlags → Bool
same_flags x y =
    same_bool x.up y.up
    && (same_bool x.uv y.uv
        && (same_bool x.be y.be
            && (same_bool x.bs y.bs && (same_bool x.at y.at && same_bool x.ed y.ed))))

unfoldable pub flags_byte_roundtrip : Bool
flags_byte_roundtrip =
    let byte = to_byte suite_flags in
    byte == bit_or (bit_or (bit_or 0x01 0x04) 0x10) 0x40 && same_flags (from_byte byte) suite_flags

abbrev is_err : Run (Result WebAuthnError AuthenticatorData) → Bool
is_err (returns (ok a)) = false
is_err (returns (err e)) = true
is_err panics = false

unfoldable pub auth_data_parse_too_short : Bool
auth_data_parse_too_short = is_err (parse (replicate 10 0))
