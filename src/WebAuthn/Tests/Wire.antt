-- ===== src/WebAuthn/Tests/Wire.antt =====
-- Instances of the theorem about the client data of src/webauthn.rs as JSON.
use auth_kit.Base.{beq, ◌≡◌, ◌↔◌, refl, true, none, some, [], codes}
use auth_kit.Base.Outcome.{ok, err}
use auth_kit.Base.Json.{
  string_value, boolean_value, fits, field, find, find_again, required, defaulted, optional_default,
  nullable, Members, string, boolean, object, end, member,
}
use auth_kit.WebAuthn.Wire.{read_client_data}
use auth_kit.WebAuthn.Wire.Accepted.{IsTextOf, IsFor, check_object_iff}
use auth_kit.WebAuthn.Checks.{
  WebAuthnCrates, check_rp_id, check_client_data, check_registration, check_authentication,
  contains,
}
use auth_kit.WebAuthn.Tests.{auth_data, crates, config}

-- The members that a browser writes in a frame of another origin, with one that is unknown.
abbrev framed : Members
framed = member (codes "type") (string (codes "webauthn.get")) (
    member (codes "challenge") (string (codes "challenge")) (
      member (codes "origin") (string (codes "https://example.com")) (
        member (codes "crossOrigin") (boolean true)
          (member (codes "topOrigin") (string (codes "https://other.example")) end))))

-- Crates for which every text is that of the object.
abbrev framed_crates : WebAuthnCrates
framed_crates = record crates {
  from_str = λ s. elim (read_client_data (object framed)) [ none ↦ err [] | some d ↦ ok d ];
}

framed-IsTextOf : IsTextOf framed_crates [] framed
unfolding read_client_data string_value boolean_value fits field find find_again required defaulted
    optional_default nullable beq
framed-IsTextOf d = (λ h. cc, λ h. cc)

check_object_iff_example :
    ((check_registration framed_crates config (codes "challenge") (auth_data 0) [] ≡ ok tt) ↔ (
      ((auth_data 0).rp_id_hash ≡ framed_crates.digest config.rp_id)
      × ((auth_data 0).flags.up ≡ true)
      × ((auth_data 0).flags.uv ≡ true)
      × IsFor config (codes "webauthn.create") (codes "challenge") framed))
    × ((check_authentication framed_crates config (codes "challenge") (auth_data 0) [] ≡ ok tt) ↔ (
        ((auth_data 0).rp_id_hash ≡ framed_crates.digest config.rp_id)
        × ((auth_data 0).flags.up ≡ true)
        × IsFor config (codes "webauthn.get") (codes "challenge") framed))
check_object_iff_example =
    check_object_iff framed_crates config (codes "challenge") [] (auth_data 0) framed
      framed-IsTextOf

framed_run : check_authentication framed_crates config (codes "challenge") (auth_data 0) [] ≡ ok tt
unfolding check_authentication check_rp_id check_client_data contains read_client_data string_value
    boolean_value fits field find find_again required defaulted optional_default nullable beq
framed_run = refl
