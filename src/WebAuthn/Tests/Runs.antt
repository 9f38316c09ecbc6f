-- ===== src/WebAuthn/Tests/Runs.antt =====
-- Runs of the tests of src/webauthn.rs, with toy crates and a store that accepts every call, and
-- instances of the theorems about reused challenges and ceremonies.
use auth_kit.Base.{
  ℕ, Bool, List, beq, ◌≡◌, ◌↔◌, refl, true, false, none, some, [], ◌∷◌, ◌++◌, length, take, drop,
  replicate, Bytes, codes, ◌≤◌, ◌<◌,
}
use auth_kit.Base.Outcome.{Result, ok, err}
use auth_kit.Base.Map.{get, insert}
use auth_kit.WebAuthn.{WebAuthnCredential, CollectedClientData, new_config}
use auth_kit.Base.Json.{
  string_value, boolean_value, fits, field, find, find_again, required, defaulted, optional_default,
  nullable,
}
use auth_kit.WebAuthn.Wire.{read_client_data}
use auth_kit.WebAuthn.AuthData.{from_byte, to_byte, parse}
use auth_kit.WebAuthn.Registry.{
  register, is_registered, push_credential, authenticate, use_credential, find_credential,
  set_sign_count, verify_signature, list_credentials,
}
use auth_kit.WebAuthn.Registry.Laws.{count_id}
use auth_kit.WebAuthn.Checks.{
  challenge_key, challenge_purpose, check_registration, check_authentication, check_rp_id,
  check_client_data, contains,
}
use auth_kit.WebAuthn.Verifier.{
  new, after_store, generate_challenge, verify_registration, verify_authentication,
  WebAuthnVerifier,
}
use auth_kit.WebAuthn.Registration.{new_credential}
use auth_kit.WebAuthn.Replay.{Call, generates, authenticates, run, step}
use auth_kit.WebAuthn.Registry.Counts.{credential}
use auth_kit.WebAuthn.Ceremony.{ceremony_iff}
use auth_kit.WebAuthn.Reuse.{verify_registration_reused_iff}
use auth_kit.WebAuthn.Suite.{
  SuiteCrates, generate_challenge_returns_32_byte_url_safe_b64, verify_registration_happy_path,
  verify_registration_rp_id_mismatch_rejected, verify_registration_no_user_presence_rejected,
  verify_registration_origin_not_allowed, verify_registration_challenge_replay_rejected,
  verify_authentication_happy_path_increments_sign_count,
  verify_authentication_replay_rejected_by_sign_count, flags_byte_roundtrip,
  auth_data_parse_too_short, client_data, fixture, fake_auth_data,
}
use auth_kit.WebAuthn.Tests.{counting_store, crates, empty, auth_data, config}

-- The lengths of the first two texts, and the texts.
abbrev text_of : Bytes → Bytes → Bytes → Bytes
text_of ty challenge origin = length ty ∷ length challenge ∷ ty ++ challenge ++ origin

abbrev from_text : Bytes → Result Bytes CollectedClientData
from_text [] = err []
from_text (a ∷ []) = err []
from_text (a ∷ b ∷ s) = ok (record {
  ty = take a s;
  challenge = take b (drop a s);
  origin = drop b (drop a s);
  cross_origin = false;
  token_binding = none;
})

abbrev suite_crates : SuiteCrates
suite_crates = record {
  crates = record {
    digest = λ s. take 32 (s ++ replicate 32 0);
    encode = λ s. s;
    from_str = from_text;
  };
  to_string =
      λ j. elim (read_client_data j) [ none ↦ [] | some d ↦ text_of d.ty d.challenge d.origin ];
  decode = λ s. some s;
}

-- The random bytes of the challenges.
abbrev random : ℕ → Bytes
random b = replicate 32 b

-- The verdicts of the tests, in their order: `verify_registration_challenge_replay_rejected` fails.
abbrev verdicts : List Bool
verdicts =
    generate_challenge_returns_32_byte_url_safe_b64 suite_crates counting_store (codes "now")
      (random 1) (random 2) (random 3) 0
    ∷ verify_registration_happy_path suite_crates counting_store (codes "now") (random 1) (random 2)
        (random 3) 0
    ∷ verify_registration_rp_id_mismatch_rejected suite_crates counting_store (codes "now")
        (random 1) (random 2) (random 3) 0
    ∷ verify_registration_no_user_presence_rejected suite_crates counting_store (codes "now")
        (random 1) (random 2) (random 3) 0
    ∷ verify_registration_origin_not_allowed suite_crates counting_store (codes "now") (random 1)
        (random 2) (random 3) 0
    ∷ verify_registration_challenge_replay_rejected suite_crates counting_store (codes "now")
        (random 1) (random 2) (random 3) 0
    ∷ verify_authentication_happy_path_increments_sign_count suite_crates counting_store
        (codes "now") (random 1) (random 2) (random 3) 0
    ∷ verify_authentication_replay_rejected_by_sign_count suite_crates counting_store (codes "now")
        (random 1) (random 2) (random 3) 0
    ∷ flags_byte_roundtrip
    ∷ auth_data_parse_too_short
    ∷ []

verdicts_run : verdicts ≡ true ∷ true ∷ true ∷ true ∷ true ∷ false ∷ true ∷ true ∷ true ∷ true ∷ []
unfolding generate_challenge_returns_32_byte_url_safe_b64 verify_registration_happy_path
    verify_registration_rp_id_mismatch_rejected verify_registration_no_user_presence_rejected
    verify_registration_origin_not_allowed verify_registration_challenge_replay_rejected
    verify_authentication_happy_path_increments_sign_count
    verify_authentication_replay_rejected_by_sign_count flags_byte_roundtrip
    auth_data_parse_too_short fixture fake_auth_data new new_config generate_challenge
    verify_registration verify_authentication after_store check_registration check_authentication
    check_rp_id check_client_data contains beq register is_registered push_credential authenticate
    use_credential find_credential set_sign_count verify_signature list_credentials get insert
    client_data read_client_data string_value boolean_value fits field find find_again required
    defaulted optional_default nullable from_byte to_byte parse
verdicts_run = refl

verify_registration_reused_iff_example :
    let v' =
      (verify_registration crates counting_store
        (codes "now")
        (codes "bob")
        (codes "challenge")
        (auth_data 0)
        (codes "webauthn.create")
        (1 ∷ [])
        (3 ∷ [])
        empty).1 in
    ((verify_registration crates counting_store
        (codes "later")
        (codes "bob")
        (codes "challenge")
        (auth_data 7)
        (codes "webauthn.create")
        (2 ∷ [])
        (4 ∷ [])
        v').0
      ≡ ok (new_credential (codes "later") (auth_data 7) (2 ∷ []) (4 ∷ [])))
    ↔ ((r : Unit {0}) × ((counting_store.verify_state
            (challenge_key config (codes "create") (codes "bob"))
            (codes "challenge")
            challenge_purpose
            v'.store).0
          ≡ ok r))
unfolding verify_registration after_store check_registration check_rp_id check_client_data contains
    beq register is_registered count_id
verify_registration_reused_iff_example =
    verify_registration_reused_iff crates counting_store (codes "bob") (codes "challenge")
      (codes "now") (codes "later") (auth_data 0) (auth_data 7) (codes "webauthn.create")
      (codes "webauthn.create") (1 ∷ []) (2 ∷ []) (3 ∷ []) (4 ∷ []) empty
      (new_credential (codes "now") (auth_data 0) (1 ∷ []) (3 ∷ [])) refl refl (λ e. cc) refl

abbrev bob_after : WebAuthnVerifier ℕ
bob_after =
    (verify_registration crates counting_store (codes "now") (codes "bob") (codes "challenge")
      (auth_data 3) (codes "webauthn.create") (1 ∷ []) (7 ∷ []) empty).1

-- Two calls between the ceremonies, the second of which sets a count.
abbrev between : List Call
between =
    generates (9 ∷ []) (codes "bob") (codes "get")
    ∷ authenticates (codes "bob") (codes "challenge") (auth_data 4) (codes "webauthn.get") (1 ∷ [])
    ∷ []

ceremony_iff_example :
    let v' = run crates counting_store between bob_after in
    (d : WebAuthnCredential) × (credential (codes "bob") (1 ∷ []) v'.credentials ≡ some d)
    × (d.public_key ≡ 7 ∷ [])
    × (3 ≤ d.sign_count)
    × (((verify_authentication crates counting_store
            (codes "bob")
            (codes "challenge")
            (auth_data 5)
            (codes "webauthn.get")
            (1 ∷ [])
            v').0
          ≡ ok tt)
        ↔ (d.sign_count < 5))
unfolding run step generate_challenge verify_registration verify_authentication after_store
    check_registration check_authentication check_rp_id check_client_data contains beq register
    is_registered
ceremony_iff_example =
    ceremony_iff crates counting_store (codes "bob") (1 ∷ []) (codes "now") (codes "challenge")
      (codes "challenge") (auth_data 3) (auth_data 5) (codes "webauthn.create")
      (codes "webauthn.get") (7 ∷ []) empty
      (new_credential (codes "now") (auth_data 3) (1 ∷ []) (7 ∷ [])) between tt refl (λ e. cc) refl
      refl
