-- ===== src/WebAuthn/Tests.antt =====
-- Instances of the theorems about src/webauthn.rs, with a session store that counts its calls and
-- accepts all of them.
mod Concurrent
mod Runs
mod Wire
use auth_kit.Base.{
  ℕ, suc, ◌+◌, ◌≡◌, ◌≢◌, ◌↔◌, refl, none, List, [], ◌∷◌, ◌++◌, Bytes, codes, arith, beq,
  if◌then◌else◌, true, false, replicate,
}
use auth_kit.Base.Map.{get}
use auth_kit.Base.Outcome.{ok, returns}
use auth_kit.Base.Words.{to_be_bytes}
use auth_kit.WebAuthn.{
  AuthenticatorDataFlags, AuthenticatorData, CollectedClientData, WebAuthnCredential,
  WebAuthnConfig,
}
use auth_kit.WebAuthn.AuthData.{to_byte, parse, parse-serialized}
use auth_kit.WebAuthn.Checks.{
  WebAuthnCrates, contains, check_rp_id, check_client_data, check_authentication,
}
use auth_kit.WebAuthn.Registry.{find_credential, verify_signature, use_credential, authenticate}
use auth_kit.WebAuthn.Registry.Laws.{count_id, IsUnique}
use auth_kit.WebAuthn.Verifier.{
  ChallengeStore, WebAuthnVerifier, after_store, verify_registration, verify_authentication,
}
use auth_kit.WebAuthn.Registration.{new_credential, IsRegistrable, verify_registration_iff}
use auth_kit.WebAuthn.Authentication.{IsAuthentic, verify_authentication_iff}
use auth_kit.WebAuthn.Replay.{
  Call, generates, registers, authenticates, run, verify_authentication-no_replay,
}

abbrev flags_up_uv : AuthenticatorDataFlags
flags_up_uv = record { up = true; uv = true; be = false; bs = false; at = true; ed = false }

abbrev client_data : Bytes → CollectedClientData
client_data ty = record {
  ty = ty;
  challenge = codes "challenge";
  origin = codes "https://example.com";
  cross_origin = false;
  token_binding = none;
}

-- The JSON text stands for its type, and the hash of a text is 32 times one byte.
abbrev crates : WebAuthnCrates
crates = record {
  digest = λ s. replicate 32 7;
  encode = λ s. s;
  from_str = λ s. ok (client_data s);
}

abbrev counting_store : ChallengeStore ℕ (Unit {0})
counting_store = record {
  bind_state = λ key value purpose ttl s. (ok tt, suc s);
  verify_state = λ key value purpose s. (ok tt, suc s);
}

abbrev auth_data : ℕ → AuthenticatorData
auth_data count = record { rp_id_hash = replicate 32 7; flags = flags_up_uv; sign_count = count }

abbrev short_blob : Bytes
short_blob = replicate 36 0

abbrev config : WebAuthnConfig
config = record {
  rp_id = codes "example.com";
  allowed_origins = codes "https://example.com" ∷ [];
  challenge_ttl_secs = 60;
}

abbrev alice_key : WebAuthnCredential
alice_key = new_credential (codes "now") (auth_data 0) (1 ∷ 2 ∷ []) (3 ∷ 4 ∷ [])

abbrev empty : WebAuthnVerifier ℕ
empty = record { config = config; store = 0; credentials = [] }

abbrev with_alice : WebAuthnVerifier ℕ
with_alice = record {
  config = config;
  store = 0;
  credentials = (codes "alice", alice_key ∷ []) ∷ [];
}

abbrev history : List Call
history =
    generates (9 ∷ []) (codes "alice") (codes "create")
    ∷ registers (codes "now") (codes "alice") (codes "challenge") (auth_data 0)
        (codes "webauthn.create") (1 ∷ 2 ∷ []) (3 ∷ 4 ∷ [])
    ∷ authenticates (codes "alice") (codes "challenge") (auth_data 5) (codes "webauthn.get")
        (1 ∷ 2 ∷ [])
    ∷ []

empty-IsUnique : IsUnique empty.credentials
unfolding count_id
empty-IsUnique id = omega arith

first_login :
    (verify_authentication crates counting_store
      (codes "alice")
      (codes "challenge")
      (auth_data 5)
      (codes "webauthn.get")
      (1 ∷ 2 ∷ [])
      with_alice).0
    ≡ ok tt
unfolding verify_authentication after_store check_authentication check_rp_id check_client_data
    contains beq authenticate use_credential find_credential verify_signature get
first_login = refl

parse-serialized_example :
    parse (replicate 32 7 ++ to_byte flags_up_uv ∷ (to_be_bytes 4 258 ++ 1 ∷ []))
    ≡ returns (ok (auth_data 258))
parse-serialized_example =
    parse-serialized (replicate 32 7) flags_up_uv 258 (1 ∷ []) refl (omega arith)

verify_registration_iff_example :
    ((verify_registration crates counting_store
        (codes "now")
        (codes "alice")
        (codes "challenge")
        (auth_data 0)
        (codes "webauthn.create")
        (1 ∷ 2 ∷ [])
        (3 ∷ 4 ∷ [])
        empty).0
      ≡ ok alice_key)
    ↔ (IsRegistrable crates counting_store
          (codes "now")
          (codes "alice")
          (codes "challenge")
          (auth_data 0)
          (codes "webauthn.create")
          (1 ∷ 2 ∷ [])
          (3 ∷ 4 ∷ [])
          empty
        × (alice_key ≡ new_credential (codes "now") (auth_data 0) (1 ∷ 2 ∷ []) (3 ∷ 4 ∷ [])))
verify_registration_iff_example =
    verify_registration_iff crates counting_store (codes "now") (codes "alice") (codes "challenge")
      (auth_data 0) (codes "webauthn.create") (1 ∷ 2 ∷ []) (3 ∷ 4 ∷ []) empty alice_key

verify_authentication_iff_example :
    ((verify_authentication crates counting_store
        (codes "alice")
        (codes "challenge")
        (auth_data 5)
        (codes "webauthn.get")
        (1 ∷ 2 ∷ [])
        with_alice).0
      ≡ ok tt)
    ↔ IsAuthentic crates counting_store
        (codes "alice")
        (codes "challenge")
        (auth_data 5)
        (codes "webauthn.get")
        (1 ∷ 2 ∷ [])
        with_alice
verify_authentication_iff_example =
    verify_authentication_iff crates counting_store (codes "alice") (codes "challenge")
      (auth_data 5) (codes "webauthn.get") (1 ∷ 2 ∷ []) with_alice

verify_authentication-no_replay_example :
    (verify_authentication crates counting_store
      (codes "alice")
      (codes "challenge")
      (auth_data 5)
      (codes "webauthn.get")
      (1 ∷ 2 ∷ [])
      (run crates counting_store history
        (verify_authentication crates counting_store
          (codes "alice")
          (codes "challenge")
          (auth_data 5)
          (codes "webauthn.get")
          (1 ∷ 2 ∷ [])
          with_alice).1)).0
    ≢ ok tt
verify_authentication-no_replay_example =
    verify_authentication-no_replay crates counting_store (codes "alice") (1 ∷ 2 ∷ [])
      (codes "challenge") (codes "challenge") (codes "webauthn.get") (codes "webauthn.get")
      (auth_data 5) (auth_data 5) history with_alice first_login (omega arith)
