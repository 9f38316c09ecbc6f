-- ===== src/WebAuthn/Wire.antt =====
-- src/webauthn.rs: the client data as JSON, as the derived `Deserialize` and `Serialize` read and
-- write it.
pub mod Accepted
use auth_kit.Base.{◌≡◌, ◌≢◌, Option, some, false, if◌then◌else◌, beq, codes}
use auth_kit.Base.Json.{
  Json, null, string, boolean, object, end, member, Serde, bytes_serde, bool_serde, string_value,
  boolean_value, field, fits, guard, find, find_again, ◌>>=◌, required, optional_default, defaulted,
  option_json,
}
use auth_kit.Base.Json.Laws.{written_fields}
use auth_kit.WebAuthn.{CollectedClientData, TokenBinding}

-- The derived `Deserialize` of `TokenBinding`.
unfoldable pub read_token_binding : Json → Option TokenBinding
read_token_binding j = do
  _ ← guard (fits 2 j)
  status ← required (field 0 (codes "status") j)
  id ← optional_default (field 1 (codes "id") j)
  some (record { status = status; id = id })

-- The derived `Serialize`.
unfoldable pub write_token_binding : TokenBinding → Json
write_token_binding t =
    object (member (codes "status") (string t.status) (member (codes "id") (option_json t.id) end))

pub read_token_binding-write_token_binding :
    (t : TokenBinding) → read_token_binding (write_token_binding t) ≡ some t
unfolding read_token_binding write_token_binding fits field find find_again beq required
    string_value
read_token_binding-write_token_binding t = simp written_fields

pub write_token_binding-null : (t : TokenBinding) → write_token_binding t ≢ null
unfolding write_token_binding
write_token_binding-null t e = cc

instance abbrev pub token_binding_serde : Serde TokenBinding
token_binding_serde = record {
  to_json = write_token_binding;
  from_json = read_token_binding;
  from_json-to_json = read_token_binding-write_token_binding;
  to_json-null = write_token_binding-null;
}

-- The derived `Deserialize` of `CollectedClientData`.
unfoldable pub read_client_data : Json → Option CollectedClientData
read_client_data j = do
  _ ← guard (fits 5 j)
  ty ← required (field 0 (codes "type") j)
  challenge ← required (field 1 (codes "challenge") j)
  origin ← required (field 2 (codes "origin") j)
  cross_origin ← defaulted false (field 3 (codes "crossOrigin") j)
  token_binding ← optional_default (field 4 (codes "tokenBinding") j)
  some (record {
    ty = ty;
    challenge = challenge;
    origin = origin;
    cross_origin = cross_origin;
    token_binding = token_binding;
  })

-- The derived `Serialize`.
unfoldable pub write_client_data : CollectedClientData → Json
write_client_data d = object (
    member (codes "type") (string d.ty) (
      member (codes "challenge") (string d.challenge) (
        member (codes "origin") (string d.origin) (
          member (codes "crossOrigin") (boolean d.cross_origin)
            (member (codes "tokenBinding") (option_json d.token_binding) end)))))

-- Client data that was written as JSON is read back as it was, with its token binding.
pub read_client_data-write_client_data :
    (d : CollectedClientData) → read_client_data (write_client_data d) ≡ some d
unfolding read_client_data write_client_data fits field find find_again beq required defaulted
    string_value boolean_value
read_client_data-write_client_data d = simp written_fields
