-- ===== src/WebAuthn/Wire/Accepted.antt =====
-- src/webauthn.rs: which JSON objects the checks of the client data accept.
use mathlib.Core.Option
use auth_kit.Base.{true, ◌≡◌, ◌↔◌, refl, ap, subst, ◌∙◌, false, some, Bytes, codes}
use auth_kit.Base.Outcome.{ok}
use auth_kit.Base.Json.{
  object, string, Members, bool_serde, string_value, once, find, fits, field, required, defaulted,
  optional_default,
}
use auth_kit.Base.Json.Texts.{Gives, bind_some, required-once}
use auth_kit.WebAuthn.{AuthenticatorData, CollectedClientData, TokenBinding, WebAuthnConfig}
use auth_kit.WebAuthn.Checks.{WebAuthnCrates, check_registration, check_authentication}
use auth_kit.WebAuthn.Checks.Laws.{
  IsListed, IsClientData, check_registration_iff, check_authentication_iff,
}
use auth_kit.WebAuthn.Wire.{read_client_data, token_binding_serde}

-- The text is read as the value is: what `serde_json` does with a text of the value.
abbrev pub IsTextOf : WebAuthnCrates → Bytes → Members → Type 0
IsTextOf k json m =
    (d : CollectedClientData) → (k.from_str json ≡ ok d) ↔ (read_client_data (object m) ≡ some d)

-- The members that the checks look at, the origin among the allowed ones, and two that can be read.
pub record IsFor (config : WebAuthnConfig) (ty challenge : Bytes) (m : Members) : Type 0 where
  pub origin : Bytes
  pub allowed : IsListed origin config.allowed_origins
  pub has_type : find (codes "type") m ≡ once (string ty)
  pub has_challenge : find (codes "challenge") m ≡ once (string challenge)
  pub has_origin : find (codes "origin") m ≡ once (string origin)
  pub cross_origin : Gives (defaulted false (find (codes "crossOrigin") m))
  pub token_binding : Gives (optional_default {A = TokenBinding} (find (codes "tokenBinding") m))

client_data_members :
    (config : WebAuthnConfig) (m : Members) (d : CollectedClientData)
    → read_client_data (object m) ≡ some d
    → IsListed d.origin config.allowed_origins
    → IsFor config d.ty d.challenge m
unfolding read_client_data fits field
client_data_members config m d h listed =
    let (ty, e1, h1) = bind_some _ h in
    let (challenge, e2, h2) = bind_some _ h1 in
    let (origin, e3, h3) = bind_some _ h2 in
    let (cross_origin, e4, h4) = bind_some _ h3 in
    let (token_binding, e5, h5) = bind_some _ h4 in
    let same = Option.some_inj.0 h5 in
    record {
      origin = d.origin;
      allowed = listed;
      has_type = required-once _ ty e1 ∙ ap (λ x. once (string x.ty)) same;
      has_challenge = required-once _ challenge e2 ∙ ap (λ x. once (string x.challenge)) same;
      has_origin = required-once _ origin e3 ∙ ap (λ x. once (string x.origin)) same;
      cross_origin = (cross_origin, e4);
      token_binding = (token_binding, e5);
    }

members_client_data :
    (config : WebAuthnConfig) (ty challenge : Bytes) (m : Members)
    → (f : IsFor config ty challenge m)
    → read_client_data (object m)
      ≡ some (record {
        ty = ty;
        challenge = challenge;
        origin = f.origin;
        cross_origin = f.cross_origin.0;
        token_binding = f.token_binding.0;
      })
unfolding read_client_data fits field required string_value
members_client_data config ty challenge m f =
    rw (f.has_type, f.has_challenge, f.has_origin, f.cross_origin.1, f.token_binding.1) refl

IsClientData-IsFor :
    (k : WebAuthnCrates) (config : WebAuthnConfig) (ty challenge json : Bytes) (m : Members)
    → IsTextOf k json m
    → IsClientData k config ty challenge json ↔ IsFor config ty challenge m
IsClientData-IsFor k config ty challenge json m text = (
  λ c.
      subst (λ t. IsFor config t challenge m) c.typed
        (subst (λ h. IsFor config c.client_data.ty h m) c.challenged
          (client_data_members config m c.client_data ((text c.client_data).0 c.parsed) c.allowed)),
  λ f. record {
    client_data = _;
    parsed = (text _).1 (members_client_data config ty challenge m f);
    typed = refl;
    challenged = refl;
    allowed = f.allowed;
  },
)

-- For a text that is read as a JSON object is: the checks of a registration pass exactly when the
-- hash is that of the relying party, user presence and verification are flagged, the object's `type`
-- is `webauthn.create`, its `challenge` the given one and its `origin` one of the allowed origins,
-- each of the three there once, and `crossOrigin` and `tokenBinding` are absent or values that the
-- struct reads, whatever they say and whatever other members there are; those of an authentication
-- exactly when the same holds with `webauthn.get`, and without user verification.
pub check_object_iff :
    (k : WebAuthnCrates) (config : WebAuthnConfig) (challenge json : Bytes)
    (auth : AuthenticatorData) (m : Members)
    → IsTextOf k json m
    → ((check_registration k config challenge auth json ≡ ok tt) ↔ (
        (auth.rp_id_hash ≡ k.digest config.rp_id)
        × (auth.flags.up ≡ true)
        × (auth.flags.uv ≡ true)
        × IsFor config (codes "webauthn.create") challenge m))
      × ((check_authentication k config challenge auth json ≡ ok tt) ↔ (
          (auth.rp_id_hash ≡ k.digest config.rp_id)
          × (auth.flags.up ≡ true)
          × IsFor config (codes "webauthn.get") challenge m))
check_object_iff k config challenge json auth m text =
    let create = IsClientData-IsFor k config (codes "webauthn.create") challenge json m text in
    let log_in = IsClientData-IsFor k config (codes "webauthn.get") challenge json m text in
    let registers = check_registration_iff k config challenge auth json in
    let authenticates = check_authentication_iff k config challenge auth json in
    (
      (
        λ h. let (hash, up, uv, d) = registers.0 h in (hash, up, uv, create.0 d),
        λ (hash, up, uv, f). registers.1 (hash, up, uv, create.1 f),
      ),
      (
        λ h. let (hash, up, d) = authenticates.0 h in (hash, up, log_in.0 d),
        λ (hash, up, f). authenticates.1 (hash, up, log_in.1 f),
      ),
    )
