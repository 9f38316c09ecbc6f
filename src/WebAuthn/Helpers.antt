-- ===== src/WebAuthn/Helpers.antt =====
-- src/webauthn.rs: the helpers at its end. `generate_challenge` takes the bytes that `rand_bytes`
-- gives.
use auth_kit.Base.{ℕ, Option, none, some, Bytes}
use auth_kit.Base.Outcome.{Run, returns, panics}

-- `rand_bytes`; the generator is an argument with its state, and `none` is its error.
unfoldable pub rand_bytes : {S : Type 0} → (ℕ → S → Option Bytes × S) → ℕ → S → Run Bytes × S
rand_bytes getrandom n s =
    let (answer, s') = getrandom n s in
    (elim answer [ none ↦ panics | some bytes ↦ returns bytes ], s')

-- `user_id_from_uuid`; `to_string` is that of the crate `uuid`.
unfoldable pub user_id_from_uuid : {Uuid : Type 0} → (Uuid → Bytes) → Uuid → Bytes
user_id_from_uuid to_string uuid = to_string uuid
