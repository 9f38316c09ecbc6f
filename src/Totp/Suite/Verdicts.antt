-- ===== src/Totp/Suite/Verdicts.antt =====
-- src/totp.rs: which of the tests can pass, whatever the MAC.
use auth_kit.Base.{◌≡◌, refl, sym, heads, ◌∙◌, true, false, beq, beq_iff, codes, arith}
use auth_kit.Base.Outcome.{returns}
use auth_kit.Base.Panic.{Build}
use auth_kit.Totp.{TotpSecret, Hmac, sha1, verify}
use auth_kit.Totp.Code.{hotp_code}
use auth_kit.Totp.Secret.{from_bytes}
use auth_kit.Totp.Verify.{verify_wrong_length, verify-at_other_digits}
use auth_kit.Totp.Suite.{
  rfc6238_secret, rfc6238_test_vector_t0, rfc6238_test_vector_t30, verify_accepts_current_code,
  verify_rejects_wrong_code, verify_with_window_accepts_drift,
}

module _ (h : Hmac) (build : Build) where
  abbrev secret : TotpSecret
  secret = from_bytes rfc6238_secret

  -- The code of eight digits is refused with the window of `verify` at any time.
  pub verify_accepts_current_code_fails : verify_accepts_current_code h build ≡ returns false
  unfolding verify_accepts_current_code
  verify_accepts_current_code_fails =
      let (code, shown, refused) =
        verify-at_other_digits h build secret 59 30 8 (omega arith) (omega arith) (omega arith)
          (omega arith) in
      rw (shown) (refused 59)

  pub verify_with_window_accepts_drift_fails :
      verify_with_window_accepts_drift h build ≡ returns false
  unfolding verify_with_window_accepts_drift verify
  verify_with_window_accepts_drift_fails =
      let (code, shown, refused) =
        verify-at_other_digits h build secret 59 30 8 (omega arith) (omega arith) (omega arith)
          (omega arith) in
      rw (shown, refused 30, refused 89) refl

  pub verify_rejects_wrong_code_passes : verify_rejects_wrong_code h build ≡ returns true
  unfolding verify_rejects_wrong_code
  verify_rejects_wrong_code_passes =
      rw (verify_wrong_length h build secret (codes "00000000") 59 30 (omega arith) (omega arith))
        refl

  -- The tests `t0` and `t30` want two codes for one call.
  pub rfc6238_test_vectors_apart :
      rfc6238_test_vector_t0 h build ≡ returns true
      → rfc6238_test_vector_t30 h build ≡ returns true
      → ⊥
  unfolding rfc6238_test_vector_t0 rfc6238_test_vector_t30
  rfc6238_test_vectors_apart first second =
      let r = hotp_code h build rfc6238_secret 1 8 sha1 (omega arith) (omega arith) in
      let t0 : beq r.0 (codes "94287082") ≡ true = ground (arith, r.1, first) in
      let t30 : beq r.0 (codes "46119246") ≡ true = ground (arith, r.1, second) in
      let a = (beq_iff r.0 (codes "94287082")).0 t0 in
      let b = (beq_iff r.0 (codes "46119246")).0 t30 in
      let first_digit : 57 ≡ 52 = heads 57 52 _ _ (sym a ∙ b) in omega (arith, first_digit)
