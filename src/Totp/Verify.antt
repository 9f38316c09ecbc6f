-- ===== src/Totp/Verify.antt =====
-- src/totp.rs: which codes `verify_with_window` and `verify` accept.
use auth_kit.Base.{
  ℕ, ◌+◌, ◌/◌, ◌^◌, ◌≤◌, ◌<◌, ◌≡◌, ◌≢◌, refl, sym, ap, ◌∙◌, ◌↔◌, inl, inr, Bool, true, false,
  Bool-cases, length, Bytes, arith,
}
use auth_kit.Base.Int.{sub_ℕ}
use auth_kit.Base.Outcome.{Run, returns}
use auth_kit.Base.Panic.{Build, checked_div}
use auth_kit.Totp.{
  TotpSecret, Hmac, sha1, hotp, at, default_digits, default_window, window_loop, verify_with_window,
  verify,
}
use auth_kit.Totp.Code.{hotp_code}
use native.Mathlib.Nat.{div-le_self}
use auth_kit.Totp.Window.{Searches-all}

checked_div_lem : (a b : ℕ) → 0 < b → checked_div a b ≡ returns (a / b)
unfolding checked_div
checked_div_lem a b h = ground arith

module _ (h : Hmac) (build : Build) (secret : TotpSecret) where
  -- The code of a counter, as `verify_with_window` computes it.
  abbrev pub expected : ℕ → Run Bytes
  expected c = hotp h build secret.bytes c default_digits sha1

  expected_total : (c : ℕ) → (s : Bytes) × (expected c ≡ returns s)
  expected_total c =
      let r = hotp_code h build secret.bytes c default_digits sha1 (omega arith) (omega arith) in
      (r.0, r.1)

  verify_with_window_lem :
      (candidate : Bytes) (unix_secs period window : ℕ)
      → 0 < period
      → verify_with_window h build secret candidate unix_secs period window
        ≡ window_loop expected candidate (unix_secs / period) (window + window + 1) (sub_ℕ 0 window)
  unfolding verify_with_window
  verify_with_window_lem candidate unix_secs period window some_period =
      rw (checked_div_lem unix_secs period some_period) refl

  -- For a positive period the verification never panics, and it accepts a candidate exactly when
  -- that is the six-digit code of a `u64` counter at most `window` steps from the present one.
  pub verify_with_window_iff :
      (candidate : Bytes) (unix_secs period window : ℕ)
      → 0 < period
      → ((b : Bool) × (verify_with_window h build secret candidate unix_secs period window
            ≡ returns b))
        × ((verify_with_window h build secret candidate unix_secs period window ≡ returns true) ↔ (
            (c : ℕ) × (c ≤ unix_secs / period + window)
            × (unix_secs / period ≤ c + window)
            × (c < 2 ^ 64)
            × (hotp h build secret.bytes c default_digits sha1 ≡ returns candidate)))
  verify_with_window_iff candidate unix_secs period window some_period =
      let start = verify_with_window_lem candidate unix_secs period window some_period in
      let search =
        Searches-all expected candidate (unix_secs / period) window expected_total
          (window + window + 1) 0 in
      (
        (search.ends.0, start ∙ search.ends.1),
        (
          λ e.
              let (c, lo, hi, fits, same) = search.found (sym start ∙ e) in
              (c, omega arith, omega arith, fits, same),
          λ (c, hi, lo, fits, same). start ∙ search.finds (c, omega arith, omega arith, fits, same),
        ),
      )

  -- For a positive period `at` is `hotp` at the step of the time.
  pub at_lem :
      (unix_secs period digits : ℕ)
      → 0 < period
      → at h build secret unix_secs period digits
        ≡ hotp h build secret.bytes (unix_secs / period) digits sha1
  unfolding at
  at_lem unix_secs period digits some_period =
      rw (checked_div_lem unix_secs period some_period) refl

  -- For a positive period, a six-digit code that `at` shows at one `u64` time is accepted by
  -- `verify` at another if the two times fall in the same step or in neighbouring ones.
  pub verify-at :
      (code : Bytes) (shown_at now period : ℕ)
      → 0 < period
      → shown_at < 2 ^ 64
      → shown_at / period ≤ now / period + 1
      → now / period ≤ shown_at / period + 1
      → at h build secret shown_at period default_digits ≡ returns code
      → verify h build secret code now period ≡ returns true
  unfolding verify
  verify-at code shown_at now period some_period fits ahead behind shown =
      (verify_with_window_iff code now period default_window some_period).1.1 (
        shown_at / period,
        ahead,
        behind,
        omega (arith, div-le_self shown_at period),
        sym (at_lem shown_at period default_digits some_period) ∙ shown,
      )

  -- For a positive period, a candidate that is not six bytes long is refused at every time, such as
  -- every code that `at` shows with another number of digits.
  pub verify_wrong_length :
      (candidate : Bytes) (now period : ℕ)
      → 0 < period
      → length candidate ≢ default_digits
      → verify h build secret candidate now period ≡ returns false
  unfolding verify
  verify_wrong_length candidate now period some_period other =
      let (b, e) = (verify_with_window_iff candidate now period default_window some_period).0 in
      elim (Bool-cases b) [
        | inl accepted ↦
            let (c, _, _, _, f) =
              (verify_with_window_iff candidate now period default_window some_period).1.0
                (e ∙ ap returns accepted) in
            let r =
              hotp_code h build secret.bytes c default_digits sha1 (omega arith) (omega arith) in
            let same : candidate ≡ r.0 = cc (f, r.1) in absurd (other (ap length same ∙ r.2))
        | inr refused ↦ e ∙ ap returns refused
      ]

  -- `at` and `verify` agree on six digits only: for a positive period, and for 1 to 9 digits other
  -- than 6, `at` shows a code at every time, and `verify` refuses that code at every time, the one
  -- at which it is shown included.
  pub verify-at_other_digits :
      (shown_at period digits : ℕ)
      → 0 < period
      → 0 < digits
      → digits ≤ 9
      → digits ≢ default_digits
      → (code : Bytes) × (at h build secret shown_at period digits ≡ returns code)
        × ((now : ℕ) → verify h build secret code now period ≡ returns false)
  verify-at_other_digits shown_at period digits some_period some_digits few other =
      let r = hotp_code h build secret.bytes (shown_at / period) digits sha1 some_digits few in
      (
        r.0,
        at_lem shown_at period digits some_period ∙ r.1,
        λ now. verify_wrong_length r.0 now period some_period (λ e. other (sym r.2 ∙ e)),
      )
