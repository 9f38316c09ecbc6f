-- ===== src/Totp/Countdown.antt =====
-- src/totp.rs: `seconds_remaining` against the step in which `at` stands.
use native.Mathlib.Nat.{mod-lt, mod-add-div', add-mul-div_right, div-eq_of_lt, div_self}
use auth_kit.Base.{ℕ, ◌+◌, ◌-◌, ◌*◌, ◌/◌, ◌%◌, ◌≤◌, ◌<◌, ◌≡◌, sym, ap, ◌∙◌, arith}
use auth_kit.Base.Outcome.{returns}
use auth_kit.Base.Panic.{Build}
use auth_kit.Totp.{TotpSecret, Hmac, at, seconds_remaining, hotp, sha1}
use auth_kit.Totp.Verify.{at_lem}

-- A time some seconds on, by its place in the present step.
div_later : (t p d : ℕ) → 0 < p → (t + d) / p ≡ (t % p + d) / p + t / p
div_later t p d h =
    let regroup : t + d ≡ t % p + d + t / p * p = omega (arith, mod-add-div' t p) in
    ap (λ x. x / p) regroup ∙ add-mul-div_right (t % p + d) (t / p) h

div_within : (t p d : ℕ) → 0 < p → d < p - t % p → (t + d) / p ≡ t / p
div_within t p d h k =
    omega (arith, div_later t p d h, div-eq_of_lt {n = t % p + d} {m = p} (omega arith))

div_end : (t p : ℕ) → 0 < p → (t + (p - t % p)) / p ≡ t / p + 1
div_end t p h =
    let whole : t % p + (p - t % p) ≡ p = omega (arith, mod-lt t h) in
    omega (arith, div_later t p (p - t % p) h, ap (λ x. x / p) whole, div_self h)

-- For a positive period the countdown is between 1 and the period; `at` shows the same code until
-- it has run out, and then the code of the next counter.
pub seconds_remaining_lem :
    (h : Hmac) (build : Build) (secret : TotpSecret) (unix_secs period digits : ℕ)
    → 0 < period
    → (r : ℕ) × (seconds_remaining unix_secs period ≡ returns r)
      × (0 < r)
      × (r ≤ period)
      × ((d : ℕ)
          → d < r
          → at h build secret (unix_secs + d) period digits
            ≡ at h build secret unix_secs period digits)
      × (at h build secret (unix_secs + r) period digits
          ≡ hotp h build secret.bytes (unix_secs / period + 1) digits sha1)
unfolding seconds_remaining
seconds_remaining_lem h build secret t p digits some_period = (
  p - t % p,
  ground arith,
  omega (arith, mod-lt t some_period),
  omega arith,
  λ d left.
      at_lem h build secret (t + d) p digits some_period
      ∙ ap (λ c. hotp h build secret.bytes c digits sha1) (div_within t p d some_period left)
      ∙ sym (at_lem h build secret t p digits some_period),
  at_lem h build secret (t + (p - t % p)) p digits some_period
      ∙ ap (λ c. hotp h build secret.bytes c digits sha1) (div_end t p some_period),
)
