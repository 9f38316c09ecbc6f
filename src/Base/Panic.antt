-- ===== src/Base/Panic.antt =====
-- Sequencing of calls that may panic, and the operations of Rust that do.
use auth_kit.Base.{ℕ, ◌/◌, ◌%◌, ◌^◌, none, some, ◌==◌, ltb, if◌then◌else◌, get_elem?, Bytes}
use auth_kit.Base.Outcome.{Run, returns, panics}

infixl 5 ◌>>=◌
abbrev pub ◌>>=◌ {ℓ κ} : {A : Type ℓ} {B : Type κ} → Run A → (A → Run B) → Run B
returns a >>= f = f a
panics >>= f = panics

-- Whether overflow checks and debug assertions are compiled in, as in a debug build.
pub data Build : Type 0 where
  debug release : Build

-- A slice index.
unfoldable pub index : Bytes → ℕ → Run ℕ
index s i = elim (get_elem? s i) [ none ↦ panics | some b ↦ returns b ]

-- Division by a divisor that may be zero.
unfoldable pub checked_div : ℕ → ℕ → Run ℕ
checked_div a b = if b == 0 then panics else returns (a / b)

-- A `u32` result that may overflow: an overflow panics in a debug build and wraps in a release one.
unfoldable pub fit_u32 : Build → ℕ → Run ℕ
fit_u32 debug n = if ltb n (2 ^ 32) then returns n else panics
fit_u32 release n = returns (n % 2 ^ 32)
