-- ===== src/Base/Words.antt =====
-- Big-endian bytes of machine words.
use auth_kit.Base.{
  ℕ, zero, suc, ◌+◌, ◌*◌, ◌/◌, ◌%◌, ◌^◌, ◌<◌, ◌≡◌, refl, [], ◌∷◌, ◌++◌, Bytes, IsByte, All,
  All-append, length, length-append, arith,
}
use native.Mathlib.Nat.{pow-suc}

-- `to_be_bytes` of a word of `k` bytes.
unfoldable pub to_be_bytes : ℕ → ℕ → Bytes
to_be_bytes zero n = []
to_be_bytes (suc k) n = to_be_bytes k (n / 256) ++ (n % 256) ∷ []

-- `from_be_bytes`, from the bytes before.
unfoldable pub from_be_from : ℕ → Bytes → ℕ
from_be_from acc [] = acc
from_be_from acc (b ∷ bs) = from_be_from (acc * 256 + b) bs

unfoldable pub from_be_bytes : Bytes → ℕ
unfolding from_be_from
from_be_bytes bs = from_be_from 0 bs

from_be_from_snoc :
    (acc : ℕ) (bs : Bytes) (b : ℕ) → from_be_from acc (bs ++ b ∷ []) ≡ from_be_from acc bs * 256 + b
unfolding from_be_from
from_be_from_snoc acc [] b = refl
from_be_from_snoc acc (c ∷ bs) b = from_be_from_snoc (acc * 256 + c) bs b

-- Reading back the bytes of a word that fits.
pub from_be_bytes-to_be_bytes : (k n : ℕ) → n < 256 ^ k → from_be_bytes (to_be_bytes k n) ≡ n
unfolding from_be_bytes to_be_bytes
from_be_bytes-to_be_bytes zero n h = omega arith
from_be_bytes-to_be_bytes (suc k) n h = omega (
  arith,
  from_be_from_snoc 0 (to_be_bytes k (n / 256)) (n % 256),
  from_be_bytes-to_be_bytes k (n / 256) (omega (arith, pow-suc 256 k)),
)

pub to_be_bytes-IsByte : (k n : ℕ) → All IsByte (to_be_bytes k n)
unfolding to_be_bytes
to_be_bytes-IsByte zero n = tt
to_be_bytes-IsByte (suc k) n =
    All-append IsByte (to_be_bytes k (n / 256)) _ (to_be_bytes-IsByte k (n / 256)) (omega arith)

pub length-to_be_bytes : (k n : ℕ) → length (to_be_bytes k n) ≡ k
unfolding to_be_bytes
length-to_be_bytes zero n = refl
length-to_be_bytes (suc k) n = omega (
  arith,
  length-append (to_be_bytes k (n / 256)) ((n % 256) ∷ []),
  length-to_be_bytes k (n / 256),
)
