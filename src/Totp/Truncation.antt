-- ===== src/Totp/Truncation.antt =====
-- src/totp.rs: the dynamic truncation in `hotp` against RFC 4226 §5.3.
use native.Mathlib.Numerals.{add-one, add-two, add-three}
use auth_kit.Base.{
  ℕ, zero, suc, ◌+◌, ◌-◌, ◌%◌, ◌^◌, ◌≤◌, ◌<◌, ◌≡◌, refl, sym, ap, ◌∙◌, some, [], ◌∷◌, length,
  get_elem?, take, drop, All, Bytes, IsByte, bit_and, arith,
}
use auth_kit.Base.Bits.{bit_and_nibble, bit_and_sign}
use auth_kit.Base.Outcome.{returns}
use auth_kit.Base.Words.{from_be_bytes}
use auth_kit.Totp.{truncate}

abbrev last_byte : Bytes → ℕ
last_byte [] = 0
last_byte (x ∷ []) = x
last_byte (x ∷ y ∷ xs) = last_byte (y ∷ xs)

-- RFC 4226 §5.3: the last 31 bits of the four bytes that stand at the offset in the low four bits
-- of the last byte.
unfoldable pub dynamic_code : Bytes → ℕ
dynamic_code digest = from_be_bytes (take 4 (drop (last_byte digest % 16) digest)) % 2 ^ 31

get_elem?-lt : (xs : Bytes) (i : ℕ) → i < length xs → (x : ℕ) × (get_elem? xs i ≡ some x)
get_elem?-lt [] i h = absurd (omega arith)
get_elem?-lt (x ∷ xs) zero h = (x, refl)
get_elem?-lt (x ∷ xs) (suc i) h = get_elem?-lt xs i (omega arith)

get_elem?-IsByte : (xs : Bytes) (i : ℕ) {x : ℕ} → All IsByte xs → get_elem? xs i ≡ some x → IsByte x
get_elem?-IsByte [] i h e = cc
get_elem?-IsByte (y ∷ xs) zero h e = ground (arith, h.0)
get_elem?-IsByte (y ∷ xs) (suc i) h e = get_elem?-IsByte xs i h.1 e

last_byte-get_elem? :
    (x : ℕ) (xs : Bytes) → get_elem? (x ∷ xs) (length xs) ≡ some (last_byte (x ∷ xs))
last_byte-get_elem? x [] = refl
last_byte-get_elem? x (y ∷ xs) = last_byte-get_elem? y xs

-- The four elements from an index on.
take_four :
    (xs : Bytes) (o : ℕ) {a b c d : ℕ}
    → get_elem? xs o ≡ some a
    → get_elem? xs (suc o) ≡ some b
    → get_elem? xs (suc (suc o)) ≡ some c
    → get_elem? xs (suc (suc (suc o))) ≡ some d
    → take 4 (drop o xs) ≡ a ∷ b ∷ c ∷ d ∷ []
take_four [] o p q r s = cc
take_four (x ∷ []) zero p q r s = cc
take_four (x ∷ y ∷ []) zero p q r s = cc
take_four (x ∷ y ∷ z ∷ []) zero p q r s = cc
take_four (x ∷ y ∷ z ∷ w ∷ xs) zero p q r s = cc
take_four (x ∷ xs) (suc o) p q r s = take_four xs o p q r s

from_be_four :
    (a b c d : ℕ)
    → IsByte a
    → IsByte b
    → IsByte c
    → IsByte d
    → from_be_bytes (bit_and a 0x7f ∷ b ∷ c ∷ d ∷ []) ≡ from_be_bytes (a ∷ b ∷ c ∷ d ∷ []) % 2 ^ 31
unfolding from_be_bytes
from_be_four a b c d p q r s = omega (arith, bit_and_sign a p)

truncate_at :
    (digest : Bytes) (n last a b c d : ℕ)
    → get_elem? digest (n - 1) ≡ some last
    → get_elem? digest (bit_and last 0x0f) ≡ some a
    → get_elem? digest (bit_and last 0x0f + 1) ≡ some b
    → get_elem? digest (bit_and last 0x0f + 2) ≡ some c
    → get_elem? digest (bit_and last 0x0f + 3) ≡ some d
    → truncate digest n ≡ returns (from_be_bytes (bit_and a 0x7f ∷ b ∷ c ∷ d ∷ []))
unfolding truncate
truncate_at digest n last a b c d e p q r s = ground arith

last_byte-at :
    (digest : Bytes) (n : ℕ)
    → length digest ≡ n
    → 0 < n
    → get_elem? digest (n - 1) ≡ some (last_byte digest)
last_byte-at [] n e h = absurd (omega arith)
last_byte-at (x ∷ xs) n e h =
    let m : n - 1 ≡ length xs = omega arith in rw m (last_byte-get_elem? x xs)

truncate_parts :
    (digest : Bytes) (n a b c d : ℕ)
    → All IsByte digest
    → get_elem? digest (n - 1) ≡ some (last_byte digest)
    → get_elem? digest (last_byte digest % 16) ≡ some a
    → get_elem? digest (suc (last_byte digest % 16)) ≡ some b
    → get_elem? digest (suc (suc (last_byte digest % 16))) ≡ some c
    → get_elem? digest (suc (suc (suc (last_byte digest % 16)))) ≡ some d
    → truncate digest n ≡ returns (dynamic_code digest)
unfolding dynamic_code
truncate_parts digest n a b c d bytes last p q r s =
    let o = last_byte digest % 16 in
    let mask = bit_and_nibble (last_byte digest) (get_elem?-IsByte digest (n - 1) bytes last) in
    truncate_at digest n (last_byte digest) a b c d last (rw mask p) (rw (mask, add-one) q)
      (rw (mask, add-two) r) (rw (mask, add-three) s)
    ∙ ap returns (
        from_be_four a b c d (get_elem?-IsByte digest o bytes p)
          (get_elem?-IsByte digest (suc o) bytes q) (get_elem?-IsByte digest (suc (suc o)) bytes r)
          (get_elem?-IsByte digest (suc (suc (suc o))) bytes s)
        ∙ sym (ap (λ x. from_be_bytes x % 2 ^ 31) (take_four digest o p q r s)))

-- On a digest of bytes that is at least 20 long, as every HMAC output is, no index is out of range
-- and the result is the code of the RFC.
pub truncate_lem :
    (digest : Bytes) (n : ℕ)
    → length digest ≡ n
    → 20 ≤ n
    → All IsByte digest
    → truncate digest n ≡ returns (dynamic_code digest)
truncate_lem digest n len long bytes =
    let (a, p) = get_elem?-lt digest (last_byte digest % 16) (omega arith) in
    let (b, q) = get_elem?-lt digest (suc (last_byte digest % 16)) (omega arith) in
    let (c, r) = get_elem?-lt digest (suc (suc (last_byte digest % 16))) (omega arith) in
    let (d, s) = get_elem?-lt digest (suc (suc (suc (last_byte digest % 16)))) (omega arith) in
    truncate_parts digest n a b c d bytes (last_byte-at digest n len (omega arith)) p q r s

pub dynamic_code-lt : (digest : Bytes) → dynamic_code digest < 2 ^ 31
unfolding dynamic_code
dynamic_code-lt digest = omega arith
