-- ===== src/WebAuthn/AuthData.antt =====
-- src/webauthn.rs: `AuthenticatorDataFlags` and `AuthenticatorData::parse`.
use auth_kit.Base.{
  ℕ, zero, suc, ◌+◌, ◌^◌, ◌≤◌, ◌<◌, ◌≡◌, refl, ap, ◌∙◌, subst, length-append, inl, inr, ◌⊎◌, Bool,
  true, not, [], ◌∷◌, ◌++◌, ltb, ltb→lt, Bool-cases, ◌==◌, ==_iff, if◌then◌else◌, length, get_elem?,
  take, Bytes, IsByte, bit_and, bit_or, arith,
}
use auth_kit.Base.Bits.{holds_below, holds_below_lem}
use auth_kit.Base.Outcome.{Result, ok, err, Run, returns}
use auth_kit.Base.Panic.{◌>>=◌, index}
use auth_kit.Base.Words.{to_be_bytes, from_be_bytes, from_be_bytes-to_be_bytes}
use auth_kit.WebAuthn.{
  WebAuthnError, user_presence_not_set, AuthenticatorDataFlags, AuthenticatorData,
}

unfoldable pub from_byte : ℕ → AuthenticatorDataFlags
from_byte b = record {
  up = not (bit_and b 0x01 == 0);
  uv = not (bit_and b 0x04 == 0);
  be = not (bit_and b 0x08 == 0);
  bs = not (bit_and b 0x10 == 0);
  at = not (bit_and b 0x40 == 0);
  ed = not (bit_and b 0x80 == 0);
}

-- `if flag { b |= mask; }`.
abbrev set_flag : Bool → ℕ → ℕ → ℕ
set_flag flag mask b = if flag then bit_or b mask else b

unfoldable pub to_byte : AuthenticatorDataFlags → ℕ
to_byte f = set_flag f.ed 0x80 (
    set_flag f.at 0x40
      (set_flag f.bs 0x10 (set_flag f.be 0x08 (set_flag f.uv 0x04 (set_flag f.up 0x01 0)))))

-- `AuthenticatorData::parse`, after its guard on the length.
unfoldable pub parse_long : Bytes → Run (Result WebAuthnError AuthenticatorData)
unfolding index
parse_long bytes = do
  flags ← index bytes 32
  a ← index bytes 33
  b ← index bytes 34
  c ← index bytes 35
  d ← index bytes 36
  returns (
      ok (record {
        rp_id_hash = take 32 bytes;
        flags = from_byte flags;
        sign_count = from_be_bytes (a ∷ b ∷ c ∷ d ∷ []);
      }))

unfoldable pub parse : Bytes → Run (Result WebAuthnError AuthenticatorData)
unfolding parse_long
parse bytes =
    if ltb (length bytes) 37 then returns (err user_presence_not_set) else parse_long bytes

flags_roundtrip :
    (up uv be bs at ed : Bool)
    → let f : AuthenticatorDataFlags = record {
      up = up;
      uv = uv;
      be = be;
      bs = bs;
      at = at;
      ed = ed;
    } in
      from_byte (to_byte f) ≡ f
unfolding from_byte to_byte
flags_roundtrip up uv be bs at ed = ground arith

mask_table : holds_below (λ b. to_byte (from_byte b) == bit_and b 0xdd) 256 ≡ true
unfolding holds_below from_byte to_byte
mask_table = refl

-- Of the flags, decoding undoes encoding, and encoding undoes decoding of any byte up to the two
-- reserved bits, which it clears.
pub from_byte-to_byte :
    (f : AuthenticatorDataFlags) (b : ℕ)
    → IsByte b
    → (from_byte (to_byte f) ≡ f) × (to_byte (from_byte b) ≡ bit_and b 0xdd)
from_byte-to_byte f b h = (
  flags_roundtrip f.up f.uv f.be f.bs f.at f.ed,
  (==_iff _ _).0 (holds_below_lem _ 256 mask_table b h),
)

get_elem?-after : (xs ys : Bytes) (i : ℕ) → get_elem? (xs ++ ys) (i + length xs) ≡ get_elem? ys i
get_elem?-after [] ys i = ap (get_elem? ys) (omega arith)
get_elem?-after (x ∷ xs) ys i =
    let next : i + length (x ∷ xs) ≡ suc (i + length xs) = omega arith in
    rw next (get_elem?-after xs ys i)

take-append : (xs ys : Bytes) → take (length xs) (xs ++ ys) ≡ xs
take-append [] ys = refl
take-append (x ∷ xs) ys = ap (λ s. x ∷ s) (take-append xs ys)

-- Five bytes after a hash of 32 are the flags and the counter.
parse_parts :
    (hash : Bytes) (f a b c d : ℕ) (rest : Bytes)
    → length hash ≡ 32
    → parse (hash ++ f ∷ a ∷ b ∷ c ∷ d ∷ rest)
      ≡ returns (
          ok (record {
            rp_id_hash = hash;
            flags = from_byte f;
            sign_count = from_be_bytes (a ∷ b ∷ c ∷ d ∷ []);
          }))
unfolding parse
parse_parts hash f a b c d rest len =
    let tail = f ∷ a ∷ b ∷ c ∷ d ∷ rest in
    let after : (i : ℕ) → get_elem? (hash ++ tail) (i + 32) ≡ get_elem? tail i = λ i.
      subst (λ n. get_elem? (hash ++ tail) (i + n) ≡ get_elem? tail i) len
        (get_elem?-after hash tail i) in
    let front : take 32 (hash ++ tail) ≡ hash =
      subst (λ n. take n (hash ++ tail) ≡ hash) len (take-append hash tail) in
    ground (arith, after 0, after 1, after 2, after 3, after 4, front, length-append hash tail, len)

abbrev parsed : Bytes → AuthenticatorDataFlags → ℕ → Run (Result WebAuthnError AuthenticatorData)
parsed hash flags count =
    returns (ok (record { rp_id_hash = hash; flags = flags; sign_count = count }))

serialized-eq :
    (hash : Bytes) {f g : AuthenticatorDataFlags} {m n : ℕ}
    → f ≡ g
    → m ≡ n
    → parsed hash f m ≡ parsed hash g n
serialized-eq hash p q = λ i. parsed hash (p i) (q i)

-- A blob that is made of a 32-byte hash, the flags byte, a big-endian `u32` and anything after them
-- is parsed back into exactly those.
pub parse-serialized :
    (hash : Bytes) (flags : AuthenticatorDataFlags) (count : ℕ) (rest : Bytes)
    → length hash ≡ 32
    → count < 2 ^ 32
    → parse (hash ++ to_byte flags ∷ (to_be_bytes 4 count ++ rest))
      ≡ returns (ok (record { rp_id_hash = hash; flags = flags; sign_count = count }))
unfolding to_be_bytes
parse-serialized hash flags count rest len small =
    parse_parts hash (to_byte flags) _ _ _ _ rest len
    ∙ serialized-eq hash (flags_roundtrip flags.up flags.uv flags.be flags.bs flags.at flags.ed)
        (from_be_bytes-to_be_bytes 4 count small)

cut : (n : ℕ) (s : Bytes) → n ≤ length s → (a : Bytes) × (b : Bytes) × (s ≡ a ++ b) × (length a ≡ n)
cut zero s h = ([], s, refl, refl)
cut (suc n) [] h = absurd (omega arith)
cut (suc n) (x ∷ s) h =
    let (a, b, e, len) = cut n s (omega arith) in (x ∷ a, b, ap (λ t. x ∷ t) e, omega (arith, len))

-- Five bytes or more after a 32-byte hash.
record IsLong (bytes : Bytes) : Type 0 where
  hash : Bytes
  flags : ℕ
  a : ℕ
  b : ℕ
  c : ℕ
  d : ℕ
  rest : Bytes
  parts : bytes ≡ hash ++ flags ∷ a ∷ b ∷ c ∷ d ∷ rest
  length-hash : length hash ≡ 32

IsLong-of :
    (bytes hash tail : Bytes)
    → bytes ≡ hash ++ tail
    → length hash ≡ 32
    → 5 ≤ length tail
    → IsLong bytes
IsLong-of bytes hash [] e len h = absurd (omega arith)
IsLong-of bytes hash (f ∷ []) e len h = absurd (omega arith)
IsLong-of bytes hash (f ∷ a ∷ []) e len h = absurd (omega arith)
IsLong-of bytes hash (f ∷ a ∷ b ∷ []) e len h = absurd (omega arith)
IsLong-of bytes hash (f ∷ a ∷ b ∷ c ∷ []) e len h = absurd (omega arith)
IsLong-of bytes hash (f ∷ a ∷ b ∷ c ∷ d ∷ rest) e len h = record {
  hash = hash;
  flags = f;
  a = a;
  b = b;
  c = c;
  d = d;
  rest = rest;
  parts = e;
  length-hash = len;
}

IsLong-of_length : (bytes : Bytes) → 37 ≤ length bytes → IsLong bytes
IsLong-of_length bytes h =
    let (hash, tail, e, len) = cut 32 bytes (omega arith) in
    IsLong-of bytes hash tail e len (omega (arith, ap length e, length-append hash tail))

-- `parse` never panics, whatever the bytes: it refuses exactly those shorter than 37, and the hash
-- that it gives otherwise has 32 bytes.
pub parse_total :
    (bytes : Bytes)
    → ((length bytes < 37) × (parse bytes ≡ returns (err user_presence_not_set)))
      ⊎ ((37 ≤ length bytes)
          × ((a : AuthenticatorData) × (parse bytes ≡ returns (ok a)) × (length a.rp_id_hash ≡ 32)))
parse_total bytes = elim (Bool-cases (ltb (length bytes) 37)) [
  | inl short ↦ inl (ltb→lt _ _ short, unfold parse in ground arith)
  | inr long ↦
      let enough : 37 ≤ length bytes = ground arith in
      let l = IsLong-of_length bytes enough in
      inr (
        enough,
        (
          _,
          ap parse l.parts ∙ parse_parts l.hash l.flags l.a l.b l.c l.d l.rest l.length-hash,
          l.length-hash,
        ),
      )
]
