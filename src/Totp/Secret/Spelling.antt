-- ===== src/Totp/Secret/Spelling.antt =====
-- src/totp.rs: `from_base32` reads every spelling of a secret that a user may type.
use auth_kit.Base.{
  ℕ, ◌+◌, ◌≤◌, ◌≡◌, ◌≢◌, refl, sym, ap, ◌∙◌, ◌⊎◌, true, false, some, [], ◌∷◌, map, length, All,
  Bytes, IsByte, arith,
}
use auth_kit.Base.Outcome.{ok}
use auth_kit.Base.Str.{trim}
use auth_kit.Totp.{TotpSecret}
use auth_kit.Totp.Secret.Spaces.{
  IsTyped, remove_spaces-trim, remove_spaces-upper, trim-IsTyped, typed-ascii,
}
use auth_kit.Totp.Secret.{
  IsBase32, upper, SecretCrates, remove_spaces, to_base32, from_normalized, from_base32,
}

-- A spelling of a text: its characters, each as it is or in lower case, with any number of spaces
-- before, between and after them.
pub data Spells : Bytes → Bytes → Type 0 where
  done : Spells [] []
  space : {s t : Bytes} → Spells s t → Spells (32 ∷ s) t
  same : {c : ℕ} {s t : Bytes} → Spells s t → Spells (c ∷ s) (c ∷ t)
  lower : {c : ℕ} {s t : Bytes} → b'A' ≤ c → c ≤ b'Z' → Spells s t → Spells ((c + 32) ∷ s) (c ∷ t)

pub Spells-refl : (s : Bytes) → Spells s s
Spells-refl [] = done
Spells-refl (c ∷ s) = same (Spells-refl s)

Spells-IsTyped : {s t : Bytes} → Spells s t → All IsBase32 t → All IsTyped s
Spells-IsTyped done h = tt
Spells-IsTyped (space r) h = (omega arith, Spells-IsTyped r h)
Spells-IsTyped (same r) h = (omega (arith, h.0), Spells-IsTyped r h.1)
Spells-IsTyped (lower lo hi r) h = (omega arith, Spells-IsTyped r h.1)

upper-base32 : (c : ℕ) → IsBase32 c → upper c ≡ c
upper-base32 c h = ground (arith, h)

Spells-normal : {s t : Bytes} → Spells s t → All IsBase32 t → remove_spaces (map upper s) ≡ t
unfolding remove_spaces
Spells-normal done h = refl
Spells-normal (space r) h = Spells-normal r h
Spells-normal (same {c} r) h = ground (arith, h.0, Spells-normal r h.1)
Spells-normal (lower {c} lo hi r) h = ground (arith, Spells-normal r h.1)

normalized :
    (k : SecretCrates) (s t : Bytes)
    → Spells s t
    → All IsBase32 t
    → remove_spaces (k.to_uppercase (trim s)) ≡ t
normalized k s t r h =
    let v = Spells-IsTyped r h in
    ap remove_spaces (k.to_uppercase_ascii (trim s) (typed-ascii (trim s) (trim-IsTyped s v)))
    ∙ remove_spaces-upper (trim s)
    ∙ ap (map upper) (remove_spaces-trim s v)
    ∙ sym (remove_spaces-upper s)
    ∙ Spells-normal r h

nil-length : {b : Bytes} → length b ≡ 20 → b ≡ [] → ⊥
nil-length len e = cc (ap length e)

from_normalized-encode :
    (k : SecretCrates) (b s : Bytes)
    → s ≢ []
    → k.decode false s ≡ some b
    → length b ≡ 20
    → from_normalized k s ≡ ok (record { bytes = b })
unfolding from_normalized
from_normalized-encode k b [] some_text e len = absurd (some_text refl)
from_normalized-encode k b (c ∷ s) some_text e len = ground arith

-- A secret of 20 bytes is read back from its Base32 form, typed in any case and with spaces
-- anywhere.
pub from_base32-to_base32 :
    (k : SecretCrates) (secret : TotpSecret) (s : Bytes)
    → length secret.bytes ≡ 20
    → All IsByte secret.bytes
    → Spells s (to_base32 k secret)
    → from_base32 k s ≡ ok secret
unfolding from_base32 to_base32
from_base32-to_base32 k secret s len bytes r =
    ap (from_normalized k)
      (normalized k s (k.encode false secret.bytes) r (k.encode-IsBase32 secret.bytes))
    ∙ from_normalized-encode k secret.bytes (k.encode false secret.bytes)
        (λ empty. nil-length len (k.encode-nil secret.bytes empty))
        (k.decode-encode secret.bytes bytes) len

from_normalized-length :
    (k : SecretCrates) (n : Bytes) (secret : TotpSecret)
    → from_normalized k n ≡ ok secret
    → (length secret.bytes ≡ 20)
      × ((n' : Bytes) × ((k.decode false n' ≡ some secret.bytes)
            ⊎ (k.decode true n' ≡ some secret.bytes)))
unfolding from_normalized
from_normalized-length k [] secret e = cc
from_normalized-length k (c ∷ s) secret e = (ground arith, (c ∷ s, ground arith))

-- Whatever the text, a secret that `from_base32` gives has 20 bytes, and comes from one of the two
-- decoders.
pub from_base32-length :
    (k : SecretCrates) (s : Bytes) (secret : TotpSecret)
    → from_base32 k s ≡ ok secret
    → (length secret.bytes ≡ 20)
      × ((n : Bytes) × ((k.decode false n ≡ some secret.bytes)
            ⊎ (k.decode true n ≡ some secret.bytes)))
unfolding from_base32
from_base32-length k s secret e =
    from_normalized-length k (remove_spaces (k.to_uppercase (trim s))) secret e
