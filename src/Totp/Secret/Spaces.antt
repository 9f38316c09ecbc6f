-- ===== src/Totp/Secret/Spaces.antt =====
-- src/totp.rs: the white space that `from_base32` drops, and its upper case.
use mathlib.Core.List.{reverse, reverse_aux, reverse-reverse}
use auth_kit.Base.{
  ℕ, ◌<◌, ◌≡◌, refl, ap, ◌∙◌, Bool, false, [], ◌∷◌, map, ◌==◌, if◌then◌else◌, All, Bytes, arith,
}
use auth_kit.Base.Str.{trim, trim_start, trim_end, trim_by, is_space_1, is_space_2, is_space_3}
use auth_kit.Totp.Secret.{upper, remove_spaces}

-- A space or a visible ASCII character.
abbrev pub IsTyped : ℕ → Type 0
IsTyped c = (31 < c) × (c < 127)

space_or_not : (a : ℕ) → IsTyped a → is_space_1 a ≡ (a == 32)
unfolding is_space_1
space_or_not a v = ground arith

-- The tests for the first and second byte of a longer character hold of no ASCII byte.
abbrev NotAscii : (ℕ → ℕ → Bool) → (ℕ → ℕ → ℕ → Bool) → Type 0
NotAscii two three =
    ((a b : ℕ) → a < 127 → two a b ≡ false) × ((a b c : ℕ) → a < 127 → three a b c ≡ false)

trim_by-typed :
    (two : ℕ → ℕ → Bool) (three : ℕ → ℕ → ℕ → Bool)
    → NotAscii two three
    → (a : ℕ) (s : Bytes) → IsTyped a
    → trim_by two three (a ∷ s) ≡ (if a == 32 then trim_by two three s else a ∷ s)
unfolding trim_by
trim_by-typed two three h a [] v = rw (space_or_not a v) refl
trim_by-typed two three h a (b ∷ []) v = rw (space_or_not a v, h.0 a b v.1) refl
trim_by-typed two three h a (b ∷ c ∷ s) v = rw (space_or_not a v, h.0 a b v.1, h.1 a b c v.1) refl

remove_spaces-if :
    (a : ℕ) (x s : Bytes)
    → remove_spaces x ≡ remove_spaces s
    → remove_spaces (if a == 32 then x else a ∷ s) ≡ remove_spaces (a ∷ s)
unfolding remove_spaces
remove_spaces-if a x s e = ground arith

remove_spaces-trim_by :
    (two : ℕ → ℕ → Bool) (three : ℕ → ℕ → ℕ → Bool)
    → NotAscii two three
    → (s : Bytes) → All IsTyped s
    → remove_spaces (trim_by two three s) ≡ remove_spaces s
remove_spaces-trim_by two three h [] v = unfold trim_by in refl
remove_spaces-trim_by two three h (a ∷ s) v =
    rw (trim_by-typed two three h a s v.0)
      (remove_spaces-if a (trim_by two three s) s (remove_spaces-trim_by two three h s v.1))

remove_spaces-reverse_aux :
    (s r : Bytes)
    → remove_spaces (reverse_aux s r) ≡ reverse_aux (remove_spaces s) (remove_spaces r)
unfolding remove_spaces
remove_spaces-reverse_aux [] r = refl
remove_spaces-reverse_aux (c ∷ s) r = ground (arith, remove_spaces-reverse_aux s (c ∷ r))

remove_spaces-reverse : (s : Bytes) → remove_spaces (reverse s) ≡ reverse (remove_spaces s)
remove_spaces-reverse s = remove_spaces-reverse_aux s [] ∙ unfold remove_spaces in refl

All-reverse_aux : (s r : Bytes) → All IsTyped s → All IsTyped r → All IsTyped (reverse_aux s r)
All-reverse_aux [] r h k = k
All-reverse_aux (x ∷ s) r h k = All-reverse_aux s (x ∷ r) h.1 (h.0, k)

All-trim_by :
    (two : ℕ → ℕ → Bool) (three : ℕ → ℕ → ℕ → Bool)
    → NotAscii two three
    → (s : Bytes) → All IsTyped s
    → All IsTyped (trim_by two three s)
All-trim_by two three h [] v = unfold trim_by in tt
All-trim_by two three h (a ∷ s) v =
    rw (trim_by-typed two three h a s v.0) (ground (arith, v.0, v.1, All-trim_by two three h s v.1))

start_tests : NotAscii is_space_2 is_space_3
unfolding is_space_2 is_space_3
start_tests = (λ a b h. ground arith, λ a b c h. ground arith)

end_tests : NotAscii (λ b a. is_space_2 a b) (λ c b a. is_space_3 a b c)
unfolding is_space_2 is_space_3
end_tests = (λ b a h. ground arith, λ c b a h. ground arith)

remove_spaces-trim_end : (s : Bytes) → All IsTyped s → remove_spaces (trim_end s) ≡ remove_spaces s
unfolding trim_end
remove_spaces-trim_end s v =
    let kept = trim_by (λ b a. is_space_2 a b) (λ c b a. is_space_3 a b c) (reverse s) in
    remove_spaces-reverse kept
    ∙ ap reverse (
        remove_spaces-trim_by (λ b a. is_space_2 a b) (λ c b a. is_space_3 a b c) end_tests
          (reverse s) (All-reverse_aux s [] v tt)
        ∙ remove_spaces-reverse s)
    ∙ reverse-reverse (remove_spaces s)

pub remove_spaces-trim : (s : Bytes) → All IsTyped s → remove_spaces (trim s) ≡ remove_spaces s
unfolding trim trim_start
remove_spaces-trim s v =
    remove_spaces-trim_end (trim_by is_space_2 is_space_3 s)
      (All-trim_by is_space_2 is_space_3 start_tests s v)
    ∙ remove_spaces-trim_by is_space_2 is_space_3 start_tests s v

pub trim-IsTyped : (s : Bytes) → All IsTyped s → All IsTyped (trim s)
unfolding trim trim_start trim_end
trim-IsTyped s v =
    let front = All-trim_by is_space_2 is_space_3 start_tests s v in
    let kept = trim_by is_space_2 is_space_3 s in
    All-reverse_aux (trim_by (λ b a. is_space_2 a b) (λ c b a. is_space_3 a b c) (reverse kept)) []
      (All-trim_by (λ b a. is_space_2 a b) (λ c b a. is_space_3 a b c) end_tests (reverse kept)
        (All-reverse_aux kept [] front tt))
      tt

pub typed-ascii : (s : Bytes) → All IsTyped s → All (λ c. c < 128) s
typed-ascii [] v = tt
typed-ascii (c ∷ s) v = (omega (arith, v.0), typed-ascii s v.1)

pub remove_spaces-upper : (s : Bytes) → remove_spaces (map upper s) ≡ map upper (remove_spaces s)
unfolding remove_spaces
remove_spaces-upper [] = refl
remove_spaces-upper (c ∷ s) = ground (arith, remove_spaces-upper s)
