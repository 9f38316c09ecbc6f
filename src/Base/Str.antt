-- ===== src/Base/Str.antt =====
-- The methods of `str` that the code calls, on UTF-8 bytes: `split`, `split_once` and
-- `trim_end_matches` by an ASCII character, `trim`, and `Iterator::find_map`.
pub mod Laws
use auth_kit.Base.{
  ℕ, Bool, true, false, ◌&&◌, ◌||◌, Option, none, some, List, [], ◌∷◌, ◌++◌, leb, ◌==◌,
  if◌then◌else◌, Bytes,
}
use mathlib.Core.List.{reverse}

split_step : Bool → ℕ → List Bytes → List Bytes
split_step true c parts = [] ∷ parts
split_step false c [] = (c ∷ []) ∷ []
split_step false c (p ∷ ps) = (c ∷ p) ∷ ps

-- `str::split`: the parts between the separators, one more than there are separators.
unfoldable pub split : ℕ → Bytes → List Bytes
unfolding split_step
split sep [] = [] ∷ []
split sep (c ∷ s) = split_step (c == sep) c (split sep s)

once_step : Bool → ℕ → Bytes → Option (Bytes × Bytes) → Option (Bytes × Bytes)
once_step true c s rest = some ([], s)
once_step false c s none = none
once_step false c s (some (a, b)) = some (c ∷ a, b)

-- `str::split_once`: what stands before and after the first separator.
unfoldable pub split_once : ℕ → Bytes → Option (Bytes × Bytes)
unfolding once_step
split_once sep [] = none
split_once sep (c ∷ s) = once_step (c == sep) c s (split_once sep s)

-- `Iterator::find_map`.
unfoldable pub find_map {ℓ κ} : {A : Type ℓ} {B : Type κ} → (A → Option B) → List A → Option B
find_map f [] = none
find_map f (x ∷ xs) = let rest = find_map f xs in elim (f x) [ some b ↦ some b | none ↦ rest ]

-- The characters of Unicode's White_Space that take one, two and three bytes.
unfoldable pub is_space_1 : ℕ → Bool
is_space_1 a = (leb 9 a && leb a 13) || a == 32

unfoldable pub is_space_2 : ℕ → ℕ → Bool
is_space_2 a b = a == 0xc2 && (b == 0x85 || b == 0xa0)

unfoldable pub is_space_3 : ℕ → ℕ → ℕ → Bool
is_space_3 a b c =
    (a == 0xe1 && (b == 0x9a && c == 0x80))
    || ((a == 0xe2
          && (b == 0x80 && ((leb 0x80 c && leb c 0x8a) || (c == 0xa8 || (c == 0xa9 || c == 0xaf)))))
        || ((a == 0xe2 && (b == 0x81 && c == 0x9f)) || (a == 0xe3 && (b == 0x80 && c == 0x80))))

-- Drops white space at the front, by the tests for characters of two and three bytes.
unfoldable pub trim_by : (ℕ → ℕ → Bool) → (ℕ → ℕ → ℕ → Bool) → Bytes → Bytes
trim_by two three [] = []
trim_by two three (a ∷ []) = if is_space_1 a then [] else a ∷ []
trim_by two three (a ∷ b ∷ []) =
    let rest = trim_by two three (b ∷ []) in
    if is_space_1 a then rest else if two a b then [] else a ∷ b ∷ []
trim_by two three (a ∷ b ∷ c ∷ s) =
    let rest_1 = trim_by two three (b ∷ c ∷ s) in
    let rest_2 = trim_by two three (c ∷ s) in
    let rest_3 = trim_by two three s in
    if is_space_1 a
    then rest_1
    else if two a b
    then rest_2
    else if three a b c
    then rest_3
    else a ∷ b ∷ c ∷ s

unfoldable pub trim_start : Bytes → Bytes
unfolding trim_by is_space_1 is_space_2 is_space_3
trim_start s = trim_by is_space_2 is_space_3 s

-- The same from the back, where a character's bytes come in reverse.
unfoldable pub trim_end : Bytes → Bytes
unfolding trim_by is_space_1 is_space_2 is_space_3
trim_end s = reverse (trim_by (λ b a. is_space_2 a b) (λ c b a. is_space_3 a b c) (reverse s))

-- `str::trim`.
unfoldable pub trim : Bytes → Bytes
unfolding trim_start trim_end
trim s = trim_end (trim_start s)

unfoldable pub drop_front : ℕ → Bytes → Bytes
drop_front c [] = []
drop_front c (x ∷ s) = let rest = drop_front c s in if x == c then rest else x ∷ s

-- `str::trim_end_matches` by an ASCII character.
unfoldable pub trim_end_matches : ℕ → Bytes → Bytes
unfolding drop_front
trim_end_matches c s = reverse (drop_front c (reverse s))

-- Parts with a separator between them.
unfoldable pub join : ℕ → List Bytes → Bytes
join sep [] = []
join sep (p ∷ []) = p
join sep (p ∷ q ∷ ps) = p ++ sep ∷ join sep (q ∷ ps)
