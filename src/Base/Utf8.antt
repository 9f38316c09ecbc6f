-- ===== src/Base/Utf8.antt =====
-- UTF-8: which byte strings `str::from_utf8` accepts, and `str::split_at`.
use auth_kit.Base.{
  ℕ, zero, suc, Bool, true, false, ◌&&◌, ◌||◌, [], ◌∷◌, leb, ◌==◌, if◌then◌else◌, Bytes, take, drop,
}
use auth_kit.Base.Outcome.{Run, returns, panics}

-- A byte after the first of a character.
unfoldable pub is_continuation : ℕ → Bool
is_continuation b = leb 0x80 b && leb b 0xbf

-- The first two bytes of a character of three bytes, and of four.
unfoldable pub starts_three : ℕ → ℕ → Bool
unfolding is_continuation
starts_three a b =
    (a == 0xe0 && (leb 0xa0 b && leb b 0xbf))
    || ((leb 0xe1 a && (leb a 0xec && is_continuation b))
        || ((a == 0xed && (leb 0x80 b && leb b 0x9f))
            || (leb 0xee a && (leb a 0xef && is_continuation b))))

unfoldable pub starts_four : ℕ → ℕ → Bool
unfolding is_continuation
starts_four a b =
    (a == 0xf0 && (leb 0x90 b && leb b 0xbf))
    || ((leb 0xf1 a && (leb a 0xf3 && is_continuation b))
        || (a == 0xf4 && (leb 0x80 b && leb b 0x8f)))

-- Is `str::from_utf8` of the bytes `Ok`?
unfoldable pub is_utf8 : Bytes → Bool
unfolding is_continuation starts_three starts_four
is_utf8 [] = true
is_utf8 (a ∷ []) = leb a 0x7f
is_utf8 (a ∷ b ∷ []) =
    let rest = is_utf8 (b ∷ []) in
    if leb a 0x7f then rest else leb 0xc2 a && (leb a 0xdf && is_continuation b)
is_utf8 (a ∷ b ∷ c ∷ []) =
    let rest_1 = is_utf8 (b ∷ c ∷ []) in
    let rest_2 = is_utf8 (c ∷ []) in
    if leb a 0x7f
    then rest_1
    else if leb 0xc2 a && (leb a 0xdf && is_continuation b)
    then rest_2
    else starts_three a b && is_continuation c
is_utf8 (a ∷ b ∷ c ∷ d ∷ s) =
    let rest_1 = is_utf8 (b ∷ c ∷ d ∷ s) in
    let rest_2 = is_utf8 (c ∷ d ∷ s) in
    let rest_3 = is_utf8 (d ∷ s) in
    let rest_4 = is_utf8 s in
    if leb a 0x7f
    then rest_1
    else if leb 0xc2 a && (leb a 0xdf && is_continuation b)
    then rest_2
    else if starts_three a b && is_continuation c
    then rest_3
    else starts_four a b && (is_continuation c && (is_continuation d && rest_4))

-- `str::is_char_boundary`: the end, or a byte that begins a character.
unfoldable pub is_char_boundary : Bytes → ℕ → Bool
unfolding is_continuation
is_char_boundary s zero = true
is_char_boundary [] (suc i) = false
is_char_boundary (a ∷ []) (suc zero) = true
is_char_boundary (a ∷ b ∷ s) (suc zero) = if is_continuation b then false else true
is_char_boundary (a ∷ s) (suc (suc i)) = is_char_boundary s (suc i)

-- `str::split_at`, which panics inside a character.
unfoldable pub split_at : Bytes → ℕ → Run (Bytes × Bytes)
unfolding is_char_boundary
split_at s i = if is_char_boundary s i then returns (take i s, drop i s) else panics
