-- ===== src/Base/Str/Laws.antt =====
-- Laws of the `str` methods on what the code feeds them.
use auth_kit.Base.{
  ℕ, ◌<◌, ◌≡◌, refl, sym, ap, ◌∙◌, ◌≢◌, Bool, true, false, some, List, [], ◌∷◌, ◌++◌, ◌==◌, Bytes,
  All, arith,
}
use auth_kit.Base.Str.{
  split, split_once, is_space_1, is_space_2, is_space_3, trim_by, trim_start, trim_end, trim, join,
  drop_front, trim_end_matches,
}
use mathlib.Core.List.{reverse, reverse-reverse, reverse_aux, reverse-append}

split_none : (sep : ℕ) (a : Bytes) → All (λ c. c ≢ sep) a → split sep a ≡ a ∷ []
unfolding split
split_none sep [] h = refl
split_none sep (c ∷ a) h = ground (arith, split_none sep a h.1)

split_at :
    (sep : ℕ) (a b : Bytes) → All (λ c. c ≢ sep) a → split sep (a ++ sep ∷ b) ≡ a ∷ split sep b
unfolding split
split_at sep [] b h = ground arith
split_at sep (c ∷ a) b h = ground (arith, split_at sep a b h.1)

-- Splitting undoes joining, for at least one part and parts without the separator.
pub split-join :
    (sep : ℕ) (p : Bytes) (ps : List Bytes)
    → All (All (λ c. c ≢ sep)) (p ∷ ps)
    → split sep (join sep (p ∷ ps)) ≡ p ∷ ps
unfolding join
split-join sep p [] h = split_none sep p h.0
split-join sep p (q ∷ ps) h =
    split_at sep p (join sep (q ∷ ps)) h.0 ∙ ap (λ rest. p ∷ rest) (split-join sep q ps h.1)

pub split_once_at :
    (sep : ℕ) (a b : Bytes) → All (λ c. c ≢ sep) a → split_once sep (a ++ sep ∷ b) ≡ some (a, b)
unfolding split_once
split_once_at sep [] b h = ground arith
split_once_at sep (c ∷ a) b h = ground (arith, split_once_at sep a b h.1)

-- A visible ASCII character.
abbrev pub IsVisible : ℕ → Type 0
IsVisible c = (32 < c) × (c < 127)

trim_by-visible :
    (two : ℕ → ℕ → Bool) (three : ℕ → ℕ → ℕ → Bool)
    → ((a b : ℕ) → a < 127 → two a b ≡ false)
    → ((a b c : ℕ) → a < 127 → three a b c ≡ false)
    → (s : Bytes) → All IsVisible s
    → trim_by two three s ≡ s
unfolding trim_by is_space_1
trim_by-visible two three h2 h3 [] v = refl
trim_by-visible two three h2 h3 (a ∷ []) v = ground arith
trim_by-visible two three h2 h3 (a ∷ b ∷ []) v = ground (arith, h2 a b)
trim_by-visible two three h2 h3 (a ∷ b ∷ c ∷ s) v = ground (arith, h2 a b, h3 a b c)

not_space_2 : (a b : ℕ) → a < 127 → is_space_2 a b ≡ false
unfolding is_space_2
not_space_2 a b h = ground arith

not_space_3 : (a b c : ℕ) → a < 127 → is_space_3 a b c ≡ false
unfolding is_space_3
not_space_3 a b c h = ground arith

not_space_2_end : (b a : ℕ) → b < 127 → is_space_2 a b ≡ false
unfolding is_space_2
not_space_2_end b a h = ground arith

not_space_3_end : (c b a : ℕ) → c < 127 → is_space_3 a b c ≡ false
unfolding is_space_3
not_space_3_end c b a h = ground arith

All-reverse_aux :
    (xs ys : Bytes) → All IsVisible xs → All IsVisible ys → All IsVisible (reverse_aux xs ys)
All-reverse_aux [] ys h k = k
All-reverse_aux (x ∷ xs) ys h k = All-reverse_aux xs (x ∷ ys) h.1 (h.0, k)

trim_start-visible : (s : Bytes) → All IsVisible s → trim_start s ≡ s
unfolding trim_start
trim_start-visible s v = trim_by-visible is_space_2 is_space_3 not_space_2 not_space_3 s v

trim_end-visible : (s : Bytes) → All IsVisible s → trim_end s ≡ s
unfolding trim_end
trim_end-visible s v =
    ap reverse (
      trim_by-visible (λ b a. is_space_2 a b) (λ c b a. is_space_3 a b c) not_space_2_end
        not_space_3_end (reverse s) (All-reverse_aux s [] v tt))
    ∙ reverse-reverse s

-- A visible text has nothing to trim.
pub trim-visible : (s : Bytes) → All IsVisible s → trim s ≡ s
unfolding trim
trim-visible s v = ap trim_end (trim_start-visible s v) ∙ trim_end-visible s v

trim_start-space : (s : Bytes) → trim_start (32 ∷ s) ≡ trim_start s
unfolding trim_start
trim_start-space [] = refl
trim_start-space (a ∷ []) = refl
trim_start-space (a ∷ b ∷ s) = refl

-- A space before it is trimmed.
pub trim-space : (s : Bytes) → All IsVisible s → trim (32 ∷ s) ≡ s
unfolding trim
trim-space s v = ap trim_end (trim_start-space s ∙ trim_start-visible s v) ∙ trim_end-visible s v

pub trim_end_matches-snoc :
    (c : ℕ) (s : Bytes) → trim_end_matches c (s ++ c ∷ []) ≡ trim_end_matches c s
unfolding trim_end_matches drop_front
trim_end_matches-snoc c s =
    let same : (c == c) ≡ true = ground arith in
    ap (λ t. reverse (drop_front c t)) (reverse-append s (c ∷ [])) ∙ rw same refl

pub trim_end_matches-none :
    (c x : ℕ) (s : Bytes) → x ≢ c → trim_end_matches c (s ++ x ∷ []) ≡ s ++ x ∷ []
unfolding trim_end_matches drop_front
trim_end_matches-none c x s h =
    let other : (x == c) ≡ false = ground arith in
    let back = reverse-append s (x ∷ []) in
    ap (λ t. reverse (drop_front c t)) back
    ∙ rw other (ap reverse (sym back) ∙ reverse-reverse (s ++ x ∷ []))
