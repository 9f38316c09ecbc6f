-- ===== src/Base/Find.antt =====
-- `str::starts_with` and `str::contains`.
use auth_kit.Base.{Bool, true, false, ◌||◌, ◌&&◌, ◌==◌, [], ◌∷◌, Bytes}

unfoldable pub starts_with : Bytes → Bytes → Bool
starts_with s [] = true
starts_with [] (c ∷ p) = false
starts_with (b ∷ s) (c ∷ p) = b == c && starts_with s p

unfoldable pub contains_text : Bytes → Bytes → Bool
unfolding starts_with
contains_text [] p = starts_with [] p
contains_text (b ∷ s) p = starts_with (b ∷ s) p || contains_text s p
