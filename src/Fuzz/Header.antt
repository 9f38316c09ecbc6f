-- ===== src/Fuzz/Header.antt =====
-- fuzz/fuzz_target.rs: which cookies of the target are values of a header.
use auth_kit.Base.{
  ℕ, ◌≤◌, ◌≡◌, ◌≢◌, refl, ◌∙◌, ◌↔◌, ◌⊎◌, inl, inr, Bool, true, false, not, ◌&&◌, ◌||◌, ◌==◌, leb,
  Bool-cases, [], ◌∷◌, ◌++◌, All, Bytes, codes, arith,
}
use auth_kit.Fuzz.{FuzzCrates, callback_cookie}

-- A byte that may stand in the value of a header.
abbrev IsHeaderByte : ℕ → Type 0
IsHeaderByte c = (c ≡ 9) ⊎ ((32 ≤ c) × (c ≢ 127))

-- A control character other than a tab.
unfoldable pub is_control : ℕ → Bool
is_control c = not (c == 9) && (not (leb 32 c) || c == 127)

is_control_iff : (c : ℕ) → (is_control c ≡ false) ↔ IsHeaderByte c
unfolding is_control
is_control_iff c = (λ h. ground (arith, h), λ h. ground (arith, h))

unfoldable pub has_control : Bytes → Bool
unfolding is_control
has_control [] = false
has_control (c ∷ s) = is_control c || has_control s

has_control_iff : (s : Bytes) → (has_control s ≡ false) ↔ All IsHeaderByte s
unfolding has_control
has_control_iff [] = (λ h. tt, λ h. refl)
has_control_iff (c ∷ s) =
    let (to, from) = is_control_iff c in
    let (to_rest, from_rest) = has_control_iff s in
    (
      λ h. (to (ground (arith, h)), to_rest (ground (arith, h))),
      λ h. let first = from h.0 in let rest = from_rest h.1 in ground (arith, first, rest),
    )

has_control-append : (a b : Bytes) → has_control a ≡ false → has_control (a ++ b) ≡ has_control b
unfolding has_control
has_control-append [] b h = refl
has_control-append (c ∷ a) b h = elim (Bool-cases (is_control c)) [
  | inl bad ↦ cc (rw bad at h)
  | inr fine ↦ rw fine (has_control-append a b (rw fine at h))
]

-- The cookie is no value of a header exactly when the input's half has a control character.
pub is_header_value-has_control :
    (f : FuzzCrates) (cookie_val : Bytes)
    → (f.is_header_value (callback_cookie cookie_val) ≡ false) ↔ (has_control cookie_val ≡ true)
is_header_value-has_control f cookie_val =
    let (to, from) = f.is_header_value_iff (callback_cookie cookie_val) in
    let (to_all, from_all) = has_control_iff (callback_cookie cookie_val) in
    let same =
      has_control-append (codes "session_id=") cookie_val (unfold has_control is_control in refl) in
    (
      λ bad. elim (Bool-cases (has_control cookie_val)) [
        | inl here ↦ here
        | inr none_found ↦ cc (from (to_all (same ∙ none_found)), bad)
      ],
      λ here. elim (Bool-cases (f.is_header_value (callback_cookie cookie_val))) [
        | inl fine ↦ cc (from_all (to fine), same, here)
        | inr bad ↦ bad
      ],
    )
