-- ===== src/Fuzz/Tests.antt =====
-- Instances of the theorem about fuzz/fuzz_target.rs.
use auth_kit.Base.{
  ℕ, ◌≤◌, ◌≡◌, ◌≢◌, ◌↔◌, ◌⊎◌, Bool, true, false, ◌&&◌, ◌||◌, some, [], ◌∷◌, ◌==◌, not, leb, All,
  Bytes, beq, beq_iff, refl, arith, take, drop,
}
use auth_kit.Base.Int.{ℤ, pos, ◌+ℤ◌}
use auth_kit.Base.Outcome.{panics}
use auth_kit.Base.Utf8.{is_utf8, is_char_boundary}
use auth_kit.SessionStore.{Crates}
use auth_kit.SessionStore.Memory.{default_store}
use auth_kit.Middleware.{HttpCrates}
use auth_kit.Fuzz.{FuzzCrates, fuzz_target}
use auth_kit.Fuzz.Panics.{IsRefused, pivot, fuzz_target_panics_iff}

is_header_byte : ℕ → Bool
is_header_byte c = c == 9 || (leb 32 c && not (c == 127))

is_header_byte_iff : (c : ℕ) → (is_header_byte c ≡ true) ↔ ((c ≡ 9) ⊎ ((32 ≤ c) × (c ≢ 127)))
unfolding is_header_byte
is_header_byte_iff c = (λ h. ground (arith, h), λ h. ground (arith, h))

is_header_value : Bytes → Bool
is_header_value [] = true
is_header_value (c ∷ s) = is_header_byte c && is_header_value s

is_header_value_iff :
    (s : Bytes) → (is_header_value s ≡ true) ↔ All (λ c. (c ≡ 9) ⊎ ((32 ≤ c) × (c ≢ 127))) s
unfolding is_header_value
is_header_value_iff [] = (λ h. tt, λ h. refl)
is_header_value_iff (c ∷ s) =
    let (to, from) = is_header_byte_iff c in
    let (to_rest, from_rest) = is_header_value_iff s in
    (
      λ h. (to (ground (arith, h)), to_rest (ground (arith, h))),
      λ h. let first = from h.0 in let rest = from_rest h.1 in ground (arith, first, rest),
    )

-- Every text is a URI, with the text as its query.
abbrev fuzz_crates : FuzzCrates
fuzz_crates = record {
  parse_uri = λ s. some (some s);
  is_header_value = is_header_value;
  is_header_value_iff = is_header_value_iff;
  new_runtime = true;
}

abbrev http : HttpCrates
http = record {
  decode = λ s. some s;
  decode_plain = λ s h. refl;
  to_str = λ s. some s;
  to_str_printable = λ s h. refl;
}

add_sum_lem : (t d u : ℤ) → some (t +ℤ d) ≡ some u → u ≡ t +ℤ d
add_sum_lem t d u h = cc

abbrev crates : Crates
crates = record {
  add = λ t d. some (t +ℤ d);
  add_sum = add_sum_lem;
  ct_eq = beq;
  ct_eq_iff = beq_iff;
}

-- The two bytes of `é`.
abbrev e_acute : Bytes
e_acute = 0xc3 ∷ 0xa9 ∷ []

fuzz_target_panics_iff_example :
    (fuzz_target fuzz_crates http crates (pos 0) (pos 1) (pos 2) e_acute ≡ panics) ↔ (
      (e_acute ≢ [])
      × (is_utf8 e_acute ≡ true)
      × ((is_char_boundary e_acute (pivot e_acute) ≡ false)
          ⊎ IsRefused fuzz_crates (take (pivot e_acute) e_acute) (drop (pivot e_acute) e_acute)))
fuzz_target_panics_iff_example =
    fuzz_target_panics_iff fuzz_crates http crates (pos 0) (pos 1) (pos 2)
      (pos 1 +ℤ default_store.ttl) e_acute (record { runs = refl; in_range = refl })
