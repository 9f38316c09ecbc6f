-- ===== src/Totp/Window.antt =====
-- src/totp.rs: the loop of `verify_with_window` over its window.
use auth_kit.Base.{
  ℕ, zero, suc, ◌+◌, ◌-◌, ◌^◌, ◌≤◌, ◌<◌, ◌≡◌, refl, sym, ap, ◌∙◌, ◌⊎◌, inl, inr, Bool, true, false,
  none, some, ltb, if◌then◌else◌, Bool-cases, Bytes, arith,
}
use auth_kit.Base.Int.{pos, sub_ℕ, ◌+ℤ◌}
use auth_kit.Base.Outcome.{Run, returns}
use auth_kit.Totp.{constant_time_eq, checked_add_signed, window_loop}
use auth_kit.Totp.Compare.{constant_time_eq_iff}

-- The counter that round `k` of a window of `w` steps tries is `n + k - w`, if that is a `u64`.
checked_add_signed_lem :
    (n k w : ℕ)
    → checked_add_signed n (sub_ℕ k w) ≡ (
        if ltb (n + k) w then none else if ltb (n + k - w) (2 ^ 64) then some (n + k - w) else none)
unfolding checked_add_signed ◌+ℤ◌
checked_add_signed_lem n k w = ground arith

next_delta : (k w : ℕ) → sub_ℕ k w +ℤ pos 1 ≡ sub_ℕ (suc k) w
unfolding ◌+ℤ◌
next_delta k w = ground arith

module _ (code : ℕ → Run Bytes) (candidate : Bytes) (n w : ℕ) where
  -- A round among `k`, …, `k + rounds - 1` whose counter has the candidate for its code.
  abbrev pub Hit : ℕ → ℕ → Type 0
  Hit rounds k =
      (c : ℕ) × (n + k ≤ c + w)
      × (c + w < n + k + rounds)
      × (c < 2 ^ 64)
      × (code c ≡ returns candidate)

  abbrev pub Total : Type 0
  Total = (c : ℕ) → (s : Bytes) × (code c ≡ returns s)

  abbrev pub loop : ℕ → ℕ → Run Bool
  loop rounds k = window_loop code candidate n rounds (sub_ℕ k w)

  loop_skip :
      (rounds k : ℕ)
      → checked_add_signed n (sub_ℕ k w) ≡ none
      → loop (suc rounds) k ≡ loop rounds (suc k)
  unfolding window_loop
  loop_skip rounds k e =
      ground (arith, e, ap (window_loop code candidate n rounds) (next_delta k w))

  loop_try :
      (rounds k c : ℕ) (s : Bytes)
      → checked_add_signed n (sub_ℕ k w) ≡ some c
      → code c ≡ returns s
      → loop (suc rounds) k
        ≡ (if constant_time_eq s candidate then returns true else loop rounds (suc k))
  unfolding window_loop
  loop_try rounds k c s e f =
      ground (arith, e, f, ap (window_loop code candidate n rounds) (next_delta k w))

  Hit-later : (rounds k : ℕ) → Hit rounds (suc k) → Hit (suc rounds) k
  Hit-later rounds k (c, lo, hi, fits, e) = (c, omega arith, omega arith, fits, e)

  Hit-now_or_later :
      (rounds k : ℕ)
      → Hit (suc rounds) k
      → ((c : ℕ) × (c + w ≡ n + k) × (c < 2 ^ 64) × (code c ≡ returns candidate))
        ⊎ Hit rounds (suc k)
  Hit-now_or_later rounds k (c, lo, hi, fits, e) = elim (Bool-cases (ltb (n + k) (c + w))) [
    | inl above ↦ inr (c, ground arith, omega arith, fits, e)
    | inr here ↦ inl (c, ground arith, fits, e)
  ]

  -- What the loop over the rounds from `k` on does.
  pub record Searches (rounds k : ℕ) : Type 0 where
    pub found : loop rounds k ≡ returns true → Hit rounds k
    pub finds : Hit rounds k → loop rounds k ≡ returns true
    pub ends : (b : Bool) × (loop rounds k ≡ returns b)

  Searches-skip :
      (rounds k : ℕ)
      → checked_add_signed n (sub_ℕ k w) ≡ none
      → ((c : ℕ) → c + w ≡ n + k → c < 2 ^ 64 → ⊥)
      → Searches rounds (suc k)
      → Searches (suc rounds) k
  Searches-skip rounds k e never ih =
      let skip = loop_skip rounds k e in
      record {
        found = λ h. Hit-later rounds k (ih.found (sym skip ∙ h));
        finds = λ h. elim (Hit-now_or_later rounds k h) [
          | inl (c, here, fits, _) ↦ absurd (never c here fits)
          | inr later ↦ skip ∙ ih.finds later
        ];
        ends = (ih.ends.0, skip ∙ ih.ends.1);
      }

  Searches-hit :
      (rounds k c : ℕ)
      → checked_add_signed n (sub_ℕ k w) ≡ some c
      → c + w ≡ n + k
      → c < 2 ^ 64
      → code c ≡ returns candidate
      → Searches (suc rounds) k
  Searches-hit rounds k c e here fits f =
      let done : loop (suc rounds) k ≡ returns true =
        loop_try rounds k c candidate e f
        ∙ rw ((constant_time_eq_iff candidate candidate).1 refl) refl in
      record {
        found = λ _. (c, omega arith, omega arith, fits, f);
        finds = λ _. done;
        ends = (true, done);
      }

  Searches-miss :
      (rounds k c : ℕ) (s : Bytes)
      → checked_add_signed n (sub_ℕ k w) ≡ some c
      → c + w ≡ n + k
      → code c ≡ returns s
      → constant_time_eq s candidate ≡ false
      → Searches rounds (suc k)
      → Searches (suc rounds) k
  Searches-miss rounds k c s e here f differs ih =
      let skip : loop (suc rounds) k ≡ loop rounds (suc k) =
        loop_try rounds k c s e f ∙ rw differs refl in
      record {
        found = λ h. Hit-later rounds k (ih.found (sym skip ∙ h));
        finds = λ h. elim (Hit-now_or_later rounds k h) [
          | inl (d, there, _, g) ↦
              let same : d ≡ c = omega arith in
              let equal : s ≡ candidate = cc (ap code same) in
              cc ((constant_time_eq_iff s candidate).1 equal)
          | inr later ↦ skip ∙ ih.finds later
        ];
        ends = (ih.ends.0, skip ∙ ih.ends.1);
      }

  pub Searches-all : Total → (rounds k : ℕ) → Searches rounds k
  Searches-all total zero k =
      unfold window_loop in
      record {
        found = λ h. cc;
        finds = λ (c, lo, hi, _, _). absurd (omega arith);
        ends = (false, refl);
      }
  Searches-all total (suc rounds) k =
      let ih = Searches-all total rounds (suc k) in
      let law = checked_add_signed_lem n k w in
      elim (Bool-cases (ltb (n + k) w)) [
        | inl below ↦
            Searches-skip rounds k (law ∙ rw below refl) (λ c here _. absurd (ground arith)) ih
        | inr reached ↦ elim (Bool-cases (ltb (n + k - w) (2 ^ 64))) [
          | inr big ↦
              Searches-skip rounds k (law ∙ rw (reached, big) refl) (λ c here fits. ground arith) ih
          | inl fits ↦
              let (s, f) = total (n + k - w) in
              let tried : checked_add_signed n (sub_ℕ k w) ≡ some (n + k - w) =
                law ∙ rw (reached, fits) refl in
              elim (Bool-cases (constant_time_eq s candidate)) [
                | inl equal ↦
                    Searches-hit rounds k (n + k - w) tried (ground arith) (ground arith)
                      (f ∙ ap returns ((constant_time_eq_iff s candidate).0 equal))
                | inr differs ↦
                    Searches-miss rounds k (n + k - w) s tried (ground arith) f differs ih
              ]
        ]
      ]
