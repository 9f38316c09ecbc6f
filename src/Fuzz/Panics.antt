-- ===== src/Fuzz/Panics.antt =====
-- fuzz/fuzz_target.rs: the inputs on which the target panics.
use auth_kit.Base.{
  ℕ, ◌/◌, ◌≡◌, ◌≢◌, refl, sym, ◌∙◌, ◌↔◌, ◌⊎◌, inl, inr, true, false, Bool-cases, none, some,
  Option-cases, [], ◌∷◌, length, take, drop, Bytes, arith,
}
use auth_kit.Base.Int.{ℤ}
use auth_kit.Base.Outcome.{ok, Run, returns, panics}
use auth_kit.Base.Panic.{◌>>=◌}
use auth_kit.Base.Utf8.{is_utf8, is_char_boundary, split_at}
use auth_kit.SessionStore.{Crates}
use auth_kit.SessionStore.Memory.{
  InMemorySessionStore, default_store, with_capacity, evict_expired, bind_state, in_memory,
}
use auth_kit.Base.Map.{retain}
use auth_kit.SessionStore.Memory.Poison.{verify_state-returns}
use auth_kit.Middleware.{HttpCrates, Request, enforce_pkce_state_session}
use auth_kit.Middleware.Gate.{enforce_total}
use auth_kit.Fuzz.Header.{has_control, is_header_value-has_control}
use auth_kit.Fuzz.{
  FuzzCrates, callback_uri, callback_cookie, build_request, start_runtime, ok_handler, send,
  fuzz_target,
}

enforce-returns :
    (h : HttpCrates) (c : Crates) (now : ℤ) (request : Request) (s : InMemorySessionStore)
    → (enforce_pkce_state_session h (in_memory c now) ok_handler request s).0 ≢ panics
enforce-returns h c now request s e =
    elim (enforce_total h (in_memory c now) ok_handler request s) [
      | inl allowed ↦ cc
      | inr (inl (r, rejected)) ↦ cc
      | inr (inr a) ↦ verify_state-returns c now a.token a.session s a.answered
    ]

-- The bind of the target finds room in its new store, and its deadline is in range.
bind_state-default :
    (c : Crates) (t t' deadline : ℤ) (token session : Bytes)
    → c.add t' default_store.ttl ≡ some deadline
    → (bind_state c t t' token session default_store).0 ≡ returns (ok tt)
unfolding bind_state default_store with_capacity evict_expired retain
bind_state-default c t t' deadline token session sum = ground (arith, sum)

abbrev drop_answer : Run (Unit {0})
drop_answer = returns tt

drop_iff : {A : Type 0} (r : Run A) → ((r >>= λ _. drop_answer) ≡ panics) ↔ (r ≡ panics)
drop_iff (returns a) = (λ e. cc, λ e. cc)
drop_iff panics = (λ e. refl, λ e. refl)

-- What the target wants of its surroundings: a runtime, and a clock far from its last instant.
pub record IsReady (f : FuzzCrates) (c : Crates) (t' deadline : ℤ) : Type 0 where
  pub runs : f.new_runtime ≡ true
  pub in_range : c.add t' default_store.ttl ≡ some deadline

-- Either part of the input cannot stand where the request has it.
abbrev pub IsRefused : FuzzCrates → Bytes → Bytes → Type 0
IsRefused f query_val cookie_val =
    (f.parse_uri (callback_uri query_val) ≡ none) ⊎ (has_control cookie_val ≡ true)

-- The half at which the target splits its input.
abbrev pub pivot : Bytes → ℕ
pivot s = length s / 2

module _ (f : FuzzCrates) (h : HttpCrates) (c : Crates) (t t' now deadline : ℤ) where
  send_panics_iff :
      (query_val cookie_val : Bytes)
      → IsReady f c t' deadline
      → (send f h c t t' now query_val cookie_val ≡ panics) ↔ IsRefused f query_val cookie_val
  unfolding send build_request start_runtime
  send_panics_iff query_val cookie_val r =
      let bound = bind_state-default c t t' deadline query_val cookie_val r.in_range in
      elim (Option-cases (f.parse_uri (callback_uri query_val))) [
        | inl bad ↦ (λ _. inl bad, λ _. ground (arith, bound, bad))
        | inr (query, good) ↦
            let (to, from) = is_header_value-has_control f cookie_val in
            elim (Bool-cases (f.is_header_value (callback_cookie cookie_val))) [
              | inr bad ↦ (λ _. inr (to bad), λ _. ground (arith, bound, good, bad))
              | inl fine ↦ (
                λ e. absurd (
                    enforce-returns h c now
                      (record { query = query; cookie = some (callback_cookie cookie_val) })
                      (bind_state c t t' query_val cookie_val default_store).1
                      (ground (arith, bound, good, fine, r.runs, e))),
                λ b. elim b [
                  | inl unparsed ↦ cc (unparsed, good)
                  | inr here ↦ cc (from here, fine)
                ],
              )
            ]
      ]

  -- Where a runtime starts and the clock is in range, the target panics exactly on the texts that are
  -- not empty, are UTF-8, and either have their half inside a character, or whose first half makes no
  -- URI, or whose second half has a control character other than a tab.
  pub fuzz_target_panics_iff :
      (s : Bytes)
      → IsReady f c t' deadline
      → (fuzz_target f h c t t' now s ≡ panics) ↔ (
          (s ≢ [])
          × (is_utf8 s ≡ true)
          × ((is_char_boundary s (pivot s) ≡ false)
              ⊎ IsRefused f (take (pivot s) s) (drop (pivot s) s)))
  unfolding fuzz_target split_at
  fuzz_target_panics_iff [] r = (λ e. cc, λ x. absurd (x.0 refl))
  fuzz_target_panics_iff (b ∷ s) r =
      let (to, from) =
        send_panics_iff (take (pivot (b ∷ s)) (b ∷ s)) (drop (pivot (b ∷ s)) (b ∷ s)) r in
      elim (Bool-cases (is_utf8 (b ∷ s))) [
        | inr bad ↦ (λ e. ground (arith, bad, e), λ x. cc (x.1, bad))
        | inl text ↦ elim (Bool-cases (is_char_boundary (b ∷ s) (pivot (b ∷ s)))) [
          | inr inside ↦ (λ e. (λ x. cc, text, inl inside), λ x. ground (arith, text, inside))
          | inl boundary ↦
              let whole : fuzz_target f h c t t' now (b ∷ s) ≡ (
                  send f h c t t' now (take (pivot (b ∷ s)) (b ∷ s)) (drop (pivot (b ∷ s)) (b ∷ s))
                  >>= λ _. drop_answer) =
                ground (arith, text, boundary) in
              let drops = drop_iff (
                send f h c t t' now (take (pivot (b ∷ s)) (b ∷ s))
                  (drop (pivot (b ∷ s)) (b ∷ s))) in
              (
                λ e. (λ x. cc, text, inr (to (drops.0 (sym whole ∙ e)))),
                λ x. elim x.2 [
                  | inl inside ↦ cc (inside, boundary)
                  | inr refused ↦ whole ∙ drops.1 (from refused)
                ],
              )
        ]
      ]
