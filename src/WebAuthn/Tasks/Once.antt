-- ===== src/WebAuthn/Tasks/Once.antt =====
-- src/webauthn.rs: concurrent authentications with one credential.
use auth_kit.Base.{
  ℕ, ◌≡◌, ◌≢◌, refl, ap, sym, subst, ◌∙◌, ◌⊎◌, inl, inr, Bool-cases, some, List, ◌==◌, ==_iff,
  Bytes, arith,
}
use auth_kit.Base.Map.{Map}
use auth_kit.WebAuthn.{AuthenticatorData, WebAuthnCredential, WebAuthnConfig}
use auth_kit.WebAuthn.Checks.{WebAuthnCrates}
use auth_kit.WebAuthn.Registry.Growth.{Grows}
use auth_kit.WebAuthn.Verifier.{ChallengeStore}
use auth_kit.WebAuthn.Replay.{Call, generates, registers, authenticates}
use auth_kit.WebAuthn.Tasks.{accepted, start, done, System, section, advance}
use auth_kit.WebAuthn.Tasks.Stamp.{Stamp, stamp, Holds, Exceeds, section-stamp}
use auth_kit.WebAuthn.Tasks.Reach.{Reach, begin, next, advance-Grows}

-- A stamp is held by the registry, and by one task alone.
record IsOrdered {S : Type 0} (calls : ℕ → Call) (y : System S) : Type 0 where
  held : (i : ℕ) (x : Stamp) → stamp (calls i) (y.phases i) ≡ some x → Holds y.credentials x
  apart :
      (i j : ℕ) (x : Stamp)
      → stamp (calls i) (y.phases i) ≡ some x
      → stamp (calls j) (y.phases j) ≡ some x
      → i ≡ j

Holds-Grows :
    (m m' : Map (List WebAuthnCredential)) (x : Stamp) → Grows m m' → Holds m x → Holds m' x
Holds-Grows m m' x g (c, e, n) =
    let (d, f, l) = g x.user x.id c e in (d, f, omega (arith, n, l.counted))

Holds-not_Exceeds : (m : Map (List WebAuthnCredential)) (x : Stamp) → Holds m x → Exceeds m x → ⊥
Holds-not_Exceeds m x (c, e, n) (d, f, l) =
    let same : some c ≡ some d = sym e ∙ f in ground (arith, same, n, l)

start-stamp : (c : Call) (x : Stamp) → stamp c start ≡ some x → ⊥
start-stamp (generates bytes user operation) x e = cc
start-stamp (registers now user ch auth json id key) x e = cc
start-stamp (authenticates user ch auth json id) x e = cc

module _ {S R : Type 0} (k : WebAuthnCrates) (o : ChallengeStore S R) (config : WebAuthnConfig)
    (calls : ℕ → Call) where
  -- Where a stamp after a section of task `i` comes from.
  advance-stamp :
      (i j : ℕ) (y : System S) (x : Stamp)
      → stamp (calls j) ((advance k o config calls i y).phases j) ≡ some x
      → (stamp (calls j) (y.phases j) ≡ some x)
        ⊎ ((i ≡ j) × Exceeds y.credentials x × Holds (advance k o config calls i y).credentials x)
  unfolding advance
  advance-stamp i j y x e = elim (Bool-cases (i == j)) [
    | inr other ↦ inl (rw other at e)
    | inl this ↦
        let same : i ≡ j = (==_iff i j).0 this in
        let here : stamp (calls i)
              (section k o config (calls i) (y.phases i) y.store y.credentials).0
            ≡ some x =
          subst
            (λ l.
              stamp (calls l) (section k o config (calls i) (y.phases i) y.store y.credentials).0
              ≡ some x)
            (sym same) (rw this at e) in
        elim (section-stamp k o config (calls i) (y.phases i) y.store y.credentials x here) [
          | inl old ↦ inl (subst (λ l. stamp (calls l) (y.phases l) ≡ some x) same old)
          | inr (more, now) ↦ inr (same, more, now)
        ]
  ]

  advance-IsOrdered :
      (i : ℕ) (y : System S) → IsOrdered calls y → IsOrdered calls (advance k o config calls i y)
  advance-IsOrdered i y v = record {
    held = λ j x e. elim (advance-stamp i j y x e) [
      | inl old ↦
          Holds-Grows y.credentials _ x (advance-Grows k o config calls i y) (v.held j x old)
      | inr (_, _, now) ↦ now
    ];
    apart = λ j l x e f. elim (advance-stamp i j y x e) [
      | inl old ↦ elim (advance-stamp i l y x f) [
        | inl old' ↦ v.apart j l x old old'
        | inr (_, more, _) ↦ absurd (Holds-not_Exceeds y.credentials x (v.held j x old) more)
      ]
      | inr (same, more, _) ↦ elim (advance-stamp i l y x f) [
        | inl old' ↦ absurd (Holds-not_Exceeds y.credentials x (v.held l x old') more)
        | inr (same', _, _) ↦ sym same ∙ same'
      ]
    ];
  }

  Reach-IsOrdered :
      {s : S} {m : Map (List WebAuthnCredential)} {y : System S}
      → Reach k o config calls s m y
      → IsOrdered calls y
  Reach-IsOrdered begin = record {
    held = λ i x e. absurd (start-stamp (calls i) x e);
    apart = λ i j x e f. absurd (start-stamp (calls i) x e);
  }
  Reach-IsOrdered (next {y} r i) = advance-IsOrdered i y (Reach-IsOrdered r)

  -- Of the authentications of one user with one credential id, any number of which run at once and
  -- beside any other calls, in any order of their sections, no two succeed with the same sign
  -- count.
  pub accepted_once :
      {s : S} {m : Map (List WebAuthnCredential)} {y : System S}
      → Reach k o config calls s m y
      → (i j : ℕ) (user id ch ch' json json' : Bytes) (auth auth' : AuthenticatorData) → i ≢ j
      → calls i ≡ authenticates user ch auth json id
      → calls j ≡ authenticates user ch' auth' json' id
      → y.phases i ≡ done accepted
      → y.phases j ≡ done accepted
      → auth.sign_count ≢ auth'.sign_count
  accepted_once r i j user id ch ch' json json' auth auth' other call call' ends ends' e =
      let x : Stamp = record { user = user; id = id; count = auth.sign_count } in
      other (
        (Reach-IsOrdered r).apart i j x (rw (call, ends) refl)
          (rw (call', ends') (ap (λ n. some (record { user = user; id = id; count = n })) (sym e))))
