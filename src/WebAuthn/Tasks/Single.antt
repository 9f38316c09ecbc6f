-- ===== src/WebAuthn/Tasks/Single.antt =====
-- src/webauthn.rs: how often an id stands in the registry, in every order of the tasks.
use auth_kit.Base.{
  ℕ, suc, ◌≤◌, ◌≡◌, refl, sym, ap, subst, ◌∙◌, inl, inr, Bool, true, false, Bool-cases,
  if◌then◌else◌, List, ◌==◌, ==_iff, Bytes, beq, beq_iff, codes, [], arith,
}
use auth_kit.Base.Map.{Map}
use auth_kit.Base.Outcome.{Result-cases}
use auth_kit.WebAuthn.{AuthenticatorData, WebAuthnCredential, WebAuthnConfig}
use auth_kit.WebAuthn.Checks.{WebAuthnCrates, check_registration, challenge_key, challenge_purpose}
use auth_kit.WebAuthn.Registry.{is_registered}
use auth_kit.WebAuthn.Registry.Laws.{count_id, is_registered-count_id, count_id-push_credential}
use auth_kit.WebAuthn.Registration.{new_credential}
use auth_kit.WebAuthn.Verifier.{ChallengeStore}
use auth_kit.WebAuthn.Replay.{Call, generates, registers, authenticates}
use auth_kit.WebAuthn.Tasks.{
  Phase, start, verified, scanned, counted, done, System, set_count, after_store_call,
  verify_section, register_section, authenticate_section, section, advance,
}
use auth_kit.WebAuthn.Registry.Counts.{count_id-authenticate}
use auth_kit.WebAuthn.Tasks.Counting.{set_count-authenticate}
use auth_kit.WebAuthn.Tasks.Reach.{Reach, begin, next}

-- Is the call a registration of the id?
abbrev pub is_for : Bytes → Call → Bool
is_for id (generates bytes user operation) = false
is_for id (registers now user ch auth json id' key) = beq id' id
is_for id (authenticates user ch auth json id') = false

-- Is the call between its scan and its write of the id?
abbrev pending : Bytes → Call → Phase → Bool
pending id c start = false
pending id c verified = false
pending id c scanned = is_for id c
pending id c (counted b) = false
pending id c (done a) = false

pending-is_for : (id : Bytes) (c : Call) (p : Phase) → pending id c p ≡ true → is_for id c ≡ true
pending-is_for id c start e = cc
pending-is_for id c verified e = cc
pending-is_for id c scanned e = e
pending-is_for id c (counted b) e = cc
pending-is_for id c (done a) e = cc

-- One call at most registers the id.
abbrev pub IsSole : Bytes → (ℕ → Call) → Type 0
IsSole id calls = (i j : ℕ) → is_for id (calls i) ≡ true → is_for id (calls j) ≡ true → i ≡ j

count_id-set_count :
    (user id : Bytes) (auth : AuthenticatorData) (m : Map (List WebAuthnCredential)) (i : Bytes)
    → count_id i (set_count user id auth m).1 ≡ count_id i m
count_id-set_count user id auth m i =
    sym (ap (λ r. count_id i r.1) (set_count-authenticate user id auth [] m))
    ∙ count_id-authenticate user id auth [] m i

module _ {S R : Type 0} (k : WebAuthnCrates) (o : ChallengeStore S R) (config : WebAuthnConfig)
    (id : Bytes) where
  -- A section adds a credential of the id only where its call is about to write it.
  section-count :
      (c : Call) (p : Phase) (s : S) (m : Map (List WebAuthnCredential))
      → count_id id (section k o config c p s m).2
        ≡ (if pending id c p then suc (count_id id m) else count_id id m)
  unfolding section register_section authenticate_section
  section-count (generates bytes user operation) start s m = refl
  section-count (generates bytes user operation) verified s m = refl
  section-count (generates bytes user operation) scanned s m = refl
  section-count (generates bytes user operation) (counted b) s m = refl
  section-count (generates bytes user operation) (done a) s m = refl
  section-count (registers now user ch auth json i key) start s m = refl
  section-count (registers now user ch auth json i key) verified s m = refl
  section-count (registers now user ch auth json i key) scanned s m =
      count_id-push_credential id user (new_credential now auth i key) m
  section-count (registers now user ch auth json i key) (counted b) s m = refl
  section-count (registers now user ch auth json i key) (done a) s m = refl
  section-count (authenticates user ch auth json i) start s m = refl
  section-count (authenticates user ch auth json i) verified s m =
      count_id-set_count user i auth m id
  section-count (authenticates user ch auth json i) scanned s m = refl
  section-count (authenticates user ch auth json i) (counted b) s m = refl
  section-count (authenticates user ch auth json i) (done a) s m = refl

  -- A call is about to write the id only after it has seen that the id is free.
  section-pending :
      (c : Call) (p : Phase) (s : S) (m : Map (List WebAuthnCredential))
      → pending id c (section k o config c p s m).0 ≡ true
      → count_id id (section k o config c p s m).2 ≡ 0
  unfolding section register_section
  section-pending (generates bytes user operation) p s m e = cc (
      pending-is_for id (generates bytes user operation)
        (section k o config (generates bytes user operation) p s m).0 e)
  section-pending (authenticates user ch auth json i) p s m e = cc (
      pending-is_for id (authenticates user ch auth json i)
        (section k o config (authenticates user ch auth json i) p s m).0 e)
  section-pending (registers now user ch auth json i key) start s m e =
      elim (Result-cases (check_registration k config ch auth json)) [
        | inl (f, bad) ↦ unfold verify_section in ground (arith, bad, e)
        | inr (u, good) ↦
            elim (Result-cases
              (o.verify_state (challenge_key config (codes "create") user) ch challenge_purpose
                s).0) [
                  | inl (f, lost) ↦
                      unfold verify_section after_store_call in ground (arith, good, lost, e)
                  | inr (r, got) ↦
                      unfold verify_section after_store_call in ground (arith, good, got, e)
                ]
      ]
  section-pending (registers now user ch auth json i key) verified s m e =
      elim (Bool-cases (is_registered i m)) [
        | inl old ↦ ground (arith, old, e)
        | inr new ↦
            let mine : beq i id ≡ true = ground (arith, new, e) in
            let same : i ≡ id = (beq_iff i id).0 mine in
            (is_registered-count_id id m).0 (ap (λ x. is_registered x m) (sym same) ∙ new)
      ]
  section-pending (registers now user ch auth json i key) scanned s m e = cc
  section-pending (registers now user ch auth json i key) (counted b) s m e = cc
  section-pending (registers now user ch auth json i key) (done a) s m e = cc

  -- The id stands in the registry at most once, and not at all while a call is about to write it.
  record IsSingle (calls : ℕ → Call) (y : System S) : Type 0 where
    once : count_id id y.credentials ≤ 1
    open_at : (i : ℕ) → pending id (calls i) (y.phases i) ≡ true → count_id id y.credentials ≡ 0

  -- The task that ran is about to write the id only if the id is free.
  advance-pending :
      (calls : ℕ → Call) (i j : ℕ) (y : System S)
      → (i == j) ≡ true
      → pending id (calls j) ((advance k o config calls i y).phases j) ≡ true
      → count_id id (advance k o config calls i y).credentials ≡ 0
  unfolding advance
  advance-pending calls i j y this e =
      section-pending (calls i) (y.phases i) y.store y.credentials (
        subst
          (λ l.
            pending id (calls l) (section k o config (calls i) (y.phases i) y.store y.credentials).0
            ≡ true)
          (sym ((==_iff i j).0 this)) (rw this at e))

  advance-IsSingle :
      (calls : ℕ → Call) (i : ℕ) (y : System S)
      → IsSole id calls
      → IsSingle calls y
      → IsSingle calls (advance k o config calls i y)
  unfolding advance
  advance-IsSingle calls i y sole v =
      let step = section-count (calls i) (y.phases i) y.store y.credentials in
      elim (Bool-cases (pending id (calls i) (y.phases i))) [
        | inl writes ↦ record {
          once = omega (arith, rw writes at step, v.open_at i writes);
          open_at = λ j e. elim (Bool-cases (i == j)) [
            | inl this ↦ advance-pending calls i j y this e
            | inr other ↦
                let same : i ≡ j =
                  sole i j (pending-is_for id (calls i) (y.phases i) writes)
                    (pending-is_for id (calls j) (y.phases j) (rw other at e)) in
                cc (other, (==_iff i j).1 same)
          ];
        }
        | inr rests ↦ record {
          once = omega (arith, rw rests at step, v.once);
          open_at = λ j e. elim (Bool-cases (i == j)) [
            | inl this ↦ advance-pending calls i j y this e
            | inr other ↦ (rw rests at step) ∙ v.open_at j (rw other at e)
          ];
        }
      ]

  Reach-IsSingle :
      (calls : ℕ → Call) {s : S} {m : Map (List WebAuthnCredential)} {y : System S}
      → IsSole id calls
      → count_id id m ≤ 1
      → Reach k o config calls s m y
      → IsSingle calls y
  Reach-IsSingle calls sole few begin = record { once = few; open_at = λ i e. cc }
  Reach-IsSingle calls sole few (next {y} r i) =
      advance-IsSingle calls i y sole (Reach-IsSingle calls sole few r)

  -- Where at most one of the calls registers an id, and the id stands in the registry at most once
  -- at the beginning, it stands there at most once in whatever order the sections of all calls run.
  pub registered_once :
      (calls : ℕ → Call) {s : S} {m : Map (List WebAuthnCredential)} {y : System S}
      → IsSole id calls
      → count_id id m ≤ 1
      → Reach k o config calls s m y
      → count_id id y.credentials ≤ 1
  registered_once calls sole few r = (Reach-IsSingle calls sole few r).once
