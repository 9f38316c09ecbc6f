-- ===== src/WebAuthn/Registry/Growth.antt =====
-- src/webauthn.rs: what the two writes of the registry do to each credential.
use auth_kit.Base.{
  ℕ, ◌≤◌, ◌<◌, ◌≡◌, refl, sym, ap, ◌∙◌, ◌≢◌, inl, inr, some, List, [], ◌∷◌, ◌++◌, if◌then◌else◌,
  Bool-cases, Bytes, beq, beq_iff, beq_refl, arith,
}
use auth_kit.Base.Map.{Map, get, insert}
use auth_kit.Base.Outcome.{ok}
use auth_kit.WebAuthn.{AuthenticatorData, WebAuthnCredential}
use auth_kit.WebAuthn.Registry.{
  list_credentials, is_registered, push_credential, register, find_credential, set_sign_count,
  verify_signature, authenticate,
}
use auth_kit.WebAuthn.Registry.Counts.{
  authenticate_cases, list_credentials-get, credential, find_credential-append,
  find_credential-set_self, find_credential-set_ne, list_credentials-insert,
}

-- The later credential has the id and key of the earlier one and a count at least as high.
pub record Later (c d : WebAuthnCredential) : Type 0 where
  pub same_id : d.credential_id ≡ c.credential_id
  pub same_key : d.public_key ≡ c.public_key
  pub counted : c.sign_count ≤ d.sign_count

-- Every credential of the first registry is still there, with a later version.
abbrev pub Grows : Map (List WebAuthnCredential) → Map (List WebAuthnCredential) → Type 0
Grows m m' =
    (user id : Bytes) (c : WebAuthnCredential)
    → credential user id m ≡ some c
    → (d : WebAuthnCredential) × (credential user id m' ≡ some d) × Later c d

pub Grows-refl : (m : Map (List WebAuthnCredential)) → Grows m m
Grows-refl m user id c e = (c, e, record { same_id = refl; same_key = refl; counted = omega arith })

pub Grows-trans : (m n p : Map (List WebAuthnCredential)) → Grows m n → Grows n p → Grows m p
Grows-trans m n p g h user id c e =
    let (d, f, l) = g user id c e in
    let (x, y, z) = h user id d f in
    (
      x,
      y,
      record {
        same_id = z.same_id ∙ l.same_id;
        same_key = z.same_key ∙ l.same_key;
        counted = omega (arith, l.counted, z.counted);
      },
    )

pub push_credential-keeps :
    (owner : Bytes) (x : WebAuthnCredential) (m : Map (List WebAuthnCredential)) (user id : Bytes)
    (c : WebAuthnCredential)
    → credential user id m ≡ some c
    → credential user id (push_credential owner x m) ≡ some c
unfolding push_credential credential
push_credential-keeps owner x m user id c e =
    ap (find_credential id)
      (list_credentials-insert owner user (list_credentials owner m ++ x ∷ []) m)
    ∙ elim (Bool-cases (beq owner user)) [
      | inl mine ↦
          let same = (beq_iff owner user).0 mine in
          rw mine (
            find_credential-append id (list_credentials owner m) (x ∷ []) c
              (ap (λ u. find_credential id (list_credentials u m)) same ∙ e))
      | inr other ↦ rw other e
    ]

pub push_credential-Grows :
    (user : Bytes) (x : WebAuthnCredential) (m : Map (List WebAuthnCredential))
    → Grows m (push_credential user x m)
push_credential-Grows user x m u i c e = (
  c,
  push_credential-keeps user x m u i c e,
  record { same_id = refl; same_key = refl; counted = omega arith },
)

pub register-Grows :
    (user : Bytes) (x : WebAuthnCredential) (m : Map (List WebAuthnCredential))
    → Grows m (register user x m).1
unfolding register
register-Grows user x m u i c e = elim (Bool-cases (is_registered x.credential_id m)) [
  | inl old ↦ rw old (Grows-refl m u i c e)
  | inr new ↦ rw new (push_credential-Grows user x m u i c e)
]

-- The write of a count, seen at any user and id.
pub credential-set :
    (user id : Bytes) (n : ℕ) (m : Map (List WebAuthnCredential)) (cs : List WebAuthnCredential)
    (cred : WebAuthnCredential)
    → get user m ≡ some cs
    → find_credential id cs ≡ some cred
    → (u i : Bytes)
    → credential u i (insert user (set_sign_count id n cs) m) ≡ (
        if beq user u
        then if beq id i then some (record cred { sign_count = n }) else credential u i m
        else credential u i m)
unfolding credential
credential-set user id n m cs cred known found u i =
    ap (find_credential i) (list_credentials-insert user u (set_sign_count id n cs) m)
    ∙ elim (Bool-cases (beq user u)) [
      | inr other ↦ rw other refl
      | inl mine ↦
          let same = (beq_iff user u).0 mine in
          let listed : list_credentials u m ≡ cs =
            ap (λ v. list_credentials v m) (sym same) ∙ list_credentials-get user m cs known in
          rw mine (elim (Bool-cases (beq id i)) [
            | inl this ↦ rw this (
                ap (λ j. find_credential j (set_sign_count id n cs)) (sym ((beq_iff id i).0 this))
                ∙ find_credential-set_self id n cs cred found)
            | inr that ↦ rw that (
                find_credential-set_ne i id n cs (λ e. cc ((beq_iff id i).1 e))
                ∙ ap (find_credential i) (sym listed))
          ])
    ]

set-Grows :
    (user id : Bytes) (n : ℕ) (m : Map (List WebAuthnCredential)) (cs : List WebAuthnCredential)
    (cred : WebAuthnCredential)
    → get user m ≡ some cs
    → find_credential id cs ≡ some cred
    → cred.sign_count < n
    → Grows m (insert user (set_sign_count id n cs) m)
set-Grows user id n m cs cred known found newer u i c e =
    let now = credential-set user id n m cs cred known found u i in
    elim (Bool-cases (beq user u)) [
      | inr other ↦
          (c, now ∙ rw other e, record { same_id = refl; same_key = refl; counted = omega arith })
      | inl mine ↦ elim (Bool-cases (beq id i)) [
        | inr that ↦ (
          c,
          now ∙ rw (mine, that) e,
          record { same_id = refl; same_key = refl; counted = omega arith },
        )
        | inl this ↦
            let held : some cred ≡ some c =
              sym found
              ∙ ap (find_credential id) (sym (list_credentials-get user m cs known))
              ∙ unfold credential in
                (ap (λ j. find_credential j (list_credentials user m)) ((beq_iff id i).0 this)
                  ∙ ap (λ w. find_credential i (list_credentials w m)) ((beq_iff user u).0 mine)
                  ∙ e) in
            (record cred { sign_count = n }, now ∙ rw (mine, this) refl, ground (arith, held))
      ]
    ]

pub authenticate-Grows :
    (user id : Bytes) (auth : AuthenticatorData) (json : Bytes) (m : Map (List WebAuthnCredential))
    → Grows m (authenticate user id auth json m).1
authenticate-Grows user id auth json m =
    authenticate_cases (λ r. Grows m r.1) user id auth json m (Grows-refl m)
      λ cs cred known found newer. set-Grows user id auth.sign_count m cs cred known found newer

-- What a successful authentication found, and what it left.
pub record Authenticated (user id : Bytes) (auth : AuthenticatorData)
    (m m' : Map (List WebAuthnCredential)) : Type 0 where
  pub cred : WebAuthnCredential
  pub held : credential user id m ≡ some cred
  pub newer : cred.sign_count < auth.sign_count
  pub keyed : cred.public_key ≢ []
  pub left : credential user id m' ≡ some (record cred { sign_count = auth.sign_count })

pub verify_signature-ok :
    (key : Bytes) (auth : AuthenticatorData) (json : Bytes)
    → verify_signature key auth json ≡ ok tt
    → key ≢ []
unfolding verify_signature
verify_signature-ok [] auth json h e = cc
verify_signature-ok (b ∷ key) auth json h e = cc

pub authenticate-Authenticated :
    (user id : Bytes) (auth : AuthenticatorData) (json : Bytes) (m : Map (List WebAuthnCredential))
    → (authenticate user id auth json m).0 ≡ ok tt
    → Authenticated user id auth m (authenticate user id auth json m).1
authenticate-Authenticated user id auth json m =
    authenticate_cases (λ r. r.0 ≡ ok tt → Authenticated user id auth m r.1) user id auth json m
      (λ e. cc)
      λ cs cred known found newer e. record {
        cred = cred;
        held =
            unfold credential in
            (ap (find_credential id) (list_credentials-get user m cs known) ∙ found);
        newer = newer;
        keyed = verify_signature-ok cred.public_key auth json e;
        left =
            credential-set user id auth.sign_count m cs cred known found user id
            ∙ rw (beq_refl user, beq_refl id) refl;
      }

-- No authentication succeeds whose count is not above the one that is held.
pub authenticate_stale :
    (user id : Bytes) (auth : AuthenticatorData) (json : Bytes) (m : Map (List WebAuthnCredential))
    (c : WebAuthnCredential)
    → credential user id m ≡ some c
    → auth.sign_count ≤ c.sign_count
    → (authenticate user id auth json m).0 ≢ ok tt
authenticate_stale user id auth json m c held stale e =
    let a = authenticate-Authenticated user id auth json m e in
    let same : some c ≡ some a.cred = sym held ∙ a.held in ground (arith, same, a.newer)
