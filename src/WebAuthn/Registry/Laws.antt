-- ===== src/WebAuthn/Registry/Laws.antt =====
-- src/webauthn.rs: how often an id is registered, and the credential that `find` gives, under the
-- two writes to the registry.
use auth_kit.Base.{
  ℕ, suc, ◌+◌, ◌≤◌, ◌≡◌, refl, ◌↔◌, false, List, [], ◌∷◌, ◌++◌, if◌then◌else◌, Bytes, beq, beq_iff,
  arith,
}
use auth_kit.Base.Map.{Map, get, insert}
use auth_kit.WebAuthn.{WebAuthnCredential}
use auth_kit.WebAuthn.Registry.{
  list_credentials, has_id, is_registered, push_credential, register, set_sign_count,
}

-- How many credentials of a list, and of the registry, have the id.
unfoldable pub count_list : Bytes → List WebAuthnCredential → ℕ
count_list id [] = 0
count_list id (c ∷ cs) = if beq c.credential_id id then suc (count_list id cs) else count_list id cs

unfoldable pub count_id : Bytes → Map (List WebAuthnCredential) → ℕ
unfolding count_list
count_id id [] = 0
count_id id ((user, cs) ∷ m) = count_list id cs + count_id id m

-- No id is registered twice, by one user or by two.
abbrev pub IsUnique : Map (List WebAuthnCredential) → Type 0
IsUnique m = (id : Bytes) → count_id id m ≤ 1

count_list-append :
    (id : Bytes) (a b : List WebAuthnCredential)
    → count_list id (a ++ b) ≡ count_list id a + count_list id b
unfolding count_list
count_list-append id [] b = omega arith
count_list-append id (c ∷ a) b = ground (arith, count_list-append id a b)

has_id-count_list :
    (id : Bytes) (cs : List WebAuthnCredential) → (has_id id cs ≡ false) ↔ (count_list id cs ≡ 0)
unfolding has_id count_list
has_id-count_list id [] = (λ h. refl, λ h. refl)
has_id-count_list id (c ∷ cs) =
    let ih = has_id-count_list id cs in (λ h. ground (arith, ih), λ h. ground (arith, ih))

-- The scan of the registry finds no credential exactly when the count is 0.
pub is_registered-count_id :
    (id : Bytes) (m : Map (List WebAuthnCredential))
    → (is_registered id m ≡ false) ↔ (count_id id m ≡ 0)
unfolding is_registered count_id
is_registered-count_id id [] = (λ h. refl, λ h. refl)
is_registered-count_id id ((user, cs) ∷ m) =
    let here = has_id-count_list id cs in
    let later = is_registered-count_id id m in
    (λ h. ground (arith, here, later), λ h. ground (arith, here, later))

-- A write of a user's list replaces that list in the count.
pub count_id-insert :
    (id user : Bytes) (cs : List WebAuthnCredential) (m : Map (List WebAuthnCredential))
    → count_id id (insert user cs m) + count_list id (list_credentials user m)
      ≡ count_id id m + count_list id cs
unfolding insert list_credentials get count_id
count_id-insert id user cs [] = omega arith
count_id-insert id user cs ((u, old) ∷ m) =
    let ih = count_id-insert id user cs m in ground (arith, ih)

pub count_list-set_sign_count :
    (id id' : Bytes) (n : ℕ) (cs : List WebAuthnCredential)
    → count_list id (set_sign_count id' n cs) ≡ count_list id cs
unfolding set_sign_count count_list
count_list-set_sign_count id id' n [] = refl
count_list-set_sign_count id id' n (c ∷ cs) = ground (arith, count_list-set_sign_count id id' n cs)

pub count_id-push_credential :
    (id user : Bytes) (c : WebAuthnCredential) (m : Map (List WebAuthnCredential))
    → count_id id (push_credential user c m)
      ≡ (if beq c.credential_id id then suc (count_id id m) else count_id id m)
unfolding push_credential
count_id-push_credential id user c m =
    let old = list_credentials user m in
    let whole = count_id-insert id user (old ++ c ∷ []) m in
    let grown = count_list-append id old (c ∷ []) in
    unfold count_list in ground (arith, whole, grown)

pub register-IsUnique :
    (user : Bytes) (c : WebAuthnCredential) (m : Map (List WebAuthnCredential))
    → IsUnique m
    → IsUnique (register user c m).1
unfolding register
register-IsUnique user c m u id = ground (
  arith,
  u id,
  count_id-push_credential id user c m,
  is_registered-count_id c.credential_id m,
  beq_iff c.credential_id id,
)
