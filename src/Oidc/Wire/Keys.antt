-- ===== src/Oidc/Wire/Keys.antt =====
-- src/oidc.rs: what is read of the objects of keys.
use mathlib.Core.Option
use auth_kit.Base.{◌≡◌, ◌↔◌, refl, subst, some, Option, List, [], ◌∷◌, Bytes, codes, arith}
use auth_kit.Base.Json.{
  Elements, nil, cons, object, array, string, once, Found, Members, find, fits, field, bytes_serde,
  vec_serde, required, optional, optional_default, defaulted, of_elements, string_value, list_value,
}
use auth_kit.Base.Json.Texts.{bind_some, of_mapped, required-once, find-short}
use auth_kit.Base.Json.Holds.{
  settles, HoldsOptional, HoldsTexts, optional-HoldsOptional, optional_default-HoldsOptional,
  defaulted-HoldsTexts, HoldsOptional-optional, HoldsOptional-optional_default,
  HoldsTexts-defaulted,
}
use auth_kit.Oidc.{Jwk, JwksDoc}
use auth_kit.Oidc.Wire.{read_jwk, read_jwks, jwk_serde}

-- The members of the object hold the fields of the key, each under its name.
pub record IsKeyOf (m : Members) (key : Jwk) : Type 0 where
  pub has_kty : find (codes "kty") m ≡ once (string key.kty)
  pub has_key_use : HoldsOptional (find (codes "use") m) key.key_use
  pub has_kid : HoldsOptional (find (codes "kid") m) key.kid
  pub has_alg : HoldsOptional (find (codes "alg") m) key.alg
  pub has_n : HoldsOptional (find (codes "n") m) key.n
  pub has_e : HoldsOptional (find (codes "e") m) key.e
  pub has_crv : HoldsOptional (find (codes "crv") m) key.crv
  pub has_x : HoldsOptional (find (codes "x") m) key.x
  pub has_y : HoldsOptional (find (codes "y") m) key.y
  pub has_k : HoldsOptional (find (codes "k") m) key.k
  pub has_x5c : HoldsTexts (find (codes "x5c") m) key.x5c

abbrev texts : Found → Option (List Bytes)
texts = defaulted ⦃s = vec_serde bytes_serde⦄ []

read_jwk-IsKeyOf : (m : Members) (key : Jwk) → read_jwk (object m) ≡ some key → IsKeyOf m key
unfolding read_jwk fits field
read_jwk-IsKeyOf m = settles {P = IsKeyOf m} (required (find (codes "kty") m)) λ _ e0.
    settles (optional_default (find (codes "use") m)) λ _ e1.
      settles (optional (find (codes "kid") m)) λ _ e2.
        settles (optional (find (codes "alg") m)) λ _ e3.
          settles (optional (find (codes "n") m)) λ _ e4.
            settles (optional (find (codes "e") m)) λ _ e5.
              settles (optional (find (codes "crv") m)) λ _ e6.
                settles (optional (find (codes "x") m)) λ _ e7.
                  settles (optional (find (codes "y") m)) λ _ e8.
                    settles (optional (find (codes "k") m)) λ _ e9.
                      settles (texts (find (codes "x5c") m)) λ _ e10. λ key h.
                        subst (IsKeyOf m) (Option.some_inj.0 h) (record {
                          has_kty = required-once (find (codes "kty") m) _ e0;
                          has_key_use =
                              optional_default-HoldsOptional (find (codes "use") m) _
                                (find-short (codes "use") m) e1;
                          has_kid =
                              optional-HoldsOptional (find (codes "kid") m) _
                                (find-short (codes "kid") m) e2;
                          has_alg =
                              optional-HoldsOptional (find (codes "alg") m) _
                                (find-short (codes "alg") m) e3;
                          has_n =
                              optional-HoldsOptional (find (codes "n") m) _
                                (find-short (codes "n") m) e4;
                          has_e =
                              optional-HoldsOptional (find (codes "e") m) _
                                (find-short (codes "e") m) e5;
                          has_crv =
                              optional-HoldsOptional (find (codes "crv") m) _
                                (find-short (codes "crv") m) e6;
                          has_x =
                              optional-HoldsOptional (find (codes "x") m) _
                                (find-short (codes "x") m) e7;
                          has_y =
                              optional-HoldsOptional (find (codes "y") m) _
                                (find-short (codes "y") m) e8;
                          has_k =
                              optional-HoldsOptional (find (codes "k") m) _
                                (find-short (codes "k") m) e9;
                          has_x5c =
                              defaulted-HoldsTexts (find (codes "x5c") m) _
                                (find-short (codes "x5c") m) e10;
                        })

IsKeyOf-read_jwk : (m : Members) (key : Jwk) → IsKeyOf m key → read_jwk (object m) ≡ some key
unfolding read_jwk fits field required string_value
IsKeyOf-read_jwk m key h =
    rw
      (
        h.has_kty,
        HoldsOptional-optional_default _ _ h.has_key_use,
        HoldsOptional-optional _ _ h.has_kid,
        HoldsOptional-optional _ _ h.has_alg,
        HoldsOptional-optional _ _ h.has_n,
        HoldsOptional-optional _ _ h.has_e,
        HoldsOptional-optional _ _ h.has_crv,
        HoldsOptional-optional _ _ h.has_x,
        HoldsOptional-optional _ _ h.has_y,
        HoldsOptional-optional _ _ h.has_k,
        HoldsTexts-defaulted _ _ h.has_x5c,
      )
      refl

-- An array of objects.
unfoldable pub objects : List Members → Elements
objects [] = nil
objects (m ∷ ms) = cons (object m) (objects ms)

-- The objects hold the keys, in their order.
abbrev pub AreKeysOf : List Members → List Jwk → Type 0
AreKeysOf [] [] = Unit {0}
AreKeysOf [] (key ∷ keys) = ⊥
AreKeysOf (m ∷ ms) [] = ⊥
AreKeysOf (m ∷ ms) (key ∷ keys) = IsKeyOf m key × AreKeysOf ms keys

read_keys-AreKeysOf :
    (ms : List Members) (keys : List Jwk) → of_elements (objects ms) ≡ some keys → AreKeysOf ms keys
unfolding of_elements objects
read_keys-AreKeysOf [] [] h = tt
read_keys-AreKeysOf [] (key ∷ keys) h = grind arith
read_keys-AreKeysOf (m ∷ ms) keys h =
    let (key, e, h) = bind_some (read_jwk (object m)) h in
    let (rest, e', same) = of_mapped (of_elements (objects ms)) h in
    subst (AreKeysOf (m ∷ ms)) same (read_jwk-IsKeyOf m key e, read_keys-AreKeysOf ms rest e')

AreKeysOf-read_keys :
    (ms : List Members) (keys : List Jwk) → AreKeysOf ms keys → of_elements (objects ms) ≡ some keys
unfolding of_elements objects
AreKeysOf-read_keys [] [] h = refl
AreKeysOf-read_keys [] (key ∷ keys) h = elim h [ ]
AreKeysOf-read_keys (m ∷ ms) [] h = elim h [ ]
AreKeysOf-read_keys (m ∷ ms) (key ∷ keys) h =
    rw (IsKeyOf-read_jwk m key h.0, AreKeysOf-read_keys ms keys h.1) refl

-- An object whose member `keys`, there once, is an array of objects is read as a JWKS document
-- exactly when that has as many keys as there are objects, and each object holds its key: `kty` is
-- a string, `use`, `kid`, `alg`, `n`, `e`, `crv`, `x`, `y` and `k` are strings, or absent or `null`
-- for none, and `x5c` is an array of strings, or absent for no string, each under this name,
-- which stands there at most once; whatever other members there are. One object that is no key refuses the document.
pub read_jwks_iff :
    (m : Members) (ms : List Members) (doc : JwksDoc)
    → find (codes "keys") m ≡ once (array (objects ms))
    → (read_jwks (object m) ≡ some doc) ↔ AreKeysOf ms doc.keys
unfolding read_jwks fits field required list_value
read_jwks_iff m ms doc has_keys = (
  λ h.
      let (keys, e, same) = bind_some (of_elements (objects ms)) (rw has_keys at h) in
      subst (λ d. AreKeysOf ms d.keys) (Option.some_inj.0 same) (read_keys-AreKeysOf ms keys e),
  λ h. rw (has_keys, AreKeysOf-read_keys ms doc.keys h) refl,
)
