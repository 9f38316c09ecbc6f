-- ===== src/Oidc/Keys.antt =====
-- src/oidc.rs: which key `lookup` finds for an id in a fetched document.
use auth_kit.Base.{
  ℕ, ◌≡◌, refl, ◌∙◌, Bool, false, Option, none, some, List, [], ◌∷◌, if◌then◌else◌, Bytes, beq,
  Option-cases, inl, inr, arith,
}
use auth_kit.Base.Map.{Map, get, insert}
use auth_kit.Base.Map.Laws.{get-insert}
use auth_kit.Oidc.{Jwk, JwksDoc, lookup, with_kid, collect, index_keys}

-- The last key of a list whose id is `kid`; no key without an id counts.
unfoldable pub has_kid : Bytes → Jwk → Bool
has_kid kid k = elim k.kid [ none ↦ false | some i ↦ beq i kid ]

unfoldable pub last_key : Bytes → List Jwk → Option Jwk
unfolding has_kid
last_key kid [] = none
last_key kid (k ∷ ks) = elim (last_key kid ks) [
  | some k' ↦ some k'
  | none ↦ if has_kid kid k then some k else none
]

abbrev or_old : Option Jwk → Option Jwk → Option Jwk
or_old none old = old
or_old (some k) old = some k

or_old-none : (o : Option Jwk) → or_old o none ≡ o
or_old-none none = refl
or_old-none (some k) = refl

get-collect :
    (kid : Bytes) (ks : List Jwk) (m : Map Jwk)
    → get kid (collect (with_kid ks) m) ≡ or_old (last_key kid ks) (get kid m)
unfolding with_kid collect last_key has_kid
get-collect kid [] m = refl
get-collect kid (k ∷ ks) m = elim (Option-cases k.kid) [
  | inl nameless ↦ ground (arith, nameless, get-collect kid ks m)
  | inr (i, named) ↦ ground (arith, named, get-collect kid ks (insert i k m), get-insert i kid k m)
]

-- Of the keys of a document, `lookup` finds the last one that has the id, and none if none has.
pub lookup-index_keys :
    (kid : Bytes) (doc : JwksDoc) (at : ℕ)
    → lookup kid (record { fetched_at = at; by_kid = index_keys doc }) ≡ last_key kid doc.keys
unfolding lookup index_keys get
lookup-index_keys kid doc at = get-collect kid doc.keys [] ∙ or_old-none (last_key kid doc.keys)
