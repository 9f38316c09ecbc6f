-- ===== src/SessionStore/Memory/Live.antt =====
-- src/domain/session_store.rs: the tokens of a map after an eviction.
use auth_kit.Base.{
  suc, ◌≡◌, ◌≢◌, refl, sym, ◌∙◌, ap, inl, inr, true, Bool, Bool-cases, Option, none, some, List, [],
  ◌∷◌, length, All, Bytes, beq, beq_iff, beq_refl,
}
use auth_kit.Base.Map.{Map, get, IsDistinct, filter_value}
use auth_kit.SessionStore.Memory.{Entry}
use auth_kit.SessionStore.Memory.Spec.{NoDuplicates}

unfoldable pub keys : Map Entry → List Bytes
keys [] = []
keys ((j, w) ∷ m) = j ∷ keys m

pub length-keys : (m : Map Entry) → length (keys m) ≡ length m
unfolding keys
length-keys [] = refl
length-keys ((j, w) ∷ m) = ap suc (length-keys m)

keys-apart : (k : Bytes) (m : Map Entry) → get k m ≡ none → All (λ i. k ≢ i) (keys m)
unfolding keys get
keys-apart k [] e = tt
keys-apart k ((j, w) ∷ m) e = elim (Bool-cases (beq j k)) [
  | inl here ↦ cc (rw here at e)
  | inr other ↦ (λ same. cc (other, beq_refl k, same), keys-apart k m (rw other at e))
]

pub keys-NoDuplicates : (m : Map Entry) → IsDistinct m → NoDuplicates (keys m)
unfolding keys
keys-NoDuplicates [] d = tt
keys-NoDuplicates ((j, w) ∷ m) d = (keys-apart j m d.0, keys-NoDuplicates m d.1)

-- What holds of every token with an entry holds of all keys.
pub keys-All :
    (P : Bytes → Type 0) (m : Map Entry)
    → IsDistinct m
    → ((k : Bytes) (e : Entry) → get k m ≡ some e → P k)
    → All P (keys m)
unfolding keys get
keys-All P [] d h = tt
keys-All P ((j, w) ∷ m) d h = (
  h j w (rw (beq_refl j) refl),
  keys-All P m d.1 (λ k e found. h k e (elim (Bool-cases (beq j k)) [
    | inl here ↦ let same = (beq_iff j k).0 here in let free = d.0 in cc (free, found, same)
    | inr other ↦ rw other found
  ])),
)

pub filter_value-some :
    (p : Entry → Bool) (o : Option Entry) (e : Entry)
    → filter_value p o ≡ some e
    → (o ≡ some e) × (p e ≡ true)
filter_value-some p none e h = cc
filter_value-some p (some x) e h = elim (Bool-cases (p x)) [
  | inl kept ↦
      let same : some x ≡ some e = rw kept at h in
      let one : x ≡ e = cc (same) in (same, ap p (sym one) ∙ kept)
  | inr lost ↦ cc (rw lost at h)
]
