-- ===== src/Base/Json/Laws.antt =====
-- What a struct finds of a field that it wrote itself, and of members that are not its own.
use mathlib.Core.Option
use auth_kit.Base.{
  ◌≡◌, ◌≢◌, refl, ap, ◌∙◌, Bool-cases, inl, inr, Option, none, some, Bytes, beq, beq_iff,
}
use auth_kit.Base.Json.{
  Json, null, boolean, number, string, array, object, Members, member, Serde, once, find,
  find_again, nullable, optional, optional_default, option_json, of_elements-to_elements,
}

module _ {A : Type 0} ⦃s : Serde A⦄ where
  nullable_lem : (j : Json) → j ≢ null → nullable j ≡ Option.map (λ a. some a) (s.from_json j)
  unfolding nullable
  nullable_lem null h = absurd (h refl)
  nullable_lem (boolean b) h = refl
  nullable_lem (number n) h = refl
  nullable_lem (string t) h = refl
  nullable_lem (array xs) h = refl
  nullable_lem (object m) h = refl

  nullable-option_json : (o : Option A) → nullable (option_json o) ≡ some o
  unfolding nullable option_json
  nullable-option_json none = refl
  nullable-option_json (some a) =
      nullable_lem (s.to_json a) (s.to_json-null a)
      ∙ ap (Option.map (λ x. some x)) (s.from_json-to_json a)

  pub optional-option_json : (o : Option A) → optional (once (option_json o)) ≡ some o
  unfolding optional
  optional-option_json o = nullable-option_json o

  pub optional_default-option_json :
      (o : Option A) → optional_default (once (option_json o)) ≡ some o
  unfolding optional_default
  optional_default-option_json o = nullable-option_json o

-- What is read of fields that were written.
pub ruleset written_fields =
    (optional-option_json, optional_default-option_json, of_elements-to_elements)

-- Members with one more at some place.
pub data Adds (key : Bytes) (j : Json) : Members → Members → Type 0 where
  here : {m : Members} → Adds key j m (member key j m)
  later :
      {k : Bytes} {v : Json} {m m' : Members}
      → Adds key j m m'
      → Adds key j (member k v m) (member k v m')

find_again-Adds :
    (key other : Bytes) (j v : Json) (m m' : Members)
    → other ≢ key
    → Adds other j m m'
    → find_again key m' v ≡ find_again key m v
unfolding find_again
find_again-Adds key other j v m _ ne here = elim (Bool-cases (beq other key)) [
  | inl same ↦ absurd (ne ((beq_iff other key).0 same))
  | inr apart ↦ rw apart refl
]
find_again-Adds key other j v _ _ ne (later {k} {m} {m'} r) = elim (Bool-cases (beq k key)) [
  | inl same ↦ rw same refl
  | inr apart ↦ rw apart (find_again-Adds key other j v m m' ne r)
]

-- A member of another name changes nothing.
pub find-Adds :
    (key other : Bytes) (j : Json) (m m' : Members)
    → other ≢ key
    → Adds other j m m'
    → find key m' ≡ find key m
unfolding find
find-Adds key other j m _ ne here = elim (Bool-cases (beq other key)) [
  | inl same ↦ absurd (ne ((beq_iff other key).0 same))
  | inr apart ↦ rw apart refl
]
find-Adds key other j _ _ ne (later {k} {v} {m} {m'} r) = elim (Bool-cases (beq k key)) [
  | inl same ↦ rw same (find_again-Adds key other j v m m' ne r)
  | inr apart ↦ rw apart (find-Adds key other j m m' ne r)
]
