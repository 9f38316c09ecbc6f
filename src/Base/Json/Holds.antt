-- ===== src/Base/Json/Holds.antt =====
-- What the fields of strings and of arrays of strings of an object hold, as a struct reads them.
use mathlib.Core.Option
use auth_kit.Base.{
  ◌≡◌, ◌≢◌, ◌⊎◌, inl, inr, refl, sym, ap, ◌∙◌, subst, Option, none, some, List, [], Bytes, arith,
}
use auth_kit.Base.Json.{
  null, string, array, Found, absent, short, once, bytes_serde, vec_serde, string_value, list_value,
  ◌>>=◌, nullable, optional, optional_default, defaulted, to_elements, of_elements-to_elements,
}
use auth_kit.Base.Json.Texts.{optional-IsText, defaulted-IsTexts, optional_default_lem}

-- What a chain gives has a property if each value of its first step leads there.
pub settles {ℓ κ μ} :
    {A : Type ℓ} {B : Type κ} {P : B → Type μ} (o : Option A) {f : A → Option B}
    → ((a : A) → o ≡ some a → (b : B) → f a ≡ some b → P b)
    → (b : B) → (o >>= f) ≡ some b
    → P b
settles none k b h = grind arith
settles (some a) k b h = k a refl b h

-- A field holds a text or none, and a list of texts.
abbrev pub HoldsOptional : Found → Option Bytes → Type 0
HoldsOptional f none = (f ≡ absent) ⊎ (f ≡ once null)
HoldsOptional f (some s) = f ≡ once (string s)

abbrev pub HoldsTexts : Found → List Bytes → Type 0
HoldsTexts f values = ((f ≡ absent) × (values ≡ [])) ⊎ (f ≡ once (array (to_elements values)))

pub optional-HoldsOptional :
    (f : Found) (o : Option Bytes) → f ≢ short → optional f ≡ some o → HoldsOptional f o
unfolding optional nullable bytes_serde string_value
optional-HoldsOptional f o ne h = elim (optional-IsText f o ne h) [
  | inl e ↦ subst (HoldsOptional f) (Option.some_inj.0 (rw e at h)) (inl e)
  | inr (inl e) ↦ subst (HoldsOptional f) (Option.some_inj.0 (rw e at h)) (inr e)
  | inr (inr (s, e)) ↦ subst (HoldsOptional f) (Option.some_inj.0 (rw e at h)) e
]

pub defaulted-HoldsTexts :
    (f : Found) (values : List Bytes)
    → f ≢ short
    → defaulted ⦃s = vec_serde bytes_serde⦄ [] f ≡ some values
    → HoldsTexts f values
unfolding defaulted list_value
defaulted-HoldsTexts f values ne h = elim (defaulted-IsTexts f values ne h) [
  | inl e ↦ inl (e, sym (Option.some_inj.0 (rw e at h)))
  | inr (found, e) ↦
      let same = Option.some_inj.0 (sym (of_elements-to_elements found) ∙ rw e at h) in
      inr (e ∙ ap (λ v. once (array (to_elements v))) same)
]

pub optional_default-HoldsOptional :
    (f : Found) (o : Option Bytes) → f ≢ short → optional_default f ≡ some o → HoldsOptional f o
optional_default-HoldsOptional f o ne h =
    optional-HoldsOptional f o ne (sym (optional_default_lem f ne) ∙ h)

pub HoldsOptional-optional :
    (f : Found) (o : Option Bytes) → HoldsOptional f o → optional f ≡ some o
unfolding optional nullable bytes_serde string_value
HoldsOptional-optional f none (inl e) = rw e refl
HoldsOptional-optional f none (inr e) = rw e refl
HoldsOptional-optional f (some s) e = rw e refl

pub HoldsOptional-optional_default :
    (f : Found) (o : Option Bytes) → HoldsOptional f o → optional_default f ≡ some o
unfolding optional_default nullable bytes_serde string_value
HoldsOptional-optional_default f none (inl e) = rw e refl
HoldsOptional-optional_default f none (inr e) = rw e refl
HoldsOptional-optional_default f (some s) e = rw e refl

pub HoldsTexts-defaulted :
    (f : Found) (values : List Bytes)
    → HoldsTexts f values
    → defaulted ⦃s = vec_serde bytes_serde⦄ [] f ≡ some values
unfolding defaulted list_value
HoldsTexts-defaulted f values (inl (e, e')) = rw (e, e') refl
HoldsTexts-defaulted f values (inr e) = rw e (of_elements-to_elements values)
