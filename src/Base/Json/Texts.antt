-- ===== src/Base/Json/Texts.antt =====
-- The fields of strings and of arrays of strings that a struct accepts in an object.
use mathlib.Core.Option
use auth_kit.Base.{
  ◌≡◌, ◌≢◌, ◌↔◌, ◌⊎◌, inl, inr, refl, ap, ◌∙◌, Option, none, some, List, [], ◌∷◌, Bytes, arith,
}
use auth_kit.Base.Json.{
  Json, null, boolean, number, string, array, object, Elements, nil, cons, Members, end, member,
  Found, absent, short, refused, once, find, find_again, bytes_serde, vec_serde, string_value,
  list_value, ◌>>=◌, required, nullable, optional, optional_default, defaulted, to_elements,
  of_elements, of_elements-to_elements,
}

-- The first step of a chain that gives a value gives one.
pub bind_some {ℓ κ} :
    {A : Type ℓ} {B : Type κ} (o : Option A) {f : A → Option B} {b : B}
    → (o >>= f) ≡ some b
    → (a : A) × (o ≡ some a) × (f a ≡ some b)
bind_some none h = grind arith
bind_some (some a) h = (a, refl, h)

pub of_mapped {ℓ κ} :
    {A : Type ℓ} {B : Type κ} (o : Option A) {f : A → B} {b : B}
    → Option.map f o ≡ some b
    → (a : A) × (o ≡ some a) × (f a ≡ b)
of_mapped none h = grind arith
of_mapped (some a) h = (a, refl, Option.some_inj.0 h)

-- A string.
abbrev pub IsText : Found → Type 0
IsText f = (s : Bytes) × f ≡ once (string s)

-- No member, `null` or a string.
abbrev pub IsOptionalText : Found → Type 0
IsOptionalText f = (f ≡ absent) ⊎ ((f ≡ once null) ⊎ IsText f)

-- No member or an array of strings.
abbrev pub IsTexts : Found → Type 0
IsTexts f = (f ≡ absent) ⊎ ((values : List Bytes) × f ≡ once (array (to_elements values)))

string_value-some : (j : Json) (s : Bytes) → string_value j ≡ some s → j ≡ string s
unfolding string_value
string_value-some (string t) s h = grind arith
string_value-some null s h = grind arith
string_value-some (boolean b) s h = grind arith
string_value-some (number n) s h = grind arith
string_value-some (array xs) s h = grind arith
string_value-some (object m) s h = grind arith

pub required-once : (f : Found) (s : Bytes) → required f ≡ some s → f ≡ once (string s)
unfolding required bytes_serde string_value
required-once absent s h = grind arith
required-once short s h = grind arith
required-once refused s h = grind arith
required-once (once j) s h = ap (λ i. once i) (string_value-some j s h)

find_again-short : (key : Bytes) (m : Members) (j : Json) → find_again key m j ≢ short
unfolding find_again
find_again-short key end j h = grind arith
find_again-short key (member k v m) j h = ground (arith, find_again-short key m j)

pub find-short : (key : Bytes) (m : Members) → find key m ≢ short
unfolding find
find-short key end h = grind arith
find-short key (member k v m) h = ground (arith, find_again-short key m v, find-short key m)

nullable-IsText :
    (j : Json) (o : Option Bytes) → nullable j ≡ some o → (j ≡ null) ⊎ ((s : Bytes) × j ≡ string s)
unfolding nullable string_value
nullable-IsText null o h = inl refl
nullable-IsText (string t) o h = inr (t, refl)
nullable-IsText (boolean b) o h = grind arith
nullable-IsText (number n) o h = grind arith
nullable-IsText (array xs) o h = grind arith
nullable-IsText (object m) o h = grind arith

pub optional-IsText :
    (f : Found) (o : Option Bytes) → f ≢ short → optional f ≡ some o → IsOptionalText f
unfolding optional
optional-IsText absent o ne h = inl refl
optional-IsText short o ne h = grind arith
optional-IsText refused o ne h = grind arith
optional-IsText (once j) o ne h = elim (nullable-IsText j o h) [
  | inl e ↦ inr (inl (ap (λ i. once i) e))
  | inr (s, e) ↦ inr (inr (s, ap (λ i. once i) e))
]

of_elements-some :
    (xs : Elements) (values : List Bytes) → of_elements xs ≡ some values → xs ≡ to_elements values
unfolding of_elements to_elements bytes_serde string_value
of_elements-some nil [] h = refl
of_elements-some nil (v ∷ values) h = grind arith
of_elements-some (cons x xs) values h =
    let (a, e, r) = bind_some (bytes_serde.from_json x) h in
    let (rest, e', r') = of_mapped (of_elements xs) r in
    ap (λ y. cons y xs) (string_value-some x a e)
    ∙ ap (λ ys. cons (string a) ys) (of_elements-some xs rest e')
    ∙ ap to_elements r'

pub optional_default_lem : (f : Found) → f ≢ short → optional_default {A = Bytes} f ≡ optional f
unfolding optional optional_default
optional_default_lem absent ne = refl
optional_default_lem short ne = absurd (ne refl)
optional_default_lem refused ne = refl
optional_default_lem (once j) ne = refl

pub defaulted-IsTexts :
    (f : Found) (values : List Bytes)
    → f ≢ short
    → defaulted ⦃s = vec_serde bytes_serde⦄ [] f ≡ some values
    → IsTexts f
unfolding defaulted list_value
defaulted-IsTexts absent values ne h = inl refl
defaulted-IsTexts short values ne h = grind arith
defaulted-IsTexts refused values ne h = grind arith
defaulted-IsTexts (once (array xs)) values ne h =
    inr (values, ap (λ ys. once (array ys)) (of_elements-some xs values h))
defaulted-IsTexts (once null) values ne h = grind arith
defaulted-IsTexts (once (boolean b)) values ne h = grind arith
defaulted-IsTexts (once (number n)) values ne h = grind arith
defaulted-IsTexts (once (string t)) values ne h = grind arith
defaulted-IsTexts (once (object m)) values ne h = grind arith

optional_accepts : (f : Found) → IsOptionalText f → (o : Option Bytes) × (optional f ≡ some o)
unfolding optional nullable bytes_serde string_value
optional_accepts f (inl e) = (none, rw e refl)
optional_accepts f (inr (inl e)) = (none, rw e refl)
optional_accepts f (inr (inr (s, e))) = (some s, rw e refl)

defaulted_accepts :
    (f : Found)
    → IsTexts f
    → (values : List Bytes) × (defaulted ⦃s = vec_serde bytes_serde⦄ [] f ≡ some values)
unfolding defaulted list_value
defaulted_accepts f (inl e) = ([], rw e refl)
defaulted_accepts f (inr (values, e)) = (values, rw e (of_elements-to_elements values))

required_accepts : (f : Found) → IsText f → (s : Bytes) × (required f ≡ some s)
unfolding required bytes_serde string_value
required_accepts f (s, e) = (s, rw e refl)

-- The kinds of fields, with what each accepts.
pub data FieldKind : Type 0 where
  text optional_text texts : FieldKind

abbrev pub Accepts : FieldKind → Found → Type 0
Accepts text f = IsText f
Accepts optional_text f = IsOptionalText f
Accepts texts f = IsTexts f

-- Some value comes of an `Option`.
abbrev pub Gives {ℓ} : {A : Type ℓ} → Option A → Type ℓ
Gives {A} o = (a : A) × (o ≡ some a)

module _ (key : Bytes) (m : Members) where
  pub required_iff : Gives (required {A = Bytes} (find key m)) ↔ IsText (find key m)
  required_iff = (λ (s, e). (s, required-once (find key m) s e), required_accepts (find key m))

  pub optional_iff : Gives (optional {A = Bytes} (find key m)) ↔ IsOptionalText (find key m)
  optional_iff =
      (λ (o, e). optional-IsText (find key m) o (find-short key m) e, optional_accepts (find key m))

  pub optional_default_iff :
      Gives (optional_default {A = Bytes} (find key m)) ↔ IsOptionalText (find key m)
  optional_default_iff = rw (optional_default_lem (find key m) (find-short key m)) optional_iff

  pub defaulted_iff :
      Gives (defaulted ⦃s = vec_serde bytes_serde⦄ [] (find key m)) ↔ IsTexts (find key m)
  defaulted_iff = (
    λ (values, e). defaulted-IsTexts (find key m) values (find-short key m) e,
    defaulted_accepts (find key m),
  )

-- A chain gives a value when each of its steps does, where no step waits for another's value.
infixr 3 ◌&&&◌
pub ◌&&&◌ {ℓ κ μ ν} :
    {A : Type ℓ} {B : Type κ} {o : Option A} {f : A → Option B} {P : Type μ} {Q : Type ν}
    → (Gives o ↔ P)
    → ((a : A) → Gives (f a) ↔ Q)
    → Gives (o >>= f) ↔ (P × Q)
(first &&& rest) = (
  λ (b, h). let (a, e, r) = bind_some _ h in (first.0 (a, e), (rest a).0 (b, r)),
  λ (p, q). let (a, e) = first.1 p in rw e ((rest a).1 q),
)

pub chain_end {ℓ} : {A : Type ℓ} {a : A} → Gives (some a) ↔ Unit {0}
chain_end {a} = (λ g. tt, λ u. (a, refl))
