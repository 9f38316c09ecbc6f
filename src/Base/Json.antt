-- ===== src/Base/Json.antt =====
-- JSON values and what the derive macros of serde make of the fields of a struct: `Serde` is
-- `Serialize` with `Deserialize`. The reading of a text as a value is not part of it.
pub mod Laws
pub mod Texts
pub mod Holds
use mathlib.Core.Option
use auth_kit.Base.{
  ℕ, zero, suc, ◌≡◌, ◌≢◌, refl, Bool, true, false, Option, none, some, List, [], ◌∷◌, if◌then◌else◌,
  Bytes, beq, arith,
}

mutual
  pub data Json : Type 0 where
    null : Json
    boolean : Bool → Json
    number : Bytes → Json
    string : Bytes → Json
    array : Elements → Json
    object : Members → Json

  pub data Elements : Type 0 where
    nil : Elements
    cons : Json → Elements → Elements

  pub data Members : Type 0 where
    end : Members
    member : Bytes → Json → Members → Members

-- A type with derived `Serialize` and `Deserialize`, whose values are not written as `null`.
pub record Serde (A : Type 0) : Type 0 where
  pub to_json : A → Json
  pub from_json : Json → Option A
  pub from_json-to_json : (a : A) → from_json (to_json a) ≡ some a
  pub to_json-null : (a : A) → to_json a ≢ null

unfoldable pub string_value : Json → Option Bytes
string_value (string s) = some s
string_value null = none
string_value (boolean b) = none
string_value (number n) = none
string_value (array xs) = none
string_value (object m) = none

pub string-null : (s : Bytes) → string s ≢ null
string-null s e = cc

instance abbrev pub bytes_serde : Serde Bytes
unfolding string_value
bytes_serde = record {
  to_json = λ s. string s;
  from_json = string_value;
  from_json-to_json = λ s. refl;
  to_json-null = string-null;
}

unfoldable pub boolean_value : Json → Option Bool
boolean_value (boolean b) = some b
boolean_value null = none
boolean_value (number n) = none
boolean_value (string s) = none
boolean_value (array xs) = none
boolean_value (object m) = none

pub boolean-null : (b : Bool) → boolean b ≢ null
boolean-null b e = cc

instance abbrev pub bool_serde : Serde Bool
unfolding boolean_value
bool_serde = record {
  to_json = λ b. boolean b;
  from_json = boolean_value;
  from_json-to_json = λ b. refl;
  to_json-null = boolean-null;
}

-- What a struct finds for one of its fields: no member of the name, an array that ends before the
-- field, one value, or what it refuses (the name twice, or neither an object nor an array).
pub data Found : Type 0 where
  absent short refused : Found
  once : Json → Found

unfoldable pub find_again : Bytes → Members → Json → Found
find_again key end j = once j
find_again key (member k v m) j = if beq k key then refused else find_again key m j

unfoldable pub find : Bytes → Members → Found
unfolding find_again
find key end = absent
find key (member k v m) = if beq k key then find_again key m v else find key m

unfoldable pub nth : ℕ → Elements → Found
nth i nil = short
nth zero (cons x xs) = once x
nth (suc i) (cons x xs) = nth i xs

-- The field of a name, which is the one at `i` in an array.
unfoldable pub field : ℕ → Bytes → Json → Found
field i key (object m) = find key m
field i key (array xs) = nth i xs
field i key null = refused
field i key (boolean b) = refused
field i key (number n) = refused
field i key (string s) = refused

-- Is a value an array of at most so many elements, or no array?
unfoldable pub at_most : ℕ → Elements → Bool
at_most n nil = true
at_most zero (cons x xs) = false
at_most (suc n) (cons x xs) = at_most n xs

unfoldable pub fits : ℕ → Json → Bool
unfolding at_most
fits n (array xs) = at_most n xs
fits n (object m) = true
fits n null = true
fits n (boolean b) = true
fits n (number b) = true
fits n (string s) = true

-- `and_then` of an `Option`.
infixl 5 ◌>>=◌
abbrev pub ◌>>=◌ {ℓ κ} : {A : Type ℓ} {B : Type κ} → Option A → (A → Option B) → Option B
none >>= f = none
some a >>= f = f a

module _ {A : Type 0} ⦃s : Serde A⦄ where
  -- A field with no attribute, of a type that is no `Option`.
  unfoldable pub required : Found → Option A
  required absent = none
  required short = none
  required refused = none
  required (once j) = s.from_json j

  -- A value or `null`.
  unfoldable pub nullable : Json → Option (Option A)
  nullable null = some none
  nullable (boolean b) = Option.map (λ a. some a) (s.from_json (boolean b))
  nullable (number n) = Option.map (λ a. some a) (s.from_json (number n))
  nullable (string t) = Option.map (λ a. some a) (s.from_json (string t))
  nullable (array xs) = Option.map (λ a. some a) (s.from_json (array xs))
  nullable (object m) = Option.map (λ a. some a) (s.from_json (object m))

  -- A field of a type `Option<A>` with no attribute.
  unfoldable pub optional : Found → Option (Option A)
  unfolding nullable
  optional absent = some none
  optional short = none
  optional refused = none
  optional (once j) = nullable j

  -- The same with `#[serde(default)]`.
  unfoldable pub optional_default : Found → Option (Option A)
  unfolding nullable
  optional_default absent = some none
  optional_default short = some none
  optional_default refused = none
  optional_default (once j) = nullable j

  -- A field with `#[serde(default)]`, with the default.
  unfoldable pub defaulted : A → Found → Option A
  defaulted a absent = some a
  defaulted a short = some a
  defaulted a refused = none
  defaulted a (once j) = s.from_json j

  unfoldable pub option_json : Option A → Json
  option_json none = null
  option_json (some a) = s.to_json a

  unfoldable pub to_elements : List A → Elements
  to_elements [] = nil
  to_elements (a ∷ values) = cons (s.to_json a) (to_elements values)

  unfoldable pub of_elements : Elements → Option (List A)
  of_elements nil = some []
  of_elements (cons x xs) =
      let rest = of_elements xs in s.from_json x >>= λ a. Option.map (λ values. a ∷ values) rest

  pub of_elements-to_elements : (values : List A) → of_elements (to_elements values) ≡ some values
  unfolding of_elements to_elements
  of_elements-to_elements [] = refl
  of_elements-to_elements (a ∷ values) =
      ground (arith, s.from_json-to_json a, of_elements-to_elements values)

  unfoldable pub list_value : Json → Option (List A)
  unfolding of_elements
  list_value (array xs) = of_elements xs
  list_value null = none
  list_value (boolean b) = none
  list_value (number n) = none
  list_value (string t) = none
  list_value (object m) = none

pub array-null : (xs : Elements) → array xs ≢ null
array-null xs e = cc

-- `Vec<A>`; not an instance, as a text is a list too.
abbrev pub vec_serde : {A : Type 0} → Serde A → Serde (List A)
unfolding list_value
vec_serde s = record {
  to_json = λ values. array (to_elements ⦃s = s⦄ values);
  from_json = list_value ⦃s = s⦄;
  from_json-to_json = of_elements-to_elements ⦃s = s⦄;
  to_json-null = λ values. array-null (to_elements ⦃s = s⦄ values);
}

-- `none` unless the test holds.
abbrev pub guard : Bool → Option (Unit {0})
guard true = some tt
guard false = none
