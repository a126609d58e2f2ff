-- ===== src/Json.antt =====
-- What the broker and its clients use of JavaScript on JSON values: properties, what `JSON.stringify`
-- leaves out, `String`, and the casts of parsed values to declared types.
pub mod States
use osqueue.Base.{
  ℕ, String, ◌<>◌, ◌≡◌, refl, Bool, true, false, List, [], ◌∷◌, Option, none, some, if◌then◌else◌,
  ◌==◌, string_eq, nat_eq,
}
use osqueue.Base.Decimal.{decimal}
use osqueue.Types.{Value, Elements, no_elements, element, Properties, no_properties, property}

-- `object.name`, with `none` for undefined.
unfoldable pub get : String → Properties → Option Value
get name no_properties = none
get name (property other v rest) = if name == other then some v else get name rest

-- A property of an object literal that is printed: one that is undefined is left out.
abbrev pub put : String → Option Value → Properties → Properties
put name none rest = rest
put name (some v) rest = property name v rest

abbrev pub option_map {ℓ κ} : {A : Type ℓ} {B : Type κ} → (A → B) → Option A → Option B
option_map f none = none
option_map f (some a) = some (f a)

abbrev pub texts : List String → Elements
texts [] = no_elements
texts (t ∷ ts) = element (Value.text t) (texts ts)

abbrev pub text_array : List String → Value
text_array ts = Value.array (texts ts)

-- `String(value)`; an array joins its elements with commas, null being empty there.
unfoldable mutual
  pub string_of : Value → String
  string_of Value.null = "null"
  string_of (Value.boolean true) = "true"
  string_of (Value.boolean false) = "false"
  string_of (Value.number n) = decimal n
  string_of (Value.text t) = t
  string_of (Value.array xs) = joined xs
  string_of (Value.object ps) = "[object Object]"

  pub joined : Elements → String
  joined no_elements = ""
  joined (element v no_elements) = element_text v
  joined (element v (element w rest)) = element_text v <> "," <> joined (element w rest)

  pub element_text : Value → String
  element_text Value.null = ""
  element_text (Value.boolean true) = "true"
  element_text (Value.boolean false) = "false"
  element_text (Value.number n) = decimal n
  element_text (Value.text t) = t
  element_text (Value.array xs) = joined xs
  element_text (Value.object ps) = "[object Object]"

-- `if (value)`
abbrev pub is_truthy : Value → Bool
is_truthy Value.null = false
is_truthy (Value.boolean b) = b
is_truthy (Value.number n) = if nat_eq n 0 then false else true
is_truthy (Value.text t) = if t == "" then false else true
is_truthy _ = true

-- `value ?? other`: null counts as undefined.
abbrev pub not_null : Option Value → Option Value
not_null none = none
not_null (some Value.null) = none
not_null (some v) = some v

-- `some (f a)` past an absent value.
infixl 5 ◌>>=◌
abbrev pub ◌>>=◌ {ℓ κ} : {A : Type ℓ} {B : Type κ} → Option A → (A → Option B) → Option B
none >>= f = none
some a >>= f = f a

-- A cast, `value as T`, does not check: it is `none` for a value that is not of the declared type,
-- with which the model goes no further.
abbrev pub as_text : Value → Option String
as_text (Value.text t) = some t
as_text _ = none

abbrev pub as_number : Value → Option ℕ
as_number (Value.number n) = some n
as_number _ = none

abbrev pub as_object : Value → Option Properties
as_object (Value.object ps) = some ps
as_object _ = none

as_texts : Elements → Option (List String)
as_texts no_elements = some []
as_texts (element v rest) = do t ← as_text v; ts ← as_texts rest; some (t ∷ ts)

unfoldable pub as_text_array : Value → Option (List String)
unfolding as_texts
as_text_array (Value.array xs) = as_texts xs
as_text_array _ = none

-- A property of type `T`, and one of type `T | undefined`.
abbrev pub required : {A : Type 0} → (Value → Option A) → Option Value → Option A
required cast none = none
required cast (some v) = cast v

abbrev pub optional : {A : Type 0} → (Value → Option A) → Option Value → Option (Option A)
optional cast none = some none
optional cast (some v) = option_map some (cast v)

as_texts-texts : (ts : List String) → as_texts (texts ts) ≡ some ts
unfolding as_texts
as_texts-texts [] = refl
as_texts-texts (t ∷ ts) = rw (as_texts-texts ts) refl

pub as_text_array-text_array : (ts : List String) → as_text_array (text_array ts) ≡ some ts
unfolding as_text_array
as_text_array-text_array ts = as_texts-texts ts
