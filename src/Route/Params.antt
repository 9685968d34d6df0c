-- ===== src/Route/Params.antt =====
-- handler/helpers/params.go: the parameters of a request, from its query, body and path.
use foundryvtt_rest_api_rela.Base.{
  Bool, List, Option, String, [], codes, eqb, false, if◌then◌else◌, insert, is_some, leb, lookup,
  nat_eq, none, not, some, string_eq, true, ℕ, ◌&&◌, ◌&◌, ◌+◌, ◌==◌, ◌∷◌,
}
use foundryvtt_rest_api_rela.Base.Json.{Value, Items, Object}

pub data Source : Type 0 where
  from_body from_query from_params : Source

pub data ParamType : Type 0 where
  type_string type_number type_boolean type_array type_object : ParamType

-- An empty type is `none`.
pub record ParamDef : Type 0 where
  pub name : String
  pub from : List Source
  pub kind : Option ParamType
  pub required : Bool

-- `map[string]interface{}`
abbrev pub Params : Type 0
Params = Object

-- A request: a missing query or path parameter reads as the empty string, a body that does not
-- decode as the empty map.
pub record Input : Type 0 where
  pub query : String → String
  pub body : Object
  pub url_param : String → String

-- strconv.ParseFloat, with the literal of the number, and json.Unmarshal into a slice.
pub record Parsers : Type 0 where
  pub parse_float : String → Option String
  pub parse_array : String → Option Items

abbrev pub text_of : Option Value → String
text_of (some (Value.str s)) = s
text_of _ = ""

unfoldable pub get_string : String → Params → String
get_string key p = text_of (lookup key p)

-- A JSON null is the nil interface.
abbrev pub non_nil : Value → Option Value
non_nil Value.null = none
non_nil v = some v

abbrev pub filled : String → Option Value
filled s = if s == "" then none else some (Value.str s)

unfoldable pub has : String → Params → Bool
has key p = elim (lookup key p) [ none ↦ false | some v ↦ is_some (non_nil v) ]

unfoldable pub read : Input → String → Source → Option Value
read r name from_query = filled (r.query name)
read r name from_body = elim (lookup name r.body) [ none ↦ none | some v ↦ non_nil v ]
read r name from_params = filled (r.url_param name)

-- The first source that gives a value.
unfoldable pub first_of : Input → String → List Source → Option Value
first_of r name [] = none
first_of r name (s ∷ rest) = elim (read r name s) [ some v ↦ some v | none ↦ first_of r name rest ]

-- strings.ToLower on the letters that occur in "true" and "false".
abbrev pub lower_code : ℕ → ℕ
lower_code n = if leb 65 n && leb n 90 then n + 32 else n

unfoldable pub is_lowered : List ℕ → List ℕ → Bool
is_lowered [] [] = true
is_lowered (x ∷ xs) (y ∷ ys) = eqb (lower_code x) y && is_lowered xs ys
is_lowered [] (y ∷ ys) = false
is_lowered (x ∷ xs) [] = false

pub data Coerced : Type 0 where
  value : Value → Coerced
  invalid : String → Coerced

abbrev pub must_be : String → String → Coerced
must_be name what = invalid ("'" & name & "' must be " & what)

abbrev pub as_number : Parsers → String → Value → Coerced
as_number parse name (Value.num n) = value (Value.num n)
as_number parse name (Value.str s) = elim (parse.parse_float s) [
  | none ↦ must_be name "a valid number"
  | some n ↦ value (Value.num n)
]
as_number parse name v = must_be name "a valid number"

abbrev pub as_boolean : String → Value → Coerced
as_boolean name (Value.bool b) = value (Value.bool b)
as_boolean name (Value.str s) =
    if is_lowered (codes s) (codes "true")
    then value (Value.bool true)
    else if is_lowered (codes s) (codes "false")
    then value (Value.bool false)
    else must_be name "a valid boolean"
as_boolean name v = must_be name "a valid boolean"

abbrev pub as_array : Parsers → String → Value → Coerced
as_array parse name (Value.arr xs) = value (Value.arr xs)
as_array parse name (Value.str s) = elim (parse.parse_array s) [
  | none ↦ must_be name "a valid array"
  | some xs ↦ value (Value.arr xs)
]
as_array parse name v = must_be name "an array"

abbrev pub as_object : String → Value → Coerced
as_object name (Value.obj o) = value (Value.obj o)
as_object name v = must_be name "an object"

abbrev pub as_string : String → Value → Coerced
as_string name (Value.str s) = value (Value.str s)
as_string name v = must_be name "a string"

unfoldable pub coerce_type : Parsers → String → Value → ParamType → Coerced
coerce_type parse name v type_number = as_number parse name v
coerce_type parse name v type_boolean = as_boolean name v
coerce_type parse name v type_array = as_array parse name v
coerce_type parse name v type_object = as_object name v
coerce_type parse name v type_string = as_string name v

abbrev pub coerce_if : Parsers → String → Value → Option ParamType → Coerced
coerce_if parse name v none = value v
coerce_if parse name v (some t) = coerce_type parse name v t

pub data Extracted : Type 0 where
  params : Params → Extracted
  refused : String → Extracted

-- The loop over the definitions, with the parameters so far.
unfoldable pub extract_each : Parsers → Input → List ParamDef → Params → Extracted
extract_each parse r [] p = params p
extract_each parse r (d ∷ ds) p = elim (first_of r d.name d.from) [
  | none ↦ extract_each parse r ds p
  | some v ↦ elim (coerce_if parse d.name v d.kind) [
    | invalid e ↦ refused e
    | value w ↦ extract_each parse r ds (insert d.name w p)
  ]
]

abbrev pub extract_params : Parsers → Input → List ParamDef → Extracted
extract_params parse r defs = extract_each parse r defs []

-- The error, if a required parameter is missing.
unfoldable pub validate_required : Params → List ParamDef → Option String
validate_required p [] = none
validate_required p (d ∷ ds) =
    if d.required && not (has d.name p)
    then some ("'" & d.name & "' is required")
    else validate_required p ds
